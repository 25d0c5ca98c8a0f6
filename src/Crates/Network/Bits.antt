-- ===== src/Crates/Network/Bits.antt =====
-- A small network library that has the documented behaviour: an address is a text of bits, a network
-- is a prefix of addresses, and a URL is a host and a path, with a slash between.
use sn0int.Prelude.{
  suc, ◌==◌, Bool, true, false, ◌&&◌, List, [], ◌∷◌, ◌++◌, Text, Option, none, some, Result, ok,
  err, message, ◌>>=◌, split, text_eq, length, if◌then◌else◌, ◌≡◌, refl, ap, arith,
}
use sn0int.Crates.Network.{Network, NetworkLaws}

abbrev pub text_of : List Bool → Text
text_of [] = []
text_of (true ∷ bits) = b'1' ∷ text_of bits
text_of (false ∷ bits) = b'0' ∷ text_of bits

abbrev pub bits_of : Text → Result (List Bool)
bits_of [] = ok []
bits_of (c ∷ s) =
    let rest = bits_of s in
    if c == b'1'
    then rest >>= (λ bits. ok (true ∷ bits))
    else if c == b'0'
    then rest >>= (λ bits. ok (false ∷ bits))
    else err (message "invalid address")

abbrev same_bit : Bool → Bool → Bool
same_bit true true = true
same_bit false false = true
same_bit _ _ = false

abbrev pub starts_with : List Bool → List Bool → Bool
starts_with [] _ = true
starts_with (_ ∷ _) [] = false
starts_with (b ∷ net) (c ∷ addr) = same_bit b c && starts_with net addr

abbrev host : List Text → Text
host [] = []
host (h ∷ _) = h

abbrev path : List Text → Option (List Text)
path [] = none
path (_ ∷ []) = none
path (_ ∷ p ∷ ps) = some (p ∷ ps)

abbrev pub bits : Network
bits = record {
  Url = List Text;
  Origin = Text;
  parse_url = λ s. ok (split b'/' s);
  url_domain = λ u. some (host u);
  url_origin = host;
  origin_eq = text_eq;
  path_segments = path;
  IpAddr = List Bool;
  parse_ip = bits_of;
  parse_socket_ip = bits_of;
  IpNetwork = List Bool;
  parse_network = bits_of;
  network_to_string = text_of;
  prefix = length;
  network_ip = λ net. net;
  contains = starts_with;
}

bits_of-text_of : (net : List Bool) → bits_of (text_of net) ≡ ok net
bits_of-text_of [] = refl
bits_of-text_of (true ∷ net) = rw (bits_of-text_of net)
bits_of-text_of (false ∷ net) = rw (bits_of-text_of net)

abbrev Shared : List Bool → List Bool → Type 0
Shared net addr =
    (p rest rest' : List Bool) × (length p ≡ length net) × (addr ≡ p ++ rest) × (net ≡ p ++ rest')

starts_with-Shared : (net addr : List Bool) → starts_with net addr ≡ true → Shared net addr
starts_with-Shared [] addr h = ([], addr, [], refl, refl, refl)
starts_with-Shared (b ∷ net) [] h = absurd (cc)
starts_with-Shared (b ∷ net) (c ∷ addr) h =
    let (p, rest, rest', size, here, there) = starts_with-Shared net addr (ground arith) in
    (b ∷ p, rest, rest', ap suc size, ground (arith, here), ap (◌∷◌ b) there)

starts_with_of_Shared :
    (net addr p rest rest' : List Bool)
    → length p ≡ length net
    → addr ≡ p ++ rest
    → net ≡ p ++ rest'
    → starts_with net addr ≡ true
starts_with_of_Shared [] addr p rest rest' size here there = refl
starts_with_of_Shared (b ∷ net) addr [] rest rest' size here there = absurd (omega arith)
starts_with_of_Shared (b ∷ net) [] (c ∷ p) rest rest' size here there = absurd (cc)
starts_with_of_Shared (b ∷ net) (d ∷ addr) (c ∷ p) rest rest' size here there =
    let ih = starts_with_of_Shared net addr p rest rest' (omega arith) (cc) (cc) in
    ground (arith, ih)

pub bits-NetworkLaws : NetworkLaws bits
bits-NetworkLaws = record {
  family = λ _. true;
  bits = λ a. a;
  contains_iff = λ net a. (
    λ h. (refl, starts_with-Shared net a h),
    λ h.
        let (p, rest, rest', size, here, there) = h.1 in
        starts_with_of_Shared net a p rest rest' size here there,
  );
  parse-to_string = bits_of-text_of;
}
