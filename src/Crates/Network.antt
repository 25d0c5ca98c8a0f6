-- ===== src/Crates/Network.antt =====
-- The crates url and ipnetwork, and the address parsers of std::net.
pub mod Bits
use Prim.Native.Nat.{◌+◌}
use sn0int.Prelude.{ℕ, ◌≤◌, Bool, true, List, ◌++◌, Text, Option, Result, ok, ◌≡◌, ◌↔◌, length}

pub record Network : Type 1 where
  -- url::Url and url::Origin
  pub Url : Type 0
  pub Origin : Type 0
  pub parse_url : Text → Result Url
  pub url_domain : Url → Option Text
  pub url_origin : Url → Origin
  pub origin_eq : Origin → Origin → Bool
  pub path_segments : Url → Option (List Text)
  -- std::net::IpAddr, and the address of a std::net::SocketAddr
  pub IpAddr : Type 0
  pub parse_ip : Text → Result IpAddr
  pub parse_socket_ip : Text → Result IpAddr
  -- ipnetwork::IpNetwork
  pub IpNetwork : Type 0
  pub parse_network : Text → Result IpNetwork
  pub network_to_string : IpNetwork → Text
  pub prefix : IpNetwork → ℕ
  pub network_ip : IpNetwork → IpAddr
  pub contains : IpNetwork → IpAddr → Bool

-- An address is its family and its bits, most significant first; a network of prefix length `n`
-- contains the addresses of its family that share the first `n` bits of its own address.
pub record NetworkLaws (n : Network) : Type 1 where
  pub family : n.IpAddr → Bool
  pub bits : n.IpAddr → List Bool
  pub contains_iff :
      (net : n.IpNetwork) (a : n.IpAddr)
      → (n.contains net a ≡ true) ↔ (
          (family a ≡ family (n.network_ip net))
          × ((p rest rest' : List Bool) × (length p ≡ n.prefix net)
              × (bits a ≡ p ++ rest)
              × (bits (n.network_ip net) ≡ p ++ rest')))
  -- Display writes what FromStr reads back.
  pub parse-to_string : (net : n.IpNetwork) → n.parse_network (n.network_to_string net) ≡ ok net
