-- ===== src/Autonoscope/Ip.antt =====
-- src/autonoscope/ip.rs: rules on networks, over the crate ipnetwork.
use sn0int.Prelude.{
  ℕ, ◌≤◌, Bool, true, false, List, [], ◌∷◌, ◌++◌, Text, codes, leb, if◌then◌else◌, Result, ok,
  ◌>>=◌, ◌≡◌, refl, ap, ◌∙◌, arith, append_assoc, length,
}
use sn0int.Crates.Network.{Network, NetworkLaws}
use sn0int.Crates.Sqlite.{Autonoscope}
use sn0int.Models.{NewIpAddr, NewPort, NewNetblock}

module _ (n : Network) where
  open n use {IpAddr, IpNetwork}

  pub record IpRule : Type 0 where
    pub network : IpNetwork

  unfoldable pub to_string : IpRule → Text
  to_string r = n.network_to_string r.network

  unfoldable pub try_from : Text → Result IpRule
  try_from x = do network ← n.parse_network x; ok (record { network = network })

  unfoldable pub try_from_row : Autonoscope → Result IpRule
  unfolding try_from
  try_from_row row = try_from row.value

  -- `AutoRule<net::IpAddr>`
  unfoldable pub matches_addr : IpRule → IpAddr → Result Bool
  matches_addr r ipaddr = ok (n.contains r.network ipaddr)

  -- `AutoRule<str>`
  unfoldable pub matches_str : IpRule → Text → Result Bool
  unfolding matches_addr
  matches_str r s = do ipaddr ← n.parse_ip s; matches_addr r ipaddr

  unfoldable pub matches_ip_addr : IpRule → NewIpAddr → Result Bool
  unfolding matches_str
  matches_ip_addr r ipaddr = matches_str r ipaddr.value

  unfoldable pub matches_port : IpRule → NewPort → Result Bool
  unfolding matches_addr
  matches_port r port = do addr ← n.parse_socket_ip port.value; matches_addr r addr

  unfoldable pub matches_netblock : IpRule → NewNetblock → Result Bool
  matches_netblock r netblock = do
    range ← n.parse_network netblock.value
    if leb (n.prefix r.network) (n.prefix range)
        then ok (n.contains r.network (n.network_ip range))
        else ok false

  unfoldable pub precision : IpRule → ℕ
  precision r = n.prefix r.network

  unfoldable pub into_rule : IpRule → Text × Text
  unfolding to_string
  into_rule r = (codes "ip", to_string r)

-- Of two prefixes of one list, the shorter is a prefix of the longer.
append_split {ℓ} :
    {A : Type ℓ} (q p r r' : List A)
    → length q ≤ length p
    → p ++ r ≡ q ++ r'
    → (s : List A) × (p ≡ q ++ s)
append_split [] p r r' h e = (p, refl)
append_split (x ∷ q) [] r r' h e = absurd (omega arith)
append_split (x ∷ q) (y ∷ p) r r' h e =
    let (s, ih) = append_split q p r r' (omega arith) (cc) in (s, cc)

module _ (n : Network) (l : NetworkLaws n) where
  -- If an IP rule matches a netblock whose value parses, then the network of the rule contains
  -- every address that the netblock contains.
  pub netblock_rule_contains :
      (r : IpRule n) (block : NewNetblock) (range : n.IpNetwork) (a : n.IpAddr)
      → n.parse_network block.value ≡ ok range
      → matches_netblock n r block ≡ ok true
      → n.contains range a ≡ true
      → n.contains r.network a ≡ true
  unfolding matches_netblock
  netblock_rule_contains r block range a parsed matched inside =
      let m = rw parsed at matched in
      let shorter : n.prefix r.network ≤ n.prefix range = ground (arith, m) in
      let held : n.contains r.network (n.network_ip range) ≡ true = ground (arith, m) in
      let (same, shared) = (l.contains_iff range a).0 inside in
      let (p, rest, rest', size, here, there) = shared in
      let (same', shared') = (l.contains_iff r.network (n.network_ip range)).0 held in
      let (q, tail, tail', size', here', there') = shared' in
      let (s, split) = append_split q p rest' tail (omega arith) (cc) in
      (l.contains_iff r.network a).1 (
        same ∙ same',
        (
          q,
          s ++ rest,
          tail',
          size',
          here ∙ ap (λ t. t ++ rest) split ∙ append_assoc q s rest,
          there',
        ),
      )
