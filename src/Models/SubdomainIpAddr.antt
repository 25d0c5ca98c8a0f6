-- ===== src/Models/SubdomainIpAddr.antt =====
-- src/models/subdomain_ipaddr.rs: the links of subdomains and addresses.
use sn0int.Prelude.{ℕ, ◌==◌, Bool, ◌&&◌, arith}
use sn0int.Models.{NewSubdomainIpAddr}
use sn0int.Models.Links.{Link, LinkLaws}

pub record SubdomainIpAddr : Type 0 where
  pub id : ℕ
  pub subdomain_id : ℕ
  pub ip_addr_id : ℕ

-- `SubdomainIpAddr::get_opt`
unfoldable pub selects : ℕ × ℕ → SubdomainIpAddr → Bool
selects (a, b) row = row.subdomain_id == a && row.ip_addr_id == b

abbrev pub link : Link
link = record {
  Row = SubdomainIpAddr;
  id = λ row. row.id;
  New = NewSubdomainIpAddr;
  Key = ℕ × ℕ;
  key = λ obj. (obj.subdomain_id, obj.ip_addr_id);
  selects = selects;
  stored = λ i obj. record { id = i; subdomain_id = obj.subdomain_id; ip_addr_id = obj.ip_addr_id };
}

pub link-LinkLaws : LinkLaws link
link-LinkLaws = record { selects-stored = λ i obj. unfold selects in ground arith }
