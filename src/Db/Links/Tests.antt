-- ===== src/Db/Links/Tests.antt =====
-- Examples of the insertion of a link of a subdomain and an address.
use sn0int.Prelude.{[], ◌∷◌, ok, some, ◌≡◌, refl}
use sn0int.Models.{NewSubdomainIpAddr}
use sn0int.Models.SubdomainIpAddr.{SubdomainIpAddr, selects, link, link-LinkLaws}
use sn0int.Crates.LinkTable.{first_link}
use sn0int.Crates.LinkTable.Rows.{table, table-LinkTableLaws}
use sn0int.Db.Links.{insert, none_change, insert_link, Linked}
use sn0int.Db.Links.Linked.{insert_link-Linked}

abbrev old : NewSubdomainIpAddr
old = record { subdomain_id = 1; ip_addr_id = 1 }

abbrev new : NewSubdomainIpAddr
new = record { subdomain_id = 1; ip_addr_id = 2 }

abbrev row : SubdomainIpAddr
row = record { id = 0; subdomain_id = 1; ip_addr_id = 1 }

abbrev new_row : SubdomainIpAddr
new_row = record { id = 1; subdomain_id = 1; ip_addr_id = 2 }

linked : insert_link link (table link) new (row ∷ []) ≡ (ok (some (insert, 1)), row ∷ new_row ∷ [])
unfolding insert_link first_link selects
linked = refl

linked_before :
    insert_link link (table link) old (row ∷ []) ≡ (ok (some (none_change, 0)), row ∷ [])
unfolding insert_link first_link selects
linked_before = refl

insert_link-Linked_example :
    Linked link (table link) (table-LinkTableLaws link) new (row ∷ []) insert 1 (row ∷ new_row ∷ [])
insert_link-Linked_example =
    insert_link-Linked link link-LinkLaws (table link) (table-LinkTableLaws link) new (row ∷ [])
      (row ∷ new_row ∷ []) insert 1 linked
