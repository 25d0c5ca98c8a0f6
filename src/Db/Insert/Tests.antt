-- ===== src/Db/Insert/Tests.antt =====
-- Examples of insertions into the table of ports.
use sn0int.Prelude.{
  true, false, [], ◌∷◌, none, some, Text, codes, text_eq, text_eq_iff, ok, ◌≡◌, ◌≢◌, refl, sym, ◌∙◌,
  Bool-cases, inl, inr,
}
use sn0int.Crates.Table.{first_by_value}
use sn0int.Crates.Table.Rows.{table, table-TableLaws}
use sn0int.Models.{NewPort}
use sn0int.Models.Port
use sn0int.Models.Port.{Port, entity, entity-EntityLaws}
use sn0int.Db.Insert.{insert, insert_struct, insert_unknown}
use sn0int.Db.Insert.Again.{insert_struct-again, known}
use sn0int.Db.Insert.Others.{IsKeyed, insert_struct-others}

abbrev ssh : NewPort
ssh = record {
  ip_addr_id = 1;
  value = codes "tcp/10.0.0.1:22";
  ip_addr = codes "10.0.0.1";
  port = 22;
  protocol = codes "tcp";
  status = some (codes "open");
  banner = none;
  service = none;
  version = none;
  unscoped = false;
}

abbrev row : Port
row = record {
  id = 0;
  ip_addr_id = 1;
  value = codes "tcp/10.0.0.1:22";
  ip_addr = codes "10.0.0.1";
  port = 22;
  protocol = codes "tcp";
  unscoped = true;
  status = some (codes "open");
  banner = none;
  service = none;
  version = none;
}

-- The rules say that it is out of scope.
ssh_inserted : insert_struct entity (table entity) ssh false [] ≡ (ok (some (insert, 0)), row ∷ [])
unfolding insert_struct insert_unknown first_by_value Port.stored Port.set_scoped text_eq
ssh_inserted = refl

insert_struct-again_example : (insert_struct entity (table entity) ssh true (row ∷ [])).1 ≡ row ∷ []
insert_struct-again_example =
    insert_struct-again entity entity-EntityLaws (table entity) (table-TableLaws entity) ssh false
      true [] (row ∷ []) ssh_inserted

row_value :
    (a : Text) (r : Port)
    → known entity entity-EntityLaws (table entity) (table-TableLaws entity) a (row ∷ []) ≡ some r
    → row.value ≡ a
unfolding first_by_value
row_value a r h = elim (Bool-cases (text_eq row.value a)) [
  | inl same ↦ (text_eq_iff row.value a).0 same
  | inr other ↦ absurd (cc (rw other at h))
]

one_row-IsKeyed :
    IsKeyed entity entity-EntityLaws (table entity) (table-TableLaws entity) (row ∷ [])
one_row-IsKeyed a b r r' h h' _ = sym (row_value a r h) ∙ row_value b r' h'

other_value : codes "tcp/10.0.0.1:22" ≢ codes "tcp/10.0.0.1:80"
unfolding text_eq
other_value e = absurd (cc ((text_eq_iff (codes "tcp/10.0.0.1:22") (codes "tcp/10.0.0.1:80")).1 e))

insert_struct-others_example :
    known entity entity-EntityLaws
      (table entity)
      (table-TableLaws entity)
      (codes "tcp/10.0.0.1:22")
      (insert_struct entity
        (table entity)
        (record ssh { value = codes "tcp/10.0.0.1:80" })
        true
        (row ∷ [])).1
    ≡ known entity entity-EntityLaws
        (table entity)
        (table-TableLaws entity)
        (codes "tcp/10.0.0.1:22")
        (row ∷ [])
insert_struct-others_example =
    insert_struct-others entity entity-EntityLaws (table entity) (table-TableLaws entity)
      (record ssh { value = codes "tcp/10.0.0.1:80" }) true (row ∷ []) (codes "tcp/10.0.0.1:22")
      one_row-IsKeyed other_value
