-- ===== src/Crates/Table/Rows.antt =====
-- A table in memory that has the documented behaviour: a list of rows.
use sn0int.Prelude.{List, [], ◌∷◌, ◌++◌, map, length, ok, ok-injective, sym}
use sn0int.Models.Entity.{Entity}
use sn0int.Crates.Table.{Table, TableLaws, first_by_value, updated}

abbrev pub table : (e : Entity) → Table e
table e = record {
  Connection = List e.Row;
  get_opt = λ query rows. ok (first_by_value e query rows);
  insert = λ obj rows. ok (rows ++ e.stored (length rows) obj ∷ []);
  update = λ u rows. ok (map (updated e u) rows);
}

abbrev pub table-TableLaws : (e : Entity) → TableLaws e (table e)
table-TableLaws e = record {
  rows = λ db. db;
  get_opt_rows = λ query db h. sym (ok-injective h);
  insert_rows = λ obj db h. (length db, sym (ok-injective h));
  update_rows = λ u db h. sym (ok-injective h);
}
