-- ===== src/Crates/LinkTable/Rows.antt =====
-- A table of links in memory that has the documented behaviour: a list of rows.
use sn0int.Prelude.{List, [], ◌∷◌, ◌++◌, length, ok, ok-injective, sym}
use sn0int.Models.Links.{Link}
use sn0int.Crates.LinkTable.{LinkTable, LinkTableLaws, first_link}

abbrev pub table : (l : Link) → LinkTable l
table l = record {
  Connection = List l.Row;
  get_opt = λ key rows. ok (first_link l key rows);
  insert = λ obj rows. ok (rows ++ l.stored (length rows) obj ∷ []);
}

abbrev pub table-LinkTableLaws : (l : Link) → LinkTableLaws l (table l)
table-LinkTableLaws l = record {
  rows = λ db. db;
  get_opt_rows = λ key db h. sym (ok-injective h);
  insert_rows = λ obj db h. (length db, sym (ok-injective h));
}
