-- ===== src/Crates/Sqlite/Rows.antt =====
-- A table in memory that has the documented behaviour of a connection: a list of rows.
use sn0int.Prelude.{List, [], ◌∷◌, ◌++◌, ok, ok-injective, not, filter, length, sym}
use sn0int.Crates.Sqlite.{Autonoscope, stored, selects, Sqlite, SqliteLaws}

abbrev pub table : Sqlite
table = record {
  Connection = List Autonoscope;
  load_autonoscope = ok;
  insert_autonoscope = λ r db. ok (db ++ stored (length db) r ∷ []);
  delete_autonoscope = λ o v db. ok (filter (λ row. not (selects o v row)) db);
}

abbrev pub table-SqliteLaws : SqliteLaws table
table-SqliteLaws = record {
  rows = λ db. db;
  load_rows = λ db e. sym (ok-injective e);
  insert_rows = λ r db e. (length db, sym (ok-injective e));
  delete_rows = λ o v db e. sym (ok-injective e);
}
