-- ===== src/Crates/Sqlite.antt =====
-- The connection that diesel opens to SQLite, as far as the table `autonoscope` goes.
pub mod Rows
use sn0int.Prelude.{ℕ, Bool, List, [], ◌∷◌, ◌++◌, Text, text_eq, not, ◌&&◌, Result, ok, ◌≡◌, filter}

-- A row of the table, and a row to insert, which has no id yet.
pub record Autonoscope : Type 0 where
  pub id : ℕ
  pub object : Text
  pub value : Text
  pub scoped : Bool

pub record NewAutonoscope : Type 0 where
  pub object : Text
  pub value : Text
  pub scoped : Bool

abbrev pub stored : ℕ → NewAutonoscope → Autonoscope
stored i r = record { id = i; object = r.object; value = r.value; scoped = r.scoped }

-- WHERE object = o AND value = v
abbrev pub selects : Text → Text → Autonoscope → Bool
selects o v row = text_eq row.object o && text_eq row.value v

pub record Sqlite : Type 1 where
  pub Connection : Type 0
  pub load_autonoscope : Connection → Result (List Autonoscope)
  pub insert_autonoscope : NewAutonoscope → Connection → Result Connection
  pub delete_autonoscope : Text → Text → Connection → Result Connection

-- The rows come in the order of insertion, which is that of the table's row ids. A statement that
-- succeeds has done what it says, and a query that succeeds returns the rows.
pub record SqliteLaws (s : Sqlite) : Type 1 where
  pub rows : s.Connection → List Autonoscope
  pub load_rows :
      (db : s.Connection) {rs : List Autonoscope} → s.load_autonoscope db ≡ ok rs → rs ≡ rows db
  pub insert_rows :
      (r : NewAutonoscope) (db : s.Connection) {db' : s.Connection}
      → s.insert_autonoscope r db ≡ ok db'
      → (i : ℕ) × (rows db' ≡ rows db ++ stored i r ∷ [])
  pub delete_rows :
      (o v : Text) (db : s.Connection) {db' : s.Connection}
      → s.delete_autonoscope o v db ≡ ok db'
      → rows db' ≡ filter (λ row. not (selects o v row)) (rows db)
