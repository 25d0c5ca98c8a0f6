-- ===== src/Models/Ops.antt =====
-- src/models: the traits Model and Scopable. The tables of entities implement them alike, so each operation is here
-- once, over a description of the table; what diesel does with a query is a record of operations.
pub mod Scope
pub mod Delete
pub mod Tables
pub mod Rows
use sn0int.Prelude.{
  ℕ, ◌==◌, Bool, true, false, not, ◌&&◌, List, [], ◌∷◌, map, filter, length, Option, none, some,
  Text, text_eq, Result, ok, err, message, ◌>>=◌, if◌then◌else◌, ◌≡◌,
}
use sn0int.Models.Entity.{Entity}
use sn0int.Crates.Table.{Table, TableLaws}
use sn0int.Db.Filter.{Filter}

-- What a table has besides the columns that an insertion uses.
pub record Model (e : Entity) : Type 0 where
  pub to_string : e.Row → Text
  pub with_unscoped : Bool → e.Row → e.Row
  -- the column of `filter_with_param`
  pub param : Option (e.Row → Option Text)
  pub blob : e.Row → Option Text

-- The rows that an operation is about.
pub data Query : Type 0 where
  everything : Query
  sql : Text → Query
  id_eq : ℕ → Query
  value_eq : Text → Query
  -- the parameter, and the condition of the filter
  param_sql : Text → Text → Query

-- `column.eq(param)`: a column that is null is equal to nothing.
abbrev pub is_text : Option Text → Text → Bool
is_text none param = false
is_text (some text) param = text_eq text param

abbrev pub param_eq {ℓ} : {Row : Type ℓ} → Option (Row → Option Text) → Text → Row → Bool
param_eq none param row = false
param_eq (some column) param row = is_text (column row) param

-- `holds` says which rows meet a condition in SQL.
abbrev pub meets : (e : Entity) → Model e → (Text → e.Row → Bool) → Query → e.Row → Bool
meets e m holds everything row = true
meets e m holds (sql condition) row = holds condition row
meets e m holds (id_eq id) row = e.id row == id
meets e m holds (value_eq value) row = text_eq (e.row_value row) value
meets e m holds (param_sql param condition) row = param_eq m.param param row && holds condition row

-- `first`, on a list of rows.
unfoldable pub first_of {ℓ} : {Row : Type ℓ} → (Row → Bool) → List Row → Option Row
first_of p [] = none
first_of p (row ∷ rows) = let later = first_of p rows in if p row then some row else later

-- What diesel does with the table: `load`, `first`, `delete`, and `update` with `set(unscoped.eq(..))`.
pub record Store (e : Entity) (t : Table e) : Type 0 where
  pub load : Query → t.Connection → Result (List e.Row)
  pub first : Query → t.Connection → Result (Option e.Row)
  pub delete : Query → t.Connection → Result (ℕ × t.Connection)
  pub set_unscoped : Query → Bool → t.Connection → Result (ℕ × t.Connection)

pub record StoreLaws (e : Entity) (m : Model e) (t : Table e) (laws : TableLaws e t) (s : Store e t)
    : Type 0 where
  pub holds : Text → e.Row → Bool
  pub load_rows :
      (q : Query) (db : t.Connection) {found : List e.Row}
      → s.load q db ≡ ok found
      → found ≡ filter (meets e m holds q) (laws.rows db)
  pub first_rows :
      (q : Query) (db : t.Connection) {found : Option e.Row}
      → s.first q db ≡ ok found
      → found ≡ first_of (meets e m holds q) (laws.rows db)
  pub delete_rows :
      (q : Query) (db : t.Connection) {n : ℕ} {db' : t.Connection}
      → s.delete q db ≡ ok (n, db')
      → (n ≡ length (filter (meets e m holds q) (laws.rows db)))
        × (laws.rows db' ≡ filter (λ row. not (meets e m holds q row)) (laws.rows db))
  pub unscoped_rows :
      (q : Query) (unscoped : Bool) (db : t.Connection) {n : ℕ} {db' : t.Connection}
      → s.set_unscoped q unscoped db ≡ ok (n, db')
      → (n ≡ length (filter (meets e m holds q) (laws.rows db)))
        × (laws.rows db'
            ≡ map
                (λ row. if meets e m holds q row then m.with_unscoped unscoped row else row)
                (laws.rows db))

-- The column that says what is out of scope is a column of its own.
pub record ModelLaws (e : Entity) (m : Model e) : Type 0 where
  pub scoped-with_unscoped :
      (unscoped : Bool) (row : e.Row) → e.scoped (m.with_unscoped unscoped row) ≡ not unscoped
  pub value-with_unscoped :
      (unscoped : Bool) (row : e.Row) → e.row_value (m.with_unscoped unscoped row) ≡ e.row_value row
  pub id-with_unscoped :
      (unscoped : Bool) (row : e.Row) → e.id (m.with_unscoped unscoped row) ≡ e.id row

abbrev pub required {ℓ} : {A : Type ℓ} → Result (Option A) → Result A
required (err x) = err x
required (ok none) = err (message "NotFound")
required (ok (some row)) = ok row

abbrev pub id_of : (e : Entity) → Option e.Row → Option ℕ
id_of e none = none
id_of e (some row) = some (e.id row)

abbrev pub executed {ℓ} : {C : Type ℓ} → C → Result (ℕ × C) → Result ℕ × C
executed db (err x) = (err x, db)
executed db (ok (n, db')) = (ok n, db')

module _ (e : Entity) (m : Model e) (t : Table e) (s : Store e t) where
  unfoldable pub list : t.Connection → Result (List e.Row)
  list db = s.load everything db

  unfoldable pub filter_by : Filter → t.Connection → Result (List e.Row)
  filter_by f db = s.load (sql f.query) db

  -- `filter_with_param`, where `none` is the panic of a table without such a column.
  abbrev pub filter_column :
      Option (e.Row → Option Text) → Filter → Text → t.Connection → Option (Result (List e.Row))
  filter_column none f param db = none
  filter_column (some _) f param db = some (s.load (param_sql param f.query) db)

  unfoldable pub filter_with_param : Filter → Text → t.Connection → Option (Result (List e.Row))
  filter_with_param f param db = filter_column m.param f param db

  unfoldable pub delete : Filter → t.Connection → Result ℕ × t.Connection
  delete f db = executed db (s.delete (sql f.query) db)

  unfoldable pub delete_id : ℕ → t.Connection → Result ℕ × t.Connection
  delete_id id db = executed db (s.delete (id_eq id) db)

  unfoldable pub by_id : ℕ → t.Connection → Result e.Row
  by_id id db = required (s.first (id_eq id) db)

  unfoldable pub get : Text → t.Connection → Result e.Row
  get value db = required (s.first (value_eq value) db)

  unfoldable pub get_opt : Text → t.Connection → Result (Option e.Row)
  get_opt value db = s.first (value_eq value) db

  unfoldable pub get_id : Text → t.Connection → Result ℕ
  unfolding get
  get_id value db = get value db >>= λ row. ok (e.id row)

  unfoldable pub get_id_opt : Text → t.Connection → Result (Option ℕ)
  unfolding get_opt
  get_id_opt value db = get_opt value db >>= λ found. ok (id_of e found)

  unfoldable pub scope : Filter → t.Connection → Result ℕ × t.Connection
  scope f db = executed db (s.set_unscoped (sql f.query) false db)

  unfoldable pub noscope : Filter → t.Connection → Result ℕ × t.Connection
  noscope f db = executed db (s.set_unscoped (sql f.query) true db)
