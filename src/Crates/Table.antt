-- ===== src/Crates/Table.antt =====
-- A table that diesel reads and writes, for the entities of one kind.
pub mod Rows
use sn0int.Prelude.{
  ℕ, ◌==◌, Bool, true, false, List, [], ◌∷◌, ◌++◌, map, Option, none, some, Text, text_eq, Result,
  ok, if◌then◌else◌, ◌≡◌,
}
use sn0int.Models.Entity.{Entity}

-- `filter(value.eq(query)).first()`, on a list of rows.
unfoldable pub first_by_value : (e : Entity) → Text → List e.Row → Option e.Row
first_by_value e query [] = none
first_by_value e query (row ∷ rows) =
    let later = first_by_value e query rows in
    if text_eq (e.row_value row) query then some row else later

-- `update(filter(id.eq(update.id))).set(update)`, on a row.
abbrev pub updated : (e : Entity) → e.Update → e.Row → e.Row
updated e u row = if e.id row == e.update_id u then e.applied u row else row

pub record Table (e : Entity) : Type 1 where
  pub Connection : Type 0
  pub get_opt : Text → Connection → Result (Option e.Row)
  pub insert : e.New → Connection → Result Connection
  pub update : e.Update → Connection → Result Connection

pub record TableLaws (e : Entity) (t : Table e) : Type 0 where
  pub rows : t.Connection → List e.Row
  pub get_opt_rows :
      (query : Text) (db : t.Connection) {found : Option e.Row}
      → t.get_opt query db ≡ ok found
      → found ≡ first_by_value e query (rows db)
  pub insert_rows :
      (obj : e.New) (db : t.Connection) {db' : t.Connection}
      → t.insert obj db ≡ ok db'
      → (i : ℕ) × (rows db' ≡ rows db ++ e.stored i obj ∷ [])
  pub update_rows :
      (u : e.Update) (db : t.Connection) {db' : t.Connection}
      → t.update u db ≡ ok db'
      → rows db' ≡ map (updated e u) (rows db)
