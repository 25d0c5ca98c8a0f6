-- ===== src/Crates/LinkTable.antt =====
-- A table that diesel reads and writes, for links of one kind.
pub mod Rows
use sn0int.Prelude.{
  ℕ, Bool, List, [], ◌∷◌, ◌++◌, Option, none, some, Result, ok, if◌then◌else◌, ◌≡◌,
}
use sn0int.Models.Links.{Link}

-- `filter(..).first()`, on a list of rows.
unfoldable pub first_link : (l : Link) → l.Key → List l.Row → Option l.Row
first_link l key [] = none
first_link l key (row ∷ rows) =
    let later = first_link l key rows in if l.selects key row then some row else later

pub record LinkTable (l : Link) : Type 1 where
  pub Connection : Type 0
  pub get_opt : l.Key → Connection → Result (Option l.Row)
  pub insert : l.New → Connection → Result Connection

pub record LinkTableLaws (l : Link) (t : LinkTable l) : Type 0 where
  pub rows : t.Connection → List l.Row
  pub get_opt_rows :
      (key : l.Key) (db : t.Connection) {found : Option l.Row}
      → t.get_opt key db ≡ ok found
      → found ≡ first_link l key (rows db)
  pub insert_rows :
      (obj : l.New) (db : t.Connection) {db' : t.Connection}
      → t.insert obj db ≡ ok db'
      → (i : ℕ) × (rows db' ≡ rows db ++ l.stored i obj ∷ [])
