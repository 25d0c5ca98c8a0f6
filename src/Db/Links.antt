-- ===== src/Db/Links.antt =====
-- src/db/mod.rs: the insertion of a link between two entities.
pub mod Linked
mod Tests
use sn0int.Prelude.{
  ℕ, Bool, true, false, List, [], ◌∷◌, ◌++◌, Option, none, some, Text, Result, ok, err, message,
  Error, if◌then◌else◌, ◌≡◌, ◌⊎◌, inl, inr, refl,
}
use sn0int.Models.Links.{Link}
use sn0int.Crates.LinkTable.{LinkTable, LinkTableLaws, first_link}

pub data LinkChange : Type 0 where
  insert : LinkChange
  none_change : LinkChange

module _ (l : Link) (t : LinkTable l) where
  abbrev pub Answer : Type 0
  Answer = Result (Option (LinkChange × ℕ))

  -- `Model::get_id`, where `first` reports a missing row as an error.
  abbrev pub answer_id : Result (Option l.Row) → Answer
  answer_id (err x) = err x
  answer_id (ok none) = err (message "NotFound")
  answer_id (ok (some row)) = ok (some (insert, l.id row))

  abbrev pub inserted : l.New → t.Connection → Result t.Connection → Answer × t.Connection
  inserted obj db (err x) = (err x, db)
  inserted obj db (ok db') = (answer_id (t.get_opt (l.key obj) db'), db')

  abbrev pub link_found : l.New → t.Connection → Result (Option l.Row) → Answer × t.Connection
  link_found obj db (err x) = (err x, db)
  link_found obj db (ok (some existing)) = (ok (some (none_change, l.id existing)), db)
  link_found obj db (ok none) = inserted obj db (t.insert obj db)

  -- `Database::insert_subdomain_ipaddr_struct` and `Database::insert_network_device_struct`
  unfoldable pub insert_link : l.New → t.Connection → Answer × t.Connection
  insert_link obj db = link_found obj db (t.get_opt (l.key obj) db)

module _ (l : Link) (t : LinkTable l) (laws : LinkTableLaws l t) where
  -- What an insertion of a link leaves: a row that the key finds and whose id is the answer. The table
  -- is as it was if the link was known, and has the new row at its end if not.
  abbrev pub Linked : l.New → t.Connection → LinkChange → ℕ → t.Connection → Type 0
  Linked obj db change id db' =
      (row : l.Row) × (first_link l (l.key obj) (laws.rows db') ≡ some row)
      × (l.id row ≡ id)
      × ((db' ≡ db) × (change ≡ none_change)
          ⊎ (first_link l (l.key obj) (laws.rows db) ≡ none)
            × (change ≡ insert)
            × ((i : ℕ) × (laws.rows db' ≡ laws.rows db ++ l.stored i obj ∷ [])
                × (row ≡ l.stored i obj)))
