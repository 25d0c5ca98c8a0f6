-- ===== src/Db/Insert.antt =====
-- src/db/mod.rs: the insertion of an entity, which updates the entity if its value is known.
pub mod Again
pub mod Frame
pub mod Others
mod Tests
use sn0int.Prelude.{
  ℕ, Bool, true, false, not, List, Option, none, some, Text, Result, ok, err, message, Error,
  if◌then◌else◌,
}
use sn0int.Models.Entity.{Entity}
use sn0int.Crates.Table.{Table}

pub data DbChange (e : Entity) : Type 0 where
  insert : DbChange e
  update : e.Update → DbChange e
  none_change : DbChange e

module _ (e : Entity) (t : Table e) where
  abbrev pub Answer : Type 0
  Answer = Result (Option (DbChange e × ℕ))

  -- `Model::get_id`, where `first` reports a missing row as an error.
  abbrev pub get_id : Result (Option e.Row) → Result ℕ
  get_id (err x) = err x
  get_id (ok none) = err (message "NotFound")
  get_id (ok (some row)) = ok (e.id row)

  -- The branch of a known value, behind `upsert`.
  abbrev pub apply : t.Connection → e.Row → e.Update → Result t.Connection → Answer × t.Connection
  apply db existing u (err x) = (err x, db)
  apply db existing u (ok db') = (ok (some (update u, e.id existing)), db')

  unfoldable pub upsert_known : e.New → e.Row → t.Connection → Answer × t.Connection
  upsert_known obj existing db =
      let u = e.upsert obj existing in
      if not (e.scoped existing)
      then (ok none, db)
      else if e.is_dirty u
      then apply db existing u (t.update u db)
      else (ok (some (none_change, e.id existing)), db)

  abbrev pub answer_id : Result ℕ → Answer
  answer_id (err x) = err x
  answer_id (ok id) = ok (some (insert, id))

  -- The branch of a new value, behind `set_scoped`.
  abbrev pub inserted : e.New → t.Connection → Result t.Connection → Answer × t.Connection
  inserted obj db (err x) = (err x, db)
  inserted obj db (ok db') = (answer_id (get_id (t.get_opt (e.value obj) db')), db')

  unfoldable pub insert_unknown : e.New → Bool → t.Connection → Answer × t.Connection
  insert_unknown obj scoped db =
      let obj' = e.set_scoped obj scoped in inserted obj' db (t.insert obj' db)

  abbrev pub insert_found :
      e.New → Bool → t.Connection → Result (Option e.Row) → Answer × t.Connection
  insert_found obj scoped db (err x) = (err x, db)
  insert_found obj scoped db (ok (some existing)) = upsert_known obj existing db
  insert_found obj scoped db (ok none) = insert_unknown obj scoped db

  -- `Database::insert_struct`
  unfoldable pub insert_struct : e.New → Bool → t.Connection → Answer × t.Connection
  unfolding upsert_known insert_unknown
  insert_struct obj scoped db = insert_found obj scoped db (t.get_opt (e.value obj) db)
