-- ===== src/Db/Activity.antt =====
-- src/db/mod.rs: the insertion of logged activity, whose unique tag is logged once.
pub mod Once
mod Tests
use sn0int.Prelude.{ℕ, Bool, true, false, Option, none, some, Text, Result, ok, err, ◌>>=◌}
use sn0int.Models.Activity.{Activity, NewActivity, Activities, uniq}

module _ (a : Activities) where
  abbrev pub logged : Result a.Connection → a.Connection → Result Bool × a.Connection
  logged (err x) db = (err x, db)
  logged (ok db') db = (ok true, db')

  abbrev pub unless_known :
      NewActivity → a.Connection → Result (Option Activity) → Result Bool × a.Connection
  unless_known obj db (err x) = (err x, db)
  unless_known obj db (ok (some _)) = (ok false, db)
  unless_known obj db (ok none) = logged (a.insert obj db) db

  abbrev pub insert_tagged : NewActivity → a.Connection → Option Text → Result Bool × a.Connection
  insert_tagged obj db none = logged (a.insert obj db) db
  insert_tagged obj db (some tag) = unless_known obj db (uniq a tag db)

  -- `Database::insert_activity`
  unfoldable pub insert_activity : NewActivity → a.Connection → Result Bool × a.Connection
  unfolding uniq
  insert_activity obj db = insert_tagged obj db obj.uniq
