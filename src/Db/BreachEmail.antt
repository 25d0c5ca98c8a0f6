-- ===== src/Db/BreachEmail.antt =====
-- src/db/mod.rs: the insertion of an email address into a breach, which completes a known one that has no
-- password.
pub mod Rows
pub mod Password
mod Tests
use sn0int.Prelude.{
  ℕ, ◌==◌, Bool, true, false, List, [], ◌∷◌, ◌++◌, map, Option, none, some, Result, ok, err,
  message, if◌then◌else◌, ◌≡◌,
}
use sn0int.Models.{NewBreachEmail}
use sn0int.Models.BreachEmail.{BreachEmail, BreachEmailUpdate, link, upsert, is_dirty, applied}
use sn0int.Crates.LinkTable.{LinkTable, LinkTableLaws}

pub data BreachEmailChange : Type 0 where
  insert : BreachEmailChange
  update : BreachEmailUpdate → BreachEmailChange
  none_change : BreachEmailChange

-- `update(filter(id.eq(update.id))).set(update)`, on a row.
abbrev pub updated : BreachEmailUpdate → BreachEmail → BreachEmail
updated u row = if row.id == u.id then applied u row else row

module _ (t : LinkTable link) where
  abbrev pub Updates : Type 0
  Updates = BreachEmailUpdate → t.Connection → Result t.Connection

  -- An update that succeeds has been applied to the rows with its id.
  pub record UpdatesLaws (laws : LinkTableLaws link t) (write : Updates) : Type 0 where
    pub update_rows :
        (u : BreachEmailUpdate) (db : t.Connection) {db' : t.Connection}
        → write u db ≡ ok db'
        → laws.rows db' ≡ map (updated u) (laws.rows db)

  abbrev pub Answer : Type 0
  Answer = Result (Option (BreachEmailChange × ℕ))

  abbrev pub answer_id : Result (Option BreachEmail) → Answer
  answer_id (err x) = err x
  answer_id (ok none) = err (message "NotFound")
  answer_id (ok (some row)) = ok (some (insert, row.id))

  abbrev pub inserted : NewBreachEmail → t.Connection → Result t.Connection → Answer × t.Connection
  inserted obj db (err x) = (err x, db)
  inserted obj db (ok db') = (answer_id (t.get_opt (link.key obj) db'), db')

  abbrev pub apply :
      BreachEmail → BreachEmailUpdate → t.Connection → Result t.Connection → Answer × t.Connection
  apply existing u db (err x) = (err x, db)
  apply existing u db (ok db') = (ok (some (update u, existing.id)), db')

  module _ (write : Updates) where
    -- The branch of a known link.
    unfoldable pub complete_known :
        NewBreachEmail → BreachEmail → t.Connection → Answer × t.Connection
    complete_known obj existing db =
        let u = upsert obj existing in
        if is_dirty u
        then apply existing u db (write u db)
        else (ok (some (none_change, existing.id)), db)

    abbrev pub breach_email_found :
        NewBreachEmail → t.Connection → Result (Option BreachEmail) → Answer × t.Connection
    breach_email_found obj db (err x) = (err x, db)
    breach_email_found obj db (ok (some existing)) = complete_known obj existing db
    breach_email_found obj db (ok none) = inserted obj db (t.insert obj db)

    -- `Database::insert_breach_email_struct`
    unfoldable pub insert_breach_email : NewBreachEmail → t.Connection → Answer × t.Connection
    unfolding complete_known
    insert_breach_email obj db = breach_email_found obj db (t.get_opt (link.key obj) db)
