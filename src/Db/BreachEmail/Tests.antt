-- ===== src/Db/BreachEmail/Tests.antt =====
-- Examples of the insertion of an email address into a breach.
use sn0int.Prelude.{[], ◌∷◌, map, none, some, codes, text_eq, ok, ok-injective, ◌≡◌, refl, sym}
use sn0int.Models.{NewBreachEmail}
use sn0int.Models.Fields.{upsert_opt}
use sn0int.Models.BreachEmail.{
  BreachEmail, BreachEmailUpdate, selects, link, upsert, is_dirty, applied,
}
use sn0int.Crates.LinkTable.{first_link}
use sn0int.Crates.LinkTable.Rows.{table, table-LinkTableLaws}
use sn0int.Db.BreachEmail.{
  update, updated, Updates, UpdatesLaws, complete_known, insert_breach_email,
}
use sn0int.Db.BreachEmail.Password.{Stored, insert_breach_email-Stored}

abbrev write : Updates (table link)
write u rows = ok (map (updated u) rows)

write-UpdatesLaws : UpdatesLaws (table link) (table-LinkTableLaws link) write
write-UpdatesLaws = record { update_rows = λ u db h. sym (ok-injective h) }

abbrev leaked : NewBreachEmail
leaked = record { breach_id = 1; email_id = 2; password = some (codes "hunter2") }

abbrev unknown_password : BreachEmail
unknown_password = record { id = 0; breach_id = 1; email_id = 2; password = none }

abbrev known_password : BreachEmail
known_password = record { id = 0; breach_id = 1; email_id = 2; password = some (codes "hunter2") }

abbrev change : BreachEmailUpdate
change = record { id = 0; password = some (codes "hunter2") }

completed :
    insert_breach_email (table link) write leaked (unknown_password ∷ [])
    ≡ (ok (some (update change, 0)), known_password ∷ [])
unfolding insert_breach_email complete_known first_link selects upsert is_dirty applied upsert_opt
    text_eq
completed = refl

insert_breach_email-Stored_example :
    Stored
      (table link)
      (table-LinkTableLaws link)
      write
      write-UpdatesLaws
      leaked
      0
      (known_password ∷ [])
insert_breach_email-Stored_example =
    insert_breach_email-Stored (table link) (table-LinkTableLaws link) write write-UpdatesLaws
      leaked (unknown_password ∷ []) (known_password ∷ []) (update change) 0 completed
