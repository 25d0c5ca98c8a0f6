-- ===== src/Db/BreachEmail/Password.antt =====
-- After the insertion of an email address into a breach the password that was given is stored.
use mathlib.Core.Path.{subst}
use sn0int.Prelude.{
  ℕ, true, map, Option, none, some, Result, ok, err, ◌≡◌, refl, sym, ap, ◌∙◌, Bool-cases, inl, inr,
}
use sn0int.Models.{NewBreachEmail}
use sn0int.Models.Fields.{written, written_same}
use sn0int.Models.BreachEmail.{BreachEmail, link, link-LinkLaws, upsert, is_dirty}
use sn0int.Crates.LinkTable.{LinkTable, LinkTableLaws, first_link}
use sn0int.Db.Links.Linked.{first_link-append, some-injective}
use sn0int.Db.BreachEmail.Rows.{
  HasPassword, first-updated, first-selected, clean-HasPassword, dirty-password,
}
use sn0int.Db.BreachEmail.{
  BreachEmailChange, updated, Updates, UpdatesLaws, answer_id, inserted, apply, complete_known,
  breach_email_found, insert_breach_email,
}

upsert-id : (obj : NewBreachEmail) (existing : BreachEmail) → existing.id ≡ (upsert obj existing).id
unfolding upsert
upsert-id obj existing = refl

module _ (t : LinkTable link) (laws : LinkTableLaws link t) (write : Updates t)
    (ul : UpdatesLaws t laws write) where
  pub record Stored (obj : NewBreachEmail) (id : ℕ) (db : t.Connection) : Type 0 where
    pub row : BreachEmail
    pub found : first_link link (link.key obj) (laws.rows db) ≡ some row
    pub answered : row.id ≡ id
    pub complete : HasPassword obj row

  -- The link was known, and what was missing has been written.
  completed :
      (obj : NewBreachEmail) (existing : BreachEmail) (db db' : t.Connection)
      (change : BreachEmailChange) (id : ℕ)
      → first_link link (link.key obj) (laws.rows db) ≡ some existing
      → is_dirty (upsert obj existing) ≡ true
      → (w : Result t.Connection) → write (upsert obj existing) db ≡ w
      → apply t existing (upsert obj existing) db w ≡ (ok (some (change, id)), db')
      → Stored obj id db'
  completed obj existing db db' change id known dirty (err x) wrote e =
      absurd (cc (ap (λ p. p.0) e))
  completed obj existing db db' change id known dirty (ok db₁) wrote e =
      let u = upsert obj existing in
      let final : db₁ ≡ db' = ap (λ p. p.1) e in
      let (p, given, writes) = dirty-password obj existing dirty in
      let same : existing.id ≡ u.id = upsert-id obj existing in
      let with_p : first_link link (obj.breach_id, obj.email_id, some p) (laws.rows db)
          ≡ some existing =
        subst (λ k. first_link link (obj.breach_id, obj.email_id, k) (laws.rows db) ≡ some existing)
          given known in
      let (row, found, i, hb, hm, hp) =
        first-updated obj.breach_id obj.email_id p u writes existing (laws.rows db) same with_p in
      let rows_after : laws.rows db' ≡ map (updated u) (laws.rows db) =
        ap laws.rows (sym final) ∙ ul.update_rows u db wrote in
      let id_is : existing.id ≡ id = cc (ap (λ p. p.0) e) in
      record {
        row = row;
        found =
            ap (first_link link (link.key obj)) rows_after
            ∙ ap
                (λ k.
                  first_link link (obj.breach_id, obj.email_id, k) (map (updated u) (laws.rows db)))
                given
            ∙ found;
        answered = i ∙ sym same ∙ id_is;
        complete = (hb, hm, ap (λ k. written k row.password) given ∙ sym hp);
      }

  known-Stored :
      (obj : NewBreachEmail) (existing : BreachEmail) (db db' : t.Connection)
      (change : BreachEmailChange) (id : ℕ)
      → first_link link (link.key obj) (laws.rows db) ≡ some existing
      → complete_known t write obj existing db ≡ (ok (some (change, id)), db')
      → Stored obj id db'
  unfolding complete_known
  known-Stored obj existing db db' change id known h =
      elim (Bool-cases (is_dirty (upsert obj existing))) [
        | inl dirty ↦
            completed obj existing db db' change id known dirty (write (upsert obj existing) db)
              refl (rw dirty at h)
        | inr clean ↦
            let e = rw clean at h in
            let final : db ≡ db' = ap (λ p. p.1) e in
            record {
              row = existing;
              found = ap (λ d. first_link link (link.key obj) (laws.rows d)) (sym final) ∙ known;
              answered = cc (ap (λ p. p.0) e);
              complete =
                  clean-HasPassword obj existing
                    (first-selected (link.key obj) (laws.rows db) existing known) clean;
            }
      ]

  by_query :
      (obj : NewBreachEmail) (db : t.Connection) (change : BreachEmailChange) (id : ℕ)
      (row : BreachEmail)
      → (r : Result (Option BreachEmail)) → t.get_opt (link.key obj) db ≡ r
      → answer_id t r ≡ ok (some (change, id))
      → first_link link (link.key obj) (laws.rows db) ≡ some row
      → row.id ≡ id
  by_query obj db change id row (err x) asked e there = absurd (cc)
  by_query obj db change id row (ok none) asked e there = absurd (cc)
  by_query obj db change id row (ok (some row')) asked e there =
      let same : row' ≡ row = some-injective (laws.get_opt_rows (link.key obj) db asked ∙ there) in
      let id_is : row'.id ≡ id = cc in ap (λ (r : BreachEmail). r.id) (sym same) ∙ id_is

  new-Stored :
      (obj : NewBreachEmail) (db db' : t.Connection) (change : BreachEmailChange) (id : ℕ)
      → first_link link (link.key obj) (laws.rows db) ≡ none
      → (w : Result t.Connection) → t.insert obj db ≡ w
      → inserted t obj db w ≡ (ok (some (change, id)), db')
      → Stored obj id db'
  new-Stored obj db db' change id missing (err x) wrote e = absurd (cc (ap (λ p. p.0) e))
  new-Stored obj db db' change id missing (ok db₁) wrote e =
      let final : db₁ ≡ db' = ap (λ p. p.1) e in
      let (i, appended) = laws.insert_rows obj db wrote in
      let there : first_link link (link.key obj) (laws.rows db₁) ≡ some (link.stored i obj) =
        ap (first_link link (link.key obj)) appended
        ∙ first_link-append link (link.key obj) (laws.rows db) (link.stored i obj) missing
            (link-LinkLaws.selects-stored i obj) in
      record {
        row = link.stored i obj;
        found = ap (λ d. first_link link (link.key obj) (laws.rows d)) (sym final) ∙ there;
        answered =
            by_query obj db₁ change id (link.stored i obj) (t.get_opt (link.key obj) db₁) refl
              (ap (λ p. p.0) e) there;
        complete = (refl, refl, written_same obj.password);
      }

  -- After an email address has been inserted into a breach without an error, the key finds a row
  -- of that breach and address, whose id is the answer, and which has the password if one was
  -- given.
  pub insert_breach_email-Stored :
      (obj : NewBreachEmail) (db db' : t.Connection) (change : BreachEmailChange) (id : ℕ)
      → insert_breach_email t write obj db ≡ (ok (some (change, id)), db')
      → Stored obj id db'
  unfolding insert_breach_email
  insert_breach_email-Stored obj db db' change id h = go (t.get_opt (link.key obj) db) refl h
    where
      go :
          (r : Result (Option BreachEmail))
          → t.get_opt (link.key obj) db ≡ r
          → breach_email_found t write obj db r ≡ (ok (some (change, id)), db')
          → Stored obj id db'
      go (err x) asked e = absurd (cc (ap (λ p. p.0) e))
      go (ok (some existing)) asked e =
          known-Stored obj existing db db' change id
            (sym (laws.get_opt_rows (link.key obj) db asked)) e
      go (ok none) asked e =
          new-Stored obj db db' change id (sym (laws.get_opt_rows (link.key obj) db asked))
            (t.insert obj db) refl e
