-- ===== src/Db/BreachEmail/Rows.antt =====
-- The rows of the links of breaches and email addresses, before and after a password is written.
use sn0int.Prelude.{
  ℕ, ◌==◌, ==_iff, true, false, List, [], ◌∷◌, map, Option, none, some, Text, text_eq_refl, ◌≡◌,
  refl, sym, ap, ◌∙◌, arith, Bool-cases, inl, inr,
}
use sn0int.Models.{NewBreachEmail}
use sn0int.Models.Fields.{texts, is_some, written, opt_eq, upsert_opt, upsert_opt-none_iff}
use sn0int.Models.BreachEmail.{
  BreachEmail, BreachEmailUpdate, link, upsert, is_dirty, applied, selects,
}
use sn0int.Crates.LinkTable.{first_link}
use sn0int.Db.Links.Linked.{some-injective}
use sn0int.Db.BreachEmail.{updated}

-- A row as it should be: of the breach and the address, with the password if one was given.
abbrev pub HasPassword : NewBreachEmail → BreachEmail → Type 0
HasPassword obj row =
    (row.breach_id ≡ obj.breach_id)
    × (row.email_id ≡ obj.email_id)
    × (written obj.password row.password ≡ row.password)

-- The rows after an update that writes the password `p`.
module _ (b m : ℕ) (p : Text) (u : BreachEmailUpdate) (writes : u.password ≡ some p) where
  updated-selects :
      (x : BreachEmail)
      → (x.id == u.id) ≡ true
      → x.breach_id ≡ b
      → x.email_id ≡ m
      → selects (b, m, some p) (updated u x) ≡ true
  unfolding selects applied
  updated-selects x same hb hm = rw same (rw writes (ground (arith, text_eq_refl p)))

  selects-parts :
      (x : BreachEmail) → selects (b, m, some p) x ≡ true → (x.breach_id ≡ b) × (x.email_id ≡ m)
  unfolding selects
  selects-parts x h = ground arith

  selected-password :
      (x : BreachEmail)
      → (x.id == u.id) ≡ true
      → selects (b, m, some p) (updated u x) ≡ true
      → ((updated u x).id ≡ u.id)
        × ((updated u x).breach_id ≡ b)
        × ((updated u x).email_id ≡ m)
        × ((updated u x).password ≡ some p)
  unfolding applied
  selected-password x same h =
      let (hb, hm) = selects-parts (updated u x) h in
      (rw same ((==_iff x.id u.id).0 same), hb, hm, rw same (rw writes))

  pub first-updated :
      (existing : BreachEmail) (rows : List BreachEmail)
      → existing.id ≡ u.id
      → first_link link (b, m, some p) rows ≡ some existing
      → (row : BreachEmail) × (first_link link (b, m, some p) (map (updated u) rows) ≡ some row)
        × (row.id ≡ u.id)
        × (row.breach_id ≡ b)
        × (row.email_id ≡ m)
        × (row.password ≡ some p)
  unfolding first_link
  first-updated existing [] same found = absurd (cc)
  first-updated existing (x ∷ rows) same found =
      elim (Bool-cases (selects (b, m, some p) (updated u x))) [
        | inl hit ↦ elim (Bool-cases (x.id == u.id)) [
          | inl here ↦
              let (i, hb, hm, hp) = selected-password x here hit in
              (updated u x, rw hit, i, hb, hm, hp)
          | inr elsewhere ↦
              let old : selects (b, m, some p) x ≡ true = rw elsewhere at hit in
              let first : x ≡ existing = some-injective (rw old at found) in
              let here : (x.id == u.id) ≡ true =
                (==_iff x.id u.id).1 (ap (λ (r : BreachEmail). r.id) first ∙ same) in
              absurd (cc (sym elsewhere ∙ here))
        ]
        | inr miss ↦ elim (Bool-cases (selects (b, m, some p) x)) [
          | inl old ↦
              let first : x ≡ existing = some-injective (rw old at found) in
              let (hb, hm) = selects-parts x old in
              let here : (x.id == u.id) ≡ true =
                (==_iff x.id u.id).1 (ap (λ (r : BreachEmail). r.id) first ∙ same) in
              absurd (cc (updated-selects x here hb hm))
          | inr other ↦
              let (row, later, i, hb, hm, hp) =
                first-updated existing rows same (rw other at found) in
              (row, rw miss later, i, hb, hm, hp)
        ]
      ]

-- A row that a key finds is of the breach and the address of the key.
pub first-selected :
    (key : ℕ × ℕ × Option Text) (rows : List BreachEmail) (row : BreachEmail)
    → first_link link key rows ≡ some row
    → selects key row ≡ true
unfolding first_link
first-selected key [] row e = absurd (cc)
first-selected key (x ∷ rows) row e = elim (Bool-cases (selects key x)) [
  | inl hit ↦ rw (← some-injective (rw hit at e)) hit
  | inr miss ↦ first-selected key rows row (rw miss at e)
]

-- Where nothing is to be written, the row has the password already.
pub clean-HasPassword :
    (obj : NewBreachEmail) (row : BreachEmail)
    → selects (link.key obj) row ≡ true
    → is_dirty (upsert obj row) ≡ false
    → HasPassword obj row
unfolding selects is_dirty upsert
clean-HasPassword obj row hit clean =
    (ground arith, ground arith, (upsert_opt-none_iff texts obj.password row.password).0 clean)

-- Where there is something to write, it is the password that was given.
pub dirty-password :
    (obj : NewBreachEmail) (row : BreachEmail)
    → is_dirty (upsert obj row) ≡ true
    → (p : Text) × (obj.password ≡ some p) × ((upsert obj row).password ≡ some p)
unfolding is_dirty upsert upsert_opt
dirty-password obj row dirty = go obj.password row.password dirty
  where
    go :
        (mine password : Option Text)
        → is_some (upsert_opt texts mine password) ≡ true
        → (p : Text) × (mine ≡ some p) × (upsert_opt texts mine password ≡ some p)
    go none none d = absurd (cc)
    go none (some q) d = absurd (cc)
    go (some p) password d = elim (Bool-cases (opt_eq texts (some p) password)) [
      | inl same ↦ absurd (cc (rw same at d))
      | inr other ↦ (p, refl, rw other)
    ]
