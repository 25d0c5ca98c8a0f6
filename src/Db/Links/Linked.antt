-- ===== src/Db/Links/Linked.antt =====
-- What the insertion of a link leaves.
use sn0int.Prelude.{
  ℕ, true, List, [], ◌∷◌, ◌++◌, Option, none, some, Result, ok, err, ◌≡◌, inl, inr, refl, sym, ap,
  ◌∙◌, Bool-cases,
}
use sn0int.Models.Links.{Link, LinkLaws}
use sn0int.Crates.LinkTable.{LinkTable, LinkTableLaws, first_link}
use sn0int.Db.Links.{LinkChange, insert, answer_id, inserted, link_found, insert_link, Linked}

pub first_link-append :
    (l : Link) (key : l.Key) (rows : List l.Row) (row : l.Row)
    → first_link l key rows ≡ none
    → l.selects key row ≡ true
    → first_link l key (rows ++ row ∷ []) ≡ some row
unfolding first_link
first_link-append l key [] row missing hit = rw hit
first_link-append l key (x ∷ rows) row missing hit = elim (Bool-cases (l.selects key x)) [
  | inl here ↦ absurd (cc (rw here at missing))
  | inr other ↦ rw other (first_link-append l key rows row (rw other at missing) hit)
]

pub some-injective {ℓ} : {A : Type ℓ} {a b : A} → some a ≡ some b → a ≡ b
some-injective {a = a} h = ap (λ o. elim o [ some x ↦ x | none ↦ a ]) h

module _ (l : Link) (ll : LinkLaws l) (t : LinkTable l) (laws : LinkTableLaws l t) where
  answered :
      (obj : l.New) (db db' : t.Connection) (found : Result (Option l.Row)) {change : LinkChange}
      {id : ℕ}
      → answer_id l t found ≡ ok (some (change, id))
      → t.get_opt (l.key obj) db' ≡ found
      → (row : l.Row) × (first_link l (l.key obj) (laws.rows db') ≡ some row)
        × (l.id row ≡ id)
        × (change ≡ insert)
  answered obj db db' (err x) e found = absurd (cc)
  answered obj db db' (ok none) e found = absurd (cc)
  answered obj db db' (ok (some row)) e found =
      (row, sym (laws.get_opt_rows (l.key obj) db' found), cc, cc)

  -- After a link has been inserted without an error, its key finds a row whose id is the answer;
  -- either the link was known, and the table is as it was, or it was not, and the table has its
  -- row at the end and no other change.
  pub insert_link-Linked :
      (obj : l.New) (db db' : t.Connection) (change : LinkChange) (id : ℕ)
      → insert_link l t obj db ≡ (ok (some (change, id)), db')
      → Linked l t laws obj db change id db'
  unfolding insert_link
  insert_link-Linked obj db db' change id h = go (t.get_opt (l.key obj) db) refl h
    where
      go_insert :
          (w : Result t.Connection)
          → t.insert obj db ≡ w
          → first_link l (l.key obj) (laws.rows db) ≡ none
          → inserted l t obj db w ≡ (ok (some (change, id)), db')
          → Linked l t laws obj db change id db'
      go_insert (err x) wrote missing e = absurd (cc (ap (λ p. p.0) e))
      go_insert (ok db₁) wrote missing e =
          let final : db₁ ≡ db' = ap (λ p. p.1) e in
          let (i, appended) = laws.insert_rows obj db wrote in
          let (row, found, same, new) =
            answered obj db db₁ (t.get_opt (l.key obj) db₁) (ap (λ p. p.0) e) refl in
          (
            row,
            ap (λ d. first_link l (l.key obj) (laws.rows d)) (sym final) ∙ found,
            same,
            inr (
              missing,
              new,
              (
                i,
                ap laws.rows (sym final) ∙ appended,
                some-injective (
                    sym found
                    ∙ ap (first_link l (l.key obj)) appended
                    ∙ first_link-append l (l.key obj) (laws.rows db) (l.stored i obj) missing
                        (ll.selects-stored i obj)),
              ),
            ),
          )

      go :
          (r : Result (Option l.Row))
          → t.get_opt (l.key obj) db ≡ r
          → link_found l t obj db r ≡ (ok (some (change, id)), db')
          → Linked l t laws obj db change id db'
      go (err x) asked e = absurd (cc (ap (λ p. p.0) e))
      go (ok (some existing)) asked e =
          let final : db ≡ db' = ap (λ p. p.1) e in
          (
            existing,
            rw (← final) (sym (laws.get_opt_rows (l.key obj) db asked)),
            cc,
            inl (sym final, cc),
          )
      go (ok none) asked e =
          go_insert (t.insert obj db) refl (sym (laws.get_opt_rows (l.key obj) db asked)) e
