-- ===== src/Db/Ttl/Bump.antt =====
-- A bump makes the life of an entity longer, never shorter, and gives no end to one that has none.
use sn0int.Prelude.{
  ℕ, ◌==◌, ==_iff, true, List, [], ◌∷◌, map, Option, none, some, Text, ok, >>=-eq-ok, ltb,
  if◌then◌else◌, ◌≡◌, refl, sym, ap, ◌∙◌, Bool-cases, inl, inr, ok-injective,
}
use sn0int.Prelude.Int.{ℤ}
use sn0int.Models.{Insert}
use sn0int.Db.Names.{table}
use sn0int.Db.Links.Linked.{some-injective}
use sn0int.Db.Ttl.{Ttl, TtlDb, TtlDbLaws, selects, first_ttl, updated, find, bump_found, bump}

abbrev pub longer : ℕ → ℕ → ℕ
longer old new = if ltb old new then new else old

first_ttl-selects :
    (family : Text) (key : ℕ) (rows : List Ttl) {old : Ttl}
    → first_ttl family key rows ≡ some old
    → selects family key old ≡ true
unfolding first_ttl
first_ttl-selects family key [] e = absurd (cc)
first_ttl-selects family key (x ∷ rows) e = elim (Bool-cases (selects family key x)) [
  | inl hit ↦ rw (← some-injective (rw hit at e)) hit
  | inr miss ↦ first_ttl-selects family key rows (rw miss at e)
]

first_ttl-updated :
    (family : Text) (key : ℕ) (u old : Ttl) (rows : List Ttl)
    → old.id ≡ u.id
    → selects family key u ≡ true
    → first_ttl family key rows ≡ some old
    → first_ttl family key (map (updated u) rows) ≡ some u
unfolding first_ttl
first_ttl-updated family key u old [] same hit e = absurd (cc)
first_ttl-updated family key u old (x ∷ rows) same hit e = elim (Bool-cases (x.id == u.id)) [
  | inl here ↦ rw here (rw hit)
  | inr elsewhere ↦ elim (Bool-cases (selects family key x)) [
    | inl first ↦
        let is_old : x ≡ old = some-injective (rw first at e) in
        let here : (x.id == u.id) ≡ true =
          (==_iff x.id u.id).1 (ap (λ (r : Ttl). r.id) is_old ∙ same) in
        absurd (cc (sym elsewhere ∙ here))
    | inr other ↦
        rw elsewhere (rw other (first_ttl-updated family key u old rows same hit (rw other at e)))
  ]
]

module _ (d : TtlDb) (laws : TtlDbLaws d) where
  abbrev pub ttl_of : Insert → ℕ → d.Connection → Option Ttl
  ttl_of obj key db = first_ttl (table obj) key (laws.rows db)

  -- A `bump` that returns without an error leaves an entity without an expiry alone, and moves the
  -- expiry of another to the later one of the old and the new.
  pub bump-longer :
      (obj : Insert) (key : ℕ) (ttl : ℤ) (now : ℕ) (db db' : d.Connection)
      → bump d obj key ttl now db ≡ ok db'
      → (ttl_of obj key db ≡ none → db' ≡ db)
        × ((old : Ttl)
            → ttl_of obj key db ≡ some old
            → (row : Ttl) × (ttl_of obj key db' ≡ some row)
              × (row.id ≡ old.id)
              × (row.expire ≡ longer old.expire (d.add_seconds now ttl)))
  unfolding bump find
  bump-longer obj key ttl now db db' h =
      let new = d.add_seconds now ttl in
      let (found, asked, rest) =
        >>=-eq-ok (d.find_ttl (table obj) key db) (λ found. bump_found d new db found) h in
      let is : found ≡ ttl_of obj key db = laws.find_rows (table obj) key db asked in
      (
        (λ missing. sym (ok-injective (ap (bump_found d new db) (sym missing ∙ sym is) ∙ rest))),
        λ old known. changed old known (ap (bump_found d new db) (sym known ∙ sym is) ∙ rest),
      )
    where
      changed :
          (old : Ttl)
          → ttl_of obj key db ≡ some old
          → bump_found d (d.add_seconds now ttl) db (some old) ≡ ok db'
          → (row : Ttl) × (ttl_of obj key db' ≡ some row)
            × (row.id ≡ old.id)
            × (row.expire ≡ longer old.expire (d.add_seconds now ttl))
      changed old known done = elim (Bool-cases (ltb old.expire (d.add_seconds now ttl))) [
        | inl less ↦
            let u : Ttl = record old { expire = d.add_seconds now ttl } in
            let wrote : d.update_ttl u db ≡ ok db' = rw less at done in
            let hit : selects (table obj) key u ≡ true =
              first_ttl-selects (table obj) key (laws.rows db) known in
            (
              u,
              ap (first_ttl (table obj) key) (laws.update_rows u db wrote)
                  ∙ first_ttl-updated (table obj) key u old (laws.rows db) refl hit known,
              refl,
              rw less,
            )
        | inr enough ↦
            let same : db ≡ db' = ok-injective (rw enough at done) in
            (old, ap (λ x. ttl_of obj key x) (sym same) ∙ known, refl, rw enough)
      ]
