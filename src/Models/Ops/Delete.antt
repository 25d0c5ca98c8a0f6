-- ===== src/Models/Ops/Delete.antt =====
-- What a deletion by a filter leaves, and what is inserted after it.
use mathlib.Core.Path.{subst}
use sn0int.Prelude.{
  ℕ, Bool, true, not, List, [], ◌∷◌, filter, length, Option, none, some, Text, text_eq, Result, ok,
  err, ◌≡◌, refl, sym, ap, ◌∙◌, Bool-cases, inl, inr, All, ok-injective,
}
use sn0int.Models.Entity.{Entity, EntityLaws}
use sn0int.Models.Ops.{Model, sql, Store, StoreLaws, delete}
use sn0int.Models.Ops.Scope.{executed-ok}
use sn0int.Crates.Table.{Table, TableLaws, first_by_value}
use sn0int.Db.Filter.{Filter}
use sn0int.Db.Insert.{
  DbChange, insert, get_id, answer_id, inserted, insert_found, insert_unknown, insert_struct,
}
use sn0int.Db.Insert.Again.{Keeps, insert_struct-Outcome}

module _ (e : Entity) where
  -- Each row of a value is selected.
  abbrev pub IsSelected : (e.Row → Bool) → Text → e.Row → Type 0
  IsSelected p value row = text_eq (e.row_value row) value ≡ true → p row ≡ true

  first-left :
      (p : e.Row → Bool) (value : Text) (rows : List e.Row)
      → All (IsSelected p value) rows
      → first_by_value e value (filter (λ row. not (p row)) rows) ≡ none
  unfolding first_by_value
  first-left p value [] h = refl
  first-left p value (row ∷ rows) (is, h) = elim (Bool-cases (p row)) [
    | inl hit ↦ rw hit (first-left p value rows h)
    | inr miss ↦ elim (Bool-cases (text_eq (e.row_value row) value)) [
      | inl same ↦ absurd (cc (sym miss ∙ is same))
      | inr other ↦ rw miss (rw other (first-left p value rows h))
    ]
  ]

  module _ (l : EntityLaws e) (m : Model e) (t : Table e) (laws : TableLaws e t) (s : Store e t)
      (sl : StoreLaws e m t laws s) where
    answered :
        (r : Result ℕ) {o : Option (DbChange e × ℕ)}
        → answer_id e t r ≡ ok o
        → (id : ℕ) × (o ≡ some (insert, id))
    answered (err x) h = absurd (cc)
    answered (ok id) h = (id, sym (ok-injective h))

    -- The insertion of a value that the table does not have.
    inserted_as_new :
        (obj : e.New) (scoped : Bool) (db db' : t.Connection) {o : Option (DbChange e × ℕ)}
        → first_by_value e (e.value obj) (laws.rows db) ≡ none
        → insert_struct e t obj scoped db ≡ (ok o, db')
        → (id : ℕ) × (o ≡ some (insert, id))
    unfolding insert_struct insert_unknown
    inserted_as_new obj scoped db db' {o} missing h = go (t.get_opt (e.value obj) db) refl h
      where
        new :
            (w : Result t.Connection)
            → inserted e t (e.set_scoped obj scoped) db w ≡ (ok o, db')
            → (id : ℕ) × (o ≡ some (insert, id))
        new (err x) h' = absurd (cc (ap (λ p. p.0) h'))
        new (ok db₁) h' =
            answered (get_id e t (t.get_opt (e.value (e.set_scoped obj scoped)) db₁))
              (ap (λ p. p.0) h')

        go :
            (q : Result (Option e.Row))
            → t.get_opt (e.value obj) db ≡ q
            → insert_found e t obj scoped db q ≡ (ok o, db')
            → (id : ℕ) × (o ≡ some (insert, id))
        go (err x) asked h' = absurd (cc (ap (λ p. p.0) h'))
        go (ok (some existing)) asked h' =
            absurd (cc (laws.get_opt_rows (e.value obj) db asked ∙ missing))
        go (ok none) asked h' = new (t.insert (e.set_scoped obj scoped) db) h'

    pub delete-insert_struct :
        (f : Filter) (obj : e.New) (scoped : Bool) (db db' db'' : t.Connection) (n : ℕ)
        {o : Option (DbChange e × ℕ)}
        → delete e m t s f db ≡ (ok n, db')
        → All (IsSelected (sl.holds f.query) (e.value obj)) (laws.rows db)
        → insert_struct e t obj scoped db' ≡ (ok o, db'')
        → (n ≡ length (filter (sl.holds f.query) (laws.rows db)))
          × (laws.rows db' ≡ filter (λ row. not (sl.holds f.query row)) (laws.rows db))
          × ((id : ℕ) × (o ≡ some (insert, id)))
          × ((row : e.Row) × (first_by_value e (e.value obj) (laws.rows db'') ≡ some row)
              × (e.scoped row ≡ scoped))
    unfolding delete
    delete-insert_struct f obj scoped db db' db'' n done selected added =
        let (count, left) =
          sl.delete_rows (sql f.query) db (executed-ok db (s.delete (sql f.query) db) done) in
        let missing : first_by_value e (e.value obj) (laws.rows db') ≡ none =
          ap (first_by_value e (e.value obj)) left
          ∙ first-left (sl.holds f.query) (e.value obj) (laws.rows db) selected in
        let out = insert_struct-Outcome e l t laws obj scoped db' db'' added in
        let new = subst (λ found. Keeps e l t laws obj scoped found out.row) missing out.keeps in
        (
          count,
          left,
          inserted_as_new obj scoped db' db'' missing added,
          (out.row, out.found, new.0),
        )
