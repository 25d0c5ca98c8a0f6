-- ===== src/Models/Ops/Scope.antt =====
-- What is taken out of scope stays as it is, whatever is inserted later.
use sn0int.Prelude.{
  ℕ, Bool, true, false, List, [], ◌∷◌, map, filter, length, Option, none, some, Text, text_eq,
  Result, ok, err, if◌then◌else◌, ◌≡◌, refl, sym, ap, ◌∙◌, Bool-cases, inl, inr, ok-injective,
}
use sn0int.Models.Entity.{Entity}
use sn0int.Models.Ops.{Model, ModelLaws, sql, Store, StoreLaws, executed, noscope}
use sn0int.Crates.Table.{Table, TableLaws, first_by_value}
use sn0int.Db.Filter.{Filter}
use sn0int.Db.Links.Linked.{some-injective}
use sn0int.Db.Insert.{insert_struct, insert_found, upsert_known}

pub executed-ok :
    {C : Type 0} (db : C) (r : Result (ℕ × C)) {n : ℕ} {db' : C}
    → executed db r ≡ (ok n, db')
    → r ≡ ok (n, db')
executed-ok db (err x) h = absurd (cc (ap (λ p. p.0) h))
executed-ok db (ok (k, db₁)) {n} {db'} h =
    let count : k ≡ n = ok-injective (ap (λ p. p.0) h) in
    let final : db₁ ≡ db' = ap (λ p. p.1) h in
    ap (λ x. ok (x, db₁)) count ∙ ap (λ y. ok (n, y)) final

module _ (e : Entity) (m : Model e) (ml : ModelLaws e m) where
  -- A row, with another flag if it is selected.
  abbrev pub rescoped : (e.Row → Bool) → Bool → e.Row → e.Row
  rescoped p unscoped row = if p row then m.with_unscoped unscoped row else row

  rescoped-value :
      (p : e.Row → Bool) (unscoped : Bool) (row : e.Row)
      → e.row_value (rescoped p unscoped row) ≡ e.row_value row
  rescoped-value p unscoped row = elim (Bool-cases (p row)) [
    | inl hit ↦ rw hit (ml.value-with_unscoped unscoped row)
    | inr miss ↦ rw miss
  ]

  first-rescoped :
      (p : e.Row → Bool) (unscoped : Bool) (value : Text) (rows : List e.Row) {row : e.Row}
      → first_by_value e value rows ≡ some row
      → first_by_value e value (map (rescoped p unscoped) rows) ≡ some (rescoped p unscoped row)
  unfolding first_by_value
  first-rescoped p unscoped value [] h = absurd (cc)
  first-rescoped p unscoped value (r ∷ rows) {row} h =
      rw (rescoped-value p unscoped r) (elim (Bool-cases (text_eq (e.row_value r) value)) [
        | inl same ↦ rw same (
            ap (λ o. elim o [ some x ↦ some (rescoped p unscoped x) | none ↦ none ]) (rw same at h))
        | inr other ↦ rw other (first-rescoped p unscoped value rows (rw other at h))
      ])

  module _ (t : Table e) (laws : TableLaws e t) (s : Store e t) (sl : StoreLaws e m t laws s) where
    -- The insertion of a value whose row is out of scope writes nothing.
    out_of_scope :
        (obj : e.New) (scoped : Bool) (db : t.Connection) {row : e.Row}
        → first_by_value e (e.value obj) (laws.rows db) ≡ some row
        → e.scoped row ≡ false
        → (insert_struct e t obj scoped db).1 ≡ db
    unfolding insert_struct upsert_known
    out_of_scope obj scoped db {row} known out = go (t.get_opt (e.value obj) db) refl
      where
        known_case :
            (existing : e.Row)
            → e.scoped existing ≡ false
            → (upsert_known e t obj existing db).1 ≡ db
        known_case existing out = rw out

        go :
            (r : Result (Option e.Row))
            → t.get_opt (e.value obj) db ≡ r
            → (insert_found e t obj scoped db r).1 ≡ db
        go (err x) asked = refl
        go (ok none) asked = absurd (cc (laws.get_opt_rows (e.value obj) db asked ∙ known))
        go (ok (some existing)) asked =
            let same : row ≡ existing =
              some-injective (sym known ∙ sym (laws.get_opt_rows (e.value obj) db asked)) in
            known_case existing (ap e.scoped (sym same) ∙ out)

    pub noscope-insert_struct :
        (f : Filter) (obj : e.New) (scoped : Bool) (db db' : t.Connection) (n : ℕ) {row : e.Row}
        → noscope e m t s f db ≡ (ok n, db')
        → first_by_value e (e.value obj) (laws.rows db) ≡ some row
        → sl.holds f.query row ≡ true
        → (n ≡ length (filter (sl.holds f.query) (laws.rows db)))
          × (first_by_value e (e.value obj) (laws.rows db') ≡ some (m.with_unscoped true row))
          × ((insert_struct e t obj scoped db').1 ≡ db')
    unfolding noscope
    noscope-insert_struct f obj scoped db db' n {row} done known hit =
        let wrote = executed-ok db (s.set_unscoped (sql f.query) true db) done in
        let (count, written) = sl.unscoped_rows (sql f.query) true db wrote in
        let flagged : rescoped (sl.holds f.query) true row ≡ m.with_unscoped true row = rw hit in
        let there : first_by_value e (e.value obj) (laws.rows db')
            ≡ some (m.with_unscoped true row) =
          ap (first_by_value e (e.value obj)) written
          ∙ first-rescoped (sl.holds f.query) true (e.value obj) (laws.rows db) known
          ∙ ap some flagged in
        (count, there, out_of_scope obj scoped db' there (ml.scoped-with_unscoped true row))
