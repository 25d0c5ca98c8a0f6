-- ===== src/Db/Insert/Frame.antt =====
-- What an insertion leaves in the table.
use sn0int.Prelude.{
  ◌==◌, false, List, [], ◌∷◌, ◌++◌, map, Option, none, some, Text, text_eq, text_eq_refl, ◌≡◌, refl,
  Bool-cases, inl, inr,
}
use sn0int.Models.Entity.{Entity, EntityLaws}
use sn0int.Crates.Table.{first_by_value, updated}

module _ (e : Entity) (l : EntityLaws e) where
  pub first-concat_same :
      (rows : List e.Row) (row : e.Row)
      → first_by_value e (e.row_value row) rows ≡ none
      → first_by_value e (e.row_value row) (rows ++ row ∷ []) ≡ some row
  unfolding first_by_value
  first-concat_same [] row h = rw (text_eq_refl (e.row_value row))
  first-concat_same (r ∷ rows) row h =
      elim (Bool-cases (text_eq (e.row_value r) (e.row_value row))) [
        | inl same ↦ absurd (cc (rw same at h))
        | inr other ↦ rw other (first-concat_same rows row (rw other at h))
      ]

  pub first-concat_other :
      (query : Text) (rows : List e.Row) (row : e.Row)
      → text_eq (e.row_value row) query ≡ false
      → first_by_value e query (rows ++ row ∷ []) ≡ first_by_value e query rows
  unfolding first_by_value
  first-concat_other query [] row h = rw h
  first-concat_other query (r ∷ rows) row h = elim (Bool-cases (text_eq (e.row_value r) query)) [
    | inl same ↦ rw same
    | inr other ↦ rw other (first-concat_other query rows row h)
  ]

  pub updated-value : (u : e.Update) (row : e.Row) → e.row_value (updated e u row) ≡ e.row_value row
  updated-value u row = elim (Bool-cases (e.id row == e.update_id u)) [
    | inl same ↦ rw same (l.value-applied u row)
    | inr other ↦ rw other
  ]

  abbrev pub updated_first : e.Update → Option e.Row → Option e.Row
  updated_first u none = none
  updated_first u (some row) = some (updated e u row)

  -- An update keeps the order of the rows and their values.
  pub first-map :
      (query : Text) (u : e.Update) (rows : List e.Row)
      → first_by_value e query (map (updated e u) rows)
        ≡ updated_first u (first_by_value e query rows)
  unfolding first_by_value
  first-map query u [] = refl
  first-map query u (r ∷ rows) =
      rw (updated-value u r) (elim (Bool-cases (text_eq (e.row_value r) query)) [
        | inl same ↦ rw same
        | inr other ↦ rw other (first-map query u rows)
      ])
