-- ===== src/Maps.antt =====
-- `HashMap` with strings for keys, as the list of its entries in one of its orders.
use sn0int.Prelude.{
  false, not, List, [], ◌∷◌, Option, none, some, Text, text_eq, text_eq_iff, text_eq_refl, filter,
  if◌then◌else◌, ◌≡◌, ◌≢◌, refl, arith, Bool-cases, inl, inr,
}

abbrev pub Map {ℓ} : Type ℓ → Type ℓ
Map A = List (Text × A)

module _ {ℓ} {A : Type ℓ} where
  unfoldable pub lookup : Text → Map A → Option A
  lookup key [] = none
  lookup key (entry ∷ map) =
      let later = lookup key map in if text_eq entry.0 key then some entry.1 else later

  unfoldable pub store : Text → A → Map A → Map A
  store key x [] = (key, x) ∷ []
  store key x (entry ∷ map) =
      let later = store key x map in if text_eq entry.0 key then (key, x) ∷ map else entry ∷ later

  unfoldable pub remove : Text → Map A → Map A
  remove key map = filter (λ entry. not (text_eq entry.0 key)) map

  pub lookup-store_same : (key : Text) (x : A) (map : Map A) → lookup key (store key x map) ≡ some x
  unfolding lookup store
  lookup-store_same key x [] = rw (text_eq_refl key)
  lookup-store_same key x (entry ∷ map) = elim (Bool-cases (text_eq entry.0 key)) [
    | inl same ↦ rw same (rw (text_eq_refl key))
    | inr other ↦ rw other (rw other (lookup-store_same key x map))
  ]

  pub lookup-store_other :
      (key other : Text) (x : A) (map : Map A)
      → key ≢ other
      → lookup other (store key x map) ≡ lookup other map
  unfolding lookup store
  lookup-store_other key other x [] ne = ground (arith, text_eq_iff key other)
  lookup-store_other key other x (entry ∷ map) ne = elim (Bool-cases (text_eq entry.0 key)) [
    | inl same ↦
        ground (arith, text_eq_iff key other, text_eq_iff entry.0 key, text_eq_iff entry.0 other)
    | inr differs ↦ rw differs (ground (arith, lookup-store_other key other x map ne))
  ]

  pub lookup-remove_same : (key : Text) (map : Map A) → lookup key (remove key map) ≡ none
  unfolding lookup remove
  lookup-remove_same key [] = refl
  lookup-remove_same key (entry ∷ map) = elim (Bool-cases (text_eq entry.0 key)) [
    | inl same ↦ rw same (lookup-remove_same key map)
    | inr other ↦ rw other (rw other (lookup-remove_same key map))
  ]

  pub lookup-remove_other :
      (key other : Text) (map : Map A)
      → key ≢ other
      → lookup other (remove key map) ≡ lookup other map
  unfolding lookup remove
  lookup-remove_other key other [] ne = refl
  lookup-remove_other key other (entry ∷ map) ne = elim (Bool-cases (text_eq entry.0 key)) [
    | inl same ↦
        let miss : text_eq entry.0 other ≡ false =
          ground (arith, text_eq_iff entry.0 key, text_eq_iff entry.0 other) in
        rw same (rw miss (lookup-remove_other key other map ne))
    | inr differs ↦ rw differs (ground (arith, lookup-remove_other key other map ne))
  ]
