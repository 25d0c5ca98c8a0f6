-- ===== src/Autonoscope/Sort.antt =====
-- Laws of the stable sort by descending precision.
use mathlib.Core.List.{Perm}
use mathlib.Core.Path.{subst}
use mathlib.Core.List.Perm
use sn0int.Prelude.{
  ℕ, ◌≤◌, ◌<◌, Bool, true, false, List, [], ◌∷◌, ◌++◌, ◌≡◌, refl, sym, ap, ◌∙◌, arith, leb, ltb,
  ◌⊎◌, if◌then◌else◌, All, All-filter, filter, inl, inr, Bool-cases,
}
use sn0int.Autonoscope.Rule.{sort_precision_desc, insert_by, sort_by}

module _ {ℓ} {T : Type ℓ} (precision : T → ℕ) where
  abbrev pub sort : List T → List T
  sort xs = sort_by (sort_precision_desc precision) xs

  abbrev insert : T → List T → List T
  insert x xs = insert_by (sort_precision_desc precision) x xs

  -- Each element is at least as precise as all that follow it.
  abbrev pub Descends : List T → Type 0
  Descends [] = Unit
  Descends (x ∷ xs) = All (λ y. precision y ≤ precision x) xs × Descends xs

  All-le :
      (m : ℕ) (x : T) (ys : List T)
      → precision x ≤ m
      → All (λ y. precision y ≤ precision x) ys
      → All (λ y. precision y ≤ m) ys
  All-le m x [] h k = tt
  All-le m x (y ∷ ys) h k = (omega arith, All-le m x ys h k.1)

  insert_cases :
      (x y : T) (ys : List T)
      → ((precision y ≤ precision x) × (insert x (y ∷ ys) ≡ x ∷ y ∷ ys))
        ⊎ ((precision x < precision y) × (insert x (y ∷ ys) ≡ y ∷ insert x ys))
  insert_cases x y ys = elim (Bool-cases (leb (precision y) (precision x))) [
    | inl h ↦ inl (ground arith, unfold insert_by in ground arith)
    | inr h ↦ inr (ground arith, unfold insert_by in ground arith)
  ]

  All-insert {κ} : (P : T → Type κ) (x : T) (ys : List T) → P x → All P ys → All P (insert x ys)
  unfolding insert_by
  All-insert P x [] p h = (p, tt)
  All-insert P x (y ∷ ys) p (q, h) = elim (insert_cases x y ys) [
    | inl (le, e) ↦ subst (All P) (sym e) (p, (q, h))
    | inr (lt, e) ↦ subst (All P) (sym e) (q, All-insert P x ys p h)
  ]

  insert-Descends : (x : T) (ys : List T) → Descends ys → Descends (insert x ys)
  unfolding insert_by
  insert-Descends x [] h = (tt, tt)
  insert-Descends x (y ∷ ys) (h, d) = elim (insert_cases x y ys) [
    | inl (le, e) ↦ subst Descends (sym e) ((le, All-le _ y ys le h), (h, d))
    | inr (lt, e) ↦
        subst Descends (sym e) (All-insert _ x ys (omega arith) h, insert-Descends x ys d)
  ]

  -- The sort orders by descending precision.
  pub sort-Descends : (xs : List T) → Descends (sort xs)
  unfolding sort_by
  sort-Descends [] = tt
  sort-Descends (x ∷ xs) = insert-Descends x (sort xs) (sort-Descends xs)

  insert-perm : (x : T) (ys : List T) → Perm (insert x ys) (x ∷ ys)
  unfolding insert_by
  insert-perm x [] = Perm.refl _
  insert-perm x (y ∷ ys) = elim (insert_cases x y ys) [
    | inl (le, e) ↦ rw e (Perm.refl _)
    | inr (lt, e) ↦ rw e (Perm.trans (Perm.cons y (insert-perm x ys)) (Perm.swap _ _ _))
  ]

  pub sort-perm : (xs : List T) → Perm (sort xs) xs
  unfolding sort_by
  sort-perm [] = Perm.refl _
  sort-perm (x ∷ xs) = Perm.trans (insert-perm x (sort xs)) (Perm.cons x (sort-perm xs))

  insert_of_le :
      (x : T) (ys : List T) → All (λ y. precision y ≤ precision x) ys → insert x ys ≡ x ∷ ys
  unfolding insert_by
  insert_of_le x [] h = refl
  insert_of_le x (y ∷ ys) h = elim (insert_cases x y ys) [
    | inl (le, e) ↦ e
    | inr (lt, e) ↦ absurd (omega (arith, h.0))
  ]

  -- A sorted list is left as it is.
  pub sort_of_Descends : (xs : List T) → Descends xs → sort xs ≡ xs
  unfolding sort_by
  sort_of_Descends [] h = refl
  sort_of_Descends (x ∷ xs) (h, d) = rw (sort_of_Descends xs d) (insert_of_le x xs h)

  pub sort-sort : (xs : List T) → sort (sort xs) ≡ sort xs
  sort-sort xs = sort_of_Descends (sort xs) (sort-Descends xs)

  -- The sort is stable: it commutes with a filter.
  filter-insert :
      (q : T → Bool) (x : T) (ys : List T)
      → Descends ys
      → filter q (insert x ys) ≡ (if q x then insert x (filter q ys) else filter q ys)
  unfolding insert_by
  filter-insert q x [] h = ground arith
  filter-insert q x (y ∷ ys) (h, d) = elim (insert_cases x y ys) [
    | inl (le, e) ↦ rw e (
        ground (
          arith,
          insert_of_le x (filter q (y ∷ ys)) (All-filter _ q (y ∷ ys) (le, All-le _ y ys le h)),
        ))
    | inr (lt, e) ↦ rw e (ground (arith, filter-insert q x ys d))
  ]

  pub filter-sort : (q : T → Bool) (xs : List T) → filter q (sort xs) ≡ sort (filter q xs)
  unfolding sort_by
  filter-sort q [] = refl
  filter-sort q (x ∷ xs) =
      filter-insert q x (sort xs) (sort-Descends xs) ∙ ground (arith, filter-sort q xs)

  -- Insertion behind the equals: what a sort does with a new last element.
  insert_last : T → List T → List T
  insert_last x [] = x ∷ []
  insert_last x (y ∷ ys) =
      let later = y ∷ insert_last x ys in
      if ltb (precision y) (precision x) then x ∷ y ∷ ys else later

  insert-insert_last :
      (a x : T) (ys : List T) → insert a (insert_last x ys) ≡ insert_last x (insert a ys)
  unfolding insert_by insert_last
  insert-insert_last a x [] = ground arith
  insert-insert_last a x (y ∷ ys) = ground (arith, insert-insert_last a x ys)

  sort-concat : (xs : List T) (x : T) → sort (xs ++ x ∷ []) ≡ insert_last x (sort xs)
  unfolding sort_by insert_by insert_last
  sort-concat [] x = refl
  sort-concat (y ∷ ys) x = rw (sort-concat ys x) (insert-insert_last y x (sort ys))

  -- To add to a sorted list and sort again is to sort once.
  pub sort-sort_concat : (xs : List T) (x : T) → sort (sort xs ++ x ∷ []) ≡ sort (xs ++ x ∷ [])
  sort-sort_concat xs x =
      sort-concat (sort xs) x
      ∙ ap (insert_last x) (sort_of_Descends (sort xs) (sort-Descends xs))
      ∙ sym (sort-concat xs x)

  pub Descends-filter : (q : T → Bool) (xs : List T) → Descends xs → Descends (filter q xs)
  Descends-filter q [] h = tt
  Descends-filter q (x ∷ xs) (h, d) = keep (q x) (Descends-filter q xs d)
    where
      keep :
          (b : Bool)
          → Descends (filter q xs)
          → Descends (if b then x ∷ filter q xs else filter q xs)
      keep true k = (All-filter _ q xs h, k)
      keep false k = k
