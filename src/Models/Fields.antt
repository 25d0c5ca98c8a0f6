-- ===== src/Models/Fields.antt =====
-- src/models/mod.rs: how the columns of an update are found from what is given and what is stored.
use sn0int.Prelude.{
  ◌||◌, ◌≤◌, ◌⊎◌, leb, arith, inl, inr, Bool-cases, ℕ, ◌==◌, ==_iff, Bool, true, false, not, Option,
  none, some, Text, text_eq, text_eq_iff, if◌then◌else◌, ◌≡◌, ◌↔◌, refl, sym, ap,
}

-- `PartialEq`, where it is the equality of values.
pub record Equality (A : Type 0) : Type 0 where
  pub eq : A → A → Bool
  pub eq_iff : (a b : A) → (eq a b ≡ true) ↔ (a ≡ b)

abbrev pub texts : Equality Text
texts = record { eq = text_eq; eq_iff = text_eq_iff }

abbrev pub numbers : Equality ℕ
numbers = record { eq = λ a b. a == b; eq_iff = λ a b. ==_iff a b }

abbrev pub flag_eq : Bool → Bool → Bool
flag_eq true true = true
flag_eq false false = true
flag_eq _ _ = false

pub flag_eq_iff : (a b : Bool) → (flag_eq a b ≡ true) ↔ (a ≡ b)
flag_eq_iff true true = (λ _. refl, λ _. refl)
flag_eq_iff false false = (λ _. refl, λ _. refl)
flag_eq_iff true false = (λ h. absurd (cc), λ h. absurd (cc))
flag_eq_iff false true = (λ h. absurd (cc), λ h. absurd (cc))

abbrev pub flags : Equality Bool
flags = record { eq = flag_eq; eq_iff = flag_eq_iff }

pub not-not : (b : Bool) → not (not b) ≡ b
not-not true = refl
not-not false = refl

abbrev pub is_some {ℓ} : {A : Type ℓ} → Option A → Bool
is_some none = false
is_some (some _) = true

-- What an update writes into a column: nothing where it has no value for it.
abbrev pub written {ℓ} : {A : Type ℓ} → Option A → Option A → Option A
written none old = old
written (some x) old = some x

pub written_same {ℓ} : {A : Type ℓ} (x : Option A) → written x x ≡ x
written_same none = refl
written_same (some a) = refl

pub written-written {ℓ} :
    {A : Type ℓ} (x old : Option A) → written x (written x old) ≡ written x old
written-written none old = refl
written-written (some a) old = refl

module _ {A : Type 0} (e : Equality A) where
  abbrev pub opt_eq : Option A → Option A → Bool
  opt_eq none none = true
  opt_eq (some a) (some b) = e.eq a b
  opt_eq _ _ = false

  -- `Upsertable::upsert_opt`
  unfoldable pub upsert_opt : Option A → Option A → Option A
  upsert_opt insert existing = if not (opt_eq insert existing) then insert else none

  -- `Updateable::clear_if_equal`
  unfoldable pub clear_if_equal : Option A → Option A → Option A
  clear_if_equal update existing = if opt_eq update existing then none else update

  -- An update by `upsert_opt` leaves what is given, and what was stored where nothing is given.
  pub written-upsert_opt :
      (insert existing : Option A)
      → written (upsert_opt insert existing) existing ≡ written insert existing
  unfolding upsert_opt
  written-upsert_opt none none = refl
  written-upsert_opt none (some b) = refl
  written-upsert_opt (some a) none = refl
  written-upsert_opt (some a) (some b) = elim (Bool-cases (e.eq a b)) [
    | inl same ↦ rw same (ap some (sym ((e.eq_iff a b).0 same)))
    | inr other ↦ rw other
  ]

  -- There is something to write exactly if that changes the column.
  pub upsert_opt-none_iff :
      (insert existing : Option A)
      → (is_some (upsert_opt insert existing) ≡ false) ↔ (written insert existing ≡ existing)
  unfolding upsert_opt
  upsert_opt-none_iff none none = (λ _. refl, λ _. refl)
  upsert_opt-none_iff none (some b) = (λ _. refl, λ _. refl)
  upsert_opt-none_iff (some a) none = (λ h. absurd (cc), λ h. absurd (cc))
  upsert_opt-none_iff (some a) (some b) = elim (Bool-cases (e.eq a b)) [
    | inl same ↦ rw same (λ _. ap some ((e.eq_iff a b).0 same), λ _. refl)
    | inr other ↦ rw other (
      λ h. absurd (cc),
      λ h. absurd (cc ((e.eq_iff a b).1 (ap (λ o. elim o [ none ↦ a | some x ↦ x ]) h))),
    )
  ]

  -- The two ways to find an update, by `upsert` and by `changeset`, agree on equality.
  pub clear_if_equal-upsert_opt :
      (update existing : Option A) → clear_if_equal update existing ≡ upsert_opt update existing
  unfolding clear_if_equal upsert_opt
  clear_if_equal-upsert_opt update existing = elim (Bool-cases (opt_eq update existing)) [
    | inl same ↦ rw same
    | inr other ↦ rw other
  ]

-- With the order of the type: a value that is not later, or not earlier, is cleared.
module _ {A : Type 0} (le : A → A → Bool) where
  unfoldable pub clear_if_lower_or_equal : Option A → Option A → Option A
  clear_if_lower_or_equal (some new) (some old) = if le new old then none else some new
  clear_if_lower_or_equal update _ = update

  unfoldable pub clear_if_greater_or_equal : Option A → Option A → Option A
  clear_if_greater_or_equal (some new) (some old) = if le old new then none else some new
  clear_if_greater_or_equal update _ = update

-- A flag that is not set, of several.
pub or-false : {a b : Bool} → (a || b) ≡ false → (a ≡ false) × (b ≡ false)
or-false {a} {b} h = (ground (arith, h), ground (arith, h))

-- Of two instants, what is written is never the earlier one, or never the later one.
pub written-lower :
    (update : Option ℕ) (old new : ℕ)
    → written (clear_if_lower_or_equal leb update (some old)) (some old) ≡ some new
    → (old ≤ new) × ((update ≡ some new) ⊎ (new ≡ old))
unfolding clear_if_lower_or_equal
written-lower none old new h = ground (arith, h)
written-lower (some x) old new h = elim (Bool-cases (leb x old)) [
  | inl le ↦ let k = rw le at h in ground (arith, k)
  | inr gt ↦ let k = rw gt at h in ground (arith, k)
]

pub written-greater :
    (update : Option ℕ) (old new : ℕ)
    → written (clear_if_greater_or_equal leb update (some old)) (some old) ≡ some new
    → (new ≤ old) × ((update ≡ some new) ⊎ (new ≡ old))
unfolding clear_if_greater_or_equal
written-greater none old new h = ground (arith, h)
written-greater (some x) old new h = elim (Bool-cases (leb old x)) [
  | inl le ↦ let k = rw le at h in ground (arith, k)
  | inr gt ↦ let k = rw gt at h in ground (arith, k)
]
