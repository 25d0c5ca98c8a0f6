-- ===== src/Autonoscope/Rule.antt =====
-- src/autonoscope/mod.rs: the kinds of rules, a rule with its flag, and the order of rules.
use Prim.Native.Nat.{compare, Ordering}
use sn0int.Prelude.{
  ℕ, Bool, List, [], ◌∷◌, Text, codes, text_eq, text_eq_iff, if◌then◌else◌, Result, ok, err,
  message, ◌≡◌, ◌↔◌, refl, arith,
}

pub data RuleType : Type 0 where
  domain ip url : RuleType

unfoldable pub as_str : RuleType → Text
as_str domain = codes "domain"
as_str ip = codes "ip"
as_str url = codes "url"

unfoldable pub list_all : List Text
list_all = as_str domain ∷ as_str ip ∷ as_str url ∷ []

-- `RuleType::from_str`
unfoldable pub from_str : Text → Result RuleType
from_str s =
    if text_eq s (codes "domain")
    then ok domain
    else if text_eq s (codes "ip")
    then ok ip
    else if text_eq s (codes "url")
    then ok url
    else err (message "unknown rule type")

pub from_str-as_str : (t : RuleType) → from_str (as_str t) ≡ ok t
unfolding from_str as_str text_eq
from_str-as_str domain = refl
from_str-as_str ip = refl
from_str-as_str url = refl

pub as_str_of_from_str : (s : Text) {t : RuleType} → from_str s ≡ ok t → as_str t ≡ s
unfolding from_str as_str
as_str_of_from_str s h =
    ground (
      arith,
      text_eq_iff s (codes "domain"),
      text_eq_iff s (codes "ip"),
      text_eq_iff s (codes "url"),
    )

-- A text is parsed as a kind of rule exactly if it is the name of that kind.
pub from_str_iff : (s : Text) (t : RuleType) → (from_str s ≡ ok t) ↔ (as_str t ≡ s)
from_str_iff s t = (λ h. as_str_of_from_str s h, λ e. rw (← e) (from_str-as_str t))

pub record Rule {ℓ} (T : Type ℓ) : Type ℓ where
  pub rule : T
  pub scoped : Bool

-- `Ordering::reverse`
abbrev pub reverse_ordering : Ordering → Ordering
reverse_ordering Ordering.lt = Ordering.gt
reverse_ordering Ordering.eq = Ordering.eq
reverse_ordering Ordering.gt = Ordering.lt

module _ {ℓ} {T : Type ℓ} where
  -- The implementation of `RulePrecision` is the argument.
  abbrev pub sort_precision_desc : (T → ℕ) → T → T → Ordering
  sort_precision_desc precision a b = reverse_ordering (compare (precision a) (precision b))

  -- `sort_by`, the standard library's stable sort.
  unfoldable pub insert_by : (T → T → Ordering) → T → List T → List T
  insert_by cmp x [] = x ∷ []
  insert_by cmp x (y ∷ ys) =
      let later = y ∷ insert_by cmp x ys in
      let sooner = x ∷ y ∷ ys in elim (cmp x y) [ Ordering.gt ↦ later | _ ↦ sooner ]

  unfoldable pub sort_by : (T → T → Ordering) → List T → List T
  sort_by cmp [] = []
  sort_by cmp (x ∷ xs) = insert_by cmp x (sort_by cmp xs)
