-- ===== src/Prelude/Texts.antt =====
-- Text as its list of code points, with the operations of `str` that the program uses.
use Prim.Native.Char.{code}
use Prim.Native.Nat.{ℕ, zero, suc}
use Prim.Native.String.{String}
use mathlib.Core.Path.{◌≡◌, refl, ap}
use mathlib.Core.Logic.{◌↔◌, ◌≢◌}
use mathlib.Core.Option
use mathlib.Core.Option.{Option, none, some}
use mathlib.Core.Bool.{Bool, true, false, not, ◌&&◌}
use mathlib.Core.List.{List, [], ◌∷◌, ◌++◌}
use native.Mathlib.Omega.{arith}
use sn0int.Prelude.Tests.{◌==◌, if◌then◌else◌}
use sn0int.Prelude.Lists.{take-length_append, drop-length_append, filter, take, drop, length, All}

abbrev pub Text : Type 0
Text = List ℕ

abbrev pub codes : String → Text
codes String.[] = []
codes (String.◌∷◌ c s) = code c ∷ codes s

-- `==` on strings.
unfoldable pub text_eq : Text → Text → Bool
text_eq [] [] = true
text_eq (x ∷ a) (y ∷ b) = x == y && text_eq a b
text_eq _ _ = false

pub text_eq_iff : (a b : Text) → (text_eq a b ≡ true) ↔ (a ≡ b)
unfolding text_eq
text_eq_iff (x ∷ a) (y ∷ b) = ground (arith, text_eq_iff a b)
text_eq_iff _ _ = ground arith

pub text_eq_refl : (a : Text) → text_eq a a ≡ true
text_eq_refl a = (text_eq_iff a a).1 refl

abbrev pub is_empty : Text → Bool
is_empty [] = true
is_empty (_ ∷ _) = false

abbrev grow : ℕ → List Text → List Text
grow x [] = (x ∷ []) ∷ []
grow x (part ∷ parts) = (x ∷ part) ∷ parts

-- `str::split` at a character.
unfoldable pub split : ℕ → Text → List Text
split sep [] = [] ∷ []
split sep (x ∷ s) = let parts = split sep s in if x == sep then [] ∷ parts else grow x parts

-- `.filter(|x| !x.is_empty())`
abbrev pub nonempty : List Text → List Text
nonempty = filter (λ part. not (is_empty part))

-- `str::find` at a character, in characters.
unfoldable pub find : ℕ → Text → Option ℕ
find c [] = none
find c (x ∷ s) = let later = Option.map suc (find c s) in if x == c then some 0 else later

-- What lies before the first match, and what it is found by.
pub find_sound :
    (c : ℕ) (s : Text) (i : ℕ)
    → find c s ≡ some i
    → (s ≡ take i s ++ c ∷ drop 1 (drop i s)) × All (λ x. x ≢ c) (take i s)
unfolding find
find_sound c [] i e = absurd (cc)
find_sound c (x ∷ s) zero e = let here : x ≡ c = ground arith in (ap (λ d. d ∷ s) here, tt)
find_sound c (x ∷ s) (suc i) e =
    let later : find c s ≡ some i = ground arith in
    let other : x ≢ c = ground arith in
    let (same, free) = find_sound c s i later in (ap (◌∷◌ x) same, (other, free))

pub find-none : (c : ℕ) (s : Text) → All (λ x. x ≢ c) s → find c s ≡ none
unfolding find
find-none c [] h = refl
find-none c (x ∷ s) (h, hs) = ground (arith, find-none c s hs)

pub find-append :
    (c : ℕ) (a rest : Text) → All (λ x. x ≢ c) a → find c (a ++ c ∷ rest) ≡ some (length a)
unfolding find
find-append c [] rest h = ground arith
find-append c (x ∷ a) rest (h, hs) = ground (arith, find-append c a rest hs)

-- `split_at` at what `find` found, and the second half without the character itself.
abbrev pub cut_at : Text → Option ℕ → Option (Text × Text)
cut_at s none = none
cut_at s (some i) = some (take i s, drop 1 (drop i s))

pub cut_at_iff :
    (c : ℕ) (s a b : Text)
    → (cut_at s (find c s) ≡ some (a, b)) ↔ ((s ≡ a ++ c ∷ b) × All (λ x. x ≢ c) a)
cut_at_iff c s a b = (to (find c s) refl, from)
  where
    halves : Text × Text → Option (Text × Text) → Text × Text
    halves p none = p
    halves _ (some p) = p

    to :
        (found : Option ℕ)
        → find c s ≡ found
        → cut_at s found ≡ some (a, b)
        → (s ≡ a ++ c ∷ b) × All (λ x. x ≢ c) a
    to none e h = absurd (cc)
    to (some i) e h =
        let (same, free) = find_sound c s i e in
        let front : take i s ≡ a = ap (λ o. (halves (a, b) o).0) h in
        let back : drop 1 (drop i s) ≡ b = ap (λ o. (halves (a, b) o).1) h in
        (rw (← front, ← back) same, rw (← front) free)

    from : ((s ≡ a ++ c ∷ b) × All (λ x. x ≢ c) a) → cut_at s (find c s) ≡ some (a, b)
    from (same, free) =
        rw same (rw (find-append c a b free) (rw (take-length_append, drop-length_append)))
