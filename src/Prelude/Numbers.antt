-- ===== src/Prelude/Numbers.antt =====
-- How the standard library prints and reads decimal numbers.
use Prim.Native.Nat.{ℕ, zero, suc, ◌+◌, ◌-◌, ◌*◌, ◌/◌, ◌%◌, ◌≤◌, ◌<◌}
use mathlib.Core.Path.{◌≡◌, refl}
use mathlib.Core.Logic.{inl, inr}
use mathlib.Core.Option.{Option, none, some}
use mathlib.Core.Bool.{true, ◌&&◌}
use mathlib.Core.List.{[], ◌∷◌, ◌++◌}
use native.Mathlib.Omega.{arith}
use sn0int.Prelude.Tests.{ltb, leb, ◌==◌, if◌then◌else◌, Bool-cases, lt→ltb}
use sn0int.Prelude.Lists.{length}
use sn0int.Prelude.Texts.{Text}
use sn0int.Prelude.Int.{ℤ, pos, negsuc}

-- The digits of a number before `rest`; a number has at most as many digits as it counts, and one.
unfoldable pub digits : ℕ → ℕ → Text → Text
digits zero n rest = rest
digits (suc fuel) n rest =
    let more = digits fuel (n / 10) ((b'0' + n % 10) ∷ rest) in
    if ltb n 10 then (b'0' + n) ∷ rest else more

-- `Display` of an unsigned number.
unfoldable pub decimal : ℕ → Text
unfolding digits
decimal n = digits (suc n) n []

-- `str::repeat` of one character.
abbrev pub replicate : ℕ → ℕ → Text
replicate zero c = []
replicate (suc n) c = c ∷ replicate n c

-- `{:width}` of a number, filled on the left.
unfoldable pub padded : ℕ → ℕ → ℕ → Text
unfolding decimal
padded fill width n = let s = decimal n in replicate (width - length s) fill ++ s

-- The number that digits stand for, after `n`.
unfoldable pub digits_value : ℕ → Text → Option ℕ
digits_value n [] = some n
digits_value n (c ∷ s) =
    let value = digits_value (n * 10 + (c - b'0')) s in
    if leb b'0' c && leb c b'9' then value else none

abbrev unsigned : Text → Option ℕ
unsigned [] = none
unsigned (c ∷ s) = digits_value 0 (c ∷ s)

abbrev positive : Option ℕ → Option ℤ
positive none = none
positive (some n) = if ltb n 2147483648 then some (pos n) else none

abbrev negative : Option ℕ → Option ℤ
negative none = none
negative (some zero) = some (pos 0)
negative (some (suc n)) = if ltb n 2147483648 then some (negsuc n) else none

-- `FromStr` of `i32`, where any error is `none`.
unfoldable pub parse_i32 : Text → Option ℤ
unfolding digits_value
parse_i32 [] = none
parse_i32 (c ∷ s) =
    if c == b'-'
    then negative (unsigned s)
    else if c == b'+'
    then positive (unsigned s)
    else positive (unsigned (c ∷ s))

-- A number below 100 is two characters wide, none of them a control character.
pub two_wide :
    (fill n : ℕ)
    → 32 ≤ fill
    → n < 100
    → (a b : ℕ) × (padded fill 2 n ≡ a ∷ b ∷ []) × (32 ≤ a) × (32 ≤ b)
unfolding padded decimal digits
two_wide fill zero f h = (fill, b'0', refl, f, omega arith)
two_wide fill (suc n) f h =
    let tens : ltb (suc n / 10) 10 ≡ true = lt→ltb (suc n / 10) 10 (omega arith) in
    elim (Bool-cases (ltb (suc n) 10)) [
      | inl one ↦ (fill, b'0' + suc n, rw one, f, omega arith)
      | inr two ↦ (b'0' + suc n / 10, b'0' + suc n % 10, rw two (rw tens), omega arith, omega arith)
    ]
