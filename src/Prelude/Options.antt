-- ===== src/Prelude/Options.antt =====
-- Results of code that may panic: a panic is `none`, and ends what called it.
use mathlib.Core.Path.{◌≡◌, refl}
use mathlib.Core.Option.{Option, none, some}

infixl 5 ◌>>=◌
abbrev pub ◌>>=◌ {ℓ κ} : {T : Type ℓ} {O : Type κ} → Option T → (T → Option O) → Option O
none >>= rest = none
some value >>= rest = rest value

pub >>=-eq-some {ℓ κ} :
    {T : Type ℓ} {O : Type κ} (first : Option T) (rest : T → Option O) {out : O}
    → first >>= rest ≡ some out
    → (value : T) × (first ≡ some value) × (rest value ≡ some out)
>>=-eq-some none rest e = absurd (cc)
>>=-eq-some (some value) rest e = (value, refl, e)
