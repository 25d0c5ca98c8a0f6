-- ===== src/Prelude/Results.antt =====
-- Errors as values: `failure::Error` is a message, with the value that it shows.
use Prim.Native.Nat.{ℕ}
use Prim.Native.String.{String}
use mathlib.Core.Path.{◌≡◌, refl, ap}
use sn0int.Prelude.Texts.{Text}

pub data Error : Type 0 where
  message : String → Error
  about : String → Text → Error
  about_two : String → Text → Text → Error
  external : ℕ → Error

pub data Result {ℓ} (T : Type ℓ) : Type ℓ where
  ok : (value : T) → Result T
  err : (cause : Error) → Result T

-- The operator `?`: an error ends the function.
abbrev pub ◌>>=◌ {ℓ κ} : {T : Type ℓ} {O : Type κ} → Result T → (T → Result O) → Result O
err cause >>= rest = err cause
ok value >>= rest = rest value

infixl 5 ◌>>=◌
-- What an operation that returned with success went through.
pub >>=-eq-ok {ℓ κ} :
    {T : Type ℓ} {O : Type κ} (first : Result T) (rest : T → Result O) {out : O}
    → first >>= rest ≡ ok out
    → (value : T) × (first ≡ ok value) × (rest value ≡ ok out)
>>=-eq-ok (err cause) rest e = absurd (cc)
>>=-eq-ok (ok value) rest e = (value, refl, e)

pub ok-injective {ℓ} : {A : Type ℓ} {a b : A} → ok a ≡ ok b → a ≡ b
ok-injective {a} h = ap (λ r. elim r [ ok x ↦ x | err _ ↦ a ]) h
