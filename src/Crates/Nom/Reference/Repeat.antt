-- ===== src/Crates/Nom/Reference/Repeat.antt =====
-- The parser that repeats another, of the implementation that has the documented behaviour.
use sn0int.Prelude.{
  ℕ, zero, suc, ◌<◌, ltb, if◌then◌else◌, List, [], ◌∷◌, Text, length, ◌≡◌, refl, ap, ◌∙◌, arith,
  Bool-cases, inl, inr, lt→ltb,
}
use sn0int.Crates.Nom.{IResult, done, failed, incomplete, error, failure, and_then}

-- `fold_many0`: an item that takes nothing is an error.
unfoldable pub prepend : {A : Type 0} → A → IResult (List A) → IResult (List A)
prepend a r = and_then r (λ rest items. done rest (a ∷ items))

-- What follows one item: `more` reads the items behind it.
unfoldable pub follow :
    {A : Type 0} → (Text → IResult (List A)) → Text → IResult A → IResult (List A)
follow more s (failed error) = done s []
follow more s (failed incomplete) = failed incomplete
follow more s (failed failure) = failed failure
follow more s (done rest a) =
    let items = more rest in if ltb (length rest) (length s) then prepend a items else failed error

module _ {A : Type 0} (p : Text → IResult A) where
  unfoldable pub many : ℕ → Text → IResult (List A)
  many zero s = failed error
  many (suc fuel) s = follow (λ rest. many fuel rest) s (p s)

  many-more :
      (fuel : ℕ) (s rest : Text) (a : A)
      → p s ≡ done rest a
      → length rest < length s
      → many (suc fuel) s ≡ prepend a (many fuel rest)
  unfolding many follow
  many-more fuel s rest a e h =
      ap (follow (λ rest. many fuel rest) s) e ∙ rw (lt→ltb (length rest) (length s) h) refl

  follow-same :
      (f g : Text → IResult (List A)) (s : Text) (r : IResult A)
      → ((rest : Text) → length rest < length s → f rest ≡ g rest)
      → follow f s r ≡ follow g s r
  unfolding follow
  follow-same f g s (failed error) h = refl
  follow-same f g s (failed incomplete) h = refl
  follow-same f g s (failed failure) h = refl
  follow-same f g s (done rest a) h = elim (Bool-cases (ltb (length rest) (length s))) [
    | inl less ↦ rw less (ap (prepend a) (h rest (ground arith)))
    | inr more ↦ rw more refl
  ]

  -- Any fuel above the length of the input gives the same.
  many_fuel : (f g : ℕ) (s : Text) → length s < f → length s < g → many f s ≡ many g s
  unfolding many
  many_fuel zero g s hf hg = absurd (omega arith)
  many_fuel (suc f) zero s hf hg = absurd (omega arith)
  many_fuel (suc f) (suc g) s hf hg =
      follow-same (λ r. many f r) (λ r. many g r) s (p s)
        (λ rest h. many_fuel f g rest (omega arith) (omega arith))

  unfoldable pub fold_many0 : Text → IResult (List A)
  fold_many0 s = many (suc (length s)) s

  pub fold_many0_stop : (s : Text) → p s ≡ failed error → fold_many0 s ≡ done s []
  unfolding fold_many0 many follow
  fold_many0_stop s e = ap (follow (λ rest. many (length s) rest) s) e

  pub fold_many0_more :
      (s rest : Text) (a : A)
      → p s ≡ done rest a
      → length rest < length s
      → fold_many0 s ≡ prepend a (fold_many0 rest)
  unfolding fold_many0
  fold_many0_more s rest a e h =
      many-more (length s) s rest a e h
      ∙ ap (prepend a) (many_fuel (length s) (suc (length rest)) rest h (omega arith))
