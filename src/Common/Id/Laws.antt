-- ===== src/Common/Id/Laws.antt =====
-- Parsing and printing module names.
use mathlib.Core.Path.{fun_ext, subst}
use sn0int.Prelude.{
  ℕ, Bool, true, false, ◌==◌, [], ◌∷◌, ◌++◌, Text, codes, ok, ok-injective, ◌≡◌, refl, sym, ap, ◌∙◌,
  ◌↔◌, ◌⊎◌, inl, inr, arith, All, append-nil, Bool-cases,
}
use sn0int.Crates.Nom.{Nom, NomLaws, IResult, done, failed, error, and_then, and_then_assoc, Stops}
use sn0int.Common.Id.{ModuleId, finish, named, to_string, valid_char, token, valid_name, from_str}

module _ (n : Nom) (l : NomLaws n) where
  -- At least one character, and only valid ones.
  abbrev pub IsToken : Text → Type 0
  IsToken [] = ⊥
  IsToken (c ∷ s) = All (λ x. valid_char n x ≡ true) (c ∷ s)

  -- Every text is a run of valid characters and a rest where the run stops.
  split_run :
      (p : ℕ → Bool) (s : Text)
      → (run rest : Text) × (s ≡ run ++ rest) × All (λ x. p x ≡ true) run × Stops p rest
  split_run p [] = ([], [], refl, tt, tt)
  split_run p (c ∷ s) = elim (Bool-cases (p c)) [
    | inl h ↦
        let (run, rest, same, good, stop) = split_run p s in
        (c ∷ run, rest, ap (◌∷◌ c) same, (h, good), stop)
    | inr h ↦ ([], c ∷ s, refl, tt, h)
  ]

  slash_invalid : valid_char n b'/' ≡ false
  unfolding valid_char
  slash_invalid = rw (l.is_alphanumeric_lem b'/')

  token_run :
      (run rest : Text)
      → IsToken run
      → Stops (valid_char n) rest
      → token n (run ++ rest) ≡ done rest run
  unfolding token
  token_run [] rest h stop = absurd h
  token_run (c ∷ run) rest h stop = l.take_while1_run (valid_char n) c run rest h stop

  -- What the token parser does on any text.
  abbrev Tokenized : Text → Type 0
  Tokenized s =
      (Stops (valid_char n) s × (token n s ≡ failed error))
      ⊎ ((run rest : Text) × (s ≡ run ++ rest) × IsToken run × (token n s ≡ done rest run))

  token_cases : (s : Text) → Tokenized s
  token_cases s =
      let (run, rest, same, good, stop) = split_run (valid_char n) s in
      rw same (go run rest good stop)
    where
      go :
          (run rest : Text)
          → All (λ x. valid_char n x ≡ true) run
          → Stops (valid_char n) rest
          → Tokenized (run ++ rest)
      go [] rest good stop = inl (stop, unfold token in l.take_while1_none (valid_char n) rest stop)
      go (c ∷ run) rest good stop =
          inr (c ∷ run, rest, refl, good, token_run (c ∷ run) rest good stop)

  -- The parser as its three steps.
  abbrev steps : Text → IResult ModuleId
  steps s = and_then (token n s) (λ s₁ a.
      and_then (n.tag (codes "/") s₁)
        (λ s₂ _. and_then (token n s₂) (λ s₃ c. done s₃ (record { author = a; name = c }))))

  from_str-steps : (s : Text) → from_str n s ≡ finish (steps s)
  unfolding from_str
  from_str-steps s = ap finish (
      ap (λ t. and_then t packed) (l.tuple_lem (token n) (n.tag (codes "/")) (token n) s)
      ∙ and_then_assoc (token n s) _ packed
      ∙ ap (and_then (token n s)) (
          fun_ext λ s₁. fun_ext λ a.
            and_then_assoc (n.tag (codes "/") s₁) _ packed
            ∙ ap (and_then (n.tag (codes "/") s₁))
                (fun_ext λ s₂. fun_ext λ b. and_then_assoc (token n s₂) _ packed)))
    where
      packed : Text → Text × Text × Text → IResult ModuleId
      packed input t = done input (record { author = t.0; name = t.2 })

  -- A module name whose author and name are nonempty and have only valid characters is parsed from
  -- its printed form.
  pub from_str-to_string :
      (m : ModuleId) → IsToken m.author → IsToken m.name → from_str n (to_string m) ≡ ok m
  unfolding to_string
  from_str-to_string m a b =
      let first = token_run m.author (b'/' ∷ m.name) a slash_invalid in
      let second = rw append-nil at (token_run m.name [] b tt) in
      from_str-steps (to_string m) ∙ rw (first) (rw (l.tag_here (codes "/") m.name) (rw second))

  -- The name is all that is left.
  all_name :
      (author run rest : Text) (m : ModuleId)
      → IsToken run
      → finish (done rest (record { author = author; name = run })) ≡ ok m
      → (run ++ rest ≡ m.name) × (m.author ≡ author) × IsToken m.name
  all_name author run [] m good e =
      let same = ok-injective e in
      (
        append-nil run ∙ ap (λ x. x.name) same,
        ap (λ x. x.author) (sym same),
        subst (λ (x : ModuleId). IsToken x.name) same good,
      )
  all_name author run (c ∷ rest) m good e = absurd (cc)

  after_slash :
      (author rest : Text) (m : ModuleId)
      → finish (and_then (token n rest) (λ s₃ c. done s₃ (record { author = author; name = c })))
        ≡ ok m
      → (rest ≡ m.name) × (m.author ≡ author) × IsToken m.name
  after_slash author rest m e = elim (token_cases rest) [
    | inl (_, none) ↦ absurd (cc (rw none at e))
    | inr (run, left, same, good, read) ↦
        let (whole, by, named) = all_name author run left m good (rw read at e) in
        (same ∙ whole, by, named)
  ]

  -- What follows the author, in a name that parses.
  after_author :
      (author rest : Text) (m : ModuleId)
      → finish (
          and_then (n.tag (codes "/") rest) (λ s₂ _.
            and_then (token n s₂) (λ s₃ c. done s₃ (record { author = author; name = c }))))
        ≡ ok m
      → (rest ≡ b'/' ∷ m.name) × (m.author ≡ author) × IsToken m.name
  after_author author [] m e = absurd (cc (rw (l.tag_none (codes "/") [] (λ r x. cc)) at e))
  after_author author (c ∷ rest) m e = elim (Bool-cases (c == b'/')) [
    | inl slash ↦
        let at_slash : c ≡ b'/' = ground arith in
        let e' = rw (l.tag_here (codes "/") rest) at (rw at_slash at e) in
        let (whole, by, named) = after_slash author rest m e' in (cc, by, named)
    | inr other ↦ absurd (cc (rw (l.tag_none (codes "/") (c ∷ rest) (λ r x. ground arith)) at e))
  ]

  -- A text that is parsed as a module name is that name printed, and its author and its name are
  -- nonempty and have only valid characters.
  pub to_string_of_from_str :
      (s : Text) (m : ModuleId)
      → from_str n s ≡ ok m
      → (s ≡ to_string m) × IsToken m.author × IsToken m.name
  unfolding to_string
  to_string_of_from_str s m e = elim (token_cases s) [
    | inl (_, none) ↦ absurd (cc (rw none at (sym (from_str-steps s) ∙ e)))
    | inr (run, rest, same, good, first) ↦
        let (whole, by, named) =
          after_author run rest m (rw first at (sym (from_str-steps s) ∙ e)) in
        (
          same ∙ ap (◌++◌ run) whole ∙ ap (λ a. a ++ b'/' ∷ m.name) (sym by),
          subst IsToken (sym by) good,
          named,
        )
  ]

  -- `valid_name` accepts a nonempty text exactly if its first character is valid, whatever the
  -- characters behind it.
  pub valid_name_iff : (c : ℕ) (s : Text) → (valid_name n (c ∷ s) ≡ ok tt) ↔ (valid_char n c ≡ true)
  unfolding valid_name
  valid_name_iff c s = elim (token_cases (c ∷ s)) [
    | inl (stop, none) ↦ (λ h. absurd (cc (ap named none)), λ h. absurd (cc))
    | inr (run, rest, same, good, read) ↦ (λ _. first run rest same good, λ _. ap named read)
  ]
    where
      first : (run rest : Text) → c ∷ s ≡ run ++ rest → IsToken run → valid_char n c ≡ true
      first [] rest same good = absurd good
      first (d ∷ run) rest same good = let e : c ≡ d = cc in rw e good.0
