-- ===== src/Crates/Nom/Reference.antt =====
-- An implementation of the parsers that has the documented behaviour.
pub mod Repeat
use sn0int.Prelude.{
  ℕ, zero, suc, ◌<◌, Bool, true, false, ◌||◌, ◌==◌, ltb, if◌then◌else◌, List, [], ◌∷◌, ◌++◌, Text,
  length, All, ◌≡◌, ◌≢◌, refl, ap, ◌∙◌, arith, Bool-cases, inl, inr, ==_iff, lt→ltb,
}
use sn0int.Crates.Nom.{
  Nom, NomLaws, IResult, done, failed, Failure, incomplete, error, failure, and_then, map_result,
  Stops, IsFirst, within,
}
use sn0int.Crates.Nom.Reference.Repeat.{prepend, fold_many0, fold_many0_stop, fold_many0_more}

unfoldable pub span : (ℕ → Bool) → Text → Text × Text
span p [] = ([], [])
span p (c ∷ s) = let more = span p s in if p c then (c ∷ more.0, more.1) else ([], c ∷ s)

span-run :
    (p : ℕ → Bool) (run rest : Text)
    → All (λ x. p x ≡ true) run
    → Stops p rest
    → span p (run ++ rest) ≡ (run, rest)
unfolding span
span-run p [] [] h stop = refl
span-run p [] (c ∷ rest) h stop = rw stop
span-run p (c ∷ run) rest (h, hs) stop =
    rw h (ap (λ q. (c ∷ q.0, q.1)) (span-run p run rest hs stop))

abbrev some_run : Text × Text → IResult Text
some_run ([], rest) = failed error
some_run (c ∷ run, rest) = done rest (c ∷ run)

abbrev take_while1 : (ℕ → Bool) → Text → IResult Text
take_while1 p s = some_run (span p s)

-- What is left behind the tag; `short` is the answer where the input ends first.
unfoldable pub strip : Failure → Text → Text → IResult (Unit {0})
strip short [] s = done s tt
strip short (c ∷ t) [] = failed short
strip short (c ∷ t) (d ∷ s) = let more = strip short t s in if c == d then more else failed error

abbrev tag_by : Failure → Text → Text → IResult Text
tag_by short t s = and_then (strip short t s) (λ rest _. done rest t)

strip_here : (short : Failure) (t rest : Text) → strip short t (t ++ rest) ≡ done rest tt
unfolding strip
strip_here short [] rest = refl
strip_here short (c ∷ t) rest = rw ((==_iff c c).1 refl) (strip_here short t rest)

strip_sound :
    (short : Failure) (t s rest : Text) (u : Unit {0})
    → strip short t s ≡ done rest u
    → s ≡ t ++ rest
unfolding strip
strip_sound short [] s rest u e = cc
strip_sound short (c ∷ t) [] rest u e = absurd (cc)
strip_sound short (c ∷ t) (d ∷ s) rest u e = elim (Bool-cases (c == d)) [
  | inl same ↦
      let is : c ≡ d = (==_iff c d).0 same in
      rw is (ap (◌∷◌ d) (strip_sound short t s rest u (rw same at e)))
  | inr other ↦ absurd (cc (rw other at e))
]

strip_error : (t s : Text) (x : Failure) → strip error t s ≡ failed x → x ≡ error
unfolding strip
strip_error [] s x e = absurd (cc)
strip_error (c ∷ t) [] x e = cc
strip_error (c ∷ t) (d ∷ s) x e = elim (Bool-cases (c == d)) [
  | inl same ↦ strip_error t s x (rw same at e)
  | inr other ↦ cc (rw other at e)
]

tag_none : (t s : Text) → ((rest : Text) → s ≢ t ++ rest) → tag_by error t s ≡ failed error
tag_none t s h = go (strip error t s) refl
  where
    go :
        (r : IResult (Unit {0}))
        → strip error t s ≡ r
        → and_then r (λ rest _. done rest t) ≡ failed error
    go (done rest u) e = absurd (h rest (strip_sound error t s rest u e))
    go (failed x) e = ap failed (strip_error t s x e)

tag_stream_other : (c d : ℕ) (t s : Text) → c ≢ d → tag_by incomplete (c ∷ t) (d ∷ s) ≡ failed error
unfolding strip
tag_stream_other c d t s h = let no_match : (c == d) ≡ false = ground arith in rw no_match

-- `take_until`
abbrev matches_here : Text → Text → Bool
matches_here p s = elim (strip error p s) [ done _ _ ↦ true | failed _ ↦ false ]

unfoldable pub until : Text → Text → IResult Text
until p [] = if matches_here p [] then done [] [] else failed incomplete
until p (c ∷ s) =
    let more = and_then (until p s) (λ rest a. done rest (c ∷ a)) in
    if matches_here p (c ∷ s) then done (c ∷ s) [] else more

until_here : (p s : Text) → matches_here p s ≡ true → until p s ≡ done s []
unfolding until
until_here p [] h = rw h
until_here p (c ∷ s) h = rw h

until_first : (p a rest : Text) → IsFirst p a rest → until p (a ++ (p ++ rest)) ≡ done (p ++ rest) a
unfolding until
until_first p [] rest first =
    until_here p (p ++ rest)
      (ap (λ r. elim r [ done _ _ ↦ true | failed _ ↦ false ]) (strip_here error p rest))
until_first p (c ∷ a) rest first = rw miss (
    ap (λ r. and_then r (λ rest a. done rest (c ∷ a)))
      (until_first p a rest (λ u v e. omega (arith, first (c ∷ u) v (ap (◌∷◌ c) e)))))
  where
    go :
        (r : IResult (Unit {0}))
        → strip error p (c ∷ (a ++ (p ++ rest))) ≡ r
        → (let b : Bool = elim r [ done _ _ ↦ true | failed _ ↦ false ] in b ≡ false)
    go (done left u) e =
        absurd
          (omega (arith, first [] left (strip_sound error p (c ∷ (a ++ (p ++ rest))) left u e)))
    go (failed x) e = refl

    miss : matches_here p (c ∷ (a ++ (p ++ rest))) ≡ false
    miss = go (strip error p (c ∷ (a ++ (p ++ rest)))) refl

unfoldable pub reference : Nom
reference = record {
  is_alphanumeric = λ c. within b'0' b'9' c || (within b'A' b'Z' c || within b'a' b'z' c);
  take_while1 = take_while1;
  tag = tag_by error;
  tuple = λ p q r s.
      and_then (p s)
        (λ s₁ a. and_then (q s₁) (λ s₂ b. and_then (r s₂) (λ s₃ c. done s₃ (a, b, c))));
  tag_stream = tag_by incomplete;
  take_until = until;
  map_res = λ p g s. map_result (p s) g;
  fold_many0 = λ p s. fold_many0 p s;
}

pub reference-NomLaws : NomLaws reference
unfolding reference prepend
reference-NomLaws = record {
  is_alphanumeric_lem = λ c. refl;
  take_while1_run = λ p c run rest h stop. ap some_run (span-run p (c ∷ run) rest h stop);
  take_while1_none = λ p s stop. ap some_run (span-run p [] s tt stop);
  tag_here = λ t rest. ap (λ r. and_then r (λ rest _. done rest t)) (strip_here error t rest);
  tag_none = tag_none;
  tuple_lem = λ p q r s. refl;
  tag_stream_here =
      λ t rest. ap (λ r. and_then r (λ rest _. done rest t)) (strip_here incomplete t rest);
  tag_stream_other = tag_stream_other;
  take_until_first = until_first;
  map_res_lem = λ p g s. refl;
  fold_many0_stop = λ p s e. fold_many0_stop p s e;
  fold_many0_more = λ p s rest a e h. fold_many0_more p s rest a e h;
}
