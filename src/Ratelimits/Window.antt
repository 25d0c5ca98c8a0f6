-- ===== src/Ratelimits/Window.antt =====
-- No window of the given length holds more passes than are allowed.
use sn0int.Prelude.{
  Option, none, some, ℕ, ◌+◌, ◌≤◌, ◌<◌, Bool, ◌&&◌, List, [], ◌∷◌, ◌++◌, filter, filter-append,
  length, length-append, leb, ◌≡◌, refl, ap, ◌∙◌, arith, Bool-cases, inl, inr,
}
use sn0int.Ratelimits.{
  Bucket, new, RatelimitResponse, retry, pass_now, earliest, wait, milliseconds, retained,
  bucket_pass,
}

-- The instants from `t` on, and those within `span` from `t` on.
abbrev pub since : ℕ → List ℕ → List ℕ
since t = filter (λ x. leb t x)

abbrev pub within : ℕ → ℕ → List ℕ → List ℕ
within span t = filter (λ x. leb t x && leb x (t + span))

length-filter {ℓ} : {A : Type ℓ} (p : A → Bool) (xs : List A) → length (filter p xs) ≤ length xs
length-filter p [] = omega arith
length-filter p (x ∷ xs) = ground (arith, length-filter p xs)

length-within : (span t : ℕ) (xs : List ℕ) → length (within span t xs) ≤ length (since t xs)
length-within span t [] = omega arith
length-within span t (x ∷ xs) = ground (arith, length-within span t xs)

since-retained :
    (time now t : ℕ) (xs : List ℕ)
    → now ≤ t + milliseconds time
    → since t (retained time now xs) ≡ since t xs
since-retained time now t [] h = refl
since-retained time now t (x ∷ xs) h = ground (arith, since-retained time now t xs h)

-- The log of the passes, with one more answer.
abbrev pub logged : Option RatelimitResponse → ℕ → List ℕ → List ℕ
logged (some pass_now) later log = log ++ later ∷ []
logged (some (retry _)) later log = log
logged none later log = log

logged-wait :
    (time now : ℕ) (m : Option ℕ) (later : ℕ) (log : List ℕ)
    → logged (wait time now m) later log ≡ log
logged-wait time now none later log = refl
logged-wait time now (some m) later log = elim (Bool-cases (leb now (milliseconds time + m))) [
  | inl h ↦ rw h
  | inr h ↦ rw h
]

-- A sequence of calls, each with its two readings of the clock, which does not go back.
abbrev pub Ordered : ℕ → List (ℕ × ℕ) → Type 0
Ordered clock [] = Unit
Ordered clock ((now, later) ∷ calls) = (clock ≤ now) × (now ≤ later) × Ordered later calls

module _ (passes time : ℕ) where
  -- The bucket and the log, after each call of `pass` in turn.
  unfoldable pub run : Bucket → List ℕ → List (ℕ × ℕ) → Bucket × List ℕ
  run bucket log [] = (bucket, log)
  run bucket log (call ∷ calls) =
      let r = bucket_pass bucket passes time call.0 call.1 in run r.1 (logged r.0 call.1 log) calls

  -- The log keeps the limit, and what the bucket has forgotten is out of every window to come.
  record Sound (clock : ℕ) (bucket : Bucket) (log : List ℕ) : Type 0 where
    limited : (t : ℕ) → length (within (milliseconds time) t log) ≤ passes
    remembered :
        (t : ℕ)
        → clock ≤ t + milliseconds time
        → length (since t bucket.passes) ≡ length (since t log)

  push_limited :
      (clock now later : ℕ) (bucket : Bucket) (log : List ℕ)
      → Sound clock bucket log
      → clock ≤ now
      → now ≤ later
      → length (retained time now bucket.passes) < passes
      → (t : ℕ) → length (within (milliseconds time) t (log ++ later ∷ [])) ≤ passes
  push_limited clock now later bucket log h c l free t =
      let split = filter-append (λ x. leb t x && leb x (t + milliseconds time)) log (later ∷ []) in
      rw split (
        rw
          (length-append (within (milliseconds time) t log)
            (within (milliseconds time) t (later ∷ [])))
          (elim (Bool-cases (leb t later && leb later (t + milliseconds time))) [
            | inl hit ↦
                let near : now ≤ t + milliseconds time = ground arith in
                rw hit (
                  omega (
                    arith,
                    near,
                    length-within (milliseconds time) t log,
                    h.remembered t (omega arith),
                    ap length (since-retained time now t bucket.passes near),
                    length-filter (λ x. leb t x) (retained time now bucket.passes),
                  ))
            | inr miss ↦ rw miss (omega (arith, h.limited t))
          ]))

  push_remembered :
      (clock now later : ℕ) (bucket : Bucket) (log : List ℕ)
      → Sound clock bucket log
      → clock ≤ now
      → now ≤ later
      → (t : ℕ) → later ≤ t + milliseconds time
      → length (since t (retained time now bucket.passes ++ later ∷ []))
        ≡ length (since t (log ++ later ∷ []))
  push_remembered clock now later bucket log h c l t near =
      rw (filter-append (λ x. leb t x) log (later ∷ [])) (
        rw (filter-append (λ x. leb t x) (retained time now bucket.passes) (later ∷ [])) (
          rw (length-append (since t log) (since t (later ∷ []))) (
            rw (length-append (since t (retained time now bucket.passes)) (since t (later ∷ []))) (
              omega (
                arith,
                h.remembered t (omega arith),
                ap length (since-retained time now t bucket.passes (omega arith)),
              )))))

  call-Sound :
      (clock now later : ℕ) (bucket : Bucket) (log : List ℕ)
      → Sound clock bucket log
      → clock ≤ now
      → now ≤ later
      → (let r = bucket_pass bucket passes time now later in Sound later r.1 (logged r.0 later log))
  unfolding bucket_pass
  call-Sound clock now later bucket log h c l =
      let kept = retained time now bucket.passes in
      elim (Bool-cases (leb passes (length kept))) [
        | inl full ↦ rw full (
            rw (logged-wait time now (earliest kept) later log) (record {
              limited = h.limited;
              remembered = λ t near.
                  ap length (since-retained time now t bucket.passes (omega arith))
                  ∙ h.remembered t (omega arith);
            }))
        | inr free ↦ rw free (record {
          limited = push_limited clock now later bucket log h c l (ground arith);
          remembered = push_remembered clock now later bucket log h c l;
        })
      ]

  run-limited :
      (clock : ℕ) (bucket : Bucket) (log : List ℕ) (calls : List (ℕ × ℕ))
      → Sound clock bucket log
      → Ordered clock calls
      → (t : ℕ) → length (within (milliseconds time) t (run bucket log calls).1) ≤ passes
  unfolding run
  run-limited clock bucket log [] h o t = h.limited t
  run-limited clock bucket log ((now, later) ∷ calls) h (c, l, o) t =
      let r = bucket_pass bucket passes time now later in
      run-limited later r.1 (logged r.0 later log) calls
        (call-Sound clock now later bucket log h c l) o t

  -- Whatever calls of `pass` are made on a new bucket, all with one limit and one time and with a
  -- clock that does not go back, no window of that time, both its ends included, holds more passes
  -- than the limit.
  pub run-within :
      (clock : ℕ) (calls : List (ℕ × ℕ))
      → Ordered clock calls
      → (t : ℕ) → length (within (milliseconds time) t (run new [] calls).1) ≤ passes
  run-within clock calls o t =
      run-limited clock new [] calls
        (record { limited = λ t. omega arith; remembered = λ t near. refl }) o t
