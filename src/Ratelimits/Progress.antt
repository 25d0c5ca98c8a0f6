-- ===== src/Ratelimits/Progress.antt =====
-- Who waits as long as the answer says is let through.
use sn0int.Prelude.{
  ℕ, ◌+◌, ◌-◌, ◌≤◌, ◌<◌, Bool, true, false, List, [], ◌∷◌, Option, none, some, filter, length,
  length-append, leb, All, ◌≡◌, ◌↔◌, refl, ap, arith, Bool-cases, inl, inr,
}
use sn0int.Ratelimits.{
  Bucket, RatelimitResponse, retry, pass_now, milliseconds, earliest, wait, retained, least,
  bucket_pass,
}

least-some : (x : ℕ) (r : Option ℕ) → (m : ℕ) × (least x r ≡ some m)
least-some x none = (x, refl)
least-some x (some y) = elim (Bool-cases (leb x y)) [ inl h ↦ (x, rw h) | inr h ↦ (y, rw h) ]

-- A test that all pass, the earliest passes.
earliest-All :
    (p : ℕ → Bool) (xs : List ℕ) (m : ℕ)
    → All (λ x. p x ≡ true) xs
    → earliest xs ≡ some m
    → p m ≡ true
unfolding earliest
earliest-All p [] m h e = absurd (cc)
earliest-All p (x ∷ xs) m (h, hs) e = go (earliest xs) (λ y. earliest-All p xs y hs) e
  where
    go : (r : Option ℕ) → ((y : ℕ) → r ≡ some y → p y ≡ true) → least x r ≡ some m → p m ≡ true
    go none ih k = ground (arith, k)
    go (some y) ih k = ground (arith, k, ih y refl)

All-filter-true : (p : ℕ → Bool) (xs : List ℕ) → All (λ x. p x ≡ true) (filter p xs)
All-filter-true p [] = tt
All-filter-true p (x ∷ xs) = elim (Bool-cases (p x)) [
  | inl h ↦ rw h (h, All-filter-true p xs)
  | inr h ↦ rw h (All-filter-true p xs)
]

length-filter-le : (p : ℕ → Bool) (xs : List ℕ) → length (filter p xs) ≤ length xs
length-filter-le p [] = omega arith
length-filter-le p (x ∷ xs) = ground (arith, length-filter-le p xs)

-- A test that the earliest fails keeps fewer.
filter-earliest-lt :
    (p : ℕ → Bool) (xs : List ℕ) (m : ℕ)
    → earliest xs ≡ some m
    → p m ≡ false
    → length (filter p xs) < length xs
unfolding earliest
filter-earliest-lt p [] m e h = absurd (cc)
filter-earliest-lt p (x ∷ xs) m e h = go (earliest xs) (λ k. filter-earliest-lt p xs m k h) e
  where
    go :
        (r : Option ℕ)
        → (r ≡ some m → length (filter p xs) < length xs)
        → least x r ≡ some m
        → length (filter p (x ∷ xs)) < length (x ∷ xs)
    go none ih k = ground (arith, k, length-filter-le p xs)
    go (some y) ih k = elim (Bool-cases (leb x y)) [
      | inl le ↦ ground (arith, k, length-filter-le p xs)
      | inr gt ↦ let here : y ≡ m = ground (arith, k) in ground (arith, ih (ap some here))
    ]

-- The bucket never has more than the limit, if it is always asked with that limit.
pub bucket_pass-length :
    (bucket : Bucket) (passes time now later : ℕ)
    → length bucket.passes ≤ passes
    → length (bucket_pass bucket passes time now later).1.passes ≤ passes
unfolding bucket_pass
bucket_pass-length bucket passes time now later h =
    let kept = retained time now bucket.passes in
    let fewer = length-filter-le (λ x. leb now (x + milliseconds time)) bucket.passes in
    elim (Bool-cases (leb passes (length kept))) [
      | inl full ↦ rw full (omega (arith, fewer))
      | inr free ↦ rw free (rw (length-append kept (later ∷ [])) (ground (arith, fewer)))
    ]

-- `pass` does not panic: the delay is not below zero.
wait-some :
    (time now : ℕ) (kept : List ℕ)
    → All (λ x. leb now (x + milliseconds time) ≡ true) kept
    → (d : ℕ) × (wait time now (earliest kept) ≡ some (retry d))
wait-some time now kept h =
    go (earliest kept) (λ m. earliest-All (λ x. leb now (x + milliseconds time)) kept m h)
  where
    go :
        (r : Option ℕ)
        → ((m : ℕ) → r ≡ some m → leb now (m + milliseconds time) ≡ true)
        → (d : ℕ) × (wait time now r ≡ some (retry d))
    go none ih = (milliseconds 100, refl)
    go (some m) ih =
        let enough : leb now (milliseconds time + m) ≡ true = ground (arith, ih m refl) in
        (milliseconds time + m - now, rw enough)

-- `Bucket::pass` never panics, also when the clock goes back, and it lets a call through exactly
-- if fewer passes than the limit are left in the window.
pub bucket_pass-some :
    (bucket : Bucket) (passes time now later : ℕ)
    → (answer : RatelimitResponse) × ((bucket_pass bucket passes time now later).0 ≡ some answer)
      × ((answer ≡ pass_now) ↔ (length (retained time now bucket.passes) < passes))
unfolding bucket_pass
bucket_pass-some bucket passes time now later =
    let kept = retained time now bucket.passes in
    elim (Bool-cases (leb passes (length kept))) [
      | inl full ↦
          let (d, e) =
            wait-some time now kept
              (All-filter-true (λ x. leb now (x + milliseconds time)) bucket.passes) in
          rw full (retry d, e, (λ h. absurd (cc), λ h. absurd (ground arith)))
      | inr free ↦ rw free (pass_now, refl, (λ h. ground arith, λ h. refl))
    ]

-- The delay reaches up to the end of the window of the earliest pass.
wait_reaches :
    (time now m delay : ℕ)
    → wait time now (some m) ≡ some (retry delay)
    → now + delay ≡ m + milliseconds time
wait_reaches time now m delay e = elim (Bool-cases (leb now (milliseconds time + m))) [
  | inl h ↦
      let same : milliseconds time + m - now ≡ delay =
        ap (λ r. elim r [ some (retry d) ↦ d | _ ↦ 0 ]) (rw h at e) in
      ground (arith, same)
  | inr h ↦ absurd (cc (rw h at e))
]

-- After that time fewer are left.
retained-lt :
    (time now delay again : ℕ) (kept : List ℕ)
    → 0 < length kept
    → wait time now (earliest kept) ≡ some (retry delay)
    → now + delay < again
    → length (retained time again kept) < length kept
retained-lt time now delay again [] some_kept told late = absurd (omega arith)
retained-lt time now delay again (x ∷ xs) some_kept told late =
    let (m, least_is) = least-some x (earliest xs) in
    let first : earliest (x ∷ xs) ≡ some m = unfold earliest in least_is in
    let reach = wait_reaches time now m delay (rw first at told) in
    filter-earliest-lt (λ x. leb again (x + milliseconds time)) (x ∷ xs) m first
      (ground (arith, reach))

-- With a limit above zero and a bucket within the limit, if a call is told to wait for a delay,
-- then a call of the same kind after more than that delay is let through.
pub retry-pass_now :
    (bucket : Bucket) (passes time now later delay again after : ℕ)
    → 0 < passes
    → length bucket.passes ≤ passes
    → (bucket_pass bucket passes time now later).0 ≡ some (retry delay)
    → now + delay < again
    → (bucket_pass (bucket_pass bucket passes time now later).1 passes time again after).0
      ≡ some pass_now
unfolding bucket_pass
retry-pass_now bucket passes time now later delay again after pos small told late =
    let kept = retained time now bucket.passes in
    elim (Bool-cases (leb passes (length kept))) [
      | inr free ↦ absurd (cc (rw free at told))
      | inl full ↦
          let fewer = retained-lt time now delay again kept (ground arith) (rw full at told) late in
          let small_kept = length-filter-le (λ x. leb now (x + milliseconds time)) bucket.passes in
          let room : leb passes (length (retained time again kept)) ≡ false =
            ground (arith, fewer, small_kept) in
          rw full (rw room)
    ]
