-- ===== src/Ratelimits/Tests.antt =====
-- Examples of rate limits: two passes in 10 milliseconds.
use sn0int.Prelude.{
  ℕ, ◌≤◌, ◌<◌, List, [], ◌∷◌, some, codes, length, text_eq, text_eq_iff, ◌≡◌, ◌≢◌, ◌↔◌, refl, arith,
}
use sn0int.Ratelimits.{
  Bucket, new, RatelimitResponse, retry, pass_now, bucket_pass, earliest, milliseconds, retained,
  Ratelimiter,
}
use sn0int.Ratelimits.Window.{run, within, run-within}
use sn0int.Ratelimits.Progress.{bucket_pass-length, bucket_pass-some, retry-pass_now}

abbrev calls : List (ℕ × ℕ)
calls = (100, 101) ∷ (200, 201) ∷ (300, 301) ∷ (10000300, 10000300) ∷ []

run-within_example : length (within (milliseconds 10) 101 (run 2 10 new [] calls).1) ≤ 2
run-within_example = run-within 2 10 0 calls (omega arith) 101

abbrev full : Bucket
full = record { passes = 101 ∷ 201 ∷ [] }

bucket_pass-length_example : length (bucket_pass full 2 10 300 301).1.passes ≤ 2
bucket_pass-length_example = bucket_pass-length full 2 10 300 301 (omega arith)

bucket_pass-some_example :
    (answer : RatelimitResponse) × ((bucket_pass full 2 10 300 301).0 ≡ some answer)
    × ((answer ≡ pass_now) ↔ (length (retained 10 300 full.passes) < 2))
bucket_pass-some_example = bucket_pass-some full 2 10 300 301

told : (bucket_pass full 2 10 300 301).0 ≡ some (retry 9999801)
unfolding bucket_pass earliest
told = refl

retry-pass_now_example :
    (bucket_pass (bucket_pass full 2 10 300 301).1 2 10 10000102 10000103).0 ≡ some pass_now
retry-pass_now_example =
    retry-pass_now full 2 10 300 301 9999801 10000102 10000103 (omega arith) (omega arith) told
      (omega arith)

abbrev limiter : Ratelimiter
limiter = record { buckets = (codes "a", full) ∷ (codes "b", full) ∷ [] }

apart : codes "a" ≢ codes "b"
unfolding text_eq
apart e = absurd (cc ((text_eq_iff (codes "a") (codes "b")).1 e))
