-- ===== src/Ratelimits.antt =====
-- sn0int-std/src/ratelimits.rs: how often a module may do something, per key. An instant is its
-- number of nanoseconds, and a panic is `none`.
pub mod Keys
pub mod Progress
pub mod Window
mod Tests
use sn0int.Prelude.{
  ℕ, ◌+◌, ◌-◌, ◌*◌, List, [], ◌∷◌, ◌++◌, Option, none, some, Text, filter, length, leb,
  if◌then◌else◌,
}
use sn0int.Maps.{Map, lookup, store}

pub record Bucket : Type 0 where
  pub passes : List ℕ

pub data RatelimitResponse : Type 0 where
  retry : ℕ → RatelimitResponse
  pass_now : RatelimitResponse

-- `Bucket::new`
abbrev pub new : Bucket
new = record { passes = [] }

abbrev pub least : ℕ → Option ℕ → Option ℕ
least x none = some x
least x (some y) = if leb x y then some x else some y

-- `iter().min()`
unfoldable pub earliest : List ℕ → Option ℕ
earliest [] = none
earliest (x ∷ xs) = least x (earliest xs)

-- `chrono::Duration::milliseconds`
abbrev pub milliseconds : ℕ → ℕ
milliseconds time = time * 1000000

-- `a - b` as a `std::time::Duration`, which `to_std().unwrap()` panics on below zero.
abbrev pub duration : ℕ → ℕ → Option RatelimitResponse
duration a b = if leb b a then some (retry (a - b)) else none

-- What is still in the window: `x >= now - time`, written as a sum.
abbrev pub retained : ℕ → ℕ → List ℕ → List ℕ
retained time now = filter (λ x. leb now (x + milliseconds time))

-- The answer that asks for a retry: `time - (now - min)`.
abbrev pub wait : ℕ → ℕ → Option ℕ → Option RatelimitResponse
wait time now (some min) = duration (milliseconds time + min) now
wait time now none = some (retry (milliseconds 100))

-- `Bucket::pass`, which reads the clock twice.
unfoldable pub bucket_pass : Bucket → ℕ → ℕ → ℕ → ℕ → Option RatelimitResponse × Bucket
unfolding earliest
bucket_pass bucket passes time now later =
    let kept = retained time now bucket.passes in
    if leb passes (length kept)
    then (wait time now (earliest kept), record { passes = kept })
    else (some pass_now, record { passes = kept ++ later ∷ [] })

-- The `HashMap` of buckets.
pub record Ratelimiter : Type 0 where
  pub buckets : Map Bucket

abbrev pub or_new : Option Bucket → Bucket
or_new none = new
or_new (some bucket) = bucket

-- `Ratelimiter::pass`: the reply that is sent, and the buckets that are left.
unfoldable pub pass : Ratelimiter → Text → ℕ → ℕ → ℕ → ℕ → Option RatelimitResponse × Ratelimiter
unfolding bucket_pass
pass limiter key passes time now later =
    let r = bucket_pass (or_new (lookup key limiter.buckets)) passes time now later in
    (r.0, record { buckets = store key r.1 limiter.buckets })
