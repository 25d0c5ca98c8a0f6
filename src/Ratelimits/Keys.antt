-- ===== src/Ratelimits/Keys.antt =====
-- Each key has a bucket of its own.
use sn0int.Prelude.{ℕ, some, Text, ◌≡◌, ◌≢◌}
use sn0int.Maps.{lookup, lookup-store_same, lookup-store_other}
use sn0int.Ratelimits.{or_new, bucket_pass, Ratelimiter, pass}

-- A call of `Ratelimiter::pass` with one key changes the bucket of that key, or a new one, as
-- `Bucket::pass` does, and leaves the bucket of every other key as it was.
pub pass-get :
    (limiter : Ratelimiter) (key other : Text) (passes time now later : ℕ)
    → key ≢ other
    → (lookup key (pass limiter key passes time now later).1.buckets
        ≡ some (bucket_pass (or_new (lookup key limiter.buckets)) passes time now later).1)
      × (lookup other (pass limiter key passes time now later).1.buckets
          ≡ lookup other limiter.buckets)
unfolding pass
pass-get limiter key other passes time now later ne =
    (lookup-store_same key _ limiter.buckets, lookup-store_other key other _ limiter.buckets ne)
