-- ===== src/Edge/RateLimit.antt =====
-- edge/rate_limit.go, on the map that its mutex guards. A time is a number of nanoseconds; it is taken
-- before the mutex, so that it may lie before the time that a bucket holds.
pub mod Bound
use olwsx.Base.{
  ℕ, ◌+◌, ◌-◌, ◌*◌, ◌/◌, Bool, true, false, Bytes, Map, get, insert, Option, none, some, List, [],
  ◌∷◌, ltb, if◌then◌else◌,
}

-- `bucket`
pub record Bucket : Type 0 where
  pub tokens : ℕ
  pub last : ℕ

-- `BucketCapacity` and `RefillPerSecond`
abbrev pub bucket_capacity : ℕ
bucket_capacity = 60

abbrev pub refill_per_second : ℕ
refill_per_second = 30

abbrev pub second : ℕ
second = 1_000_000_000

-- The bucket as a call at `now` finds it.
unfoldable pub refill : ℕ → Option Bucket → Bucket
refill now none = record { tokens = bucket_capacity; last = now }
refill now (some b) =
    let elapsed = (now - b.last) / second in
    if ltb 0 elapsed
    then (let tokens = b.tokens + elapsed * refill_per_second in
        record {
          tokens = if ltb bucket_capacity tokens then bucket_capacity else tokens;
          last = now;
        })
    else b

-- The rest of the call: a token is taken if there is one.
abbrev pub take_token : Bucket → Bucket × Bool
take_token b =
    if ltb 0 b.tokens then (record { tokens = b.tokens - 1; last = b.last }, false) else (b, true)

-- `Limited` from the host on
unfoldable pub limited_host : Bytes → ℕ → Map Bucket → Map Bucket × Bool
limited_host host now buckets =
    let (b, limited) = take_token (refill now (get host buckets)) in
    (insert host b buckets, limited)

-- `net.SplitHostPort` is the argument `split`.
module _ (split : Bytes → Option Bytes) where
  abbrev pub host_of : Bytes → Bytes
  host_of remote = elim (split remote) [ none ↦ remote | some host ↦ host ]

  -- `Limited`
  unfoldable pub limited : Bytes → ℕ → Map Bucket → Map Bucket × Bool
  limited remote now buckets = limited_host (host_of remote) now buckets
