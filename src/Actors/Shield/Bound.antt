-- ===== src/Actors/Shield/Bound.antt =====
-- How often the shield of actors/lib/olwsx/actors/ddos_shield.ex says `:ok`.
use olwsx.Base.{ℕ, ◌+◌, ◌-◌, ◌*◌, Bool, true, false, Bytes, Map, Option, none, some, List, [], ◌∷◌}
use olwsx.Actors.Shield.{Bucket, bucket_capacity, refill_per_sec, at_most, check}

-- How many more checks until `until` a bucket can let pass.
abbrev credit : ℕ → ℕ → Option Bucket → ℕ
credit since until none = bucket_capacity + refill_per_sec * (until - since)
credit since until (some b) = b.tokens + refill_per_sec * (until - b.last)

abbrev one_if : Bool → ℕ
one_if true = 1
one_if false = 0

abbrev refilled : ℕ → Bucket → ℕ
refilled now b =
    at_most bucket_capacity
      (b.tokens + (now - b.last) * refill_per_sec - (b.last - now) * refill_per_sec)

-- How many of the checks at these times say `:ok`.
unfoldable pub passes : Bytes → List ℕ → Map Bucket → ℕ
passes remote [] state = 0
passes remote (now ∷ times) state =
    let (state', passed) = check remote now state in one_if passed + passes remote times state'
