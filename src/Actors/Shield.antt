-- ===== src/Actors/Shield.antt =====
-- actors/lib/olwsx/actors/ddos_shield.ex. The clock counts seconds and may go back: then a bucket loses
-- what it would have gained, and one with no token left is not stored.
pub mod Bound
use olwsx.Base.{
  ℕ, ◌+◌, ◌-◌, ◌*◌, Bool, true, false, Bytes, Map, get, insert, Option, none, some, ltb,
  if◌then◌else◌,
}

pub record Bucket : Type 0 where
  pub tokens : ℕ
  pub last : ℕ

-- `@bucket_capacity` and `@refill_per_sec`
abbrev pub bucket_capacity : ℕ
bucket_capacity = 100

abbrev pub refill_per_sec : ℕ
refill_per_sec = 50

abbrev pub bucket_or_full : ℕ → Option Bucket → Bucket
bucket_or_full now none = record { tokens = bucket_capacity; last = now }
bucket_or_full now (some b) = b

abbrev pub at_most : ℕ → ℕ → ℕ
at_most a b = if ltb a b then a else b

-- `handle_call({:check, remote}, ...)`: the buckets, and whether the answer is `:ok`.
unfoldable pub check : Bytes → ℕ → Map Bucket → Map Bucket × Bool
check remote now state =
    let b = bucket_or_full now (get remote state) in
    let tokens =
      at_most bucket_capacity
        (b.tokens + (now - b.last) * refill_per_sec - (b.last - now) * refill_per_sec) in
    if ltb 0 tokens
    then (insert remote (record { tokens = tokens - 1; last = now }) state, true)
    else (state, false)
