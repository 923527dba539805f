-- ===== src/Cache.antt =====
-- cache/lib.rs: the entry, the errors and the `Cache` trait. Times are nanoseconds since an origin;
-- `Instant::now()` is the argument `now` of each operation. A lock is held for a whole operation, so
-- an operation is a function on the state that the lock guards.
pub mod Contract
pub mod Compression
pub mod Meta
pub mod L1
pub mod L2
pub mod L3
pub mod Shared
use olwsx.Base.{ℕ, ◌-◌, Bool, Bytes, ltb, Option, none, some, if◌then◌else◌}

pub record Entry : Type 0 where
  pub value : Bytes
  pub flags : ℕ
  pub ts : ℕ
  pub ttl : ℕ

-- `Entry::new`
pub new_entry : ℕ → Bytes → ℕ → ℕ → Entry
new_entry now value flags ttl = record { value = value; flags = flags; ts = now; ttl = ttl }

-- `elapsed` is 0 for an instant that lies ahead.
pub is_expired : ℕ → Entry → Bool
is_expired now e = ltb e.ttl (now - e.ts)

pub data CacheError : Type 0 where
  too_large not_found expired : CacheError

pub data Result {ℓ} (A : Type ℓ) : Type ℓ where
  ok : A → Result A
  err : CacheError → Result A

-- The trait: each method takes the state and returns the new one beside its result.
pub record Cache (S : Type 0) : Type 0 where
  pub lookup : ℕ → Bytes → S → S × Result Entry
  pub insert : Bytes → Entry → S → S × Result (Unit {0})
  pub invalidate : Bytes → S → S × Result (Unit {0})
