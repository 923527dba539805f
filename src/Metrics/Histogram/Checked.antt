-- ===== src/Metrics/Histogram/Checked.antt =====
-- `observe_ms` of observability/metrics.rs in a build with overflow checks, where `+=` panics past
-- 2^64: `none` is the panic.
pub mod Agrees
use olwsx.Base.{
  ℕ, zero, suc, ◌+◌, ◌-◌, Option, none, some, List, [], ◌∷◌, ltb, leb, length, if◌then◌else◌,
}
use olwsx.Metrics.{u64_mod}
use olwsx.Metrics.Histogram.{LatencyHistogram, lat_bounds, new, bin_from}

infixl 5 ◌>>=◌
abbrev pub ◌>>=◌ {ℓ κ} : {A : Type ℓ} {B : Type κ} → Option A → (A → Option B) → Option B
none >>= f = none
some a >>= f = f a

pub checked_add : ℕ → ℕ → Option ℕ
checked_add a b = if ltb (a + b) u64_mod then some (a + b) else none

pub bump_checked : ℕ → List ℕ → Option (List ℕ)
bump_checked idx [] = some []
bump_checked zero (c ∷ bins) = do c' ← checked_add c 1; some (c' ∷ bins)
bump_checked (suc idx) (c ∷ bins) = do rest ← bump_checked idx bins; some (c ∷ rest)

pub observe_ms_checked : ℕ → LatencyHistogram → Option LatencyHistogram
observe_ms_checked ms h = do
  let idx = bin_from 0 lat_bounds ms
  let idx = if leb (length h.bins) idx then length h.bins - 1 else idx
  bins ← bump_checked idx h.bins
  count ← checked_add h.count 1
  sum_ms ← checked_add h.sum_ms ms
  some (record { bins = bins; count = count; sum_ms = sum_ms })

-- The observations of a list, the latest first.
pub observe_all_checked : List ℕ → Option LatencyHistogram
observe_all_checked [] = some new
observe_all_checked (ms ∷ xs) = do h ← observe_all_checked xs; observe_ms_checked ms h
