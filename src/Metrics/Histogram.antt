-- ===== src/Metrics/Histogram.antt =====
-- `LatencyHistogram` of observability/metrics.rs. Sums are those of a release build: they wrap at
-- 2^64. The `f64` arithmetic of `quantile` is a parameter.
mod Counts
pub mod Records
mod Rank
mod Quantile
mod Wrap
mod Checked
mod Tests
use olwsx.Base.{
  ℕ, zero, suc, ◌+◌, ◌-◌, ◌%◌, ◌^◌, Bool, List, [], ◌∷◌, none, some, ltb, leb, ◌==◌, length,
  get_elem?, replicate, Bytes, if◌then◌else◌,
}
use olwsx.Metrics.{u64_mod, Labels, MetricEnvelope, latency_hist}

abbrev pub lat_bounds : List ℕ
lat_bounds =
    5 ∷ 10 ∷ 20 ∷ 30 ∷ 40 ∷ 50 ∷ 60 ∷ 80 ∷ 100 ∷ 150 ∷ 200 ∷ 250 ∷ 300 ∷ 400 ∷ 600
    ∷ 0xffff_ffff_ffff_ffff ∷ []

pub record LatencyHistogram : Type 0 where
  pub bins : List ℕ
  pub count : ℕ
  pub sum_ms : ℕ

unfoldable pub new : LatencyHistogram
new = record { bins = replicate 16 0; count = 0; sum_ms = 0 }

-- The `while` loop of `observe_ms` at the index `idx`, over the bounds from there on.
unfoldable pub bin_from : ℕ → List ℕ → ℕ → ℕ
bin_from idx [] ms = idx
bin_from idx (bound ∷ bounds) ms =
    let rest = bin_from (suc idx) bounds ms in if ltb bound ms then rest else idx

-- `self.bins[idx] += 1`
unfoldable pub bump : ℕ → List ℕ → List ℕ
bump idx [] = []
bump zero (c ∷ bins) = ((c + 1) % u64_mod) ∷ bins
bump (suc idx) (c ∷ bins) = c ∷ bump idx bins

unfoldable pub observe_ms : ℕ → LatencyHistogram → LatencyHistogram
observe_ms ms h =
    let idx = bin_from 0 lat_bounds ms in
    let idx = if leb (length h.bins) idx then length h.bins - 1 else idx in
    record {
      bins = bump idx h.bins;
      count = (h.count + 1) % u64_mod;
      sum_ms = (h.sum_ms + ms) % u64_mod;
    }

unfoldable pub export : ℕ → Bytes → Labels → LatencyHistogram → MetricEnvelope
export now name labels h = record {
  ts_ms = now;
  name = name;
  labels = labels;
  kind = latency_hist h.bins;
}

-- `LAT_BOUNDS[i]`, which is only read at an index of a bin.
unfoldable pub bound_at : ℕ → ℕ
bound_at i = elim (get_elem? lat_bounds i) [ none ↦ 0 | some bound ↦ bound ]

-- The loop of `quantile`; behind it stands the last bound.
unfoldable pub quantile_from : ℕ → ℕ → ℕ → List ℕ → ℕ
quantile_from target acc i [] = bound_at 15
quantile_from target acc i (c ∷ bins) =
    let acc' = (acc + c) % u64_mod in
    let rest = quantile_from target acc' (suc i) bins in
    if leb target acc' then bound_at i else rest

unfoldable pub quantile_at : ℕ → List ℕ → ℕ
quantile_at target bins = if target == 0 then 0 else quantile_from target 0 0 bins

-- The operations on `f64` that `quantile` uses; `percent n` is the literal for n / 100.
pub record F64 : Type 1 where
  pub Float : Type 0
  pub from_u64 : ℕ → Float
  pub percent : ℕ → Float
  pub mul : Float → Float → Float
  pub ceil : Float → Float
  pub to_u64 : Float → ℕ

module _ (f : F64) where
  open f use {Float, from_u64, percent, mul, ceil, to_u64}

  -- `(self.count as f64 * q).ceil() as u64`
  unfoldable pub target_of : ℕ → Float → ℕ
  target_of count q = to_u64 (ceil (mul (from_u64 count) q))

  unfoldable pub quantile : LatencyHistogram → Float → ℕ
  quantile h q = quantile_at (target_of h.count q) h.bins

  pub p50 : LatencyHistogram → ℕ
  p50 h = quantile h (percent 50)

  unfoldable pub p90 : LatencyHistogram → ℕ
  p90 h = quantile h (percent 90)

  pub p99 : LatencyHistogram → ℕ
  p99 h = quantile h (percent 99)
