-- ===== src/Metrics/Histogram/Quantile.antt =====
-- What `quantile` of observability/metrics.rs answers, in terms of the observations.
use olwsx.Base.{
  ℕ, zero, suc, ◌+◌, ◌≤◌, ◌<◌, ◌≡◌, refl, sym, ◌⊎◌, inl, inr, List, [], ◌∷◌, some, arith, length,
  All, get_elem?,
}
use mathlib.Core.Path.{subst}
use olwsx.Metrics.{u64_mod}
use olwsx.Metrics.Histogram.{
  lat_bounds, quantile_from, quantile_at, F64, target_of, quantile, p50, p90, p99,
}
use olwsx.Metrics.Histogram.Counts.{count_le, tally}
use olwsx.Metrics.Histogram.Records.{observe_all, observe_all-Records, cover-All}
use olwsx.Metrics.Histogram.Rank.{All-get_elem, quantile_from-IsLeast}

-- What a quantile means: a bound of a bin, up to which at least `target` observations lie, and no
-- smaller bound is such.
pub record IsQuantile (target : ℕ) (xs : List ℕ) (v : ℕ) : Type 0 where
  is_bound : (i : ℕ) × (get_elem? lat_bounds i ≡ some v)
  pub enough : target ≤ count_le v xs
  pub least : All (λ b. (v ≤ b) ⊎ (count_le b xs < target)) lat_bounds

from_zero :
    (bounds xs : List ℕ) (target v : ℕ)
    → All (λ b. (v ≤ b) ⊎ (0 + count_le b xs < target)) bounds
    → All (λ b. (v ≤ b) ⊎ (count_le b xs < target)) bounds
from_zero [] xs target v a = tt
from_zero (b ∷ bounds) xs target v a = (
  elim a.0 [ inl low ↦ inl low | inr few ↦ inr (omega (arith, few)) ],
  from_zero bounds xs target v a.1,
)

quantile_at-pos :
    (target : ℕ) (bins : List ℕ)
    → 0 < target
    → quantile_at target bins ≡ quantile_from target 0 0 bins
unfolding quantile_at
quantile_at-pos target bins h = ground arith

quantile_at-IsQuantile :
    (target : ℕ) (xs : List ℕ)
    → All (λ x. x < u64_mod) xs
    → length xs < u64_mod
    → 0 < target
    → target ≤ length xs
    → IsQuantile target xs (quantile_at target (tally lat_bounds xs))
quantile_at-IsQuantile target xs a few some_obs enough =
    let (b, many, least) =
      quantile_from-IsLeast lat_bounds target 0 0 xs refl (omega arith) (cover-All xs a)
        (omega arith) some_obs (omega arith) in
    subst (IsQuantile target xs) (sym (quantile_at-pos target (tally lat_bounds xs) some_obs))
      (record {
        is_bound = b;
        enough = omega (arith, many);
        least = from_zero lat_bounds xs target _ least;
      })

module _ (f : F64) where
  open f use {Float, percent}

  -- Over fewer than 2^64 observations, each a u64, where the rank that the `f64` arithmetic
  -- gives lies between 1 and their number, `quantile` answers with the least bound of a bin up
  -- to which at least that many of them lie.
  pub quantile-IsQuantile :
      (xs : List ℕ) (q : Float)
      → All (λ x. x < u64_mod) xs
      → length xs < u64_mod
      → 0 < target_of f (length xs) q
      → target_of f (length xs) q ≤ length xs
      → IsQuantile (target_of f (length xs) q) xs (quantile f (observe_all xs) q)
  unfolding quantile
  quantile-IsQuantile xs q a few some_obs enough =
      let r = observe_all-Records xs a few in
      rw (r.count, r.bins)
        (quantile_at-IsQuantile (target_of f (length xs) q) xs a few some_obs enough)

  quantile_at_mono :
      (s t : ℕ) (xs : List ℕ)
      → All (λ x. x < u64_mod) xs
      → length xs < u64_mod
      → s ≤ t
      → t ≤ length xs
      → quantile_at s (tally lat_bounds xs) ≤ quantile_at t (tally lat_bounds xs)
  quantile_at_mono zero t xs a few h enough = unfold quantile_at in omega arith
  quantile_at_mono (suc s) t xs a few h enough =
      let low = quantile_at-IsQuantile (suc s) xs a few (omega arith) (omega arith) in
      let high = quantile_at-IsQuantile t xs a few (omega arith) enough in
      let (i, found) = high.is_bound in
      let v : ℕ = quantile_at t (tally lat_bounds xs) in
      let w : ℕ = quantile_at (suc s) (tally lat_bounds xs) in
      elim (All-get_elem (λ b. (w ≤ b) ⊎ (count_le b xs < suc s)) lat_bounds i {v = v} low.least
        found) [ inl le ↦ le | inr short ↦ absurd (omega (arith, short, high.enough)) ]

  -- Over fewer than 2^64 observations, each a u64, the three percentiles are in order, if the
  -- ranks that the `f64` arithmetic gives are, and are at most the number of observations.
  p50-le-p90-le-p99 :
      (xs : List ℕ)
      → All (λ x. x < u64_mod) xs
      → length xs < u64_mod
      → target_of f (length xs) (percent 50) ≤ target_of f (length xs) (percent 90)
      → target_of f (length xs) (percent 90) ≤ target_of f (length xs) (percent 99)
      → target_of f (length xs) (percent 99) ≤ length xs
      → (p50 f (observe_all xs) ≤ p90 f (observe_all xs))
        × (p90 f (observe_all xs) ≤ p99 f (observe_all xs))
  unfolding p50 p90 p99 quantile
  p50-le-p90-le-p99 xs a few low high enough =
      let r = observe_all-Records xs a few in
      rw (r.count, r.bins)
        (
          quantile_at_mono _ _ xs a few low (omega (arith, high, enough)),
          quantile_at_mono _ _ xs a few high enough,
        )
