-- ===== src/Metrics/Histogram/Tests.antt =====
-- The test of observability/metrics.rs on the histogram, and the theorems at its observations.
use olwsx.Base.{ℕ, ◌+◌, ◌*◌, ◌/◌, ◌≡◌, refl, some, none, ltb, if◌then◌else◌, List, [], ◌∷◌, arith}
use olwsx.Metrics.Histogram.{
  new, bin_from, bump, observe_ms, bound_at, quantile_from, quantile_at, F64, target_of, quantile,
  p50, p90, p99,
}
use olwsx.Metrics.Histogram.Counts.{total}
use olwsx.Metrics.Histogram.Records.{observe_all}
use olwsx.Metrics.{u64_mod}
use olwsx.Metrics.Histogram.Wrap.{Wraps, observe_all-Wraps}
use olwsx.Metrics.Histogram.Checked.{observe_all_checked}
use olwsx.Metrics.Histogram.Checked.Agrees.{observe_all_checked_lem}
use olwsx.Metrics.Histogram.Quantile.{IsQuantile, quantile-IsQuantile}

-- Hundredths, exact: enough to see that the hypotheses on the ranks can hold.
abbrev hundredths : F64
hundredths = record {
  Float = ℕ;
  from_u64 = λ n. n * 100;
  percent = λ n. n;
  mul = λ x q. x * q / 100;
  ceil = λ x. (x + 99) / 100 * 100;
  to_u64 = λ x. x / 100;
}

histogram : Unit {0}
unfolding new bin_from bump observe_ms bound_at quantile_from quantile_at target_of quantile p50 p90
    p99 observe_all
histogram = tt

-- The latest first.
abbrev observations : List ℕ
observations = 510 ∷ 240 ∷ 180 ∷ 55 ∷ 12 ∷ 7 ∷ 3 ∷ []

p90_test : p90 hundredths (observe_all observations) ≡ 600
unfolding histogram
p90_test = refl

p50_test : p50 hundredths (observe_all observations) ≡ 60
unfolding histogram
p50_test = refl

quantile-IsQuantile_example :
    IsQuantile 7 observations (quantile hundredths (observe_all observations) 90)
unfolding target_of
quantile-IsQuantile_example =
    quantile-IsQuantile hundredths observations 90 (omega arith) (omega arith) (omega arith)
      (omega arith)

-- Two of the largest observations: their sum is past 2^64.
abbrev largest : List ℕ
largest = 18446744073709551615 ∷ 18446744073709551615 ∷ []

observe_all-Wraps_example : Wraps (observe_all largest) largest
observe_all-Wraps_example = observe_all-Wraps largest (omega arith, (omega arith, tt))

observe_all_checked_lem_example :
    observe_all_checked largest
    ≡ (if ltb (total largest) u64_mod then some (observe_all largest) else none)
observe_all_checked_lem_example =
    observe_all_checked_lem largest (omega arith, (omega arith, tt)) (omega arith)
