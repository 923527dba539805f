-- ===== src/Metrics/Histogram/Checked/Agrees.antt =====
-- When the histogram of observability/metrics.rs overflows.
use olwsx.Base.{
  ℕ, zero, suc, ◌+◌, ◌-◌, ◌%◌, ◌≤◌, ◌<◌, ◌≡◌, refl, ◌∙◌, ap, false, List, [], ◌∷◌, none, some,
  arith, ltb, ltb→lt, leb, length, All, if◌then◌else◌, Bool-cases, inl, inr,
}
use native.Mathlib.Nat.{mod-eq_of_lt}
use olwsx.Metrics.{u64_mod}
use olwsx.Metrics.Histogram.{LatencyHistogram, lat_bounds, bin_from, bump, observe_ms}
use olwsx.Metrics.Histogram.Counts.{above, tally, total, count_le-le-length, count_le-add-above}
use olwsx.Metrics.Histogram.Records.{observe_all, observe_all-Records}
use olwsx.Metrics.Histogram.Checked.{
  checked_add, bump_checked, observe_ms_checked, observe_all_checked,
}

checked_add_lem : (a b : ℕ) → a + b < u64_mod → checked_add a b ≡ some ((a + b) % u64_mod)
unfolding checked_add
checked_add_lem a b h = ground (arith, mod-eq_of_lt h)

checked_add_over : (a b : ℕ) → ltb (a + b) u64_mod ≡ false → checked_add a b ≡ none
unfolding checked_add
checked_add_over a b h = rw h refl

bump_checked_lem :
    (n i : ℕ) (bins : List ℕ)
    → n + 1 < u64_mod
    → All (λ c. c ≤ n) bins
    → bump_checked i bins ≡ some (bump i bins)
unfolding bump_checked bump
bump_checked_lem n i [] h a = refl
bump_checked_lem n zero (c ∷ bins) h a = rw (checked_add_lem c 1 (omega (arith, a.0))) refl
bump_checked_lem n (suc i) (c ∷ bins) h a = ground (arith, bump_checked_lem n i bins h a.1)

tally-All : (n : ℕ) (bounds xs : List ℕ) → length xs ≤ n → All (λ c. c ≤ n) (tally bounds xs)
tally-All n [] xs h = tt
tally-All n (b ∷ bounds) xs h = (
  omega (arith, count_le-le-length b xs),
  tally-All n bounds (above b xs) (omega (arith, count_le-add-above b xs)),
)

observe_ms_checked_lem :
    (ms : ℕ) (h : LatencyHistogram) (n : ℕ)
    → All (λ c. c ≤ n) h.bins
    → h.count ≡ n
    → n + 1 < u64_mod
    → observe_ms_checked ms h
      ≡ (if ltb (h.sum_ms + ms) u64_mod then some (observe_ms ms h) else none)
unfolding observe_ms_checked observe_ms
observe_ms_checked_lem ms h n small count few =
    let idx = bin_from 0 lat_bounds ms in
    let i = if leb (length h.bins) idx then length h.bins - 1 else idx in
    let bumped = bump_checked_lem n i h.bins few small in
    let counted : checked_add h.count 1 ≡ some ((h.count + 1) % u64_mod) =
      checked_add_lem h.count 1 (omega arith) in
    elim (Bool-cases (ltb (h.sum_ms + ms) u64_mod)) [
      | inl fits ↦
          let added = checked_add_lem h.sum_ms ms (ltb→lt _ _ fits) in
          rw (bumped, counted, added, fits) refl
      | inr over ↦ rw (bumped, counted, checked_add_over h.sum_ms ms over, over) refl
    ]

-- In a build with overflow checks, fewer than 2^64 observations, each a u64, leave the histogram
-- that a build without them has, if their sum is below 2^64, and panic if it is not.
pub observe_all_checked_lem :
    (xs : List ℕ)
    → All (λ x. x < u64_mod) xs
    → length xs < u64_mod
    → observe_all_checked xs ≡ (if ltb (total xs) u64_mod then some (observe_all xs) else none)
unfolding observe_all_checked observe_all
observe_all_checked_lem [] a few = refl
observe_all_checked_lem (ms ∷ xs) a few =
    let before = observe_all_checked_lem xs a.1 (omega arith) in
    elim (Bool-cases (ltb (total xs) u64_mod)) [
      | inl fits ↦
          let r = observe_all-Records xs a.1 (omega arith) in
          let small : All (λ c. c ≤ length xs) (observe_all xs).bins =
            rw r.bins (tally-All (length xs) lat_bounds xs (omega arith)) in
          let exact : (observe_all xs).sum_ms ≡ total xs = r.sum ∙ mod-eq_of_lt (ltb→lt _ _ fits) in
          let same : (observe_all xs).sum_ms + ms ≡ ms + total xs = omega (arith, exact) in
          rw
            (
              before,
              fits,
              observe_ms_checked_lem ms (observe_all xs) (length xs) small r.count (omega arith),
            )
            (ap (λ t. if ltb t u64_mod then some (observe_ms ms (observe_all xs)) else none) same)
      | inr over ↦
          let still : ltb (ms + total xs) u64_mod ≡ false = ground arith in
          rw (before, over, still) refl
    ]
