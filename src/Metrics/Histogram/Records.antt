-- ===== src/Metrics/Histogram/Records.antt =====
-- What the histogram of observability/metrics.rs holds after any observations.
use olwsx.Base.{
  ℕ, suc, ◌+◌, ◌-◌, ◌%◌, ◌<◌, ◌≡◌, refl, ap, false, List, [], ◌∷◌, arith, ltb, ltb→lt, leb, length,
  All, if◌then◌else◌, Bool-cases, inl, inr,
}
use olwsx.Metrics.{u64_mod}
use olwsx.Metrics.Histogram.{LatencyHistogram, lat_bounds, new, bin_from, bump, observe_ms}
use olwsx.Metrics.Histogram.Counts.{
  count_le, above, tally, total, Covers, count_le-le-length, count_le-add-above, length-tally,
  total-tally,
}

bin_from-add :
    (idx : ℕ) (bounds : List ℕ) (ms : ℕ) → bin_from idx bounds ms ≡ idx + bin_from 0 bounds ms
unfolding bin_from
bin_from-add idx [] ms = omega arith
bin_from-add idx (b ∷ bounds) ms =
    ground (arith, bin_from-add (suc idx) bounds ms, bin_from-add 1 bounds ms)

pub bin_from-lt :
    (bounds : List ℕ) (ms : ℕ) → Covers bounds ms → bin_from 0 bounds ms < length bounds
unfolding bin_from
bin_from-lt [] ms c = absurd c
bin_from-lt (b ∷ []) ms c = ground arith
bin_from-lt (b ∷ d ∷ bounds) ms c =
    ground (arith, bin_from-lt (d ∷ bounds) ms c, bin_from-add 1 (d ∷ bounds) ms)

pub bin_from-suc : (bounds : List ℕ) (ms : ℕ) → bin_from 1 bounds ms ≡ suc (bin_from 0 bounds ms)
bin_from-suc bounds ms = omega (arith, bin_from-add 1 bounds ms)

pub Covers-tail :
    (b : ℕ) (bounds : List ℕ) (x : ℕ) → Covers (b ∷ bounds) x → b < x → Covers bounds x
Covers-tail b [] x c h = absurd (omega arith)
Covers-tail b (d ∷ bounds) x c h = c

-- One more observation in its bin.
tally-bump :
    (bounds : List ℕ) (x : ℕ) (xs : List ℕ)
    → Covers bounds x
    → length xs + 1 < u64_mod
    → bump (bin_from 0 bounds x) (tally bounds xs) ≡ tally bounds (x ∷ xs)
unfolding bin_from bump
tally-bump [] x xs c h = absurd c
tally-bump (b ∷ bounds) x xs c h = elim (Bool-cases (ltb b x)) [
  | inl past ↦
      rw (past, bin_from-suc bounds x)
        (ap (◌∷◌ (count_le b xs)) (
          tally-bump bounds x (above b xs) (Covers-tail b bounds x c (ltb→lt _ _ past))
            (omega (arith, count_le-add-above b xs))))
  | inr here ↦
      let more : (count_le b xs + 1) % u64_mod ≡ suc (count_le b xs) =
        omega (arith, count_le-le-length b xs) in
      rw (here, more)
]

-- The index stays within the bins.
clamp-bump :
    (bounds bins : List ℕ) (x : ℕ) (xs : List ℕ)
    → bins ≡ tally bounds xs
    → Covers bounds x
    → length xs + 1 < u64_mod
    → bump
        (if leb (length bins) (bin_from 0 bounds x) then length bins - 1 else bin_from 0 bounds x)
        bins
      ≡ tally bounds (x ∷ xs)
clamp-bump bounds bins x xs e c h =
    let inside : leb (length bins) (bin_from 0 bounds x) ≡ false =
      ground (arith, ap length e, length-tally bounds xs, bin_from-lt bounds x c) in
    rw (inside, e) (tally-bump bounds x xs c h)

pub lat_bounds_cover : (x : ℕ) → x < u64_mod → Covers lat_bounds x
lat_bounds_cover x h = omega arith

-- The histogram `h` has recorded the observations `xs`: each bin counts those up to its bound and
-- above the bound before, `count` is their number and `sum_ms` their sum modulo 2^64.
pub record Records (h : LatencyHistogram) (xs : List ℕ) : Type 0 where
  pub bins : h.bins ≡ tally lat_bounds xs
  pub count : h.count ≡ length xs
  pub sum : h.sum_ms ≡ total xs % u64_mod

observe_ms-Records :
    (ms : ℕ) {h : LatencyHistogram} {xs : List ℕ}
    → Records h xs
    → ms < u64_mod
    → length xs + 1 < u64_mod
    → Records (observe_ms ms h) (ms ∷ xs)
unfolding observe_ms
observe_ms-Records ms {h} {xs} r small few = record {
  bins = clamp-bump lat_bounds h.bins ms xs r.bins (lat_bounds_cover ms small) few;
  count = omega arith;
  sum = omega arith;
}

-- The observations of a list, the latest first.
unfoldable pub observe_all : List ℕ → LatencyHistogram
observe_all [] = new
observe_all (ms ∷ xs) = observe_ms ms (observe_all xs)

pub observe_all-Records :
    (xs : List ℕ) → All (λ x. x < u64_mod) xs → length xs < u64_mod → Records (observe_all xs) xs
unfolding observe_all new
observe_all-Records [] a h = record { bins = refl; count = refl; sum = refl }
observe_all-Records (ms ∷ xs) a h =
    observe_ms-Records ms (observe_all-Records xs a.1 (omega arith)) a.0 (omega arith)

pub cover-All : (xs : List ℕ) → All (λ x. x < u64_mod) xs → All (Covers lat_bounds) xs
cover-All [] a = tt
cover-All (x ∷ xs) a = (lat_bounds_cover x a.0, cover-All xs a.1)

-- After fewer than 2^64 observations, each a u64, every bin counts those up to its bound and
-- above the bounds before, the count is their number, the sum theirs modulo 2^64, and the bins
-- add up to the count.
observe_all_exact :
    (xs : List ℕ)
    → All (λ x. x < u64_mod) xs
    → length xs < u64_mod
    → Records (observe_all xs) xs × (total (observe_all xs).bins ≡ (observe_all xs).count)
observe_all_exact xs a h =
    let r = observe_all-Records xs a h in
    (r, rw (r.bins, r.count) (total-tally lat_bounds xs (cover-All xs a)))
