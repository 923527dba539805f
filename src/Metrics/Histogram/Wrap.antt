-- ===== src/Metrics/Histogram/Wrap.antt =====
-- The counters of the histogram in observability/metrics.rs past 2^64, in a build without overflow checks.
use olwsx.Base.{
  ℕ, suc, ◌+◌, ◌-◌, ◌%◌, ◌<◌, ◌≡◌, refl, ap, false, List, [], ◌∷◌, arith, ltb, ltb→lt, leb, length,
  All, if◌then◌else◌, Bool-cases, inl, inr,
}
use olwsx.Metrics.{u64_mod}
use olwsx.Metrics.Histogram.{LatencyHistogram, lat_bounds, new, bin_from, bump, observe_ms}
use olwsx.Metrics.Histogram.Counts.{count_le, above, tally, total, Covers, length-tally}
use olwsx.Metrics.Histogram.Records.{
  Covers-tail, bin_from-lt, bin_from-suc, lat_bounds_cover, observe_all,
}

abbrev pub wrap : ℕ → ℕ
wrap n = n % u64_mod

abbrev wrap_all : List ℕ → List ℕ
wrap_all [] = []
wrap_all (c ∷ cs) = wrap c ∷ wrap_all cs

length-wrap_all : (cs : List ℕ) → length (wrap_all cs) ≡ length cs
length-wrap_all [] = refl
length-wrap_all (c ∷ cs) = ap suc (length-wrap_all cs)

-- One more observation in its bin.
bump-wrap_all :
    (bounds : List ℕ) (x : ℕ) (xs : List ℕ)
    → Covers bounds x
    → bump (bin_from 0 bounds x) (wrap_all (tally bounds xs)) ≡ wrap_all (tally bounds (x ∷ xs))
unfolding bin_from bump
bump-wrap_all [] x xs c = absurd c
bump-wrap_all (b ∷ bounds) x xs c = elim (Bool-cases (ltb b x)) [
  | inl past ↦
      rw (past, bin_from-suc bounds x)
        (ap (◌∷◌ (wrap (count_le b xs)))
          (bump-wrap_all bounds x (above b xs) (Covers-tail b bounds x c (ltb→lt _ _ past))))
  | inr here ↦
      let more : (count_le b xs % u64_mod + 1) % u64_mod ≡ suc (count_le b xs) % u64_mod =
        omega arith in
      rw (here, more)
]

clamp-wrap_all :
    (bounds bins : List ℕ) (x : ℕ) (xs : List ℕ)
    → bins ≡ wrap_all (tally bounds xs)
    → Covers bounds x
    → bump
        (if leb (length bins) (bin_from 0 bounds x) then length bins - 1 else bin_from 0 bounds x)
        bins
      ≡ wrap_all (tally bounds (x ∷ xs))
clamp-wrap_all bounds bins x xs e c =
    let inside : leb (length bins) (bin_from 0 bounds x) ≡ false = ground (
      arith,
      ap length e,
      length-wrap_all (tally bounds xs),
      length-tally bounds xs,
      bin_from-lt bounds x c,
    ) in
    rw (inside, e) (bump-wrap_all bounds x xs c)

-- The counters of `h` are those of the observations `xs`, modulo 2^64.
pub record Wraps (h : LatencyHistogram) (xs : List ℕ) : Type 0 where
  pub bins : h.bins ≡ wrap_all (tally lat_bounds xs)
  pub count : h.count ≡ wrap (length xs)
  pub sum : h.sum_ms ≡ wrap (total xs)

observe_ms-Wraps :
    (ms : ℕ) {h : LatencyHistogram} {xs : List ℕ}
    → Wraps h xs
    → ms < u64_mod
    → Wraps (observe_ms ms h) (ms ∷ xs)
unfolding observe_ms
observe_ms-Wraps ms {h} {xs} r small = record {
  bins = clamp-wrap_all lat_bounds h.bins ms xs r.bins (lat_bounds_cover ms small);
  count = omega arith;
  sum = omega arith;
}

-- After any number of observations, each a u64, every bin, the count and the sum are what they
-- count modulo 2^64, in a build without overflow checks.
pub observe_all-Wraps : (xs : List ℕ) → All (λ x. x < u64_mod) xs → Wraps (observe_all xs) xs
unfolding observe_all new
observe_all-Wraps [] a = record { bins = refl; count = refl; sum = refl }
observe_all-Wraps (ms ∷ xs) a = observe_ms-Wraps ms (observe_all-Wraps xs a.1) a.0
