-- ===== src/Metrics/Wire/Example.antt =====
-- The two tests of observability/metrics.rs, as functions into Bool: false when an assertion or an
-- index panics.
use olwsx.Base.{
  ℕ, Bool, true, false, ◌+◌, ◌&&◌, ◌≡◌, refl, List, [], ◌∷◌, none, some, codes, length, get_elem?,
  ltb, leb, ◌==◌,
}
use olwsx.Metrics.{Labels, make_counter}
use olwsx.Metrics.Histogram.{
  F64, LatencyHistogram, new, bin_from, bump, observe_ms, p90, quantile, quantile_at, quantile_from,
  bound_at, target_of, export,
}
use olwsx.Metrics.Wire.{
  encode_wire, put_kind, put_bins, put_u64, put_u16, put_labels, put_str, to_be_bytes,
}

-- The loop of the test.
abbrev observe_each : List ℕ → LatencyHistogram → LatencyHistogram
observe_each [] h = h
observe_each (ms ∷ rest) h = observe_each rest (observe_ms ms h)

abbrev test_labels : Labels
test_labels = (codes "route", codes "/hello") ∷ (codes "method", codes "GET") ∷ []

unfoldable test_hist : F64 → ℕ → Bool
test_hist f now =
    let h = observe_each (3 ∷ 7 ∷ 12 ∷ 55 ∷ 180 ∷ 240 ∷ 510 ∷ []) new in
    let wire = encode_wire (export now (codes "latency") test_labels h) in
    leb 240 (p90 f h) && ltb 16 (length wire)

unfoldable test_counter_encode : ℕ → Bool
test_counter_encode now =
    let wire =
      encode_wire
        (make_counter now (codes "requests_total") 1 ((codes "tenant", codes "default") ∷ [])) in
    elim (get_elem? wire (16 + 2 + length (codes "requests_total") + 2 + (6 + 7 + 2 + 7))) [
      | none ↦ false
      | some b ↦ b == 1
    ]

-- The test of the histogram passes for any `f64` arithmetic in which the rank of the 90th percentile
-- of seven observations is 7.
test_hist_lem : (f : F64) (now : ℕ) → target_of f 7 (f.percent 90) ≡ 7 → test_hist f now ≡ true
unfolding test_hist p90 quantile observe_ms bin_from bump new export encode_wire put_kind put_bins
    put_u64 put_u16 put_labels put_str to_be_bytes
test_hist_lem f now h = rw h (unfold quantile_at quantile_from bound_at in refl)

-- The test of the counter reads past the end of the encoding, at any time.
test_counter_encode_lem : (now : ℕ) → test_counter_encode now ≡ false
unfolding test_counter_encode encode_wire put_kind make_counter put_u64 put_labels put_str put_u16
    to_be_bytes
test_counter_encode_lem now = refl
