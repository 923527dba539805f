-- ===== src/Metrics/Wire/Tests.antt =====
-- The test of observability/metrics.rs on the encoder, and the theorems on the wire format at
-- concrete envelopes.
use olwsx.Base.{
  ℕ, ◌≤◌, ◌<◌, replicate, length-replicate, ◌≡◌, refl, [], ◌∷◌, ◌++◌, codes, some, arith, length,
  get_elem?,
}
use olwsx.Base.Int.{negsuc}
use olwsx.Metrics.{u64_mod, MetricEnvelope, latency_hist, make_counter, make_gauge}
use olwsx.Metrics.Wire.{
  to_be_bytes, i64_bits, put_u16, put_u64, put_i64, put_str, put_labels, put_bins, put_kind,
  encode_wire,
}
use olwsx.Metrics.Wire.Decode.{decode}
use olwsx.Metrics.Wire.Export.{FitsExport}
use olwsx.Metrics.Wire.RoundTrip.{Fits, decode-encode_wire}

wire : Unit {0}
unfolding to_be_bytes i64_bits put_u16 put_u64 put_i64 put_str put_labels put_bins put_kind
    encode_wire make_counter make_gauge
wire = tt

abbrev requests_total : MetricEnvelope
requests_total =
    make_counter 1700000000000 (codes "requests_total") 1 ((codes "tenant", codes "default") ∷ [])

abbrev queue_depth : MetricEnvelope
queue_depth =
    make_gauge 1700000000000 (codes "depth") (negsuc 4)
      ((codes "q", codes "in") ∷ (codes "host", codes "") ∷ [])

tag_test : get_elem? (encode_wire requests_total) 43 ≡ some 1
unfolding wire
tag_test = refl

length_test : length (encode_wire requests_total) ≡ 52
unfolding wire
length_test = refl

queue_depth-Fits : Fits queue_depth
unfolding make_gauge
queue_depth-Fits = record {
  fits_ts = omega arith;
  fits_name = omega arith;
  fits_count = omega arith;
  fits_labels = ((omega arith, omega arith), ((omega arith, omega arith), tt));
  fits_kind = omega arith;
}

decode-encode_wire_example : decode (encode_wire queue_depth ++ 7 ∷ []) ≡ some (queue_depth, 7 ∷ [])
decode-encode_wire_example = decode-encode_wire queue_depth (7 ∷ []) queue_depth-Fits

latency-FitsExport :
    FitsExport 1700000000000 (codes "latency") ((codes "route", codes "/hello") ∷ [])
latency-FitsExport = record {
  export_now = omega arith;
  export_name = omega arith;
  export_count = omega arith;
  export_labels = ((omega arith, omega arith), tt);
}

-- An envelope whose name has as many bytes.
named : ℕ → MetricEnvelope
named n = record { ts_ms = 0; name = replicate n b'a'; labels = []; kind = latency_hist [] }

named-long : (n : ℕ) → 65536 ≤ n → 65536 ≤ length (named n).name
unfolding named
named-long n h = omega (arith, length-replicate {A = ℕ} n b'a')

named-small : (n : ℕ) → (named n).ts_ms < u64_mod
unfolding named
named-small n = omega arith
