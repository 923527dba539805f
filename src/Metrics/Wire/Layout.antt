-- ===== src/Metrics/Wire/Layout.antt =====
-- The parts of an encoding of observability/metrics.rs, one after the other.
use olwsx.Base.{
  ℕ, zero, suc, ◌+◌, ◌*◌, ◌/◌, ◌%◌, ◌≡◌, refl, sym, ◌∙◌, List, [], ◌∷◌, ◌++◌, Bytes, arith, length,
  length-append, some, get_elem?,
}
use mathlib.Core.List.{append-nil, append_assoc}
use olwsx.Metrics.{Labels, MetricKind, counter, gauge, summary, latency_hist, MetricEnvelope}
use olwsx.Metrics.Wire.{
  to_be_bytes, i64_bits, put_u16, put_u64, put_i64, put_str, put_labels, put_bins, put_kind,
  encode_wire,
}

abbrev pub str_bytes : Bytes → Bytes
str_bytes s = to_be_bytes 2 (length s % 65536) ++ s

abbrev pub label_bytes : Labels → Bytes
label_bytes [] = []
label_bytes ((k, v) ∷ labels) = str_bytes k ++ (str_bytes v ++ label_bytes labels)

abbrev pub bin_bytes : List ℕ → Bytes
bin_bytes [] = []
bin_bytes (b ∷ bins) = to_be_bytes 8 b ++ bin_bytes bins

abbrev pub tag : MetricKind → ℕ
tag (counter _) = 1
tag (gauge _) = 2
tag (summary _ _) = 3
tag (latency_hist _) = 4

abbrev pub payload : MetricKind → Bytes
payload (counter delta) = to_be_bytes 8 delta
payload (gauge value) = to_be_bytes 8 (i64_bits value)
payload (summary count sum) = to_be_bytes 8 count ++ to_be_bytes 8 sum
payload (latency_hist bins) = bin_bytes bins

abbrev pub parts : MetricEnvelope → Bytes
parts m =
    to_be_bytes 8 m.ts_ms
    ++ (str_bytes m.name
        ++ (to_be_bytes 2 (length m.labels % 65536)
            ++ (label_bytes m.labels ++ (tag m.kind ∷ payload m.kind))))

put_str_lem : (buf s : Bytes) → put_str buf s ≡ buf ++ str_bytes s
unfolding put_str put_u16
put_str_lem buf s = append_assoc buf (to_be_bytes 2 (length s % 65536)) s

put_labels_lem : (buf : Bytes) (labels : Labels) → put_labels buf labels ≡ buf ++ label_bytes labels
unfolding put_labels
put_labels_lem buf [] = sym (append-nil buf)
put_labels_lem buf ((k, v) ∷ labels) =
    put_labels_lem (put_str (put_str buf k) v) labels ∙ simp (put_str_lem, append_assoc)

put_bins_lem : (buf : Bytes) (bins : List ℕ) → put_bins buf bins ≡ buf ++ bin_bytes bins
unfolding put_bins put_u64
put_bins_lem buf [] = sym (append-nil buf)
put_bins_lem buf (b ∷ bins) =
    put_bins_lem (buf ++ to_be_bytes 8 b) bins ∙ append_assoc buf (to_be_bytes 8 b) (bin_bytes bins)

put_kind_lem : (buf : Bytes) (k : MetricKind) → put_kind buf k ≡ buf ++ (tag k ∷ payload k)
unfolding put_kind put_u64 put_i64
put_kind_lem buf (counter delta) = append_assoc buf (1 ∷ []) (to_be_bytes 8 delta)
put_kind_lem buf (gauge value) = append_assoc buf (2 ∷ []) (to_be_bytes 8 (i64_bits value))
put_kind_lem buf (summary count sum) = simp append_assoc
put_kind_lem buf (latency_hist bins) =
    put_bins_lem (buf ++ 4 ∷ []) bins ∙ append_assoc buf (4 ∷ []) (bin_bytes bins)

pub encode_wire-parts : (m : MetricEnvelope) → encode_wire m ≡ parts m
unfolding encode_wire put_u16 put_u64
encode_wire-parts m = simp (put_kind_lem, put_labels_lem, put_str_lem, append_assoc)

pub length-to_be_bytes : (n v : ℕ) → length (to_be_bytes n v) ≡ n
unfolding to_be_bytes
length-to_be_bytes zero v = refl
length-to_be_bytes (suc n) v = omega (
  arith,
  length-append (to_be_bytes n (v / 256)) ((v % 256) ∷ []),
  length-to_be_bytes n (v / 256),
)

-- The bytes of the labels, with two length fields each.
abbrev pub labels_size : Labels → ℕ
labels_size [] = 0
labels_size ((k, v) ∷ labels) = 4 + length k + length v + labels_size labels

abbrev pub payload_size : MetricKind → ℕ
payload_size (counter _) = 8
payload_size (gauge _) = 8
payload_size (summary _ _) = 16
payload_size (latency_hist bins) = 8 * length bins

length-str_bytes : (s : Bytes) → length (str_bytes s) ≡ 2 + length s
length-str_bytes s = omega (
  arith,
  length-append (to_be_bytes 2 (length s % 65536)) s,
  length-to_be_bytes 2 (length s % 65536),
)

length-label_bytes : (labels : Labels) → length (label_bytes labels) ≡ labels_size labels
length-label_bytes [] = refl
length-label_bytes ((k, v) ∷ labels) = omega (
  arith,
  length-append (str_bytes k) (str_bytes v ++ label_bytes labels),
  length-append (str_bytes v) (label_bytes labels),
  length-str_bytes k,
  length-str_bytes v,
  length-label_bytes labels,
)

length-bin_bytes : (bins : List ℕ) → length (bin_bytes bins) ≡ 8 * length bins
length-bin_bytes [] = refl
length-bin_bytes (b ∷ bins) = omega (
  arith,
  length-append (to_be_bytes 8 b) (bin_bytes bins),
  length-to_be_bytes 8 b,
  length-bin_bytes bins,
)

length-payload : (k : MetricKind) → length (payload k) ≡ payload_size k
length-payload (counter delta) = length-to_be_bytes 8 delta
length-payload (gauge value) = length-to_be_bytes 8 (i64_bits value)
length-payload (summary count sum) = omega (
  arith,
  length-append (to_be_bytes 8 count) (to_be_bytes 8 sum),
  length-to_be_bytes 8 count,
  length-to_be_bytes 8 sum,
)
length-payload (latency_hist bins) = length-bin_bytes bins

get_elem-append : (xs ys : Bytes) → get_elem? (xs ++ ys) (length xs) ≡ get_elem? ys 0
get_elem-append [] ys = refl
get_elem-append (x ∷ xs) ys = get_elem-append xs ys

abbrev header : MetricEnvelope → Bytes
header m =
    to_be_bytes 8 m.ts_ms
    ++ (str_bytes m.name ++ (to_be_bytes 2 (length m.labels % 65536) ++ label_bytes m.labels))

encode_wire-header :
    (m : MetricEnvelope) → encode_wire m ≡ header m ++ (tag m.kind ∷ payload m.kind)
encode_wire-header m = encode_wire-parts m ∙ simp append_assoc

length-header : (m : MetricEnvelope) → length (header m) ≡ 12 + length m.name + labels_size m.labels
length-header m =
    let count = length m.labels % 65536 in
    omega (
      arith,
      length-append (to_be_bytes 8 m.ts_ms)
          (str_bytes m.name ++ (to_be_bytes 2 count ++ label_bytes m.labels)),
      length-append (str_bytes m.name) (to_be_bytes 2 count ++ label_bytes m.labels),
      length-append (to_be_bytes 2 count) (label_bytes m.labels),
      length-to_be_bytes 8 m.ts_ms,
      length-to_be_bytes 2 count,
      length-str_bytes m.name,
      length-label_bytes m.labels,
    )

-- The byte that tells the kind stands behind 12 bytes, the name, and the labels with their
-- length fields, and the encoding is as long as these, that byte and the payload of the kind
-- together.
pub encode_wire_layout :
    (m : MetricEnvelope)
    → (get_elem? (encode_wire m) (12 + length m.name + labels_size m.labels) ≡ some (tag m.kind))
      × (length (encode_wire m) ≡ 13 + length m.name + labels_size m.labels + payload_size m.kind)
encode_wire_layout m =
    rw (encode_wire-header m, ← length-header m)
      (
        get_elem-append (header m) (tag m.kind ∷ payload m.kind),
        omega (
          arith,
          length-append (header m) (tag m.kind ∷ payload m.kind),
          length-header m,
          length-payload m.kind,
        ),
      )
