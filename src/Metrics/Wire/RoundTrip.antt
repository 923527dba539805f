-- ===== src/Metrics/Wire/RoundTrip.antt =====
-- What `encode_wire` of observability/metrics.rs writes can be read back, within the widths of its
-- length fields.
use mathlib.Core.Path.{subst}
use olwsx.Base.{
  read_bytes, read_bytes-append, false, ℕ, zero, suc, ◌+◌, ◌-◌, ◌*◌, ◌/◌, ◌%◌, ◌^◌, ◌<◌, ◌≡◌, refl,
  List, [], ◌∷◌, ◌++◌, some, Bytes, arith, length, All, ltb,
}
use mathlib.Core.List.{append_assoc}
use native.Mathlib.Nat.{pow-suc, mod-eq_of_lt}
use olwsx.Base.Int.{ℤ, pos, negsuc}
use olwsx.Metrics.{
  u64_mod, Labels, MetricKind, counter, gauge, summary, latency_hist, MetricEnvelope,
}
use olwsx.Metrics.Wire.{to_be_bytes, i64_bits, encode_wire}
use olwsx.Metrics.Wire.Layout.{
  str_bytes, label_bytes, bin_bytes, tag, payload, parts, encode_wire-parts, length-to_be_bytes,
}
use olwsx.Metrics.Wire.Decode.{
  from_be, read_num, read_str, read_labels, read_bins, signed, read_kind, decode_tail, decode,
}

from_be-append :
    (acc : ℕ) (xs : Bytes) (b : ℕ) → from_be acc (xs ++ b ∷ []) ≡ from_be acc xs * 256 + b
from_be-append acc [] b = refl
from_be-append acc (x ∷ xs) b = from_be-append (acc * 256 + x) xs b

from_be-to_be_bytes : (n v : ℕ) → v < 256 ^ n → from_be 0 (to_be_bytes n v) ≡ v
unfolding to_be_bytes
from_be-to_be_bytes zero v h = omega arith
from_be-to_be_bytes (suc n) v h =
    let small : v / 256 < 256 ^ n = omega (arith, pow-suc 256 n) in
    omega (
      arith,
      from_be-append 0 (to_be_bytes n (v / 256)) (v % 256),
      from_be-to_be_bytes n (v / 256) small,
    )

pub read_num-append :
    (n v : ℕ) (rest : Bytes) → v < 256 ^ n → read_num n (to_be_bytes n v ++ rest) ≡ some (v, rest)
unfolding read_num
read_num-append n v rest h =
    rw (
      read_bytes-append n (to_be_bytes n v) rest (length-to_be_bytes n v),
      from_be-to_be_bytes n v h,
    )

read_tag : (t : ℕ) (rest : Bytes) → read_num 1 (t ∷ rest) ≡ some (t, rest)
unfolding read_num read_bytes
read_tag t rest = ground arith

read_str-append :
    (s rest : Bytes) → length s < 65536 → read_str (str_bytes s ++ rest) ≡ some (s, rest)
unfolding read_str
read_str-append s rest h = rw (
  mod-eq_of_lt h,
  append_assoc (to_be_bytes 2 (length s)) s rest,
  read_num-append 2 (length s) (s ++ rest) h,
  read_bytes-append (length s) s rest refl,
)

abbrev pub FitsLabel : Bytes × Bytes → Type 0
FitsLabel (k, v) = (length k < 65536) × (length v < 65536)

abbrev FitsKind : MetricKind → Type 0
FitsKind (counter delta) = delta < u64_mod
FitsKind (gauge (pos n)) = n < 2 ^ 63
FitsKind (gauge (negsuc n)) = n < 2 ^ 63
FitsKind (summary count sum) = (count < u64_mod) × (sum < u64_mod)
FitsKind (latency_hist bins) = (length bins ≡ 16) × All (λ b. b < u64_mod) bins

-- The numbers are in the range of their Rust types, and the lengths in that of their fields.
pub record Fits (m : MetricEnvelope) : Type 0 where
  pub fits_ts : m.ts_ms < u64_mod
  pub fits_name : length m.name < 65536
  pub fits_count : length m.labels < 65536
  pub fits_labels : All FitsLabel m.labels
  pub fits_kind : FitsKind m.kind

read_labels-append :
    (labels : Labels) (rest : Bytes)
    → All FitsLabel labels
    → read_labels (length labels) (label_bytes labels ++ rest) ≡ some (labels, rest)
unfolding read_labels
read_labels-append [] rest h = refl
read_labels-append ((k, v) ∷ labels) rest h = rw (
  append_assoc (str_bytes k) (str_bytes v ++ label_bytes labels) rest,
  append_assoc (str_bytes v) (label_bytes labels) rest,
  read_str-append k (str_bytes v ++ (label_bytes labels ++ rest)) h.0.0,
  read_str-append v (label_bytes labels ++ rest) h.0.1,
  read_labels-append labels rest h.1,
)

read_bins-append :
    (bins : List ℕ) (rest : Bytes)
    → All (λ b. b < u64_mod) bins
    → read_bins (length bins) (bin_bytes bins ++ rest) ≡ some (bins, rest)
unfolding read_bins
read_bins-append [] rest h = refl
read_bins-append (b ∷ bins) rest h = rw (
  append_assoc (to_be_bytes 8 b) (bin_bytes bins) rest,
  read_num-append 8 b (bin_bytes bins ++ rest) h.0,
  read_bins-append bins rest h.1,
)

signed-i64_bits : (z : ℤ) → FitsKind (gauge z) → signed (i64_bits z) ≡ z
unfolding i64_bits
signed-i64_bits (pos n) h = ground arith
signed-i64_bits (negsuc n) h = rw (high, same) refl
  where
    high : ltb (u64_mod - 1 - n) (2 ^ 63) ≡ false
    high = ground arith

    same : u64_mod - 1 - (u64_mod - 1 - n) ≡ n
    same = omega arith

i64_bits-lt : (z : ℤ) → FitsKind (gauge z) → i64_bits z < 256 ^ 8
unfolding i64_bits
i64_bits-lt (pos n) h = omega arith
i64_bits-lt (negsuc n) h = omega arith

read_kind-append :
    (k : MetricKind) (rest : Bytes)
    → FitsKind k
    → read_kind (tag k) (payload k ++ rest) ≡ some (k, rest)
unfolding read_kind
read_kind-append (counter delta) rest h = rw (read_num-append 8 delta rest h)
read_kind-append (gauge value) rest h =
    rw (read_num-append 8 (i64_bits value) rest (i64_bits-lt value h), signed-i64_bits value h)
read_kind-append (summary count sum) rest h = rw (
  append_assoc (to_be_bytes 8 count) (to_be_bytes 8 sum) rest,
  read_num-append 8 count (to_be_bytes 8 sum ++ rest) h.0,
  read_num-append 8 sum rest h.1,
)
read_kind-append (latency_hist bins) rest h = rw (
    subst (λ n. read_bins n (bin_bytes bins ++ rest) ≡ some (bins, rest)) h.0
      (read_bins-append bins rest h.1))

decode-parts :
    (m : MetricEnvelope) (rest : Bytes) → Fits m → decode (parts m ++ rest) ≡ some (m, rest)
unfolding decode decode_tail
decode-parts m rest fits =
    let count = length m.labels in
    let last = tag m.kind ∷ payload m.kind in
    rw (
      mod-eq_of_lt fits.fits_count,
      append_assoc (to_be_bytes 8 m.ts_ms)
          (str_bytes m.name ++ (to_be_bytes 2 count ++ (label_bytes m.labels ++ last))) rest,
      append_assoc (str_bytes m.name) (to_be_bytes 2 count ++ (label_bytes m.labels ++ last)) rest,
      append_assoc (to_be_bytes 2 count) (label_bytes m.labels ++ last) rest,
      append_assoc (label_bytes m.labels) last rest,
      read_num-append 8 m.ts_ms
          (str_bytes m.name ++ (to_be_bytes 2 count ++ (label_bytes m.labels ++ (last ++ rest))))
          fits.fits_ts,
      read_str-append m.name (to_be_bytes 2 count ++ (label_bytes m.labels ++ (last ++ rest)))
          fits.fits_name,
      read_num-append 2 count (label_bytes m.labels ++ (last ++ rest)) fits.fits_count,
      read_labels-append m.labels (last ++ rest) fits.fits_labels,
      read_tag (tag m.kind) (payload m.kind ++ rest),
      read_kind-append m.kind rest fits.fits_kind,
    )

-- What `encode_wire` writes is read back as the envelope, and the bytes after it are left, when
-- every number is in the range of its Rust type and no name, label or list of labels is longer
-- than a 16-bit length field can say.
pub decode-encode_wire :
    (m : MetricEnvelope) (rest : Bytes) → Fits m → decode (encode_wire m ++ rest) ≡ some (m, rest)
decode-encode_wire m rest fits = rw (encode_wire-parts m) (decode-parts m rest fits)
