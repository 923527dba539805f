-- ===== src/Metrics/Wire.antt =====
-- `encode_wire` of observability/metrics.rs. Each helper returns the buffer that it extends.
mod Layout
mod Decode
mod RoundTrip
mod Export
mod Truncation
mod Example
mod Tests
use olwsx.Base.{ℕ, zero, suc, ◌+◌, ◌-◌, ◌/◌, ◌%◌, List, [], ◌∷◌, ◌++◌, Bytes, length}
use olwsx.Base.Int.{ℤ, pos, negsuc}
use olwsx.Metrics.{
  u64_mod, Labels, MetricKind, counter, gauge, summary, latency_hist, MetricEnvelope,
}

-- `to_be_bytes` of an unsigned number of `n` bytes
pub to_be_bytes : ℕ → ℕ → Bytes
to_be_bytes zero v = []
to_be_bytes (suc n) v = to_be_bytes n (v / 256) ++ (v % 256) ∷ []

-- The bit pattern of an `i64`: two's complement.
pub i64_bits : ℤ → ℕ
i64_bits (pos n) = n
i64_bits (negsuc n) = u64_mod - 1 - n

pub put_u16 : Bytes → ℕ → Bytes
put_u16 buf v = buf ++ to_be_bytes 2 v

pub put_u64 : Bytes → ℕ → Bytes
put_u64 buf v = buf ++ to_be_bytes 8 v

pub put_i64 : Bytes → ℤ → Bytes
put_i64 buf v = buf ++ to_be_bytes 8 (i64_bits v)

-- `bytes.len() as u16`
pub put_str : Bytes → Bytes → Bytes
put_str buf s = put_u16 buf (length s % 65536) ++ s

pub put_labels : Bytes → Labels → Bytes
put_labels buf [] = buf
put_labels buf ((k, v) ∷ labels) = put_labels (put_str (put_str buf k) v) labels

pub put_bins : Bytes → List ℕ → Bytes
put_bins buf [] = buf
put_bins buf (b ∷ bins) = put_bins (put_u64 buf b) bins

pub put_kind : Bytes → MetricKind → Bytes
put_kind buf (counter delta) = put_u64 (buf ++ 1 ∷ []) delta
put_kind buf (gauge value) = put_i64 (buf ++ 2 ∷ []) value
put_kind buf (summary count sum) = put_u64 (put_u64 (buf ++ 3 ∷ []) count) sum
put_kind buf (latency_hist bins) = put_bins (buf ++ 4 ∷ []) bins

pub encode_wire : MetricEnvelope → Bytes
encode_wire m =
    let buf = put_str (put_u64 [] m.ts_ms) m.name in
    put_kind (put_labels (put_u16 buf (length m.labels % 65536)) m.labels) m.kind
