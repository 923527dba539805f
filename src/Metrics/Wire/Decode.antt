-- ===== src/Metrics/Wire/Decode.antt =====
-- A reader for the format that the comment on `encode_wire` in observability/metrics.rs gives. The
-- repository has none: it is the reference that the encoder is measured against.
use olwsx.Base.{
  Reader, ◌>>=◌, read_bytes, ℕ, zero, suc, ◌+◌, ◌-◌, ◌*◌, ◌^◌, List, [], ◌∷◌, none, some, Bytes,
  ltb, ◌==◌, if◌then◌else◌,
}
use olwsx.Base.Int.{ℤ, pos, negsuc}
use olwsx.Metrics.{
  u64_mod, Labels, MetricKind, counter, gauge, summary, latency_hist, MetricEnvelope,
}

abbrev pub from_be : ℕ → Bytes → ℕ
from_be acc [] = acc
from_be acc (b ∷ bytes) = from_be (acc * 256 + b) bytes

unfoldable pub read_num : ℕ → Reader ℕ
read_num n src = do (bytes, rest) ← read_bytes n src; some (from_be 0 bytes, rest)

unfoldable pub read_str : Reader Bytes
read_str src = do (n, rest) ← read_num 2 src; read_bytes n rest

unfoldable pub read_labels : ℕ → Reader Labels
read_labels zero src = some ([], src)
read_labels (suc n) src = do
  (k, rest) ← read_str src
  (v, rest) ← read_str rest
  (labels, rest) ← read_labels n rest
  some ((k, v) ∷ labels, rest)

unfoldable pub read_bins : ℕ → Reader (List ℕ)
read_bins zero src = some ([], src)
read_bins (suc n) src = do
  (b, rest) ← read_num 8 src
  (bins, rest) ← read_bins n rest
  some (b ∷ bins, rest)

abbrev pub signed : ℕ → ℤ
signed u = if ltb u (2 ^ 63) then pos u else negsuc (u64_mod - 1 - u)

unfoldable pub read_kind : ℕ → Reader MetricKind
read_kind t src =
    if t == 1
    then (do (delta, rest) ← read_num 8 src; some (counter delta, rest))
    else if t == 2
    then (do (u, rest) ← read_num 8 src; some (gauge (signed u), rest))
    else if t == 3
    then (do
      (count, rest) ← read_num 8 src
      (sum, rest) ← read_num 8 rest
      some (summary count sum, rest))
    else if t == 4
    then (do (bins, rest) ← read_bins 16 src; some (latency_hist bins, rest))
    else none

-- What follows the name.
unfoldable pub decode_tail : ℕ → Bytes → Reader MetricEnvelope
decode_tail ts_ms name src = do
  (count, rest) ← read_num 2 src
  (labels, rest) ← read_labels count rest
  (t, rest) ← read_num 1 rest
  (kind, rest) ← read_kind t rest
  some (record { ts_ms = ts_ms; name = name; labels = labels; kind = kind }, rest)

unfoldable pub decode : Reader MetricEnvelope
decode src = do
  (ts_ms, rest) ← read_num 8 src
  (name, rest) ← read_str rest
  decode_tail ts_ms name rest
