-- ===== src/Metrics/Wire/Truncation.antt =====
-- The casts `as u16` of observability/metrics.rs: a name too long for its length field is lost.
use mathlib.Core.List.{append_assoc}
use olwsx.Base.{
  ℕ, zero, suc, ◌%◌, ◌≤◌, ◌<◌, ◌≡◌, ◌≢◌, refl, sym, ap, ◌∙◌, [], ◌∷◌, ◌++◌, Option, none, some,
  Bytes, arith, length, length-append, take, drop, ◌>>=◌, read_bytes,
}
use olwsx.Metrics.{u64_mod, MetricEnvelope}
use olwsx.Metrics.Wire.{to_be_bytes, encode_wire}
use olwsx.Metrics.Wire.Layout.{str_bytes, label_bytes, tag, payload, encode_wire-parts}
use olwsx.Metrics.Wire.Decode.{read_num, read_str, read_labels, read_kind, decode_tail, decode}
use olwsx.Metrics.Wire.RoundTrip.{read_num-append}

length-take-le : (n : ℕ) (s : Bytes) → length (take n s) ≤ n
length-take-le zero s = omega arith
length-take-le (suc n) [] = omega arith
length-take-le (suc n) (x ∷ s) = omega (arith, length-take-le n s)

bind_some {ℓ κ} :
    {A : Type ℓ} {B : Type κ} (o : Option A) (f : A → Option B) (b : B)
    → (o >>= f) ≡ some b
    → (a : A) × (f a ≡ some b)
bind_some none f b h = absurd cc
bind_some (some a) f b h = (a, h)

name_of : Option (MetricEnvelope × Bytes) → Bytes
name_of none = []
name_of (some (m, rest)) = m.name

-- The name that a reading returns is the one that was read.
decode_tail-name :
    (ts_ms : ℕ) (name src rest : Bytes) (m : MetricEnvelope)
    → decode_tail ts_ms name src ≡ some (m, rest)
    → m.name ≡ name
unfolding decode_tail name_of
decode_tail-name ts_ms name src rest m h =
    let (count, h1) = bind_some (read_num 2 src) _ (m, rest) h in
    let (labels, h2) = bind_some (read_labels count.0 count.1) _ (m, rest) h1 in
    let (t, h3) = bind_some (read_num 1 labels.1) _ (m, rest) h2 in
    let (kind, h4) = bind_some (read_kind t.0 t.1) _ (m, rest) h3 in ap (λ o. name_of o) (sym h4)

read_bytes_long : (n : ℕ) (s : Bytes) → n ≤ length s → read_bytes n s ≡ some (take n s, drop n s)
unfolding read_bytes
read_bytes_long n s h = ground arith

-- As many bytes are read as the length field says.
read_str_long :
    (s rest : Bytes)
    → 65536 ≤ length s
    → read_str (str_bytes s ++ rest)
      ≡ some (take (length s % 65536) (s ++ rest), drop (length s % 65536) (s ++ rest))
unfolding read_str
read_str_long s rest h =
    let n = length s % 65536 in
    rw (append_assoc (to_be_bytes 2 n) s rest, read_num-append 2 n (s ++ rest) (omega arith))
      (read_bytes_long n (s ++ rest) (omega (arith, length-append s rest)))

decode_parts_long :
    (ts_ms : ℕ) (name tail : Bytes)
    → ts_ms < u64_mod
    → 65536 ≤ length name
    → decode (to_be_bytes 8 ts_ms ++ (str_bytes name ++ tail))
      ≡ decode_tail ts_ms
          (take (length name % 65536) (name ++ tail))
          (drop (length name % 65536) (name ++ tail))
unfolding decode
decode_parts_long ts_ms name tail small long =
    rw (read_num-append 8 ts_ms (str_bytes name ++ tail) small, read_str_long name tail long) refl

-- An envelope with a name of 65536 bytes or more, and a time that is a u64, is not read back,
-- whatever follows its encoding and whatever a reading leaves.
pub encode_wire_truncates :
    (m : MetricEnvelope) (rest after : Bytes)
    → m.ts_ms < u64_mod
    → 65536 ≤ length m.name
    → decode (encode_wire m ++ rest) ≢ some (m, after)
encode_wire_truncates m rest after small long h =
    let last = label_bytes m.labels ++ (tag m.kind ∷ payload m.kind) in
    let count = to_be_bytes 2 (length m.labels % 65536) in
    let n = length m.name % 65536 in
    let shape : encode_wire m ++ rest
        ≡ to_be_bytes 8 m.ts_ms ++ (str_bytes m.name ++ ((count ++ last) ++ rest)) =
      rw
        (
          encode_wire-parts m,
          append_assoc (to_be_bytes 8 m.ts_ms) (str_bytes m.name ++ (count ++ last)) rest,
          append_assoc (str_bytes m.name) (count ++ last) rest,
        )
        refl in
    let read =
      sym (decode_parts_long m.ts_ms m.name ((count ++ last) ++ rest) small long)
      ∙ sym (ap decode shape)
      ∙ h in
    let same = decode_tail-name m.ts_ms _ _ after m read in
    omega (arith, ap length same, length-take-le n (m.name ++ ((count ++ last) ++ rest)))
