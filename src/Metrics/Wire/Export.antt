-- ===== src/Metrics/Wire/Export.antt =====
-- A histogram of observability/metrics.rs, from the observations to the wire and back.
use olwsx.Base.{
  ℕ, zero, suc, ◌<◌, ◌≡◌, refl, ap, List, [], ◌∷◌, ◌++◌, some, Bytes, arith, length, ◌∙◌, replicate,
  All,
}
use olwsx.Metrics.{u64_mod, Labels, latency_hist}
use olwsx.Metrics.Histogram.{new, bump, observe_ms, export}
use olwsx.Metrics.Histogram.Records.{observe_all}
use olwsx.Metrics.Wire.{encode_wire}
use olwsx.Metrics.Wire.Decode.{decode}
use olwsx.Metrics.Wire.RoundTrip.{FitsLabel, decode-encode_wire}

length-bump : (i : ℕ) (bins : List ℕ) → length (bump i bins) ≡ length bins
unfolding bump
length-bump i [] = refl
length-bump zero (c ∷ bins) = refl
length-bump (suc i) (c ∷ bins) = ap suc (length-bump i bins)

bump-All :
    (i : ℕ) (bins : List ℕ) → All (λ b. b < u64_mod) bins → All (λ b. b < u64_mod) (bump i bins)
unfolding bump
bump-All i [] a = tt
bump-All zero (c ∷ bins) a = (omega arith, a.1)
bump-All (suc i) (c ∷ bins) a = (a.0, bump-All i bins a.1)

All-zero : (n : ℕ) → All (λ b. b < u64_mod) (replicate n 0)
All-zero zero = tt
All-zero (suc n) = (omega arith, All-zero n)

observe_all-bins :
    (xs : List ℕ)
    → (length (observe_all xs).bins ≡ 16) × All (λ b. b < u64_mod) (observe_all xs).bins
unfolding observe_all observe_ms new
observe_all-bins [] = (refl, All-zero 16)
observe_all-bins (x ∷ xs) =
    let (size, small) = observe_all-bins xs in
    (length-bump _ (observe_all xs).bins ∙ size, bump-All _ (observe_all xs).bins small)

-- The labels and the name of an export are no longer than their length fields can say.
pub record FitsExport (now : ℕ) (name : Bytes) (labels : Labels) : Type 0 where
  pub export_now : now < u64_mod
  pub export_name : length name < 65536
  pub export_count : length labels < 65536
  pub export_labels : All FitsLabel labels

-- Whatever was observed, the export of the histogram can be encoded and read back with its bins, when
-- the time is a u64 and no name, label or list of labels is too long for its length field.
decode-export :
    (xs : List ℕ) (now : ℕ) (name : Bytes) (labels : Labels) (rest : Bytes)
    → FitsExport now name labels
    → decode (encode_wire (export now name labels (observe_all xs)) ++ rest)
      ≡ some (
        record {
          ts_ms = now;
          name = name;
          labels = labels;
          kind = latency_hist (observe_all xs).bins;
        },
        rest,
      )
unfolding export
decode-export xs now name labels rest f =
    decode-encode_wire (export now name labels (observe_all xs)) rest (record {
      fits_ts = f.export_now;
      fits_name = f.export_name;
      fits_count = f.export_count;
      fits_labels = f.export_labels;
      fits_kind = observe_all-bins xs;
    })
