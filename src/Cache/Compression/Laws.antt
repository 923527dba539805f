-- ===== src/Cache/Compression/Laws.antt =====
-- What cache/compression.rs promises to the layers above it.
use olwsx.Base.{
  ℕ, ◌+◌, ◌*◌, ◌%◌, ◌≡◌, refl, ◌↔◌, ◌⊎◌, inl, inr, Bytes, codes, contains, contains_iff, Occurs,
  to_ascii_lowercase, lower_idempotent, Option, none, some, arith, ◌==◌, if◌then◌else◌, Bool-cases,
}
use olwsx.Cache.Meta.{comp_none, comp_gzip, comp_zstd, comp_brotli}
use olwsx.Cache.Compression.{Algo, gzip, zstd, brotli, compress, best_for_mime}

-- How a reader of the flags finds the algorithm: the low 16 bits hold nothing else.
abbrev pub algo_of_flags : ℕ → Option Algo
algo_of_flags flags =
    if flags % 65536 == comp_none
    then some Algo.none
    else if flags % 65536 == comp_gzip
    then some gzip
    else if flags % 65536 == comp_zstd
    then some zstd
    else if flags % 65536 == comp_brotli
    then some brotli
    else none

-- The data passes through unchanged, and the algorithm can be read back from the flags, also when
-- the cache and security flags, which stand in the upper 16 bits, are added to them.
pub compress_faithful :
    (input : Bytes) (algo : Algo) (upper : ℕ)
    → ((compress input algo).data_bytes ≡ input)
      × (algo_of_flags ((compress input algo).meta_flags + 65536 * upper) ≡ some algo)
unfolding compress
compress_faithful input Algo.none upper = (refl, ground arith)
compress_faithful input gzip upper = (refl, ground arith)
compress_faithful input zstd upper = (refl, ground arith)
compress_faithful input brotli upper = (refl, ground arith)

-- The words that choose gzip.
abbrev pub IsTextual : Bytes → Type 0
IsTextual m = Occurs (codes "text/") m ⊎ (Occurs (codes "json") m ⊎ Occurs (codes "xml") m)

-- Gzip is chosen exactly for a type in whose lower-case form one of the words `text/`, `json` and
-- `xml` stands somewhere; otherwise nothing is; and the case of the letters does not matter.
pub best_for_mime_iff :
    (mime : Bytes)
    → ((best_for_mime mime ≡ gzip) ↔ IsTextual (to_ascii_lowercase mime))
      × ((best_for_mime mime ≡ gzip) ⊎ (best_for_mime mime ≡ Algo.none))
      × (best_for_mime (to_ascii_lowercase mime) ≡ best_for_mime mime)
unfolding best_for_mime
best_for_mime_iff mime =
    ((λ h. forward h, λ h. backward h), ground arith, rw (lower_idempotent mime))
  where
    m : Bytes
    m = to_ascii_lowercase mime

    forward : best_for_mime mime ≡ gzip → IsTextual m
    forward h = elim (Bool-cases (contains m (codes "text/"))) [
      | inl text ↦ inl ((contains_iff m (codes "text/")).0 text)
      | inr other ↦ elim (Bool-cases (contains m (codes "json"))) [
        | inl json ↦ inr (inl ((contains_iff m (codes "json")).0 json))
        | inr neither ↦ inr (inr ((contains_iff m (codes "xml")).0 (ground arith)))
      ]
    ]

    backward : IsTextual m → best_for_mime mime ≡ gzip
    backward (inl text) = ground (arith, (contains_iff m (codes "text/")).1 text)
    backward (inr (inl json)) = ground (arith, (contains_iff m (codes "json")).1 json)
    backward (inr (inr xml)) = ground (arith, (contains_iff m (codes "xml")).1 xml)
