-- ===== src/Waf/Scan.antt =====
-- The comparisons and the scan of security/waf.rs as operations on lower-case text.
use olwsx.Base
use olwsx.Base.{
  ℕ, zero, suc, ◌+◌, ◌-◌, ◌≤◌, ◌<◌, ◌≡◌, refl, sym, ◌∙◌, ap, ◌↔◌, Bool, true, false, ◌&&◌, ◌||◌,
  Bytes, bytes_eq, List, [], ◌∷◌, ◌++◌, arith, length, take, drop, starts_with, to_ascii_lowercase,
  eq_ignore_ascii_case, lower, ==_iff, if◌then◌else◌, length-lowercase, length-drop, Bool-cases,
  inl, inr, leb, ltb, ◌==◌,
}
use olwsx.Waf.{zip_all_ci, eq_ci_bytes, find_from, find_subslice_ci}

zip_all_ci_lem : (a b : Bytes) → length a ≡ length b → zip_all_ci a b ≡ eq_ignore_ascii_case a b
unfolding zip_all_ci
zip_all_ci_lem [] [] h = refl
zip_all_ci_lem [] (y ∷ b) h = absurd (omega arith)
zip_all_ci_lem (x ∷ a) [] h = absurd (omega arith)
zip_all_ci_lem (x ∷ a) (y ∷ b) h = ground (arith, zip_all_ci_lem a b)

bytes_eq-length : (a b : Bytes) → bytes_eq a b ≡ true → length a ≡ length b
bytes_eq-length a b h = ap length ((Base.bytes_eq_iff a b).0 h)

-- The comparison of bytes is that of the standard library on text.
pub eq_ci_bytes_lem : (a b : Bytes) → eq_ci_bytes a b ≡ eq_ignore_ascii_case a b
unfolding eq_ci_bytes
eq_ci_bytes_lem a b = ground (
  arith,
  zip_all_ci_lem a b,
  bytes_eq-length (to_ascii_lowercase a) (to_ascii_lowercase b),
  length-lowercase a,
  length-lowercase b,
)

-- A slice of the needle's length equals it exactly if the text there starts with it.
slice_starts_with :
    (s p : Bytes) → length p ≤ length s → bytes_eq (take (length p) s) p ≡ starts_with s p
slice_starts_with [] [] h = refl
slice_starts_with (x ∷ s) [] h = refl
slice_starts_with [] (y ∷ p) h = absurd (omega arith)
slice_starts_with (x ∷ s) (y ∷ p) h = ground (arith, slice_starts_with s p)

lowercase-take : (n : ℕ) (s : Bytes) → to_ascii_lowercase (take n s) ≡ take n (to_ascii_lowercase s)
lowercase-take zero s = refl
lowercase-take (suc n) [] = refl
lowercase-take (suc n) (x ∷ s) = ap (◌∷◌ (lower x)) (lowercase-take n s)

pub lowercase-drop :
    (n : ℕ) (s : Bytes) → to_ascii_lowercase (drop n s) ≡ drop n (to_ascii_lowercase s)
lowercase-drop zero s = refl
lowercase-drop (suc n) [] = refl
lowercase-drop (suc n) (x ∷ s) = lowercase-drop n s

-- The test of one round.
pub eq_ci_slice :
    (s p : Bytes)
    → length p ≤ length s
    → eq_ci_bytes (take (length p) s) p ≡ starts_with (to_ascii_lowercase s) (to_ascii_lowercase p)
eq_ci_slice s p h = cc (
  eq_ci_bytes_lem (take (length p) s) p,
  lowercase-take (length p) s,
  length-lowercase p,
  slice_starts_with (to_ascii_lowercase s) (to_ascii_lowercase p)
      (omega (arith, length-lowercase s, length-lowercase p)),
)

starts_with_short : (s p : Bytes) → length s < length p → starts_with s p ≡ false
starts_with_short s [] h = absurd (omega arith)
starts_with_short [] (y ∷ p) h = refl
starts_with_short (x ∷ s) (y ∷ p) h = ground (arith, starts_with_short s p)

contains_short : (s p : Bytes) → length s < length p → Base.contains s p ≡ false
contains_short [] p h = starts_with_short [] p h
contains_short (x ∷ s) p h = ground (arith, starts_with_short (x ∷ s) p, contains_short s p)

drop-suc : (i : ℕ) (s : Bytes) {x : ℕ} {t : Bytes} → drop i s ≡ x ∷ t → drop (suc i) s ≡ t
drop-suc zero [] e = cc
drop-suc zero (y ∷ s) e = cc
drop-suc (suc i) [] e = cc
drop-suc (suc i) (y ∷ s) e = drop-suc i s e

find_from_lem :
    (rounds i : ℕ) (hay needle : Bytes)
    → 0 < length needle
    → rounds + i + length needle ≡ length hay + 1
    → find_from rounds i hay needle
      ≡ Base.contains (to_ascii_lowercase (drop i hay)) (to_ascii_lowercase needle)
unfolding find_from
find_from_lem zero i hay needle some_byte h = sym (
    contains_short (to_ascii_lowercase (drop i hay)) (to_ascii_lowercase needle)
      (omega (arith, length-lowercase (drop i hay), length-lowercase needle, length-drop i hay)))
find_from_lem (suc rounds) i hay needle some_byte h =
    go (find_from_lem rounds (suc i) hay needle some_byte (omega arith)) (drop i hay) refl
  where
    go :
        find_from rounds (suc i) hay needle
          ≡ Base.contains (to_ascii_lowercase (drop (suc i) hay)) (to_ascii_lowercase needle)
        → (s : Bytes) → drop i hay ≡ s
        → find_from (suc rounds) i hay needle
          ≡ Base.contains (to_ascii_lowercase (drop i hay)) (to_ascii_lowercase needle)
    go later [] e = absurd (omega (arith, length-drop i hay, ap length e))
    go later (x ∷ s) e = ground (
      arith,
      later,
      drop-suc i hay e,
      eq_ci_slice (drop i hay) needle (omega (arith, length-drop i hay)),
    )

-- The scan of a body is a search that ignores the case of ASCII letters.
pub find_subslice_ci_lem :
    (hay needle : Bytes)
    → find_subslice_ci hay needle
      ≡ Base.contains (to_ascii_lowercase hay) (to_ascii_lowercase needle)
unfolding find_subslice_ci
find_subslice_ci_lem hay [] = sym (Base.contains_here (to_ascii_lowercase hay) [] (unit hay))
  where
    unit : (s : Bytes) → starts_with (to_ascii_lowercase s) [] ≡ true
    unit s = refl
find_subslice_ci_lem hay (y ∷ n) = ground (
  arith,
  find_from_lem (length hay - length (y ∷ n) + 1) 0 hay (y ∷ n),
  contains_short (to_ascii_lowercase hay) (to_ascii_lowercase (y ∷ n)),
  length-lowercase hay,
  length-lowercase n,
)
