-- ===== src/Waf/Matching.antt =====
-- What a matcher of security/waf.rs accepts.
use olwsx.Base
use olwsx.Base.{
  ℕ, zero, suc, ◌+◌, ◌-◌, ◌≤◌, ◌<◌, ◌≡◌, refl, sym, ◌∙◌, ap, ◌↔◌, Bool, true, false, ◌&&◌, ◌||◌,
  Bytes, bytes_eq, List, [], ◌∷◌, ◌++◌, arith, length, take, drop, starts_with, to_ascii_lowercase,
  eq_ignore_ascii_case, lower, ==_iff, if◌then◌else◌, length-lowercase, length-drop, Bool-cases,
  inl, inr, leb, ltb, ◌==◌,
}
use olwsx.Waf.{Matcher, contains, prefix, suffix, regex, eq, match_bytes}
use olwsx.Waf.Scan.{eq_ci_bytes_lem, lowercase-drop, eq_ci_slice, find_subslice_ci_lem}

-- Text that ends in another, ignoring the case of ASCII letters.
abbrev pub EndsWith : Bytes → Bytes → Type 0
EndsWith hay s = (front : Bytes) × (to_ascii_lowercase hay ≡ front ++ to_ascii_lowercase s)

abbrev pub StartsWith : Bytes → Bytes → Type 0
StartsWith hay p = (back : Bytes) × (to_ascii_lowercase hay ≡ to_ascii_lowercase p ++ back)

abbrev pub Contains : Bytes → Bytes → Type 0
Contains hay n = Base.Occurs (to_ascii_lowercase n) (to_ascii_lowercase hay)

-- The two slices, compared without regard to case.
pub eq_ci_front_iff :
    (hay p : Bytes)
    → length p ≤ length hay
    → (eq_ignore_ascii_case (take (length p) hay) p ≡ true) ↔ StartsWith hay p
eq_ci_front_iff hay p h =
    let front = eq_ci_slice hay p h in
    let bytes = eq_ci_bytes_lem (take (length p) hay) p in
    let (to, from) = Base.starts_with_iff (to_ascii_lowercase hay) (to_ascii_lowercase p) in
    (λ e. to (cc), λ e. sym bytes ∙ front ∙ from e)

pub StartsWith-length : (hay p : Bytes) → StartsWith hay p → length p ≤ length hay
StartsWith-length hay p (back, e) = omega (
  arith,
  ap length e,
  Base.length-append (to_ascii_lowercase p) back,
  length-lowercase hay,
  length-lowercase p,
)

pub EndsWith-length : (hay s : Bytes) → EndsWith hay s → length s ≤ length hay
EndsWith-length hay s (front, e) = omega (
  arith,
  ap length e,
  Base.length-append front (to_ascii_lowercase s),
  length-lowercase hay,
  length-lowercase s,
)

pub eq_ci_back_iff :
    (hay s : Bytes)
    → length s ≤ length hay
    → (eq_ignore_ascii_case (drop (length hay - length s) hay) s ≡ true) ↔ EndsWith hay s
eq_ci_back_iff hay s h = (
  λ e. (
    take n low,
    sym (Base.take-append-drop n low)
        ∙ ap (◌++◌ (take n low)) (sym (lowercase-drop n hay) ∙ (Base.bytes_eq_iff _ _).0 e),
  ),
  λ (front, e).
      let same : n ≡ length front = omega (
        arith,
        ap length e,
        Base.length-append front (to_ascii_lowercase s),
        length-lowercase hay,
        length-lowercase s,
      ) in
      (Base.bytes_eq_iff (to_ascii_lowercase (drop n hay)) (to_ascii_lowercase s)).1
        (lowercase-drop n hay ∙ rw (e, same) (Base.drop-append front (to_ascii_lowercase s))),
)
  where
    n : ℕ
    n = length hay - length s

    low : Bytes
    low = to_ascii_lowercase hay

-- What a rule's matcher accepts in a body.
abbrev pub InBody : Bytes → Matcher → Type 0
InBody hay (contains n) = Contains hay n
InBody hay (regex n) = Contains hay n
InBody hay (eq n) = Contains hay n
InBody hay (prefix p) = StartsWith hay p
InBody hay (suffix s) = EndsWith hay s

-- A body matches exactly if, without regard to the case of ASCII letters, it contains the text of
-- `Contains`, `Regex` and also `Eq`, starts with that of `Prefix`, ends with that of `Suffix`.
pub match_bytes_iff : (hay : Bytes) (m : Matcher) → (match_bytes hay m ≡ true) ↔ InBody hay m
unfolding match_bytes
match_bytes_iff hay (contains n) = rw (find_subslice_ci_lem hay n) (Base.contains_iff _ _)
match_bytes_iff hay (regex n) = rw (find_subslice_ci_lem hay n) (Base.contains_iff _ _)
match_bytes_iff hay (eq n) = rw (find_subslice_ci_lem hay n) (Base.contains_iff _ _)
match_bytes_iff hay (prefix p) = (
  λ h.
      (eq_ci_front_iff hay p (ground arith)).0
        (ground (arith, eq_ci_bytes_lem (take (length p) hay) p)),
  λ w.
      let fits = StartsWith-length hay p w in
      ground (arith, (eq_ci_front_iff hay p fits).1 w, eq_ci_bytes_lem (take (length p) hay) p),
)
match_bytes_iff hay (suffix s) = (
  λ h.
      (eq_ci_back_iff hay s (ground arith)).0
        (ground (arith, eq_ci_bytes_lem (drop (length hay - length s) hay) s)),
  λ w.
      let fits = EndsWith-length hay s w in
      ground (
        arith,
        (eq_ci_back_iff hay s fits).1 w,
        eq_ci_bytes_lem (drop (length hay - length s) hay) s,
      ),
)
