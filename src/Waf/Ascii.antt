-- ===== src/Waf/Ascii.antt =====
-- Text matching of security/waf.rs: on ASCII text it returns, and on other text a slice may panic.
use olwsx.Base.{
  ℕ, zero, suc, ◌-◌, ◌≤◌, ◌<◌, ◌≡◌, ◌≢◌, ◌↔◌, Bool, true, Bytes, bytes_eq_iff, List, [], ◌∷◌, arith,
  none, some, All, length, get_elem?, to_ascii_lowercase, contains_iff, Option-cases, Bool-cases,
  leb→le, inl, inr, leb,
}
use olwsx.Waf.{
  Matcher, contains, prefix, suffix, regex, eq, Field, path, user_agent, header, body, ip,
  RequestView, Rule, ret, panic, is_char_boundary, slice_to, slice_from, eq_ci, contains_ci,
  match_str, match_header, match_field, matches,
}
use olwsx.Waf.Matching.{
  Contains, StartsWith, EndsWith, StartsWith-length, EndsWith-length, eq_ci_front_iff,
  eq_ci_back_iff,
}

abbrev pub IsAscii : Bytes → Type 0
IsAscii s = All (λ b. b < 128) s

get_elem-lt : (s : Bytes) (n b : ℕ) → get_elem? s n ≡ some b → n < length s
get_elem-lt [] n b h = cc
get_elem-lt (x ∷ s) zero b h = omega arith
get_elem-lt (x ∷ s) (suc n) b h = omega (arith, get_elem-lt s n b h)

get_elem-none : (s : Bytes) (n : ℕ) → get_elem? s n ≡ none → length s ≤ n
get_elem-none [] n h = omega arith
get_elem-none (x ∷ s) zero h = cc
get_elem-none (x ∷ s) (suc n) h = omega (arith, get_elem-none s n h)

get_elem-IsAscii : (s : Bytes) (n b : ℕ) → IsAscii s → get_elem? s n ≡ some b → b < 128
get_elem-IsAscii [] n b a h = cc
get_elem-IsAscii (x ∷ s) zero b a h = ground arith
get_elem-IsAscii (x ∷ s) (suc n) b a h = get_elem-IsAscii s n b a.1 h

ascii_boundary : (s : Bytes) (n : ℕ) → IsAscii s → n ≤ length s → is_char_boundary s n ≡ true
ascii_boundary s n a h = elim (Option-cases (get_elem? s n)) [
  | inl out ↦ ground (arith, get_elem-none s n)
  | inr (b, inside) ↦ ground (arith, get_elem-IsAscii s n b a inside)
]

-- The text that a matcher carries.
abbrev pub pattern_of : Matcher → Bytes
pattern_of (contains s) = s
pattern_of (prefix s) = s
pattern_of (suffix s) = s
pattern_of (regex s) = s
pattern_of (eq s) = s

-- What a rule's matcher accepts in a text.
abbrev pub InText : Bytes → Matcher → Type 0
InText hay (contains n) = Contains hay n
InText hay (regex n) = Contains hay n
InText hay (eq x) = to_ascii_lowercase hay ≡ to_ascii_lowercase x
InText hay (prefix p) = StartsWith hay p
InText hay (suffix s) = EndsWith hay s

-- A request whose texts are ASCII. The body may be anything.
pub record IsPlain (req : RequestView) : Type 0 where
  pub path_ascii : IsAscii req.path
  pub user_agent_ascii : IsAscii req.user_agent
  pub headers_ascii : All (λ h. IsAscii h.1) req.headers
  pub ip_ascii : IsAscii req.ip

module _ (to_lowercase : Bytes → Bytes) where
  -- A `Prefix` whose length falls inside a character of the text, where the byte continues the
  -- character, makes the slice panic.
  pub match_str_panics :
      (hay p : Bytes) (b : ℕ)
      → get_elem? hay (length p) ≡ some b
      → 128 ≤ b
      → b < 192
      → 0 < length p
      → match_str to_lowercase hay (prefix p) ≡ panic
  unfolding match_str slice_to
  match_str_panics hay p b inside low high some_byte =
      ground (arith, get_elem-lt hay (length p) b inside)

  returns_iff : {b : Bool} {P : Type 0} → (b ≡ true) ↔ P → (ret b ≡ ret true) ↔ P
  returns_iff i = (λ h. i.0 (cc), λ w. rw (i.1 w))

  module _ (on_ascii : (s : Bytes) → IsAscii s → to_lowercase s ≡ to_ascii_lowercase s) where
    -- Where `to_lowercase` is the ASCII mapping on ASCII text, a matcher with an ASCII pattern
    -- returns on an ASCII text, and it accepts exactly the texts that, without regard to case,
    -- contain the pattern (`Contains`, `Regex`), start with it (`Prefix`), end with it
    -- (`Suffix`) or are it (`Eq`).
    pub match_str_iff :
        (hay : Bytes) (m : Matcher)
        → IsAscii hay
        → IsAscii (pattern_of m)
        → (match_str to_lowercase hay m ≢ panic)
          × ((match_str to_lowercase hay m ≡ ret true) ↔ InText hay m)
    unfolding match_str contains_ci slice_to slice_from eq_ci
    match_str_iff hay (contains n) a p =
        rw (on_ascii hay a, on_ascii n p) (λ h. cc, returns_iff (contains_iff _ _))
    match_str_iff hay (regex n) a p =
        rw (on_ascii hay a, on_ascii n p) (λ h. cc, returns_iff (contains_iff _ _))
    match_str_iff hay (eq x) a p =
        (λ h. cc, returns_iff (bytes_eq_iff (to_ascii_lowercase hay) (to_ascii_lowercase x)))
    match_str_iff hay (prefix p) a _ = elim (Bool-cases (leb (length p) (length hay))) [
      | inl fits ↦
          let le : length p ≤ length hay = leb→le _ _ fits in
          rw (fits, ascii_boundary hay (length p) a le)
            (λ h. cc, returns_iff (eq_ci_front_iff hay p le))
      | inr short ↦
          rw short (λ h. cc, (λ h. cc, λ w. absurd (ground (arith, StartsWith-length hay p w))))
    ]
    match_str_iff hay (suffix s) a _ = elim (Bool-cases (leb (length s) (length hay))) [
      | inl fits ↦
          let le : length s ≤ length hay = leb→le _ _ fits in
          rw (fits, ascii_boundary hay (length hay - length s) a (omega arith))
            (λ h. cc, returns_iff (eq_ci_back_iff hay s le))
      | inr short ↦
          rw short (λ h. cc, (λ h. cc, λ w. absurd (ground (arith, EndsWith-length hay s w))))
    ]

    match_header_returns :
        (name : Bytes) (headers : List (Bytes × Bytes)) (m : Matcher)
        → All (λ h. IsAscii h.1) headers
        → IsAscii (pattern_of m)
        → match_header to_lowercase name headers m ≢ panic
    unfolding match_header
    match_header_returns name [] m a p = λ h. cc
    match_header_returns name ((k, v) ∷ headers) m a p =
        ground (arith, match_str_iff v m a.0 p, match_header_returns name headers m a.1 p)

    match_field_returns :
        (req : RequestView) (f : Field) (m : Matcher)
        → IsPlain req
        → IsAscii (pattern_of m)
        → match_field to_lowercase req f m ≢ panic
    unfolding match_field
    match_field_returns req path m a p = (match_str_iff req.path m a.path_ascii p).0
    match_field_returns req user_agent m a p =
        (match_str_iff req.user_agent m a.user_agent_ascii p).0
    match_field_returns req (header name) m a p =
        match_header_returns name req.headers m a.headers_ascii p
    match_field_returns req body m a p = λ h. cc
    match_field_returns req ip m a p = (match_str_iff req.ip m a.ip_ascii p).0

    pub matches_returns :
        (req : RequestView) (r : Rule)
        → IsPlain req
        → IsAscii (pattern_of r.matcher)
        → matches to_lowercase req r ≢ panic
    unfolding matches
    matches_returns req r a p = match_field_returns req r.field r.matcher a p
