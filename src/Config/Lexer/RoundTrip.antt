-- ===== src/Config/Lexer/RoundTrip.antt =====
-- What the lexer of config/wsx.rb makes of tokens that were written out.
use olwsx.Base.{
  ℕ, zero, suc, ◌+◌, ◌-◌, ◌*◌, ◌/◌, ◌%◌, ◌≤◌, ◌<◌, ◌≡◌, ◌≢◌, refl, ◌++◌, Bool, true, false,
  Bool-cases, Option, Option-cases, none, some, none-some, inl, inr, List, [], ◌∷◌, length,
  length-append, All, All-append, arith, ltb, ltb→lt, ltb→le, ◌==◌, if◌then◌else◌,
}
use mathlib.Core.List.{append_assoc}
use olwsx.Config.{Text, Token, nl, string, ident, int, symbol}
use olwsx.Config.Lexer.{
  is_blank, is_symbol, is_digit, is_letter, is_word, scan_string, span, to_i, step, with_token,
  tokenize_from, tokenize,
}

abbrev pub escape_char : ℕ → Text
escape_char ch =
    if ch == 10
    then 92 ∷ 110 ∷ []
    else if ch == 13
    then 92 ∷ 114 ∷ []
    else if ch == 9
    then 92 ∷ 116 ∷ []
    else if ch == 34
    then 92 ∷ 34 ∷ []
    else if ch == 92
    then 92 ∷ 92 ∷ []
    else ch ∷ []

abbrev pub escape : Text → Text
escape [] = []
escape (ch ∷ v) = escape_char ch ++ escape v

-- A number in decimal; the first argument bounds the digits.
abbrev pub digits : ℕ → ℕ → Text
digits zero n = []
digits (suc fuel) n =
    let rest = digits fuel (n / 10) in
    if ltb n 10 then (48 + n) ∷ [] else rest ++ (48 + n % 10) ∷ []

abbrev pub show_token : Token → Text
show_token nl = 10 ∷ []
show_token (string v) = 34 ∷ (escape v ++ 34 ∷ [])
show_token (ident w) = w
show_token (int n) = digits (suc n) n
show_token (symbol c) = c ∷ []

-- The tokens with a blank behind each.
abbrev pub show : List Token → Text
show [] = []
show (t ∷ toks) = show_token t ++ 32 ∷ show toks

abbrev pub IsWord : Text → Type 0
IsWord [] = ⊥
IsWord (c ∷ w) = (is_letter c ≡ true) × All (λ b. is_word b ≡ true) w

-- What the lexer can tell from other tokens.
abbrev pub IsToken : Token → Type 0
IsToken nl = Unit
IsToken (string v) = Unit
IsToken (ident w) = IsWord w
IsToken (int n) = Unit
IsToken (symbol c) = is_symbol c ≡ true

scan_char :
    (ch : ℕ) (v rest : Text)
    → scan_string false (escape v ++ 34 ∷ rest) ≡ some (v, rest)
    → scan_string false ((escape_char ch ++ escape v) ++ 34 ∷ rest) ≡ some (ch ∷ v, rest)
unfolding scan_string
scan_char ch v rest h = elim (Bool-cases (ch == 10)) [
  | inl a ↦ let e : ch ≡ 10 = ground (arith, a) in rw (e, scan_string, h) refl
  | inr a ↦ elim (Bool-cases (ch == 13)) [
    | inl b ↦ let e : ch ≡ 13 = ground (arith, b) in rw (e, scan_string, h) refl
    | inr b ↦ elim (Bool-cases (ch == 9)) [
      | inl c ↦ let e : ch ≡ 9 = ground (arith, c) in rw (e, scan_string, h) refl
      | inr c ↦ elim (Bool-cases (ch == 34)) [
        | inl d ↦ let e : ch ≡ 34 = ground (arith, d) in rw (e, scan_string, h) refl
        | inr d ↦ elim (Bool-cases (ch == 92)) [
          | inl f ↦ let e : ch ≡ 92 = ground (arith, f) in rw (e, scan_string, h) refl
          | inr f ↦ simp (a, b, c, d, f, h)
        ]
      ]
    ]
  ]
]

scan_lem : (v rest : Text) → scan_string false (escape v ++ 34 ∷ rest) ≡ some (v, rest)
unfolding scan_string
scan_lem [] rest = refl
scan_lem (ch ∷ v) rest = scan_char ch v rest (scan_lem v rest)

span_lem :
    (p : ℕ → Bool) (w rest : Text)
    → All (λ b. p b ≡ true) w
    → p 32 ≡ false
    → span p (w ++ 32 ∷ rest) ≡ (w, 32 ∷ rest)
unfolding span
span_lem p [] rest a h = rw h refl
span_lem p (b ∷ w) rest a h = rw (a.0, span_lem p w rest a.1 h) refl

to_i-append : (acc : ℕ) (s : Text) (c : ℕ) → to_i acc (s ++ c ∷ []) ≡ to_i acc s * 10 + (c - 48)
to_i-append acc [] c = refl
to_i-append acc (b ∷ s) c = to_i-append (acc * 10 + (b - 48)) s c

to_i-digits : (fuel n : ℕ) → n < fuel → to_i 0 (digits fuel n) ≡ n
to_i-digits zero n h = absurd (omega (arith, h))
to_i-digits (suc fuel) n h = elim (Bool-cases (ltb n 10)) [
  | inl one ↦ rw one (omega arith)
  | inr more ↦
      let ih = to_i-digits fuel (n / 10) (omega (arith, h, ltb→le n 10 more)) in
      rw more (omega (arith, to_i-append 0 (digits fuel (n / 10)) (48 + n % 10), ih))
]

digits-All : (fuel n : ℕ) → All (λ b. is_digit b ≡ true) (digits fuel n)
digits-All zero n = tt
digits-All (suc fuel) n = elim (Bool-cases (ltb n 10)) [
  | inl one ↦ rw one (ground (arith, ltb→lt n 10 one), tt)
  | inr more ↦ rw more (
      All-append _ (digits fuel (n / 10)) ((48 + n % 10) ∷ []) (digits-All fuel (n / 10))
        (ground arith, tt))
]

module _ (c : ℕ) where
  letter-blank : is_letter c ≡ true → is_blank c ≡ false
  letter-blank h = ground arith

  letter-symbol : is_letter c ≡ true → is_symbol c ≡ false
  letter-symbol h = ground arith

  letter-marks : is_letter c ≡ true → (c == 10 ≡ false) × ((c == 35 ≡ false) × (c == 34 ≡ false))
  letter-marks h = ground arith

  digit-blank : is_digit c ≡ true → is_blank c ≡ false
  digit-blank h = ground arith

  digit-symbol : is_digit c ≡ true → is_symbol c ≡ false
  digit-symbol h = ground arith

  digit-letter : is_digit c ≡ true → is_letter c ≡ false
  digit-letter h = ground arith

  digit-marks : is_digit c ≡ true → (c == 10 ≡ false) × ((c == 35 ≡ false) × (c == 34 ≡ false))
  digit-marks h = ground arith

  symbol-blank : is_symbol c ≡ true → is_blank c ≡ false
  symbol-blank h = ground arith

  symbol-marks : is_symbol c ≡ true → (c == 10 ≡ false) × ((c == 35 ≡ false) × (c == 34 ≡ false))
  symbol-marks h = ground arith

module _ (fuel : ℕ) (rest : Text) where
  string_step :
      (v : Text)
      → tokenize_from (suc fuel) (show_token (string v) ++ 32 ∷ rest)
        ≡ with_token (some (string v)) (tokenize_from fuel (32 ∷ rest))
  unfolding tokenize_from step
  string_step v = simp (append_assoc, scan_lem v (32 ∷ rest))

  ident_step :
      (w : Text)
      → IsWord w
      → tokenize_from (suc fuel) (w ++ 32 ∷ rest)
        ≡ with_token (some (ident w)) (tokenize_from fuel (32 ∷ rest))
  unfolding tokenize_from step
  ident_step [] a = absurd a
  ident_step (c ∷ w) a =
      let m = letter-marks c a.0 in
      let word : is_word c ≡ true = ground (arith, a.0) in
      let scanned = span_lem is_word (c ∷ w) rest (word, a.1) refl in
      simp (letter-blank c a.0, m.0, m.1.0, m.1.1, letter-symbol c a.0, a.0, scanned)

  int_step :
      (w : Text)
      → w ≢ []
      → All (λ b. is_digit b ≡ true) w
      → tokenize_from (suc fuel) (w ++ 32 ∷ rest)
        ≡ with_token (some (int (to_i 0 w))) (tokenize_from fuel (32 ∷ rest))
  unfolding tokenize_from step
  int_step [] n a = absurd (n refl)
  int_step (c ∷ w) n a =
      let m = digit-marks c a.0 in
      let scanned = span_lem is_digit (c ∷ w) rest a refl in
      simp
        (digit-blank c a.0, m.0, m.1.0, m.1.1, digit-symbol c a.0, digit-letter c a.0, a.0, scanned)

  symbol_step :
      (c : ℕ)
      → is_symbol c ≡ true
      → tokenize_from (suc fuel) (c ∷ 32 ∷ rest)
        ≡ with_token (some (symbol c)) (tokenize_from fuel (32 ∷ rest))
  unfolding tokenize_from step
  symbol_step c a = let m = symbol-marks c a in simp (symbol-blank c a, m.0, m.1.0, m.1.1, a)

digits_nonempty : (fuel n : ℕ) → digits (suc fuel) n ≢ []
digits_nonempty fuel n = elim (Bool-cases (ltb n 10)) [
  | inl one ↦ rw one (λ h. cc)
  | inr more ↦ rw more (behind_nonempty (digits fuel (n / 10)) _)
]
  where
    behind_nonempty : (s : Text) (b : ℕ) → s ++ b ∷ [] ≢ []
    behind_nonempty [] b = λ h. cc
    behind_nonempty (c ∷ s) b = λ h. cc

token_step :
    (t : Token) (fuel : ℕ) (rest : Text)
    → IsToken t
    → tokenize_from (suc fuel) (show_token t ++ 32 ∷ rest)
      ≡ with_token (some t) (tokenize_from fuel (32 ∷ rest))
unfolding tokenize_from step
token_step nl fuel rest a = refl
token_step (string v) fuel rest a = string_step fuel rest v
token_step (ident w) fuel rest a = ident_step fuel rest w a
token_step (int n) fuel rest a =
    rw (to_i-digits (suc n) n (omega arith)) at
      (int_step fuel rest (digits (suc n) n) (digits_nonempty n n) (digits-All (suc n) n))
token_step (symbol c) fuel rest a = symbol_step fuel rest c a

without_token : (r : Option (List Token)) → with_token none r ≡ r
without_token none = refl
without_token (some toks) = refl

blank_step :
    (fuel : ℕ) (rest : Text) → tokenize_from (suc fuel) (32 ∷ rest) ≡ tokenize_from fuel rest
unfolding tokenize_from step
blank_step fuel rest = without_token (tokenize_from fuel rest)

abbrev rounds : List Token → ℕ
rounds [] = 0
rounds (t ∷ toks) = suc (suc (rounds toks))

tokenize_from-show :
    (toks : List Token) → All IsToken toks → tokenize_from (rounds toks) (show toks) ≡ some toks
unfolding tokenize_from
tokenize_from-show [] a = refl
tokenize_from-show (t ∷ toks) a =
    rw
      (
        token_step t (suc (rounds toks)) (show toks) a.0,
        blank_step (rounds toks) (show toks),
        tokenize_from-show toks a.1,
      )
      refl

-- More rounds do no harm.
tokenize_from-more :
    (fuel more : ℕ) (s : Text) (out : List Token)
    → fuel ≤ more
    → tokenize_from fuel s ≡ some out
    → tokenize_from more s ≡ some out
unfolding tokenize_from
tokenize_from-more fuel more [] out le h = h
tokenize_from-more zero more (ch ∷ s) out le h = absurd (none-some h)
tokenize_from-more (suc fuel) zero (ch ∷ s) out le h = absurd (omega (arith, le))
tokenize_from-more (suc fuel) (suc more) (ch ∷ s) out le h = elim (Option-cases (step ch s)) [
  | inl fails ↦ absurd (none-some (rw fails at h))
  | inr (got, reads) ↦ elim (Option-cases (tokenize_from fuel got.1)) [
    | inl later ↦ absurd (none-some (rw (reads, later) at h))
    | inr (toks, later) ↦
        rw (reads, tokenize_from-more fuel more got.1 toks (omega (arith, le)) later)
          (rw (reads, later) at h)
  ]
]

digits-length : (fuel n : ℕ) → 1 ≤ length (digits (suc fuel) n)
digits-length fuel n = elim (Bool-cases (ltb n 10)) [
  | inl one ↦ rw one (omega arith)
  | inr more ↦ rw more (omega (arith, length-append (digits fuel (n / 10)) ((48 + n % 10) ∷ [])))
]

token-length : (t : Token) → IsToken t → 1 ≤ length (show_token t)
token-length nl a = omega arith
token-length (string v) a = omega arith
token-length (ident []) a = absurd a
token-length (ident (c ∷ w)) a = omega arith
token-length (int n) a = digits-length n n
token-length (symbol c) a = omega arith

rounds-length : (toks : List Token) → All IsToken toks → rounds toks ≤ length (show toks)
rounds-length [] a = omega arith
rounds-length (t ∷ toks) a = omega (
  arith,
  token-length t a.0,
  rounds-length toks a.1,
  length-append (show_token t) (32 ∷ show toks),
)

-- Tokens that the lexer can tell apart are read back from their text, with a blank behind each.
pub tokenize-show : (toks : List Token) → All IsToken toks → tokenize (show toks) ≡ some toks
unfolding tokenize
tokenize-show toks a =
    tokenize_from-more (rounds toks) (length (show toks)) (show toks) toks (rounds-length toks a)
      (tokenize_from-show toks a)
