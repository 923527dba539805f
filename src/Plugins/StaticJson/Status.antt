-- ===== src/Plugins/StaticJson/Status.antt =====
-- Which texts plugins/handler_example.rs takes for a status: the 16-bit decimals.
use olwsx.Base.{
  ℕ, ◌+◌, ◌-◌, ◌*◌, ◌≤◌, ◌<◌, Bool, true, ◌&&◌, Bytes, ◌≡◌, ◌↔◌, ◌⊎◌, inl, inr, refl, ◌∙◌, [], ◌∷◌,
  none, some, leb, ltb, ◌==◌, arith, Bool-cases, if◌then◌else◌,
}
use olwsx.Plugins.StaticJson.{parse_digits, parse_u16}

abbrev is_digit : ℕ → Bool
is_digit b = leb b'0' b && leb b b'9'

abbrev all_digits : Bytes → Bool
all_digits [] = true
all_digits (b ∷ s) = is_digit b && all_digits s

-- The number that the digits of a text say, after those of `acc`.
abbrev pub value : ℕ → Bytes → ℕ
value acc [] = acc
value acc (b ∷ s) = value (acc * 10 + (b - b'0')) s

-- `s` is a decimal numeral of `n`: at least one digit, with a sign `+` or none before them.
pub record IsDecimal (s : Bytes) (n : ℕ) : Type 0 where
  pub first : ℕ
  pub others : Bytes
  pub decimal_text : (s ≡ first ∷ others) ⊎ (s ≡ b'+' ∷ first ∷ others)
  pub decimal_digits : all_digits (first ∷ others) ≡ true
  pub decimal_value : value 0 (first ∷ others) ≡ n

acc-le-value : (acc : ℕ) (s : Bytes) → acc ≤ value acc s
acc-le-value acc [] = omega arith
acc-le-value acc (b ∷ s) = omega (arith, acc-le-value (acc * 10 + (b - b'0')) s)

parse_digits_lem :
    (acc : ℕ) (s : Bytes)
    → acc < 65536
    → parse_digits acc s
      ≡ (if all_digits s && ltb (value acc s) 65536 then some (value acc s) else none)
unfolding parse_digits
parse_digits_lem acc [] h = ground arith
parse_digits_lem acc (b ∷ s) h =
    ground
      (arith, parse_digits_lem (acc * 10 + (b - b'0')) s, acc-le-value (acc * 10 + (b - b'0')) s)

parse_digits_iff :
    (b : ℕ) (s : Bytes) (n : ℕ)
    → (parse_digits 0 (b ∷ s) ≡ some n)
      ↔ ((all_digits (b ∷ s) ≡ true) × (value 0 (b ∷ s) ≡ n) × (n < 65536))
parse_digits_iff b s n =
    let known = parse_digits_lem 0 (b ∷ s) (omega arith) in
    (
      λ h. (ground (arith, known, h), ground (arith, known, h), ground (arith, known, h)),
      λ (digits, e, small). ground (arith, known, digits, e, small),
    )

parse_u16_plain :
    (b : ℕ) (s : Bytes) → all_digits (b ∷ s) ≡ true → parse_u16 (b ∷ s) ≡ parse_digits 0 (b ∷ s)
unfolding parse_u16
parse_u16_plain b [] h = refl
parse_u16_plain b (c ∷ s) h = ground arith

decimal :
    (s : Bytes) (b n : ℕ) (others : Bytes)
    → (s ≡ b ∷ others) ⊎ (s ≡ b'+' ∷ b ∷ others)
    → parse_digits 0 (b ∷ others) ≡ some n
    → IsDecimal s n × (n < 65536)
decimal s b n others text h =
    let (digits, e, small) = (parse_digits_iff b others n).0 h in
    (
      record {
        first = b;
        others = others;
        decimal_text = text;
        decimal_digits = digits;
        decimal_value = e;
      },
      small,
    )

parse_u16_sound : (s : Bytes) (n : ℕ) → parse_u16 s ≡ some n → IsDecimal s n × (n < 65536)
unfolding parse_u16
parse_u16_sound [] n h = absurd cc
parse_u16_sound (b ∷ []) n h = decimal (b ∷ []) b n [] (inl refl) h
parse_u16_sound (b ∷ c ∷ s) n h = elim (Bool-cases (b == b'+')) [
  | inl plus ↦ decimal (b ∷ c ∷ s) c n s (inr (ground arith)) (ground arith)
  | inr plain ↦ decimal (b ∷ c ∷ s) b n (c ∷ s) (inl refl) (ground arith)
]

parse_u16_complete : (s : Bytes) (n : ℕ) → IsDecimal s n → n < 65536 → parse_u16 s ≡ some n
unfolding parse_u16
parse_u16_complete s n d small =
    let read : parse_digits 0 (d.first ∷ d.others) ≡ some n =
      (parse_digits_iff d.first d.others n).1 (d.decimal_digits, d.decimal_value, small) in
    elim d.decimal_text [
      | inl plain ↦ rw plain (parse_u16_plain d.first d.others d.decimal_digits ∙ read)
      | inr plus ↦ rw plus read
    ]

-- A text is taken for the status `n` exactly when it is a decimal numeral of `n`, and `n` is below
-- 65536.
pub parse_u16_iff : (s : Bytes) (n : ℕ) → (parse_u16 s ≡ some n) ↔ (IsDecimal s n × (n < 65536))
parse_u16_iff s n = (parse_u16_sound s n, λ (d, small). parse_u16_complete s n d small)
