-- ===== src/Config/RoundTrip.antt =====
-- A configuration of config/wsx.rb that is written out, and what `parse_text` makes of it.
use olwsx.Base.{
  ℕ, Bool, true, false, Bool-cases, inl, inr, ◌&&◌, ◌≡◌, refl, Option, none, some, List, [], ◌∷◌,
  All, codes,
}
use olwsx.Config.{Text, Token}
use olwsx.Config.Lexer.{is_letter, is_word}
use olwsx.Config.Lexer.RoundTrip.{IsWord, IsToken, show, tokenize-show}
use olwsx.Config.Parser.{parse_text, no_statement}
use olwsx.Config.Parser.RoundTrip.{
  Statement, route, header, waf, ratelimit, cache, generation, apply_all, more_flags, flags_tokens,
  body_tokens, status_tokens, operands, tokens_of, keyword, waf_type, parse-tokens_of,
}

-- The flags, which stand without quotes, are words.
abbrev pub IsStatement : Statement → Type 0
IsStatement (route r) = All IsWord r.flags
IsStatement (header h) = Unit
IsStatement (waf about v) = Unit
IsStatement (ratelimit r) = Unit
IsStatement (cache c) = All IsWord c.flags
IsStatement (generation n) = Unit

-- The text of statements, each on its line.
abbrev pub written : List Statement → Text
written sts = show (tokens_of sts)

more_flags-IsToken :
    (ws : List Text) (rest : List Token)
    → All IsWord ws
    → All IsToken rest
    → All IsToken (more_flags ws rest)
more_flags-IsToken [] rest a b = b
more_flags-IsToken (w ∷ ws) rest a b = (refl, (a.0, more_flags-IsToken ws rest a.1 b))

flags_tokens-IsToken :
    (ws : List Text) (rest : List Token)
    → All IsWord ws
    → All IsToken rest
    → All IsToken (flags_tokens ws rest)
flags_tokens-IsToken [] rest a b = b
flags_tokens-IsToken (w ∷ ws) rest a b =
    ((refl, (refl, (refl, (refl, (refl, tt))))), (a.0, more_flags-IsToken ws rest a.1 b))

body_tokens-IsToken :
    (body : Option Text) (rest : List Token)
    → All IsToken rest
    → All IsToken (body_tokens body rest)
body_tokens-IsToken none rest b = b
body_tokens-IsToken (some v) rest b = ((refl, (refl, (refl, (refl, tt)))), (tt, b))

status_tokens-IsToken :
    (status : Option ℕ) (rest : List Token)
    → All IsToken rest
    → All IsToken (status_tokens status rest)
status_tokens-IsToken none rest b = b
status_tokens-IsToken (some n) rest b =
    ((refl, (refl, (refl, (refl, (refl, (refl, tt)))))), (tt, b))

-- `IsWord` as a test, for the keywords.
abbrev all_word : Text → Bool
all_word [] = true
all_word (c ∷ w) = is_word c && all_word w

abbrev is_word_text : Text → Bool
is_word_text [] = false
is_word_text (c ∷ w) = is_letter c && all_word w

all_word-All : (w : Text) → all_word w ≡ true → All (λ b. is_word b ≡ true) w
all_word-All [] h = tt
all_word-All (c ∷ w) h = elim (Bool-cases (is_word c)) [
  | inl a ↦ (a, all_word-All w (rw a at h))
  | inr a ↦ cc
]

pub IsWord_lem : (w : Text) → is_word_text w ≡ true → IsWord w
IsWord_lem [] h = cc
IsWord_lem (c ∷ w) h = elim (Bool-cases (is_letter c)) [
  | inl a ↦ (a, all_word-All w (rw a at h))
  | inr a ↦ cc
]

waf_type-IsWord : (about : Bool) → IsWord (waf_type about)
waf_type-IsWord true = IsWord_lem (waf_type true) refl
waf_type-IsWord false = IsWord_lem (waf_type false) refl

operands-IsToken :
    (st : Statement) (rest : List Token)
    → IsStatement st
    → All IsToken rest
    → All IsToken (operands st rest)
operands-IsToken (route r) rest a b = (
  tt,
  status_tokens-IsToken r.status_override _
      (body_tokens-IsToken r.static_body _ (flags_tokens-IsToken r.flags rest a b)),
)
operands-IsToken (header h) rest a b = (tt, (refl, (tt, (IsWord_lem (codes "for") refl, (tt, b)))))
operands-IsToken (waf about v) rest a b = (waf_type-IsWord about, (tt, b))
operands-IsToken (ratelimit r) rest a b = (
  IsWord_lem (codes "capacity") refl,
  (
    tt,
    (
      IsWord_lem (codes "refill_per_s") refl,
      (tt, (IsWord_lem (codes "retry_after_s") refl, (tt, b))),
    ),
  ),
)
operands-IsToken (cache c) rest a b = (
  IsWord_lem (codes "warmup_l2") refl,
  (
    IsWord_lem (codes "key") refl,
    (tt, (IsWord_lem (codes "value") refl, (tt, flags_tokens-IsToken c.flags rest a b))),
  ),
)
operands-IsToken (generation n) rest a b = (tt, b)

keyword-IsWord : (st : Statement) → IsWord (keyword st)
keyword-IsWord (route r) = IsWord_lem (codes "route") refl
keyword-IsWord (header h) = IsWord_lem (codes "header") refl
keyword-IsWord (waf about v) = IsWord_lem (codes "waf") refl
keyword-IsWord (ratelimit r) = IsWord_lem (codes "ratelimit") refl
keyword-IsWord (cache c) = IsWord_lem (codes "cache") refl
keyword-IsWord (generation n) = IsWord_lem (codes "generation") refl

tokens_of-IsToken : (sts : List Statement) → All IsStatement sts → All IsToken (tokens_of sts)
tokens_of-IsToken [] a = tt
tokens_of-IsToken (st ∷ sts) a =
    (keyword-IsWord st, operands-IsToken st _ a.0 (tt, tokens_of-IsToken sts a.1))

-- The text of statements whose flags are words, each statement on its line and a blank behind each
-- token, is parsed to the configuration that these statements make: routes, headers, firewall rules
-- and warm-ups in their order, and of the rate limits and of the generations the last.
pub parse_text-written :
    (sts : List Statement)
    → All IsStatement sts
    → parse_text (written sts) ≡ some (apply_all sts no_statement)
unfolding parse_text
parse_text-written sts a =
    rw (tokenize-show (tokens_of sts) (tokens_of-IsToken sts a)) (parse-tokens_of sts)
