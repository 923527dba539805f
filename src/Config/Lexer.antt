-- ===== src/Config/Lexer.antt =====
-- `Lexer` of config/wsx.rb.
pub mod RoundTrip
use olwsx.Base.{
  ℕ, zero, suc, ◌+◌, ◌-◌, ◌*◌, Bool, true, false, ◌&&◌, ◌||◌, Option, none, some, List, [], ◌∷◌,
  length, leb, ◌==◌, if◌then◌else◌, ◌>>=◌,
}
use olwsx.Config.{Text, Token, nl, string, ident, int, symbol}

abbrev pub is_blank : ℕ → Bool
is_blank ch = ch == 32 || (ch == 9 || ch == 13)

abbrev pub is_symbol : ℕ → Bool
is_symbol ch = ch == 58 || (ch == 44 || (ch == 60 || ch == 62))

abbrev pub is_digit : ℕ → Bool
is_digit ch = leb 48 ch && leb ch 57

-- `[A-Za-z_]`
abbrev pub is_letter : ℕ → Bool
is_letter ch = (leb 65 ch && leb ch 90) || ((leb 97 ch && leb ch 122) || ch == 95)

-- `[A-Za-z0-9_\/\.\-]`
abbrev pub is_word : ℕ → Bool
is_word ch = is_letter ch || (is_digit ch || (ch == 47 || (ch == 46 || ch == 45)))

-- The rest from the end of the line on.
abbrev pub skip_comment : Text → Text
skip_comment [] = []
skip_comment (ch ∷ s) = if ch == 10 then ch ∷ s else skip_comment s

abbrev pub unescape : ℕ → Option ℕ
unescape ch =
    if ch == 110
    then some 10
    else if ch == 114
    then some 13
    else if ch == 116
    then some 9
    else if ch == 34
    then some 34
    else if ch == 92
    then some 92
    else none

abbrev pub onto : Option ℕ → Option (Text × Text) → Option (Text × Text)
onto none r = none
onto (some ch) none = none
onto (some ch) (some (buf, rest)) = some (ch ∷ buf, rest)

-- `string`, from behind the quote on; the flag says that a backslash came before.
unfoldable pub scan_string : Bool → Text → Option (Text × Text)
scan_string esc [] = none
scan_string true (ch ∷ s) = onto (unescape ch) (scan_string false s)
scan_string false (ch ∷ s) =
    let next = scan_string (ch == 92) s in
    if ch == 34 then some ([], s) else if ch == 92 then next else onto (some ch) next

abbrev pub put : ℕ → Text × Text → Text × Text
put ch (buf, rest) = (ch ∷ buf, rest)

-- The loops of `ident` and `integer`.
unfoldable pub span : (ℕ → Bool) → Text → Text × Text
span p [] = ([], [])
span p (ch ∷ s) = let rest = span p s in if p ch then put ch rest else ([], ch ∷ s)

-- `buf.to_i`
abbrev pub to_i : ℕ → Text → ℕ
to_i acc [] = acc
to_i acc (ch ∷ s) = to_i (acc * 10 + (ch - 48)) s

abbrev pub as_string : Option (Text × Text) → Option (Option Token × Text)
as_string none = none
as_string (some (buf, rest)) = some (some (string buf), rest)

-- One round of the loop of `tokenize`: the token, if there is one, and the rest.
unfoldable pub step : ℕ → Text → Option (Option Token × Text)
step ch s =
    if is_blank ch
    then some (none, s)
    else if ch == 10
    then some (some nl, s)
    else if ch == 35
    then some (none, skip_comment s)
    else if ch == 34
    then as_string (scan_string false s)
    else if is_symbol ch
    then some (some (symbol ch), s)
    else if is_letter ch
    then some (some (ident (span is_word (ch ∷ s)).0), (span is_word (ch ∷ s)).1)
    else if is_digit ch
    then some (some (int (to_i 0 (span is_digit (ch ∷ s)).0)), (span is_digit (ch ∷ s)).1)
    else none

abbrev pub with_token : Option Token → Option (List Token) → Option (List Token)
with_token t none = none
with_token none (some toks) = some toks
with_token (some t) (some toks) = some (t ∷ toks)

-- The loop of `tokenize`, on as many rounds as there are characters.
unfoldable pub tokenize_from : ℕ → Text → Option (List Token)
tokenize_from fuel [] = some []
tokenize_from zero (ch ∷ s) = none
tokenize_from (suc fuel) (ch ∷ s) = do (t, rest) ← step ch s; with_token t (tokenize_from fuel rest)

-- `tokenize`
unfoldable pub tokenize : Text → Option (List Token)
tokenize text = tokenize_from (length text) text
