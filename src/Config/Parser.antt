-- ===== src/Config/Parser.antt =====
-- `Parser` of config/wsx.rb, and `parse_text` of its command line.
pub mod RoundTrip
use olwsx.Base.{
  ℕ, zero, suc, ◌++◌, Bool, true, false, bytes_eq, codes, Option, none, some, List, [], ◌∷◌, length,
  ◌==◌, if◌then◌else◌, ◌>>=◌,
}
use olwsx.Config.{
  Text, Token, nl, string, ident, int, symbol, RouteNode, HeaderNode, WafRuleNode, RateLimitNode,
  CacheWarmupNode, Ast,
}
use olwsx.Config.Lexer.{tokenize}

-- `expect(:STRING)`, `expect(:INT)`, `expect(:IDENT)`, `expect(:IDENT, word)` and `expect(:':', ':')`
abbrev pub expect_string : List Token → Option (Text × List Token)
expect_string [] = none
expect_string (nl ∷ toks) = none
expect_string (string v ∷ toks) = some (v, toks)
expect_string (ident w ∷ toks) = none
expect_string (int n ∷ toks) = none
expect_string (symbol c ∷ toks) = none

abbrev pub expect_int : List Token → Option (ℕ × List Token)
expect_int [] = none
expect_int (nl ∷ toks) = none
expect_int (string v ∷ toks) = none
expect_int (ident w ∷ toks) = none
expect_int (int n ∷ toks) = some (n, toks)
expect_int (symbol c ∷ toks) = none

abbrev pub expect_ident : List Token → Option (Text × List Token)
expect_ident [] = none
expect_ident (nl ∷ toks) = none
expect_ident (string v ∷ toks) = none
expect_ident (ident w ∷ toks) = some (w, toks)
expect_ident (int n ∷ toks) = none
expect_ident (symbol c ∷ toks) = none

unfoldable pub expect_word : Text → List Token → Option (List Token)
expect_word word toks = do
  (w, rest) ← expect_ident toks
  if bytes_eq w word then some rest else none

abbrev pub expect_colon : List Token → Option (List Token)
expect_colon [] = none
expect_colon (nl ∷ toks) = none
expect_colon (string v ∷ toks) = none
expect_colon (ident w ∷ toks) = none
expect_colon (int n ∷ toks) = none
expect_colon (symbol c ∷ toks) = if c == 58 then some toks else none

abbrev pub onto_flags : Text → Option (List Text × List Token) → Option (List Text × List Token)
onto_flags w none = none
onto_flags w (some (list, rest)) = some (w ∷ list, rest)

-- `parse_flags`; the flag says that a name comes next.
unfoldable pub parse_flags : Bool → List Token → Option (List Text × List Token)
parse_flags true [] = none
parse_flags true (nl ∷ toks) = none
parse_flags true (string v ∷ toks) = none
parse_flags true (ident w ∷ toks) = onto_flags w (parse_flags false toks)
parse_flags true (int n ∷ toks) = none
parse_flags true (symbol c ∷ toks) = none
parse_flags false [] = some ([], [])
parse_flags false (nl ∷ toks) = some ([], nl ∷ toks)
parse_flags false (string v ∷ toks) = some ([], string v ∷ toks)
parse_flags false (ident w ∷ toks) = some ([], ident w ∷ toks)
parse_flags false (int n ∷ toks) = some ([], int n ∷ toks)
parse_flags false (symbol c ∷ toks) =
    let more = parse_flags true toks in if c == 44 then more else some ([], symbol c ∷ toks)

-- What a round of the loop of `parse_route` leads to.
pub data OptionStep : Type 0 where
  failed : OptionStep
  ended : OptionStep
  read : RouteNode → List Token → OptionStep

abbrev pub read_status : RouteNode → Option (ℕ × List Token) → OptionStep
read_status r none = failed
read_status r (some (n, rest)) = read (record r { status_override = some n }) rest

abbrev pub read_body : RouteNode → Option (Text × List Token) → OptionStep
read_body r none = failed
read_body r (some (v, rest)) = read (record r { static_body = some v }) rest

abbrev pub read_flags : RouteNode → Option (List Text × List Token) → OptionStep
read_flags r none = failed
read_flags r (some (list, rest)) = read (record r { flags = list }) rest

unfoldable pub option_step : RouteNode → List Token → OptionStep
option_step r [] = ended
option_step r (nl ∷ toks) = ended
option_step r (string v ∷ toks) = ended
option_step r (int n ∷ toks) = ended
option_step r (symbol c ∷ toks) = ended
option_step r (ident w ∷ toks) =
    if bytes_eq w (codes "status")
    then read_status r (expect_int toks)
    else if bytes_eq w (codes "body")
    then read_body r (expect_string toks)
    else if bytes_eq w (codes "flags")
    then read_flags r (parse_flags true toks)
    else ended

unfoldable pub route_options : ℕ → RouteNode → List Token → Option (RouteNode × List Token)
route_options zero r toks = none
route_options (suc fuel) r toks = elim (option_step r toks) [
  | failed ↦ none
  | ended ↦ some (r, toks)
  | read r' rest ↦ route_options fuel r' rest
]

-- `parse_route`; the loop gets more rounds than there are tokens.
unfoldable pub parse_route : List Token → Option (RouteNode × List Token)
parse_route toks = do
  toks ← expect_word (codes "route") toks
  (prefix, toks) ← expect_string toks
  route_options (suc (suc (suc (suc (length toks)))))
      (record { prefix = prefix; status_override = none; static_body = none; flags = [] }) toks

-- `parse_header`
unfoldable pub parse_header : List Token → Option (HeaderNode × List Token)
parse_header toks = do
  toks ← expect_word (codes "header") toks
  (key, toks) ← expect_string toks
  toks ← expect_colon toks
  (val, toks) ← expect_string toks
  toks ← expect_word (codes "for") toks
  (prefix, toks) ← expect_string toks
  some (record { key = key; value = val; prefix = prefix }, toks)

-- `parse_waf_rule`
unfoldable pub parse_waf_rule : List Token → Option (WafRuleNode × List Token)
parse_waf_rule toks = do
  toks ← expect_word (codes "waf") toks
  (t, toks) ← expect_ident toks
  if bytes_eq t (codes "block_path_contains")
      then (do
        (value, toks) ← expect_string toks
        some (record { rule_type = codes "block_path_contains"; value = value }, toks))
      else if bytes_eq t (codes "block_useragent_contains")
      then (do
        (value, toks) ← expect_string toks
        some (record { rule_type = codes "block_useragent_contains"; value = value }, toks))
      else none

-- `parse_ratelimit`
unfoldable pub parse_ratelimit : List Token → Option (RateLimitNode × List Token)
parse_ratelimit toks = do
  toks ← expect_word (codes "ratelimit") toks
  toks ← expect_word (codes "capacity") toks
  (capacity, toks) ← expect_int toks
  toks ← expect_word (codes "refill_per_s") toks
  (refill, toks) ← expect_int toks
  toks ← expect_word (codes "retry_after_s") toks
  (retry_after, toks) ← expect_int toks
  some (record { capacity = capacity; refill_per_s = refill; retry_after_s = retry_after }, toks)

-- The flags of `parse_cache_warmup`, where there are some.
unfoldable pub warmup_flags : List Token → Option (List Text × List Token)
warmup_flags [] = some ([], [])
warmup_flags (nl ∷ toks) = some ([], nl ∷ toks)
warmup_flags (string v ∷ toks) = some ([], string v ∷ toks)
warmup_flags (int n ∷ toks) = some ([], int n ∷ toks)
warmup_flags (symbol c ∷ toks) = some ([], symbol c ∷ toks)
warmup_flags (ident w ∷ toks) =
    if bytes_eq w (codes "flags") then parse_flags true toks else some ([], ident w ∷ toks)

-- `parse_cache_warmup`
unfoldable pub parse_cache_warmup : List Token → Option (CacheWarmupNode × List Token)
parse_cache_warmup toks = do
  toks ← expect_word (codes "cache") toks
  toks ← expect_word (codes "warmup_l2") toks
  toks ← expect_word (codes "key") toks
  (key, toks) ← expect_string toks
  toks ← expect_word (codes "value") toks
  (val, toks) ← expect_string toks
  (flags, toks) ← warmup_flags toks
  some (record { key = key; value = val; flags = flags }, toks)

-- `parse_generation`
unfoldable pub parse_generation : List Token → Option (ℕ × List Token)
parse_generation toks = do toks ← expect_word (codes "generation") toks; expect_int toks

-- `opt_nl`
abbrev pub opt_nl : List Token → List Token
opt_nl [] = []
opt_nl (nl ∷ toks) = opt_nl toks
opt_nl (string v ∷ toks) = string v ∷ toks
opt_nl (ident w ∷ toks) = ident w ∷ toks
opt_nl (int n ∷ toks) = int n ∷ toks
opt_nl (symbol c ∷ toks) = symbol c ∷ toks

-- The statement that starts with this word.
unfoldable pub statement : Text → List Token → Ast → Option (Ast × List Token)
statement w toks ast =
    if bytes_eq w (codes "route")
    then (do
      (r, rest) ← parse_route toks
      some (record ast { routes = ast.routes ++ r ∷ [] }, rest))
    else if bytes_eq w (codes "header")
    then (do
      (h, rest) ← parse_header toks
      some (record ast { headers = ast.headers ++ h ∷ [] }, rest))
    else if bytes_eq w (codes "waf")
    then (do
      (r, rest) ← parse_waf_rule toks
      some (record ast { waf_rules = ast.waf_rules ++ r ∷ [] }, rest))
    else if bytes_eq w (codes "ratelimit")
    then (do (r, rest) ← parse_ratelimit toks; some (record ast { ratelimit = some r }, rest))
    else if bytes_eq w (codes "cache")
    then (do
      (c, rest) ← parse_cache_warmup toks
      some (record ast { cache_warmups = ast.cache_warmups ++ c ∷ [] }, rest))
    else if bytes_eq w (codes "generation")
    then (do (g, rest) ← parse_generation toks; some (record ast { generation = some g }, rest))
    else none

-- One round of the loop of `parse`.
unfoldable pub round : List Token → Ast → Option (Ast × List Token)
round [] ast = none
round (nl ∷ toks) ast = some (ast, toks)
round (string v ∷ toks) ast = none
round (int n ∷ toks) ast = none
round (symbol c ∷ toks) ast = none
round (ident w ∷ toks) ast = do
  (ast', rest) ← statement w (ident w ∷ toks) ast
  some (ast', opt_nl rest)

-- The loop of `parse`, on as many rounds as there are tokens.
unfoldable pub parse_from : ℕ → List Token → Ast → Option Ast
parse_from fuel [] ast = some ast
parse_from zero (t ∷ toks) ast = none
parse_from (suc fuel) (t ∷ toks) ast = do
  (ast', rest) ← round (t ∷ toks) ast
  parse_from fuel rest ast'

abbrev pub no_statement : Ast
no_statement = record {
  routes = [];
  headers = [];
  waf_rules = [];
  ratelimit = none;
  cache_warmups = [];
  generation = none;
}

-- `parse`
unfoldable pub parse : List Token → Option Ast
parse toks = parse_from (length toks) toks no_statement

-- `parse_text`
unfoldable pub parse_text : Text → Option Ast
parse_text text = do toks ← tokenize text; parse toks
