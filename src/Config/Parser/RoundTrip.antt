-- ===== src/Config/Parser/RoundTrip.antt =====
-- What the parser of config/wsx.rb makes of statements that were written out.
use olwsx.Base.{
  ℕ, zero, suc, ◌≤◌, ◌≡◌, refl, ◌++◌, Bool, true, false, codes, Option, Option-cases, none, some,
  none-some, inl, inr, List, [], ◌∷◌, length, arith,
}
use olwsx.Config.{
  Text, Token, nl, string, ident, int, symbol, RouteNode, HeaderNode, RateLimitNode,
  CacheWarmupNode, Ast,
}
use olwsx.Config.Parser.{
  expect_word, parse_flags, option_step, route_options, parse_route, parse_header, parse_waf_rule,
  parse_ratelimit, warmup_flags, parse_cache_warmup, parse_generation, opt_nl, statement, round,
  parse_from, no_statement, parse,
}

-- A statement of a configuration; the flag of a firewall rule says that it is about the path.
pub data Statement : Type 0 where
  route : RouteNode → Statement
  header : HeaderNode → Statement
  waf : Bool → Text → Statement
  ratelimit : RateLimitNode → Statement
  cache : CacheWarmupNode → Statement
  generation : ℕ → Statement

abbrev pub waf_type : Bool → Text
waf_type true = codes "block_path_contains"
waf_type false = codes "block_useragent_contains"

-- What a statement adds to the configuration.
abbrev pub apply : Statement → Ast → Ast
apply (route r) ast = record ast { routes = ast.routes ++ r ∷ [] }
apply (header h) ast = record ast { headers = ast.headers ++ h ∷ [] }
apply (waf about v) ast = record ast {
  waf_rules = ast.waf_rules ++ (record { rule_type = waf_type about; value = v }) ∷ [];
}
apply (ratelimit r) ast = record ast { ratelimit = some r }
apply (cache c) ast = record ast { cache_warmups = ast.cache_warmups ++ c ∷ [] }
apply (generation n) ast = record ast { generation = some n }

abbrev pub apply_all : List Statement → Ast → Ast
apply_all [] ast = ast
apply_all (st ∷ sts) ast = apply_all sts (apply st ast)

-- The tokens of a statement, in front of others.
abbrev pub more_flags : List Text → List Token → List Token
more_flags [] rest = rest
more_flags (w ∷ ws) rest = symbol 44 ∷ ident w ∷ more_flags ws rest

abbrev pub flags_tokens : List Text → List Token → List Token
flags_tokens [] rest = rest
flags_tokens (w ∷ ws) rest = ident (codes "flags") ∷ ident w ∷ more_flags ws rest

abbrev pub body_tokens : Option Text → List Token → List Token
body_tokens none rest = rest
body_tokens (some v) rest = ident (codes "body") ∷ string v ∷ rest

abbrev pub status_tokens : Option ℕ → List Token → List Token
status_tokens none rest = rest
status_tokens (some n) rest = ident (codes "status") ∷ int n ∷ rest

abbrev pub keyword : Statement → Text
keyword (route r) = codes "route"
keyword (header h) = codes "header"
keyword (waf about v) = codes "waf"
keyword (ratelimit r) = codes "ratelimit"
keyword (cache c) = codes "cache"
keyword (generation n) = codes "generation"

abbrev pub operands : Statement → List Token → List Token
operands (route r) rest =
    string r.prefix
    ∷ status_tokens r.status_override (body_tokens r.static_body (flags_tokens r.flags rest))
operands (header h) rest =
    string h.key ∷ symbol 58 ∷ string h.value ∷ ident (codes "for") ∷ string h.prefix ∷ rest
operands (waf about v) rest = ident (waf_type about) ∷ string v ∷ rest
operands (ratelimit r) rest =
    ident (codes "capacity")
    ∷ int r.capacity
    ∷ ident (codes "refill_per_s")
    ∷ int r.refill_per_s
    ∷ ident (codes "retry_after_s")
    ∷ int r.retry_after_s
    ∷ rest
operands (cache c) rest =
    ident (codes "warmup_l2")
    ∷ ident (codes "key")
    ∷ string c.key
    ∷ ident (codes "value")
    ∷ string c.value
    ∷ flags_tokens c.flags rest
operands (generation n) rest = int n ∷ rest

-- Each statement on its line.
abbrev pub tokens_of : List Statement → List Token
tokens_of [] = []
tokens_of (st ∷ sts) = ident (keyword st) ∷ operands st (nl ∷ tokens_of sts)

more_flags-parse :
    (ws : List Text) (rest : List Token)
    → parse_flags false (more_flags ws (nl ∷ rest)) ≡ some (ws, nl ∷ rest)
unfolding parse_flags
more_flags-parse [] rest = refl
more_flags-parse (w ∷ ws) rest = rw (more_flags-parse ws rest) refl

abbrev node : Text → Option ℕ → Option Text → List Text → RouteNode
node prefix status body flags = record {
  prefix = prefix;
  status_override = status;
  static_body = body;
  flags = flags;
}

module _ (rest : List Token) (prefix : Text) where
  flags_lem :
      (fuel : ℕ) (status : Option ℕ) (body : Option Text) (ws : List Text)
      → route_options (suc (suc fuel)) (node prefix status body []) (flags_tokens ws (nl ∷ rest))
        ≡ some (node prefix status body ws, nl ∷ rest)
  unfolding route_options option_step parse_flags
  flags_lem fuel status body [] = refl
  flags_lem fuel status body (w ∷ ws) =
      rw (route_options, option_step, more_flags-parse ws rest) refl

  body_lem :
      (fuel : ℕ) (status : Option ℕ) (body : Option Text) (ws : List Text)
      → route_options
          (suc (suc (suc fuel)))
          (node prefix status none [])
          (body_tokens body (flags_tokens ws (nl ∷ rest)))
        ≡ some (node prefix status body ws, nl ∷ rest)
  unfolding route_options option_step
  body_lem fuel status none ws = flags_lem (suc fuel) status none ws
  body_lem fuel status (some v) ws = flags_lem fuel status (some v) ws

  status_lem :
      (fuel : ℕ) (status : Option ℕ) (body : Option Text) (ws : List Text)
      → route_options
          (suc (suc (suc (suc fuel))))
          (node prefix none none [])
          (status_tokens status (body_tokens body (flags_tokens ws (nl ∷ rest))))
        ≡ some (node prefix status body ws, nl ∷ rest)
  unfolding route_options option_step
  status_lem fuel none body ws = body_lem (suc fuel) none body ws
  status_lem fuel (some n) body ws = body_lem fuel (some n) body ws

warmup_lem :
    (ws : List Text) (rest : List Token)
    → warmup_flags (flags_tokens ws (nl ∷ rest)) ≡ some (ws, nl ∷ rest)
unfolding warmup_flags parse_flags
warmup_lem [] rest = refl
warmup_lem (w ∷ ws) rest = rw (more_flags-parse ws rest) refl

statement_lem :
    (st : Statement) (rest : List Token) (ast : Ast)
    → statement (keyword st) (ident (keyword st) ∷ operands st (nl ∷ rest)) ast
      ≡ some (apply st ast, nl ∷ rest)
unfolding statement parse_route parse_header parse_waf_rule parse_ratelimit parse_cache_warmup
    parse_generation expect_word
statement_lem (route r) rest ast =
    rw (status_lem rest r.prefix _ r.status_override r.static_body r.flags) refl
statement_lem (header h) rest ast = refl
statement_lem (waf true v) rest ast = refl
statement_lem (waf false v) rest ast = refl
statement_lem (ratelimit r) rest ast = refl
statement_lem (cache c) rest ast = rw (warmup_lem c.flags rest) refl
statement_lem (generation n) rest ast = refl

opt_nl-tokens : (sts : List Statement) → opt_nl (tokens_of sts) ≡ tokens_of sts
opt_nl-tokens [] = refl
opt_nl-tokens (st ∷ sts) = refl

parse_from-all :
    (sts : List Statement) (ast : Ast)
    → parse_from (length sts) (tokens_of sts) ast ≡ some (apply_all sts ast)
unfolding parse_from round
parse_from-all [] ast = refl
parse_from-all (st ∷ sts) ast =
    rw (statement_lem st (tokens_of sts) ast, opt_nl-tokens sts) (parse_from-all sts (apply st ast))

-- More rounds do no harm.
parse_from-more :
    (fuel more : ℕ) (toks : List Token) (ast out : Ast)
    → fuel ≤ more
    → parse_from fuel toks ast ≡ some out
    → parse_from more toks ast ≡ some out
unfolding parse_from
parse_from-more fuel more [] ast out le h = h
parse_from-more zero more (t ∷ toks) ast out le h = absurd (none-some h)
parse_from-more (suc fuel) zero (t ∷ toks) ast out le h = absurd (omega (arith, le))
parse_from-more (suc fuel) (suc more) (t ∷ toks) ast out le h =
    elim (Option-cases (round (t ∷ toks) ast)) [
      | inl fails ↦ absurd (none-some (rw fails at h))
      | inr (got, reads) ↦
          rw reads (parse_from-more fuel more got.1 got.0 out (omega (arith, le)) (rw reads at h))
    ]

more_flags-length : (ws : List Text) (rest : List Token) → length rest ≤ length (more_flags ws rest)
more_flags-length [] rest = omega arith
more_flags-length (w ∷ ws) rest = omega (arith, more_flags-length ws rest)

flags_tokens-length :
    (ws : List Text) (rest : List Token) → length rest ≤ length (flags_tokens ws rest)
flags_tokens-length [] rest = omega arith
flags_tokens-length (w ∷ ws) rest = omega (arith, more_flags-length ws rest)

body_tokens-length :
    (body : Option Text) (rest : List Token) → length rest ≤ length (body_tokens body rest)
body_tokens-length none rest = omega arith
body_tokens-length (some v) rest = omega arith

status_tokens-length :
    (status : Option ℕ) (rest : List Token) → length rest ≤ length (status_tokens status rest)
status_tokens-length none rest = omega arith
status_tokens-length (some n) rest = omega arith

operands-length : (st : Statement) (rest : List Token) → length rest ≤ length (operands st rest)
operands-length (route r) rest = omega (
  arith,
  flags_tokens-length r.flags rest,
  body_tokens-length r.static_body (flags_tokens r.flags rest),
  status_tokens-length r.status_override (body_tokens r.static_body (flags_tokens r.flags rest)),
)
operands-length (header h) rest = omega arith
operands-length (waf about v) rest = omega arith
operands-length (ratelimit r) rest = omega arith
operands-length (cache c) rest = omega (arith, flags_tokens-length c.flags rest)
operands-length (generation n) rest = omega arith

length-tokens_of : (sts : List Statement) → length sts ≤ length (tokens_of sts)
length-tokens_of [] = omega arith
length-tokens_of (st ∷ sts) =
    omega (arith, length-tokens_of sts, operands-length st (nl ∷ tokens_of sts))

-- The tokens of statements, each on its line, are parsed to the configuration that these statements make.
pub parse-tokens_of :
    (sts : List Statement) → parse (tokens_of sts) ≡ some (apply_all sts no_statement)
unfolding parse
parse-tokens_of sts =
    parse_from-more (length sts) (length (tokens_of sts)) (tokens_of sts) no_statement
      (apply_all sts no_statement) (length-tokens_of sts) (parse_from-all sts no_statement)
