-- ===== src/Config/Compiler.antt =====
-- `Validator` and `Compiler` of config/wsx.rb; an exception of the compiler is `none`, and the validator
-- answers whether it returns. A code point takes one to four bytes in UTF-8.
pub mod Validated
use olwsx.Base
use olwsx.Base.{
  ℕ, ◌+◌, ◌++◌, ◌*◌, Bool, true, false, not, ◌&&◌, bytes_eq, codes, Option, none, some, List, [],
  ◌∷◌, Map, ltb, leb, if◌then◌else◌, ◌>>=◌,
}
use olwsx.Config.{Text, RouteNode, HeaderNode, WafRuleNode, RateLimitNode, CacheWarmupNode, Ast}
use olwsx.Config.Parser.{parse_text}
use Prim.Native.Nat.{bit_or}

abbrev pub all : {A : Type 0} → List A → (A → Bool) → Bool
all [] p = true
all (x ∷ xs) p = p x && all xs p

-- `LIMITS`
abbrev pub max_route_bytes : ℕ
max_route_bytes = 65536

abbrev pub max_header_bytes : ℕ
max_header_bytes = 2 * 1024 * 1024

abbrev pub max_body_bytes : ℕ
max_body_bytes = 64 * 1024 * 1024

abbrev pub max_key_bytes : ℕ
max_key_bytes = 65536

-- `FLAGS`
abbrev pub known_flags : Map ℕ
known_flags =
    (codes "COMP_NONE", 0)
    ∷ (codes "COMP_GZIP", 1)
    ∷ (codes "COMP_ZSTD", 2)
    ∷ (codes "COMP_BROTLI", 4)
    ∷ (codes "CACHE_MISS", 65536)
    ∷ (codes "CACHE_L1", 131072)
    ∷ (codes "CACHE_L2", 262144)
    ∷ (codes "CACHE_L3", 524288)
    ∷ (codes "SEC_OK", 1048576)
    ∷ (codes "SEC_WAF", 2097152)
    ∷ (codes "SEC_RATELIM", 4194304)
    ∷ []

abbrev pub char_bytes : ℕ → ℕ
char_bytes ch = if ltb ch 128 then 1 else if ltb ch 2048 then 2 else if ltb ch 65536 then 3 else 4

-- `bytesize`
abbrev pub bytesize : Text → ℕ
bytesize [] = 0
bytesize (ch ∷ s) = char_bytes ch + bytesize s

-- The list under a key, where a missing key has the empty list.
abbrev pub or_empty : Option (List Text) → List Text
or_empty none = []
or_empty (some lines) = lines

abbrev pub lines_at : Text → Map (List Text) → List Text
lines_at prefix m = or_empty (Base.get prefix m)

abbrev pub header_line : HeaderNode → Text
header_line h = h.key ++ (codes ": " ++ (h.value ++ codes "\r\n"))

-- The lines of each prefix, in their order.
unfoldable pub group_from : Map (List Text) → List HeaderNode → Map (List Text)
group_from m [] = m
group_from m (h ∷ hs) =
    group_from (Base.insert h.prefix (lines_at h.prefix m ++ header_line h ∷ []) m) hs

abbrev pub join : List Text → Text
join [] = []
join (s ∷ lines) = s ++ join lines

abbrev pub is_known : Text → Bool
is_known f = Base.contains_key f known_flags

abbrev pub body_fits : Option Text → Bool
body_fits none = true
body_fits (some body) = leb (bytesize body) max_body_bytes

abbrev pub route_ok : RouteNode → Bool
route_ok r =
    leb (bytesize r.prefix) max_route_bytes && (body_fits r.static_body && all r.flags is_known)

abbrev pub header_ok : HeaderNode → Bool
header_ok h = not (bytes_eq h.key []) && not (bytes_eq h.value [])

abbrev pub group_ok : Text × List Text → Bool
group_ok (prefix, lines) = leb (bytesize (join lines)) max_header_bytes

abbrev pub ratelimit_ok : Option RateLimitNode → Bool
ratelimit_ok none = true
ratelimit_ok (some rl) = ltb 0 rl.capacity && ltb 0 rl.refill_per_s

abbrev pub warmup_ok : CacheWarmupNode → Bool
warmup_ok c = leb (bytesize c.key) max_key_bytes && all c.flags is_known

-- `validate!`; that a number is not negative always holds.
unfoldable pub validate : Ast → Bool
validate ast =
    all ast.routes route_ok
    && (all ast.headers header_ok
        && (all (group_from [] ast.headers) group_ok
            && (all ast.waf_rules (λ w. leb (bytesize w.value) max_route_bytes)
                && (ratelimit_ok ast.ratelimit && all ast.cache_warmups warmup_ok))))

-- The objects of the result.
pub record RouteObject : Type 0 where
  pub match_prefix : Text
  pub status_override : Option ℕ
  pub static_body : Option Text
  pub resp_headers : Text
  pub meta_flags : ℕ

pub record WarmupObject : Type 0 where
  pub key : Text
  pub value : Text
  pub flags : ℕ

pub record Compiled : Type 0 where
  pub version : Text
  pub generation : ℕ
  pub routes : List RouteObject
  pub waf_rules : List WafRuleNode
  pub ratelimit : Option RateLimitNode
  pub warmup_l2 : List WarmupObject

-- `fold_flags`; `|` with the `nil` of an unknown flag raises.
unfoldable pub fold_flags : ℕ → List Text → Option ℕ
fold_flags acc [] = some acc
fold_flags acc (f ∷ names) = do bits ← Base.get f known_flags; fold_flags (bit_or acc bits) names

abbrev pub route_object : Map (List Text) → RouteNode → ℕ → RouteObject
route_object m r bits = record {
  match_prefix = r.prefix;
  status_override = r.status_override;
  static_body = r.static_body;
  resp_headers = join (lines_at r.prefix m);
  meta_flags = bits;
}

unfoldable pub compile_routes : Map (List Text) → List RouteNode → Option (List RouteObject)
compile_routes m [] = some []
compile_routes m (r ∷ rs) = do
  bits ← fold_flags 0 r.flags
  objects ← compile_routes m rs
  some (route_object m r bits ∷ objects)

abbrev pub warmup_object : CacheWarmupNode → ℕ → WarmupObject
warmup_object c bits = record { key = c.key; value = c.value; flags = bits }

unfoldable pub compile_warmups : List CacheWarmupNode → Option (List WarmupObject)
compile_warmups [] = some []
compile_warmups (c ∷ cs) = do
  bits ← fold_flags 0 c.flags
  objects ← compile_warmups cs
  some (warmup_object c bits ∷ objects)

abbrev pub first_of : Option ℕ → Option ℕ → ℕ
first_of (some n) g = n
first_of none (some g) = g
first_of none none = 0

abbrev pub result_object : Option ℕ → Ast → List RouteObject → List WarmupObject → Compiled
result_object override_generation ast objects warmups = record {
  version = codes "1.0.0";
  generation = first_of override_generation ast.generation;
  routes = objects;
  waf_rules = ast.waf_rules;
  ratelimit = ast.ratelimit;
  warmup_l2 = warmups;
}

-- `compile`
unfoldable pub compile : Option ℕ → Ast → Option Compiled
compile override_generation ast = do
  objects ← compile_routes (group_from [] ast.headers) ast.routes
  warmups ← compile_warmups ast.cache_warmups
  some (result_object override_generation ast objects warmups)

-- `compile` of the command line, from the text of the file to the object that it prints.
unfoldable pub compile_text : Option ℕ → Text → Option Compiled
compile_text gen text = do ast ← parse_text text; if validate ast then compile gen ast else none
