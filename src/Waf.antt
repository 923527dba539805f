-- ===== src/Waf.antt =====
-- security/waf.rs: the rules, the request, and how one rule is matched. `Waf/Engine` models the
-- decision, and `Waf/Rules` the predefined rules.
mod Scan
mod Matching
mod Ascii
mod Tests
pub mod Engine
pub mod Rules
use olwsx.Base
use olwsx.Base.{
  ℕ, zero, suc, ◌+◌, ◌-◌, Bool, true, false, ◌&&◌, ◌||◌, Bytes, codes, Option, none, some, List, [],
  ◌∷◌, ◌++◌, leb, ltb, ◌==◌, length, take, drop, get_elem?, eq_ignore_ascii_case, lower,
  if◌then◌else◌,
}

pub data Action : Type 0 where
  deny : ℕ → Action
  challenge : ℕ → Action
  log_only : Action
  allow : Action

pub data Field : Type 0 where
  path : Field
  user_agent : Field
  header : Bytes → Field
  body : Field
  ip : Field

pub data Matcher : Type 0 where
  contains : Bytes → Matcher
  prefix : Bytes → Matcher
  suffix : Bytes → Matcher
  regex : Bytes → Matcher
  eq : Bytes → Matcher

pub record Rule : Type 0 where
  pub id : ℕ
  pub field : Field
  pub matcher : Matcher
  pub action : Action
  pub tags : List Bytes
  pub severity : ℕ

pub record RequestView : Type 0 where
  pub path : Bytes
  pub user_agent : Bytes
  pub headers : List (Bytes × Bytes)
  pub body : Bytes
  pub ip : Bytes

-- A call returns, or it panics.
pub data Run {ℓ} (A : Type ℓ) : Type ℓ where
  ret : A → Run A
  panic : Run A

infixl 5 ◌>>=◌
abbrev pub ◌>>=◌ {ℓ κ} : {A : Type ℓ} {B : Type κ} → Run A → (A → Run B) → Run B
ret a >>= f = f a
panic >>= f = panic

-- `str::is_char_boundary`: inside the text, the byte there does not continue a character.
abbrev pub is_char_boundary : Bytes → ℕ → Bool
is_char_boundary s n = elim (get_elem? s n) [
  | none ↦ n == length s
  | some b ↦ n == 0 || (ltb b 128 || leb 192 b)
]

-- `&s[..n]` and `&s[n..]` on a `&str`
pub slice_to : Bytes → ℕ → Run Bytes
slice_to s n = if is_char_boundary s n then ret (take n s) else panic

pub slice_from : Bytes → ℕ → Run Bytes
slice_from s n = if is_char_boundary s n then ret (drop n s) else panic

pub eq_ci : Bytes → Bytes → Bool
eq_ci a b = eq_ignore_ascii_case a b

-- `a.iter().zip(b.iter()).all(…)`
pub zip_all_ci : Bytes → Bytes → Bool
zip_all_ci [] b = true
zip_all_ci (x ∷ a) [] = true
zip_all_ci (x ∷ a) (y ∷ b) = lower x == lower y && zip_all_ci a b

pub eq_ci_bytes : Bytes → Bytes → Bool
eq_ci_bytes a b = if length a == length b then zip_all_ci a b else false

-- The loop of `find_subslice_ci` from index `i`, with the rounds that are left.
pub find_from : ℕ → ℕ → Bytes → Bytes → Bool
find_from zero i hay needle = false
find_from (suc rounds) i hay needle =
    eq_ci_bytes (take (length needle) (drop i hay)) needle || find_from rounds (suc i) hay needle

pub find_subslice_ci : Bytes → Bytes → Bool
find_subslice_ci hay needle =
    if length needle == 0
    then true
    else if ltb (length hay) (length needle)
    then false
    else find_from (length hay - length needle + 1) 0 hay needle

pub match_bytes : Bytes → Matcher → Bool
match_bytes hay (contains needle) = find_subslice_ci hay needle
match_bytes hay (regex needle) = find_subslice_ci hay needle
match_bytes hay (eq needle) = find_subslice_ci hay needle
match_bytes hay (prefix p) = leb (length p) (length hay) && eq_ci_bytes (take (length p) hay) p
match_bytes hay (suffix s) =
    leb (length s) (length hay) && eq_ci_bytes (drop (length hay - length s) hay) s

-- `format!` of the two helpers below
pub short : Matcher → Bytes
short (contains s) = codes "contains(" ++ (s ++ codes ")")
short (prefix s) = codes "prefix(" ++ (s ++ codes ")")
short (suffix s) = codes "suffix(" ++ (s ++ codes ")")
short (regex s) = codes "regex-lite(" ++ (s ++ codes ")")
short (eq s) = codes "eq(" ++ (s ++ codes ")")

pub describe : Field → Matcher → Bytes
describe path m = codes "path matched " ++ short m
describe user_agent m = codes "ua matched " ++ short m
describe (header h) m = codes "header " ++ (h ++ (codes " matched " ++ short m))
describe body m = codes "body matched"
describe ip m = codes "ip matched " ++ short m

pub describe_match : Rule → Bytes
describe_match r = describe r.field r.matcher

-- `str::to_lowercase` maps all of Unicode; it is a parameter, of which the theorems use what it does
-- to ASCII text.
module _ (to_lowercase : Bytes → Bytes) where
  pub contains_ci : Bytes → Bytes → Bool
  contains_ci hay needle = Base.contains (to_lowercase hay) (to_lowercase needle)

  pub match_str : Bytes → Matcher → Run Bool
  match_str hay (contains needle) = ret (contains_ci hay needle)
  match_str hay (prefix p) =
      if leb (length p) (length hay)
      then (do front ← slice_to hay (length p); ret (eq_ci front p))
      else ret false
  match_str hay (suffix s) =
      if leb (length s) (length hay)
      then (do back ← slice_from hay (length hay - length s); ret (eq_ci back s))
      else ret false
  match_str hay (eq x) = ret (eq_ci hay x)
  match_str hay (regex pseudo) = ret (contains_ci hay pseudo)

  -- The loop over the headers: the first of that name decides.
  pub match_header : Bytes → List (Bytes × Bytes) → Matcher → Run Bool
  match_header name [] m = ret false
  match_header name ((k, v) ∷ headers) m =
      let rest = match_header name headers m in if eq_ci k name then match_str v m else rest

  match_field : RequestView → Field → Matcher → Run Bool
  match_field req path m = match_str req.path m
  match_field req user_agent m = match_str req.user_agent m
  match_field req (header name) m = match_header name req.headers m
  match_field req body m = ret (match_bytes req.body m)
  match_field req ip m = match_str req.ip m

  -- `Engine::matches`
  pub matches : RequestView → Rule → Run Bool
  matches req r = match_field req r.field r.matcher
