-- ===== src/Config/Compiler/Validated.antt =====
-- What the compiler of config/wsx.rb makes of a configuration that its validator accepts.
use olwsx.Base
use olwsx.Base.{
  ℕ, ◌≤◌, ◌≡◌, refl, sym, ap, ◌∙◌, ◌++◌, Bool, true, false, not, ◌&&◌, Bool-cases, bytes_eq,
  bytes_eq_iff, Option, Option-cases, none, some, inl, inr, List, [], ◌∷◌, Map, get-insert,
  contains_key-get, arith, leb, leb→le, if◌then◌else◌, ◌>>=◌,
}
use mathlib.Core.List.{append_assoc, append-nil}
use Prim.Native.Nat.{bit_or}
use olwsx.Config.{Text, RouteNode, HeaderNode, CacheWarmupNode, Ast}
use olwsx.Config.Parser.{parse_text}
use olwsx.Config.Compiler.{
  all, or_empty, max_route_bytes, max_header_bytes, max_body_bytes, known_flags, bytesize, lines_at,
  header_line, group_from, join, body_fits, route_ok, header_ok, group_ok, ratelimit_ok, warmup_ok,
  validate, RouteObject, WarmupObject, Compiled, fold_flags, compile_routes, compile_warmups,
  compile, route_object, warmup_object, result_object, compile_text, is_known,
}

-- The header lines of a prefix, in the order of the configuration.
abbrev pub lines_for : Text → List HeaderNode → List Text
lines_for prefix [] = []
lines_for prefix (h ∷ hs) =
    let rest = lines_for prefix hs in
    if bytes_eq h.prefix prefix then header_line h ∷ rest else rest

abbrev pub BodyFits : Option Text → Type 0
BodyFits none = Unit
BodyFits (some body) = bytesize body ≤ max_body_bytes

-- The object that a route becomes, within the limits.
abbrev pub IsObjectOf : List HeaderNode → RouteNode → RouteObject → Type 0
IsObjectOf hs r o =
    (o.match_prefix ≡ r.prefix)
    × ((o.status_override ≡ r.status_override)
        × ((o.static_body ≡ r.static_body)
            × ((o.resp_headers ≡ join (lines_for r.prefix hs))
                × ((fold_flags 0 r.flags ≡ some o.meta_flags)
                    × ((bytesize o.match_prefix ≤ max_route_bytes)
                        × (BodyFits o.static_body
                            × (bytesize o.resp_headers ≤ max_header_bytes)))))))

-- One object for each route, in their order.
abbrev pub AreObjectsOf : List HeaderNode → List RouteNode → List RouteObject → Type 0
AreObjectsOf hs [] [] = Unit
AreObjectsOf hs [] (o ∷ os) = ⊥
AreObjectsOf hs (r ∷ rs) [] = ⊥
AreObjectsOf hs (r ∷ rs) (o ∷ os) = IsObjectOf hs r o × AreObjectsOf hs rs os

both : (a b : Bool) → (a && b) ≡ true → (a ≡ true) × (b ≡ true)
both true b h = (refl, h)
both false b h = cc

all-cons :
    {A : Type 0} (x : A) (xs : List A) (p : A → Bool)
    → all (x ∷ xs) p ≡ true
    → (p x ≡ true) × (all xs p ≡ true)
all-cons x xs p h = both (p x) (all xs p) h

lines_at-insert :
    (p k : Text) (lines : List Text) (m : Map (List Text))
    → lines_at p (Base.insert k lines m) ≡ (if bytes_eq k p then lines else lines_at p m)
lines_at-insert p k lines m = ap or_empty (get-insert k p lines m) ∙ chosen (bytes_eq k p)
  where
    chosen :
        (b : Bool)
        → or_empty (if b then some lines else Base.get p m) ≡ (if b then lines else lines_at p m)
    chosen true = refl
    chosen false = refl

lines_at-group :
    (p : Text) (m : Map (List Text)) (hs : List HeaderNode)
    → lines_at p (group_from m hs) ≡ lines_at p m ++ lines_for p hs
unfolding group_from
lines_at-group p m [] = sym (append-nil (lines_at p m))
lines_at-group p m (h ∷ hs) =
    let lines = lines_at h.prefix m ++ header_line h ∷ [] in
    let ih = lines_at-group p (Base.insert h.prefix lines m) hs in
    elim (Bool-cases (bytes_eq h.prefix p)) [
      | inl same ↦
          let e : h.prefix ≡ p = (bytes_eq_iff h.prefix p).0 same in
          rw (ih, lines_at-insert p h.prefix lines m, same, e)
            (append_assoc (lines_at p m) (header_line h ∷ []) (lines_for p hs))
      | inr other ↦ rw (ih, lines_at-insert p h.prefix lines m, other) refl
    ]

lines_at-fits :
    (p : Text) (m : Map (List Text))
    → all m group_ok ≡ true
    → bytesize (join (lines_at p m)) ≤ max_header_bytes
lines_at-fits p [] h = omega arith
lines_at-fits p ((k, lines) ∷ m) h =
    let parts = all-cons (k, lines) m group_ok h in
    elim (Bool-cases (bytes_eq k p)) [
      | inl same ↦ rw same (leb→le (bytesize (join lines)) max_header_bytes parts.0)
      | inr other ↦ rw other (lines_at-fits p m parts.1)
    ]

get-held :
    (m : Map ℕ) (f : Text) → Base.contains_key f m ≡ true → (bits : ℕ) × (Base.get f m ≡ some bits)
get-held m f h = elim (Option-cases (Base.get f m)) [
  | inl missing ↦ cc (rw missing at (sym h ∙ contains_key-get f m))
  | inr found ↦ found
]

fold_flags_returns :
    (names : List Text) (acc : ℕ)
    → all names is_known ≡ true
    → (bits : ℕ) × (fold_flags acc names ≡ some bits)
unfolding fold_flags
fold_flags_returns [] acc h = (acc, refl)
fold_flags_returns (f ∷ names) acc h =
    let parts = all-cons f names is_known h in
    let bits = get-held known_flags f parts.0 in
    let rest = fold_flags_returns names (bit_or acc bits.0) parts.1 in (rest.0, rw bits.1 rest.1)

body_fits-BodyFits : (body : Option Text) → body_fits body ≡ true → BodyFits body
body_fits-BodyFits none h = tt
body_fits-BodyFits (some body) h = leb→le (bytesize body) max_body_bytes h

module _ (hs : List HeaderNode) (fits : all (group_from [] hs) group_ok ≡ true) where
  compile_routes_returns :
      (rs : List RouteNode)
      → all rs route_ok ≡ true
      → (os : List RouteObject) × ((compile_routes (group_from [] hs) rs ≡ some os)
          × AreObjectsOf hs rs os)
  unfolding compile_routes
  compile_routes_returns [] h = ([], (refl, tt))
  compile_routes_returns (r ∷ rs) h =
      let parts = all-cons r rs route_ok h in
      let own = both (leb (bytesize r.prefix) max_route_bytes) _ parts.0 in
      let more = both (body_fits r.static_body) _ own.1 in
      let bits = fold_flags_returns r.flags 0 more.1 in
      let rest = compile_routes_returns rs parts.1 in
      (
        route_object (group_from [] hs) r bits.0 ∷ rest.0,
        (
          rw (bits.1, rest.1.0) refl,
          (
            (
              refl,
              (
                refl,
                (
                  refl,
                  (
                    ap join (lines_at-group r.prefix [] hs),
                    (
                      bits.1,
                      (
                        leb→le (bytesize r.prefix) max_route_bytes own.0,
                        (
                          body_fits-BodyFits r.static_body more.0,
                          lines_at-fits r.prefix (group_from [] hs) fits,
                        ),
                      ),
                    ),
                  ),
                ),
              ),
            ),
            rest.1.1,
          ),
        ),
      )

compile_warmups_returns :
    (cs : List CacheWarmupNode)
    → all cs warmup_ok ≡ true
    → (os : List WarmupObject) × (compile_warmups cs ≡ some os)
unfolding compile_warmups
compile_warmups_returns [] h = ([], refl)
compile_warmups_returns (c ∷ cs) h =
    let parts = all-cons c cs warmup_ok h in
    let bits = fold_flags_returns c.flags 0 (both _ (all c.flags is_known) parts.0).1 in
    let rest = compile_warmups_returns cs parts.1 in
    (warmup_object c bits.0 ∷ rest.0, rw (bits.1, rest.1) refl)

compile-validated :
    (gen : Option ℕ) (ast : Ast)
    → validate ast ≡ true
    → (c : Compiled) × ((compile gen ast ≡ some c) × AreObjectsOf ast.headers ast.routes c.routes)
unfolding validate compile
compile-validated gen ast h =
    let v1 = both (all ast.routes route_ok) _ h in
    let v2 = both (all ast.headers header_ok) _ v1.1 in
    let v3 = both (all (group_from [] ast.headers) group_ok) _ v2.1 in
    let v5 = both (ratelimit_ok ast.ratelimit) _ (both (all ast.waf_rules _) _ v3.1).1 in
    let routes = compile_routes_returns ast.headers v3.0 ast.routes v1.0 in
    let warmups = compile_warmups_returns ast.cache_warmups v5.1 in
    (result_object gen ast routes.0 warmups.0, (rw (routes.1.0, warmups.1) refl, routes.1.1))

-- A text that is parsed to a configuration which the validator accepts is compiled without an error:
-- each route becomes one object, in their order, with the prefix, status and body of the route, all
-- header lines of its prefix in their order, and its flags or-ed; its prefix, its body and its joined
-- headers are within the limits.
pub compile_text-AreObjectsOf :
    (gen : Option ℕ) (text : Text) (ast : Ast)
    → parse_text text ≡ some ast
    → validate ast ≡ true
    → (c : Compiled) × ((compile_text gen text ≡ some c)
        × AreObjectsOf ast.headers ast.routes c.routes)
unfolding compile_text
compile_text-AreObjectsOf gen text ast parsed valid =
    let made = compile-validated gen ast valid in (made.0, (rw (parsed, valid) made.1.0, made.1.1))
