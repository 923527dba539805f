-- ===== src/Waf/Rules/Safety.antt =====
-- What the predefined rules of security/waf.rs deny, allow and cannot decide.
use olwsx.Base.{
  ℕ, ◌≤◌, ◌<◌, ◌≡◌, ◌≢◌, refl, Bool, true, false, ◌&&◌, Bytes, some, List, [], ◌∷◌, ◌++◌, codes,
  arith, get_elem?, to_ascii_lowercase, Bool-cases, inl, inr,
}
use olwsx.Waf.{
  deny, Rule, RequestView, Run, ret, panic, matches, match_field, match_header, match_str, regex,
}
use olwsx.Waf.Ascii.{IsAscii, IsPlain, pattern_of, match_str_panics, match_str_iff, matches_returns}
use olwsx.Waf.Matching.{Contains, match_bytes_iff}
use olwsx.Waf.Engine.{Decision, new_engine, decide}
use olwsx.Waf.Engine.Choice.{verdict, verdict_denies, hits, chosen, decide_lem}
use olwsx.Waf.Engine.Order.{Passes, decide_stop, decide_panic}
use olwsx.Waf.Rules.{
  rule_traversal, rule_sqlmap, rule_proxy, rule_union, rule_well_known, default_rules,
}

module _ (to_lowercase : Bytes → Bytes) (now : ℕ) (req : RequestView) where
  -- The first four rules hold no prefix or suffix: they never panic.
  header_returns :
      (name n : Bytes) (headers : List (Bytes × Bytes))
      → match_header to_lowercase name headers (regex n) ≢ panic
  unfolding match_header match_str
  header_returns name n [] = λ h. cc
  header_returns name n ((k, v) ∷ headers) = ground (arith, header_returns name n headers)

  traversal_returns : matches to_lowercase req rule_traversal ≢ panic
  unfolding matches match_field match_str
  traversal_returns h = cc

  sqlmap_returns : matches to_lowercase req rule_sqlmap ≢ panic
  unfolding matches match_field match_str
  sqlmap_returns h = cc

  proxy_returns : matches to_lowercase req rule_proxy ≢ panic
  unfolding matches match_field
  proxy_returns = header_returns _ _ req.headers

  union_returns : matches to_lowercase req rule_union ≢ panic
  unfolding matches match_field
  union_returns h = cc

  abbrev IsDenied : Run Decision → ℕ → Type 0
  IsDenied r status = (d : Decision) × (r ≡ ret d) × (d.action ≡ deny status)

  returned_true :
      (r : Rule) → hits to_lowercase req r ≡ true → matches to_lowercase req r ≡ ret true
  returned_true r h = ground arith

  never : (b : Bool) → (b && false) ≡ false
  never true = refl
  never false = refl

  denied :
      (status : ℕ) (before : List Rule) (r : Rule) (after : List Rule)
      → Passes to_lowercase req before
      → hits to_lowercase req r ≡ true
      → r.action ≡ deny status
      → IsDenied (decide to_lowercase now req (new_engine (before ++ r ∷ after))) status
  denied status before r after p h e = (
    verdict now (some r),
    decide_stop to_lowercase now req before r after p (returned_true r h) (rw e),
    verdict_denies now r status e,
  )

  -- A body that, without regard to case, contains `UNION SELECT` is denied with 403, whatever else the
  -- request holds.
  pub default_denies_union :
      Contains req.body (codes "UNION SELECT")
      → IsDenied (decide to_lowercase now req (new_engine default_rules)) 403
  unfolding default_rules
  default_denies_union w = elim (Bool-cases (hits to_lowercase req rule_traversal)) [
    | inl first ↦ denied 403 [] rule_traversal _ tt first refl
    | inr pass1 ↦ elim (Bool-cases (hits to_lowercase req rule_sqlmap)) [
      | inl second ↦
          denied 403 (rule_traversal ∷ []) rule_sqlmap _ ((traversal_returns, rw pass1), tt) second
            refl
      | inr pass2 ↦
          denied 403 (rule_traversal ∷ rule_sqlmap ∷ rule_proxy ∷ []) rule_union _
            (
              (traversal_returns, rw pass1),
              (
                (sqlmap_returns, rw pass2),
                ((proxy_returns, never (hits to_lowercase req rule_proxy)), tt),
              ),
            )
            union_hit refl
    ]
  ]
    where
      union_hit : hits to_lowercase req rule_union ≡ true
      union_hit = unfold matches match_field in (match_bytes_iff req.body rule_union.matcher).1 w

  -- Where none of the three rules that deny matches, a path in which the byte at index 13
  -- continues a character makes the decision panic.
  pub default_panics :
      (b : ℕ)
      → hits to_lowercase req rule_traversal ≡ false
      → hits to_lowercase req rule_sqlmap ≡ false
      → hits to_lowercase req rule_union ≡ false
      → get_elem? req.path 13 ≡ some b
      → 128 ≤ b
      → b < 192
      → decide to_lowercase now req (new_engine default_rules) ≡ panic
  unfolding default_rules
  default_panics b no_traversal no_sqlmap no_union inside low high =
      decide_panic to_lowercase now req
        (rule_traversal ∷ rule_sqlmap ∷ rule_proxy ∷ rule_union ∷ []) rule_well_known []
        (
          (traversal_returns, rw no_traversal),
          (
            (sqlmap_returns, rw no_sqlmap),
            (
              (proxy_returns, never (hits to_lowercase req rule_proxy)),
              ((union_returns, rw no_union), tt),
            ),
          ),
        )
        (unfold matches match_field in
          match_str_panics to_lowercase req.path (codes "/.well-known/") b inside low high
            (omega arith))

  module _ (on_ascii : (s : Bytes) → IsAscii s → to_lowercase s ≡ to_ascii_lowercase s) where
    -- Where `to_lowercase` is the ASCII mapping on ASCII text, an ASCII path that contains
    -- `../` is denied with 403 by rule 1.
    pub default_denies_traversal :
        IsAscii req.path
        → Contains req.path (codes "../")
        → decide to_lowercase now req (new_engine default_rules)
          ≡ ret (verdict now (some rule_traversal))
    unfolding default_rules
    default_denies_traversal a w =
        decide_stop to_lowercase now req [] rule_traversal _ tt
          (unfold matches match_field in
            (match_str_iff to_lowercase on_ascii req.path rule_traversal.matcher a
                (omega arith)).1.1
              w)
          refl

    -- Where `to_lowercase` is the ASCII mapping on ASCII text, a request whose path, user
    -- agent, header values and address are ASCII is always decided, by the rule that is chosen
    -- among those that match.
    pub default_decides :
        IsPlain req
        → decide to_lowercase now req (new_engine default_rules)
          ≡ ret (verdict now (chosen (hits to_lowercase req) default_rules))
    unfolding default_rules
    default_decides a = decide_lem to_lowercase now req default_rules (
      returns rule_traversal (omega arith),
      (
        returns rule_sqlmap (omega arith),
        (
          returns rule_proxy (omega arith),
          (returns rule_union (omega arith), (returns rule_well_known (omega arith), tt)),
        ),
      ),
    )
      where
        returns : (r : Rule) → IsAscii (pattern_of r.matcher) → matches to_lowercase req r ≢ panic
        returns r p = matches_returns to_lowercase on_ascii req r a p
