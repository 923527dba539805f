-- ===== src/Waf/Engine/Order.antt =====
-- What ends the loop of `decide` in security/waf.rs.
use olwsx.Base.{
  ℕ, ◌≡◌, ◌≢◌, true, false, ◌&&◌, Bytes, Option, none, some, List, [], ◌∷◌, ◌++◌, arith, All,
}
use olwsx.Waf.{Rule, RequestView, ret, panic, matches, describe_match}
use olwsx.Waf.Engine.{on_action, on_match, keep_first, decide_from, new_engine, decide}
use olwsx.Waf.Engine.Choice.{ends, verdict, verdict_on, hits}

-- The rules that the loop passes over or keeps as a candidate.
abbrev pub Passes : (Bytes → Bytes) → RequestView → List Rule → Type 0
Passes to_lowercase req rules =
    All
      (λ r.
        (matches to_lowercase req r ≢ panic) × ((hits to_lowercase req r && ends r.action) ≡ false))
      rules

module _ (to_lowercase : Bytes → Bytes) (now : ℕ) (req : RequestView) where
  decide_from_stop :
      (c : Option (Rule × Bytes)) (before : List Rule) (r : Rule) (after : List Rule)
      → Passes to_lowercase req before
      → matches to_lowercase req r ≡ ret true
      → ends r.action ≡ true
      → decide_from to_lowercase now req c (before ++ r ∷ after) ≡ ret (verdict_on now r r.action)
  unfolding decide_from on_match on_action
  decide_from_stop c [] r after p m e = ground arith
  decide_from_stop c (x ∷ before) r after p m e = ground (
    arith,
    p.0,
    decide_from_stop c before r after p.1 m e,
    decide_from_stop (some (x, describe_match x)) before r after p.1 m e,
    decide_from_stop (keep_first c (x, describe_match x)) before r after p.1 m e,
  )

  -- A matching rule that denies or allows is the one that the decision reports, whatever
  -- follows it, if no match before it panics and no rule of these two kinds matches before it:
  -- so an earlier `Allow` beats a later `Deny`, and it beats an earlier `Challenge`.
  pub decide_stop :
      (before : List Rule) (r : Rule) (after : List Rule)
      → Passes to_lowercase req before
      → matches to_lowercase req r ≡ ret true
      → ends r.action ≡ true
      → decide to_lowercase now req (new_engine (before ++ r ∷ after)) ≡ ret (verdict now (some r))
  unfolding decide
  decide_stop before r after p m e = decide_from_stop none before r after p m e

  decide_from_panic :
      (c : Option (Rule × Bytes)) (before : List Rule) (r : Rule) (after : List Rule)
      → Passes to_lowercase req before
      → matches to_lowercase req r ≡ panic
      → decide_from to_lowercase now req c (before ++ r ∷ after) ≡ panic
  unfolding decide_from on_match on_action
  decide_from_panic c [] r after p m = ground arith
  decide_from_panic c (x ∷ before) r after p m = ground (
    arith,
    p.0,
    decide_from_panic c before r after p.1 m,
    decide_from_panic (some (x, describe_match x)) before r after p.1 m,
    decide_from_panic (keep_first c (x, describe_match x)) before r after p.1 m,
  )

  -- A rule whose match panics, reached by the loop, makes the decision panic.
  pub decide_panic :
      (before : List Rule) (r : Rule) (after : List Rule)
      → Passes to_lowercase req before
      → matches to_lowercase req r ≡ panic
      → decide to_lowercase now req (new_engine (before ++ r ∷ after)) ≡ panic
  unfolding decide
  decide_panic before r after p m = decide_from_panic none before r after p m
