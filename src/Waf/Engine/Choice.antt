-- ===== src/Waf/Engine/Choice.antt =====
-- Which rule `decide` of security/waf.rs applies, described without its loop.
use olwsx.Base.{
  ℕ, ◌≡◌, ◌≢◌, refl, sym, ap, ◌∙◌, Option-cases, inl, inr, Bool, true, false, ◌&&◌, Bytes, Option,
  none, some, List, [], ◌∷◌, arith, All, if◌then◌else◌,
}
use olwsx.Waf.{
  Action, deny, challenge, log_only, allow, Rule, RequestView, Run, ret, panic, matches,
  describe_match,
}
use olwsx.Waf.Engine.{
  Decision, explicit_allow, conclude, keep_first, on_action, on_match, decide_from, new_engine,
  decide,
}

-- Deny and allow end the evaluation.
abbrev pub ends : Action → Bool
ends (deny _) = true
ends (challenge _) = false
ends log_only = false
ends allow = true

abbrev pub challenges : Action → Bool
challenges (challenge _) = true
challenges (deny _) = false
challenges log_only = false
challenges allow = false

abbrev pub logs : Action → Bool
logs log_only = true
logs (deny _) = false
logs (challenge _) = false
logs allow = false

abbrev pub or_else {ℓ} : {A : Type ℓ} → Option A → Option A → Option A
or_else none b = b
or_else (some a) b = some a

module _ (p : Rule → Bool) where
  abbrev pub first : List Rule → Option Rule
  first [] = none
  first (r ∷ rules) = if p r then some r else first rules

  abbrev pub last : List Rule → Option Rule
  last [] = none
  last (r ∷ rules) = or_else (last rules) (if p r then some r else none)

-- The first matching rule that denies or allows; else the last one that challenges; else the first
-- one that logs.
abbrev pub chosen : (Rule → Bool) → List Rule → Option Rule
chosen hit rules = or_else (first (λ r. hit r && ends r.action) rules) (
    or_else (last (λ r. hit r && challenges r.action) rules)
      (first (λ r. hit r && logs r.action) rules))

abbrev pub verdict_on : ℕ → Rule → Action → Decision
verdict_on now r allow = explicit_allow now r
verdict_on now r (deny _) = conclude now (some (r, describe_match r))
verdict_on now r (challenge _) = conclude now (some (r, describe_match r))
verdict_on now r log_only = conclude now (some (r, describe_match r))

-- The decision that reports a rule.
abbrev pub verdict : ℕ → Option Rule → Decision
verdict now none = conclude now none
verdict now (some r) = verdict_on now r r.action

pub verdict_denies :
    (now : ℕ) (r : Rule) (status : ℕ)
    → r.action ≡ deny status
    → (verdict now (some r)).action ≡ deny status
unfolding conclude
verdict_denies now r status e = ground arith

abbrev pub returned : Run Bool → Bool
returned (ret b) = b
returned panic = false

abbrev pub hits : (Bytes → Bytes) → RequestView → Rule → Bool
hits to_lowercase req r = returned (matches to_lowercase req r)

module _ (to_lowercase : Bytes → Bytes) (now : ℕ) (req : RequestView) where
  abbrev hit : Rule → Bool
  hit r = hits to_lowercase req r

  -- The loop with a candidate `c`.
  outcome : Option (Rule × Bytes) → List Rule → Decision
  outcome c rules = elim (first (λ r. hit r && ends r.action) rules) [
    | some r ↦ verdict_on now r r.action
    | none ↦ elim (last (λ r. hit r && challenges r.action) rules) [
      | some r ↦ conclude now (some (r, describe_match r))
      | none ↦ elim c [
        | some x ↦ conclude now (some x)
        | none ↦ elim (first (λ r. hit r && logs r.action) rules) [
          | some r ↦ conclude now (some (r, describe_match r))
          | none ↦ conclude now none
        ]
      ]
    ]
  ]

  decide_from-outcome :
      (c : Option (Rule × Bytes)) (rules : List Rule)
      → All (λ r. matches to_lowercase req r ≢ panic) rules
      → decide_from to_lowercase now req c rules ≡ ret (outcome c rules)
  unfolding decide_from outcome on_match on_action keep_first
  decide_from-outcome none [] a = refl
  decide_from-outcome (some x) [] a = refl
  decide_from-outcome none (r ∷ rules) a =
      let new : Rule × Bytes = (r, describe_match r) in
      ground
        (arith, a.0, decide_from-outcome none rules a.1, decide_from-outcome (some new) rules a.1)
  decide_from-outcome (some x) (r ∷ rules) a =
      let new : Rule × Bytes = (r, describe_match r) in
      ground (
        arith,
        a.0,
        decide_from-outcome (some x) rules a.1,
        decide_from-outcome (some new) rules a.1,
      )

  -- The rule that is found challenges, or logs.
  pub last-challenges :
      (rules : List Rule) (r : Rule)
      → last (λ r'. hit r' && challenges r'.action) rules ≡ some r
      → challenges r.action ≡ true
  last-challenges [] r h = cc
  last-challenges (x ∷ rules) r h = ground (arith, last-challenges rules r)

  pub first_logs :
      (rules : List Rule) (r : Rule)
      → first (λ r'. hit r' && logs r'.action) rules ≡ some r
      → logs r.action ≡ true
  first_logs [] r h = cc
  first_logs (x ∷ rules) r h = ground (arith, first_logs rules r)

  verdict_of_challenge :
      (r : Rule)
      → challenges r.action ≡ true
      → verdict_on now r r.action ≡ conclude now (some (r, describe_match r))
  verdict_of_challenge r h = ground arith

  verdict_of_log :
      (r : Rule)
      → logs r.action ≡ true
      → verdict_on now r r.action ≡ conclude now (some (r, describe_match r))
  verdict_of_log r h = ground arith

  outcome-verdict :
      (rules : List Rule) → outcome none rules ≡ verdict now (chosen (hits to_lowercase req) rules)
  unfolding outcome
  outcome-verdict rules = elim (Option-cases (first (λ r. hit r && ends r.action) rules)) [
    | inr (r, e) ↦ rw (e, outcome)
    | inl e ↦ elim (Option-cases (last (λ r. hit r && challenges r.action) rules)) [
      | inr (r, f) ↦ rw (e, f, outcome) (sym (verdict_of_challenge r (last-challenges rules r f)))
      | inl f ↦ elim (Option-cases (first (λ r. hit r && logs r.action) rules)) [
        | inr (r, g) ↦ rw (e, f, g, outcome) (sym (verdict_of_log r (first_logs rules r g)))
        | inl g ↦ rw (e, f, g, outcome)
      ]
    ]
  ]

  -- If no rule's match panics, `decide` returns, and the decision reports the first matching rule that
  -- denies or allows; if there is none, the last matching rule that challenges; if there is none, the
  -- first matching rule that logs; and if there is none, that no rule matched.
  pub decide_lem :
      (rules : List Rule)
      → All (λ r. matches to_lowercase req r ≢ panic) rules
      → decide to_lowercase now req (new_engine rules)
        ≡ ret (verdict now (chosen (hits to_lowercase req) rules))
  unfolding decide
  decide_lem rules a = decide_from-outcome none rules a ∙ ap ret (outcome-verdict rules)
