-- ===== src/Waf/Engine/Deny.antt =====
-- When `decide` of security/waf.rs denies a request.
use olwsx.Base.{
  ℕ, ◌≡◌, ◌≢◌, ◌↔◌, refl, ◌∙◌, Option-cases, inl, inr, Bool, true, false, ◌&&◌, ◌||◌, Bytes, none,
  some, List, [], ◌∷◌, arith, All,
}
use olwsx.Waf.{
  Action, deny, challenge, log_only, allow, Rule, RequestView, Run, ret, panic, matches,
}
use olwsx.Waf.Engine.{Decision, explicit_allow, conclude, new_engine, decide}
use olwsx.Waf.Engine.Choice.{
  ends, challenges, logs, first, last, chosen, verdict, verdict_on, hits, last-challenges,
  first_logs, decide_lem,
}

abbrev pub denies : Action → Bool
denies (deny _) = true
denies (challenge _) = false
denies log_only = false
denies allow = false

abbrev pub allows : Action → Bool
allows allow = true
allows (deny _) = false
allows (challenge _) = false
allows log_only = false

abbrev pub any : (Rule → Bool) → List Rule → Bool
any p [] = false
any p (r ∷ rules) = p r || any p rules

abbrev pub is_denied : Run Decision → Bool
is_denied (ret d) = denies d.action
is_denied panic = false

module _ (hit : Rule → Bool) where
  first_ends :
      (rules : List Rule) (r : Rule)
      → any (λ r'. hit r' && allows r'.action) rules ≡ false
      → first (λ r'. hit r' && ends r'.action) rules ≡ some r
      → (denies r.action ≡ true) × (any (λ r'. hit r' && denies r'.action) rules ≡ true)
  first_ends [] r a h = absurd (cc)
  first_ends (x ∷ rules) r a h = ground (arith, first_ends rules r)

  none_ends :
      (rules : List Rule)
      → first (λ r'. hit r' && ends r'.action) rules ≡ none
      → any (λ r'. hit r' && denies r'.action) rules ≡ false
  none_ends [] h = refl
  none_ends (x ∷ rules) h = ground (arith, none_ends rules)

verdict_on-denies :
    (now : ℕ) (r : Rule) → denies (verdict_on now r r.action).action ≡ denies r.action
unfolding conclude explicit_allow
verdict_on-denies now r = ground arith

challenges-denies : (x : Action) → challenges x ≡ true → denies x ≡ false
challenges-denies x h = ground arith

logs-denies : (x : Action) → logs x ≡ true → denies x ≡ false
logs-denies x h = ground arith

module _ (to_lowercase : Bytes → Bytes) (now : ℕ) (req : RequestView) where
  chosen-denies :
      (rules : List Rule)
      → any (λ r. hits to_lowercase req r && allows r.action) rules ≡ false
      → denies (verdict now (chosen (hits to_lowercase req) rules)).action
        ≡ any (λ r. hits to_lowercase req r && denies r.action) rules
  unfolding conclude
  chosen-denies rules a =
      elim (Option-cases (first (λ r. hits to_lowercase req r && ends r.action) rules)) [
        | inr (r, e) ↦
            let (d, some_deny) = first_ends (hits to_lowercase req) rules r a e in
            rw (e, some_deny) (verdict_on-denies now r ∙ d)
        | inl e ↦
            let no_deny = none_ends (hits to_lowercase req) rules e in
            elim (Option-cases (last (λ r. hits to_lowercase req r && challenges r.action) rules)) [
              | inr (r, f) ↦
                  rw (e, f, no_deny)
                    (verdict_on-denies now r
                      ∙ challenges-denies r.action (last-challenges to_lowercase now req rules r f))
              | inl f ↦
                  elim (Option-cases
                    (first (λ r. hits to_lowercase req r && logs r.action) rules)) [
                      | inr (r, g) ↦
                          rw (e, f, g, no_deny)
                            (verdict_on-denies now r
                              ∙ logs-denies r.action (first_logs to_lowercase now req rules r g))
                      | inl g ↦ rw (e, f, g, no_deny)
                    ]
            ]
      ]

  -- Where no match panics and no rule that allows matches, the decision denies exactly if some rule
  -- that denies matches, wherever it stands.
  pub decide-denies_iff :
      (rules : List Rule)
      → All (λ r. matches to_lowercase req r ≢ panic) rules
      → any (λ r. hits to_lowercase req r && allows r.action) rules ≡ false
      → (is_denied (decide to_lowercase now req (new_engine rules)) ≡ true)
        ↔ (any (λ r. hits to_lowercase req r && denies r.action) rules ≡ true)
  decide-denies_iff rules a no_allow =
      rw (decide_lem to_lowercase now req rules a, chosen-denies rules no_allow) (λ h. h, λ h. h)
