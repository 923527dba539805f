-- ===== src/Waf/Rules/Denied.antt =====
-- Exactly which requests the predefined rules of security/waf.rs deny.
use olwsx.Base.{
  ℕ, ◌≡◌, ◌↔◌, ◌⊎◌, refl, ap, Bool, true, false, ◌||◌, Bytes, codes, arith, to_ascii_lowercase, inl,
  inr,
}
use olwsx.Waf.{Rule, RequestView, Run, ret, panic, contains, match_str, matches, match_field}
use olwsx.Waf.Ascii.{IsAscii, IsPlain, match_str_iff}
use olwsx.Waf.Matching.{Contains, match_bytes_iff}
use olwsx.Waf.Engine.{new_engine, decide, conclude, explicit_allow}
use olwsx.Waf.Engine.Choice.{returned, verdict, hits, chosen}
use olwsx.Waf.Engine.Deny.{denies, is_denied}
use olwsx.Waf.Rules.{rule_traversal, rule_sqlmap, rule_union, default_rules}
use olwsx.Waf.Rules.Safety.{default_decides}

-- The rule that allows is the last one, so it never wins over one that denies.
verdict-denies :
    (now : ℕ) (hit : Rule → Bool)
    → denies (verdict now (chosen hit default_rules)).action
      ≡ (hit rule_traversal || (hit rule_sqlmap || hit rule_union))
unfolding default_rules conclude explicit_allow
verdict-denies now hit = ground arith

returned_iff : (r : Run Bool) → (r ≡ ret true) ↔ (returned r ≡ true)
returned_iff (ret b) = (λ e. ap returned e, λ e. ap ret e)
returned_iff panic = (λ e. ap returned e, λ e. absurd (cc))

any_of_three :
    (a b c : Bool) (A B C : Type 0)
    → ((a ≡ true) ↔ A)
    → ((b ≡ true) ↔ B)
    → ((c ≡ true) ↔ C)
    → ((a || (b || c)) ≡ true) ↔ (A ⊎ (B ⊎ C))
any_of_three true b c A B C f g h = (λ e. inl (f.0 refl), λ w. refl)
any_of_three false true c A B C f g h = (λ e. inr (inl (g.0 refl)), λ w. refl)
any_of_three false false true A B C f g h = (λ e. inr (inr (h.0 refl)), λ w. refl)
any_of_three false false false A B C f g h = (
  λ e. absurd (cc),
  λ w. elim w [ inl x ↦ f.1 x | inr y ↦ elim y [ inl x ↦ g.1 x | inr x ↦ h.1 x ] ],
)

module _ (to_lowercase : Bytes → Bytes) (now : ℕ) (req : RequestView)
    (on_ascii : (s : Bytes) → IsAscii s → to_lowercase s ≡ to_ascii_lowercase s) where
  text_iff :
      (hay n : Bytes)
      → IsAscii hay
      → IsAscii n
      → (returned (match_str to_lowercase hay (contains n)) ≡ true) ↔ Contains hay n
  text_iff hay n a p =
      let exact = (match_str_iff to_lowercase on_ascii hay (contains n) a p).1 in
      let run = returned_iff (match_str to_lowercase hay (contains n)) in
      (λ h. exact.0 (run.1 h), λ w. run.0 (exact.1 w))

  -- Where `to_lowercase` is the ASCII mapping on ASCII text, a request whose path, user agent, header
  -- values and address are ASCII is denied by the predefined rules exactly if, without regard to
  -- case, its path contains `../`, its user agent `sqlmap`, or its body `UNION SELECT`.
  pub default_denies_iff :
      IsPlain req
      → (is_denied (decide to_lowercase now req (new_engine default_rules)) ≡ true) ↔ (
          Contains req.path (codes "../")
          ⊎ (Contains req.user_agent (codes "sqlmap") ⊎ Contains req.body (codes "UNION SELECT")))
  unfolding matches match_field
  default_denies_iff a =
      rw
        (
          default_decides to_lowercase now req on_ascii a,
          verdict-denies now (hits to_lowercase req),
        )
        (any_of_three _ _ _ _ _ _ (text_iff req.path (codes "../") a.path_ascii (omega arith))
          (text_iff req.user_agent (codes "sqlmap") a.user_agent_ascii (omega arith))
          (match_bytes_iff req.body (contains (codes "UNION SELECT"))))
