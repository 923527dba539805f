-- ===== src/Waf/Rules/Example.antt =====
-- The test of security/waf.rs, as a function into Bool: false when the decision or an assertion panics.
use olwsx.Base.{
  ℕ, Bool, true, false, Bytes, ◌≡◌, refl, [], ◌∷◌, codes, arith, to_ascii_lowercase, ◌==◌, lower,
}
use olwsx.Waf.{Action, deny, challenge, log_only, allow, RequestView, Run, ret, panic}
use olwsx.Waf.Ascii.{IsAscii}
use olwsx.Waf.Engine.{Decision, new_engine, decide, conclude}
use olwsx.Waf.Rules.{default_rules}
use olwsx.Waf.Rules.Safety

abbrev test_request : RequestView
test_request = record {
  path = codes "/../../etc/passwd";
  user_agent = codes "curl/7.79.1";
  headers = (codes "X-Forwarded-For", codes "bad-proxy") ∷ [];
  body = codes "GET /?q=UNION SELECT id FROM users";
  ip = codes "203.0.113.10";
}

abbrev is_forbidden : Action → Bool
is_forbidden (deny code) = code == 403
is_forbidden (challenge code) = false
is_forbidden log_only = false
is_forbidden allow = false

abbrev forbids : Run Decision → Bool
forbids (ret d) = is_forbidden d.action
forbids panic = false

unfoldable test_decide : (Bytes → Bytes) → ℕ → Bool
test_decide to_lowercase now =
    forbids (decide to_lowercase now test_request (new_engine default_rules))

-- The test passes, whatever the mapping does outside ASCII.
test_decide_lem :
    (to_lowercase : Bytes → Bytes) (now : ℕ)
    → ((s : Bytes) → IsAscii s → to_lowercase s ≡ to_ascii_lowercase s)
    → test_decide to_lowercase now ≡ true
unfolding test_decide lower
test_decide_lem to_lowercase now on_ascii =
    rw
      (Safety.default_denies_traversal to_lowercase now test_request on_ascii (omega arith)
        (codes "/", codes "../etc/passwd", refl))
      (unfold conclude in refl)
