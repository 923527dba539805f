-- ===== src/Waf/Engine.antt =====
-- `Engine::decide` of security/waf.rs. `now_ms()` is the argument `now`.
pub mod Choice
pub mod Order
pub mod Deny
mod Tests
use olwsx.Base.{
  ℕ, Bool, true, false, Bytes, codes, Option, none, some, List, [], ◌∷◌, if◌then◌else◌,
}
use olwsx.Waf.{
  Action, deny, challenge, log_only, allow, Rule, RequestView, Run, ret, panic, ◌>>=◌, matches,
  describe_match,
}

pub record Decision : Type 0 where
  pub ts_ms : ℕ
  pub applied_rule_id : Option ℕ
  pub action : Action
  pub reason : Bytes
  pub tags : List Bytes
  pub severity : ℕ

unfoldable pub explicit_allow : ℕ → Rule → Decision
explicit_allow now r = record {
  ts_ms = now;
  applied_rule_id = some r.id;
  action = allow;
  reason = codes "explicit allow";
  tags = r.tags;
  severity = r.severity;
}

-- What follows the loop.
unfoldable pub conclude : ℕ → Option (Rule × Bytes) → Decision
conclude now none = record {
  ts_ms = now;
  applied_rule_id = none;
  action = allow;
  reason = codes "no rule matched";
  tags = [];
  severity = 0;
}
conclude now (some (r, why)) = record {
  ts_ms = now;
  applied_rule_id = some r.id;
  action = r.action;
  reason = why;
  tags = r.tags;
  severity = r.severity;
}

-- The loop goes on with a candidate, or it ends with a decision.
pub data Round : Type 0 where
  go_on : Option (Rule × Bytes) → Round
  stop : Decision → Round

keep_first : Option (Rule × Bytes) → Rule × Bytes → Option (Rule × Bytes)
keep_first none new = some new
keep_first (some old) new = some old

on_action : ℕ → Rule → Option (Rule × Bytes) → Action → Round
on_action now r candidate (deny _) = stop (conclude now (some (r, describe_match r)))
on_action now r candidate (challenge _) = go_on (some (r, describe_match r))
on_action now r candidate log_only = go_on (keep_first candidate (r, describe_match r))
on_action now r candidate allow = stop (explicit_allow now r)

-- The body of the loop, for a rule that matches.
pub on_match : ℕ → Rule → Option (Rule × Bytes) → Round
on_match now r candidate = on_action now r candidate r.action

pub record Engine : Type 0 where
  pub rules : List Rule

-- `Engine::new`
abbrev pub new_engine : List Rule → Engine
new_engine rules = record { rules = rules }

module _ (to_lowercase : Bytes → Bytes) (now : ℕ) (req : RequestView) where
  pub decide_from : Option (Rule × Bytes) → List Rule → Run Decision
  decide_from candidate [] = ret (conclude now candidate)
  decide_from candidate (r ∷ rules) = do
    hit ← matches to_lowercase req r
    elim (if hit then on_match now r candidate else go_on candidate) [
      | go_on candidate' ↦ decide_from candidate' rules
      | stop d ↦ ret d
    ]

  pub decide : Engine → Run Decision
  decide engine = decide_from none engine.rules
