-- ===== src/Waf/Engine/Tests.antt =====
-- Concrete decisions of security/waf.rs, and the theorems on the order of the rules at concrete inputs.
use olwsx.Base.{ℕ, ◌≡◌, refl, Bytes, some, List, [], ◌∷◌, ◌++◌, codes, to_ascii_lowercase, lower}
use olwsx.Waf.{
  Action, deny, challenge, log_only, allow, Field, Matcher, Rule, RequestView, ret, panic, matches,
  match_field, match_str, contains_ci, slice_to, eq_ci, describe_match, describe, short,
}
use olwsx.Waf.Engine.{
  explicit_allow, conclude, on_match, keep_first, on_action, decide_from, new_engine, decide,
}
use olwsx.Waf.Engine.Choice.{verdict, hits, chosen, decide_lem}

engine : Unit {0}
unfolding matches match_field match_str contains_ci slice_to eq_ci describe_match describe short
    lower explicit_allow conclude on_match keep_first on_action decide_from decide
engine = tt

abbrev ascii_only : Bytes → Bytes
ascii_only = to_ascii_lowercase

abbrev on_path : ℕ → Matcher → Action → Rule
on_path id m action = record {
  id = id;
  field = Field.path;
  matcher = m;
  action = action;
  tags = [];
  severity = 3;
}

abbrev request : RequestView
request = record {
  path = codes "/Admin/login";
  user_agent = codes "curl";
  headers = [];
  body = [];
  ip = codes "203.0.113.10";
}

abbrev log_admin : Rule
log_admin = on_path 1 (Matcher.contains (codes "admin")) log_only

abbrev challenge_login : ℕ → Rule
challenge_login id = on_path id (Matcher.contains (codes "login")) (challenge 429)

abbrev allow_admin : Rule
allow_admin = on_path 7 (Matcher.contains (codes "/admin")) allow

abbrev deny_login : Rule
deny_login = on_path 8 (Matcher.contains (codes "login")) (deny 403)

abbrev rules : List Rule
rules = log_admin ∷ challenge_login 2 ∷ challenge_login 3 ∷ []

-- Of two challenges the last is reported, and not the rule that logs.
decide_test :
    decide ascii_only 9 request (new_engine rules)
    ≡ ret (record {
      ts_ms = 9;
      applied_rule_id = some 3;
      action = challenge 429;
      reason = codes "path matched contains(login)";
      tags = [];
      severity = 3;
    })
unfolding engine
decide_test = refl

decide_lem_example :
    decide ascii_only 9 request (new_engine rules)
    ≡ ret (verdict 9 (chosen (hits ascii_only request) rules))
unfolding engine
decide_lem_example = decide_lem ascii_only 9 request rules ((λ h. cc), ((λ h. cc), ((λ h. cc), tt)))

abbrev accented : RequestView
accented = record request { path = codes "/" ++ 0xc3 ∷ 0xa9 ∷ [] }

accented_test :
    decide ascii_only 9 accented
      (new_engine (log_admin ∷ on_path 4 (Matcher.prefix (codes "/a")) allow ∷ []))
    ≡ panic
unfolding engine
accented_test = refl

-- An `Allow` before a `Deny` wins, and over an earlier `Challenge`.
allow_test :
    decide ascii_only 9 request (new_engine (challenge_login 2 ∷ allow_admin ∷ deny_login ∷ []))
    ≡ ret (verdict 9 (some allow_admin))
unfolding engine
allow_test = refl
