-- ===== src/Waf/Rules/Tests.antt =====
-- The request of the test in security/waf.rs and one that panics, as instances of the theorems.
use olwsx.Base.{
  ◌≡◌, ◌↔◌, ◌⊎◌, refl, true, false, Bytes, [], ◌∷◌, ◌++◌, codes, arith, to_ascii_lowercase, lower,
}
use olwsx.Waf.{
  RequestView, panic, matches, match_field, match_str, contains_ci, match_bytes, find_subslice_ci,
  find_from, eq_ci_bytes, zip_all_ci,
}
use olwsx.Waf.Ascii.{IsAscii, IsPlain}
use olwsx.Waf.Engine.{new_engine, decide}
use olwsx.Waf.Engine.Choice.{hits}
use olwsx.Waf.Rules.{rule_traversal, rule_sqlmap, rule_union, default_rules}
use olwsx.Waf.Engine.Deny.{is_denied}
use olwsx.Waf.Matching.{Contains}
use olwsx.Waf.Rules.Safety
use olwsx.Waf.Rules.Denied.{default_denies_iff}

abbrev ascii_only : Bytes → Bytes
ascii_only = to_ascii_lowercase

on_ascii : (s : Bytes) → IsAscii s → ascii_only s ≡ to_ascii_lowercase s
on_ascii s a = refl

abbrev attack : RequestView
attack = record {
  path = codes "/../../etc/passwd";
  user_agent = codes "curl/7.79.1";
  headers = (codes "X-Forwarded-For", codes "bad-proxy") ∷ [];
  body = codes "GET /?q=UNION SELECT id FROM users";
  ip = codes "203.0.113.10";
}

attack-IsPlain : IsPlain attack
attack-IsPlain = record {
  path_ascii = omega arith;
  user_agent_ascii = omega arith;
  headers_ascii = omega arith;
  ip_ascii = omega arith;
}

-- Twelve ASCII bytes, then `é`: the thirteenth byte is the first half of a character.
abbrev accented : RequestView
accented = record {
  path = codes "/wiki/Pokemo" ++ 0xc3 ∷ 0xa9 ∷ [];
  user_agent = codes "curl/7.79.1";
  headers = [];
  body = [];
  ip = codes "203.0.113.10";
}

misses :
    (hits ascii_only accented rule_traversal ≡ false)
    × (hits ascii_only accented rule_sqlmap ≡ false)
    × (hits ascii_only accented rule_union ≡ false)
unfolding matches match_field match_str contains_ci match_bytes find_subslice_ci find_from
    eq_ci_bytes zip_all_ci lower
misses = (refl, refl, refl)

default_panics_example : decide ascii_only 5 accented (new_engine default_rules) ≡ panic
default_panics_example =
    Safety.default_panics ascii_only 5 accented 0xa9 misses.0 misses.1 misses.2 refl (omega arith)
      (omega arith)

default_denies_iff_example :
    (is_denied (decide ascii_only 5 attack (new_engine default_rules)) ≡ true) ↔ (
      Contains attack.path (codes "../")
      ⊎ (Contains attack.user_agent (codes "sqlmap") ⊎ Contains attack.body (codes "UNION SELECT")))
default_denies_iff_example = default_denies_iff ascii_only 5 attack on_ascii attack-IsPlain
