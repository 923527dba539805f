-- ===== src/Waf/Rules.antt =====
-- `default_rules` of security/waf.rs.
mod Safety
mod Denied
mod Example
mod Tests
use olwsx.Base.{ℕ, List, [], ◌∷◌, codes}
use olwsx.Waf.{
  deny, challenge, allow, path, user_agent, header, body, contains, prefix, regex, Rule,
}

abbrev pub rule_traversal : Rule
rule_traversal = record {
  id = 1;
  field = path;
  matcher = contains (codes "../");
  action = deny 403;
  tags = codes "traversal" ∷ [];
  severity = 8;
}

abbrev pub rule_sqlmap : Rule
rule_sqlmap = record {
  id = 2;
  field = user_agent;
  matcher = contains (codes "sqlmap");
  action = deny 403;
  tags = codes "sql_injection_bot" ∷ [];
  severity = 7;
}

abbrev pub rule_proxy : Rule
rule_proxy = record {
  id = 3;
  field = header (codes "X-Forwarded-For");
  matcher = regex (codes "bad-proxy");
  action = challenge 429;
  tags = codes "proxy_abuse" ∷ [];
  severity = 5;
}

abbrev pub rule_union : Rule
rule_union = record {
  id = 4;
  field = body;
  matcher = contains (codes "UNION SELECT");
  action = deny 403;
  tags = codes "sql_injection" ∷ [];
  severity = 9;
}

abbrev pub rule_well_known : Rule
rule_well_known = record {
  id = 5;
  field = path;
  matcher = prefix (codes "/.well-known/");
  action = allow;
  tags = codes "safe_allowlist" ∷ [];
  severity = 1;
}

pub default_rules : List Rule
default_rules = rule_traversal ∷ rule_sqlmap ∷ rule_proxy ∷ rule_union ∷ rule_well_known ∷ []
