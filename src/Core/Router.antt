-- ===== src/Core/Router.antt =====
-- core/routing/matcher.cpp and core/routing/router.cpp: the first rule whose prefix the path has.
use olwsx.Base.{
  not, ◌&&◌, Bytes, bytes_eq, Option, none, some, List, [], ◌∷◌, starts_with, if◌then◌else◌,
}
use olwsx.Core.{RouteRule, CoreState}

-- `Matcher::match_prefix`; `path.compare(0, n, prefix) == 0` says that `path` starts with `prefix`.
unfoldable pub match_prefix : Bytes → List RouteRule → Option RouteRule
match_prefix path [] = none
match_prefix path (r ∷ rules) =
    if not (bytes_eq r.match_prefix []) && starts_with path r.match_prefix
    then some r
    else match_prefix path rules

-- `Router::set_rules`
abbrev pub set_rules : List RouteRule → CoreState → CoreState
set_rules rules core = record core { rules = rules }
