-- ===== src/Plugins/Guard/Tests.antt =====
-- The test of plugins/filter_example.rs, the theorems on the filter at concrete requests, and a
-- rewrite that makes a traversal.
use olwsx.Base.{Bytes, ◌≡◌, refl, inl, [], ◌∷◌, Map, codes}
use olwsx.Plugins.{Request, short_circuit, mutate, ok, Config}
use olwsx.Plugins.Registry.{Registry, init_each, init_all, filter}
use olwsx.Plugins.StaticJson.{StaticJsonHandler, static_json}
use olwsx.Plugins.Guard.{
  GuardFilter, new, switch, init, traversal_denied, with_path, rewrite, process, guard_filter,
}
use olwsx.Plugins.Guard.Safety.{filter-Denies_traversal}

guard : Unit {0}
unfolding new switch init with_path rewrite process
guard = tt

abbrev request : Bytes → Request
request path = record {
  method = codes "GET";
  path = path;
  headers = [];
  body = [];
  tenant = codes "default";
}

abbrev to_new : Config
to_new = (codes "rewrite_from", codes "/old/") ∷ (codes "rewrite_to", codes "/new/") ∷ []

abbrev to_dot : Config
to_dot = (codes "rewrite_from", codes "/old/") ∷ (codes "rewrite_to", codes "/.") ∷ []

-- The check for a traversal stands before the rewrite that makes one.
traversal_test :
    process (init to_dot new).0 (request (codes "/old/./etc")) ≡ mutate (request (codes "/../etc"))
unfolding guard
traversal_test = refl

abbrev reg : Registry GuardFilter StaticJsonHandler
reg = record { filters = (codes "pre", new) ∷ []; handlers = [] }

abbrev cfgs : Map Config
cfgs = (codes "pre", to_new) ∷ []

init_test : (init_all guard_filter static_json cfgs reg).1 ≡ ok
unfolding guard init_each init_all
init_test = refl

filter-Denies_traversal_example :
    filter guard_filter static_json
      (codes "pre")
      (request (codes "/../../etc/passwd"))
      (init_all guard_filter static_json cfgs reg).0
    ≡ short_circuit traversal_denied
filter-Denies_traversal_example =
    filter-Denies_traversal static_json reg cfgs (codes "pre") new
      (request (codes "/../../etc/passwd")) refl init_test (inl refl)
      (codes "/", codes "../etc/passwd", refl)

rewrite_test :
    process (init to_new new).0 (request (codes "/old/page")) ≡ mutate (request (codes "/new/page"))
unfolding guard
rewrite_test = refl
