-- ===== src/Plugins/Registry/Tests.antt =====
-- The theorems on `Registry` of plugins/sdk.rs with the two example plugins, and the state that an
-- error of `init_all` leaves in two orders of the same handlers.
use olwsx.Base.{Bytes, ◌≡◌, refl, [], ◌∷◌, Option, none, some, Map, get, codes}
use olwsx.Plugins.{Request, ok, err, Config}
use olwsx.Plugins.Guard as Guard
use olwsx.Plugins.Guard.{GuardFilter, guard_filter}
use olwsx.Plugins.StaticJson as StaticJson
use olwsx.Plugins.StaticJson.{StaticJsonHandler, static_json}
use olwsx.Plugins.Registry.{Registry, init_each, init_all}
use olwsx.Plugins.Registry.Init.{InitEnds, init_all_ends}

registry : Unit {0}
unfolding init_each init_all Guard.init StaticJson.new StaticJson.parse_digits StaticJson.parse_u16
    StaticJson.set_route StaticJson.set_status StaticJson.init_status StaticJson.init
registry = tt

abbrev hello : Request
hello = record {
  method = codes "GET";
  path = codes "/hello";
  headers = [];
  body = [];
  tenant = codes "default";
}

abbrev two_guards : Map GuardFilter
two_guards = (codes "pre", Guard.new) ∷ (codes "post", Guard.new) ∷ (codes "pre", Guard.new) ∷ []

abbrev two_handlers : Map StaticJsonHandler
two_handlers = (codes "a", StaticJson.new) ∷ (codes "b", StaticJson.new) ∷ []

abbrev handlers_turned : Map StaticJsonHandler
handlers_turned = (codes "b", StaticJson.new) ∷ (codes "a", StaticJson.new) ∷ []

abbrev reg : Registry GuardFilter StaticJsonHandler
reg = record { filters = (codes "pre", Guard.new) ∷ []; handlers = two_handlers }

abbrev reg_turned : Registry GuardFilter StaticJsonHandler
reg_turned = record { filters = (codes "pre", Guard.new) ∷ []; handlers = handlers_turned }

-- `b` has no valid status.
abbrev bad_cfgs : Map Config
bad_cfgs =
    (codes "a", (codes "route", codes "/a") ∷ [])
    ∷ (codes "b", (codes "status", codes "70000") ∷ [])
    ∷ []

abbrev good_cfgs : Map Config
good_cfgs = (codes "a", (codes "route", codes "/a") ∷ (codes "status", codes "+204") ∷ []) ∷ []

bad_test : (init_all guard_filter static_json bad_cfgs reg).1 ≡ err (codes "invalid status")
unfolding registry
bad_test = refl

route_of : Option StaticJsonHandler → Bytes
route_of none = []
route_of (some h) = h.route

-- The other handler is initialised in one order only.
order_test :
    (route_of (get (codes "a") (init_all guard_filter static_json bad_cfgs reg).0.handlers)
      ≡ codes "/a")
    × (route_of (get (codes "a") (init_all guard_filter static_json bad_cfgs reg_turned).0.handlers)
        ≡ codes "/__health")
unfolding registry route_of
order_test = (refl, refl)

init_all_ends_example :
    InitEnds guard_filter static_json bad_cfgs reg
      (init_all guard_filter static_json bad_cfgs reg).0
      (init_all guard_filter static_json bad_cfgs reg).1
init_all_ends_example = init_all_ends guard_filter static_json bad_cfgs reg

good_test : (init_all guard_filter static_json good_cfgs reg).1 ≡ ok
unfolding registry
good_test = refl
