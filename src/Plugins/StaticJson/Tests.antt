-- ===== src/Plugins/StaticJson/Tests.antt =====
-- The test of plugins/handler_example.rs, and the theorems on the handler at concrete requests.
use olwsx.Base.{ℕ, ◌<◌, Bytes, ◌≡◌, refl, inl, inr, [], ◌∷◌, none, Map, codes}
use olwsx.Plugins.{Request, new_response, add_header, set_body, ok, Config}
use olwsx.Plugins.Guard.{GuardFilter, guard_filter}
use olwsx.Plugins.Registry.{Registry, init_each, init_all}
use olwsx.Plugins.StaticJson as Handler
use olwsx.Plugins.StaticJson.{
  StaticJsonHandler, parse_digits, parse_u16, set_route, set_status, init_status, init, static_json,
}
use olwsx.Plugins.StaticJson.Status.{IsDecimal}
use olwsx.Plugins.StaticJson.Answers.{static_answer}

abbrev request : Bytes → Bytes → Bytes → Request
request method path body = record {
  method = method;
  path = path;
  headers = [];
  body = body;
  tenant = codes "default";
}

health_test :
    Handler.handle Handler.new (request (codes "GET") (codes "/__health") [])
    ≡ static_answer 200 (codes "{\"status\":\"ok\",\"server\":\"OLWSX\"}")
unfolding Handler.handle Handler.new new_response add_header set_body
health_test = refl

plus_204 : IsDecimal (codes "+204") 204
plus_204 = record {
  first = b'2';
  others = codes "04";
  decimal_text = inr refl;
  decimal_digits = refl;
  decimal_value = refl;
}

parse_test : parse_u16 (codes "65536") ≡ none
unfolding parse_u16 parse_digits
parse_test = refl

abbrev reg : Registry GuardFilter StaticJsonHandler
reg = record { filters = []; handlers = (codes "static", Handler.new) ∷ [] }

abbrev cfgs : Map Config
cfgs = (codes "static", (codes "route", codes "/gone") ∷ (codes "status", codes "+204") ∷ []) ∷ []

init_test : (init_all guard_filter static_json cfgs reg).1 ≡ ok
unfolding init_each init_all init init_status parse_u16 parse_digits
init_test = refl

no_number : (n : ℕ) → IsDecimal [] n → ¬ (n < 65536)
no_number n d small = elim d.decimal_text [ inl e ↦ absurd cc | inr e ↦ absurd cc ]
