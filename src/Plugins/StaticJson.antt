-- ===== src/Plugins/StaticJson.antt =====
-- plugins/handler_example.rs: the static JSON, health and echo handler.
mod Status
mod Answers
mod Example
mod Tests
use olwsx.Base.{
  ℕ, ◌+◌, ◌-◌, ◌*◌, ◌&&◌, Bytes, List, [], ◌∷◌, Option, none, some, get, codes, bytes_eq,
  starts_with, leb, ltb, ◌==◌, if◌then◌else◌,
}
use olwsx.Plugins.{
  Request, Response, new_response, add_header, set_body, HandlerResult, PluginMeta, Outcome, ok,
  err, Config, HandlerPlugin,
}

pub record StaticJsonHandler : Type 0 where
  pub meta : PluginMeta
  pub route : Bytes
  pub content : Bytes
  pub status : ℕ

unfoldable pub new : StaticJsonHandler
new = record {
  meta = record {
    name = codes "static_json";
    version = codes "1.0.0";
    author = codes "OverLab";
    flags = 1048576;
  };
  route = codes "/__health";
  content = codes "{\"status\":\"ok\",\"server\":\"OLWSX\"}";
  status = 200;
}

-- The digits of `str::parse::<u16>`, with its check for overflow at each.
unfoldable pub parse_digits : ℕ → Bytes → Option ℕ
parse_digits acc [] = some acc
parse_digits acc (b ∷ s) =
    let v = acc * 10 + (b - b'0') in
    let rest = parse_digits v s in if leb b'0' b && leb b b'9' && ltb v 65536 then rest else none

-- `str::parse::<u16>`: a sign `+` may stand before at least one digit.
unfoldable pub parse_u16 : Bytes → Option ℕ
parse_u16 [] = none
parse_u16 (b ∷ []) = parse_digits 0 (b ∷ [])
parse_u16 (b ∷ c ∷ s) = if b == b'+' then parse_digits 0 (c ∷ s) else parse_digits 0 (b ∷ c ∷ s)

unfoldable pub set_route : Bytes → StaticJsonHandler → StaticJsonHandler
set_route route h = record { meta = h.meta; route = route; content = h.content; status = h.status }

unfoldable pub set_status : ℕ → StaticJsonHandler → StaticJsonHandler
set_status status h = record {
  meta = h.meta;
  route = h.route;
  content = h.content;
  status = status;
}

unfoldable pub init_status : Option Bytes → StaticJsonHandler → StaticJsonHandler × Outcome
init_status none h = (h, ok)
init_status (some s) h = elim (parse_u16 s) [
  | none ↦ (h, err (codes "invalid status"))
  | some n ↦ (set_status n h, ok)
]

unfoldable pub init : Config → StaticJsonHandler → StaticJsonHandler × Outcome
init cfg h =
    init_status (get (codes "status") cfg)
      (elim (get (codes "route") cfg) [ none ↦ h | some r ↦ set_route r h ])

pub handle : StaticJsonHandler → Request → HandlerResult
handle h req =
    if bytes_eq req.path h.route
    then (let resp =
          add_header (new_response h.status) (codes "Content-Type") (codes "application/json") in
        let resp = add_header resp (codes "Cache-Control") (codes "no-store") in
        record { resp = set_body resp h.content; meta_flags = 1048576 })
    else if starts_with req.path (codes "/echo") && bytes_eq req.method (codes "POST")
    then (let resp =
          add_header (new_response 200) (codes "Content-Type") (codes "application/octet-stream") in
        record { resp = set_body resp req.body; meta_flags = 65536 })
    else (let resp = add_header (new_response 404) (codes "Content-Type") (codes "text/plain") in
        record { resp = set_body resp (codes "not found"); meta_flags = 0 })

abbrev pub static_json : HandlerPlugin StaticJsonHandler
static_json = record { meta = λ h. h.meta; init = init; handle = handle; teardown = λ h. h }
