-- ===== src/Plugins/StaticJson/Answers.antt =====
-- What the static JSON handler of plugins/handler_example.rs answers, once it is initialised.
use olwsx.Base.{
  ℕ, ◌<◌, true, false, Bytes, ◌≡◌, ◌≢◌, refl, ◌∙◌, ap, [], ◌∷◌, ◌++◌, some, Map, get, codes,
  bytes_eq, bytes_eq_iff, starts_with, starts_with-append, arith, Option-cases, inl, inr,
}
use olwsx.Plugins.{
  Request, HandlerResult, ok, err, Config, FilterPlugin, new_response, add_header, set_body,
}
use olwsx.Plugins.Registry.{Registry, cfg_for, init_all, handle}
use olwsx.Plugins.Registry.Init.{init_all_ends, init_all_initialises}
use olwsx.Plugins.Registry.Lifecycle.{get-initialised}
use olwsx.Plugins.StaticJson.{
  StaticJsonHandler, parse_u16, set_route, set_status, init_status, init, static_json,
}
use olwsx.Plugins.StaticJson as Handler
use olwsx.Plugins.StaticJson.Status.{IsDecimal, parse_u16_iff}

-- The answer on the handler's own route.
abbrev pub static_answer : ℕ → Bytes → HandlerResult
static_answer status content = record {
  resp = record {
    status = status;
    headers =
        (codes "Content-Type", codes "application/json")
        ∷ (codes "Cache-Control", codes "no-store")
        ∷ [];
    body = content;
  };
  meta_flags = 1048576;
}

init_lem :
    (h : StaticJsonHandler) (cfg : Config) (r s : Bytes) (n : ℕ)
    → get (codes "route") cfg ≡ some r
    → get (codes "status") cfg ≡ some s
    → parse_u16 s ≡ some n
    → init cfg h ≡ (set_status n (set_route r h), ok)
unfolding init init_status
init_lem h cfg r s n er es en = ground (arith, er, es, en)

handle_route :
    (h : StaticJsonHandler) (req : Request)
    → req.path ≡ h.route
    → Handler.handle h req ≡ static_answer h.status h.content
unfolding Handler.handle set_body add_header new_response
handle_route h req e =
    let same : bytes_eq req.path h.route ≡ true = (bytes_eq_iff req.path h.route).1 e in
    rw (same, Handler.handle) refl

module _ {F : Type 0} (fs : FilterPlugin F) where
  -- After `init_all` returned `Ok`, a handler that was configured with a route and with the decimal
  -- of a 16-bit status answers a request for that route with that status and its content, under
  -- the key it was registered with.
  pub handle-init_all :
      (reg : Registry F StaticJsonHandler) (cfgs : Map Config) (key r s : Bytes) (n : ℕ)
      (h : StaticJsonHandler) (req : Request)
      → get key reg.handlers ≡ some h
      → (init_all fs static_json cfgs reg).1 ≡ ok
      → get (codes "route") (cfg_for key cfgs) ≡ some r
      → get (codes "status") (cfg_for key cfgs) ≡ some s
      → IsDecimal s n
      → n < 65536
      → req.path ≡ r
      → handle fs static_json key req (init_all fs static_json cfgs reg).0
        ≡ some (static_answer n h.content)
  unfolding handle set_route set_status
  handle-init_all reg cfgs key r s n h req found e er es d small ep =
      let after = (init_all fs static_json cfgs reg).0 in
      let (ef, eh) =
        init_all_initialises fs static_json cfgs reg after _ (init_all_ends fs static_json cfgs reg)
          e in
      let here = get-initialised static_json.init cfgs key reg.handlers in
      let ready = init_lem h (cfg_for key cfgs) r s n er es ((parse_u16_iff s n).1 (d, small)) in
      let answered = handle_route (set_status n (set_route r h)) req ep in
      rw (handle, eh, here, found) (ap some (ap (λ x. Handler.handle x.0 req) ready ∙ answered))

-- Where a route and a status are configured and the status is no decimal of a 16-bit number,
-- `init` fails, and the handler has the configured route all the same.
pub init_fails :
    (h : StaticJsonHandler) (cfg : Config) (r s : Bytes)
    → get (codes "route") cfg ≡ some r
    → get (codes "status") cfg ≡ some s
    → ((n : ℕ) → IsDecimal s n → ¬ (n < 65536))
    → init cfg h ≡ (set_route r h, err (codes "invalid status"))
unfolding init init_status
init_fails h cfg r s er es bad = elim (Option-cases (parse_u16 s)) [
  | inl unread ↦ ground (arith, er, es, unread)
  | inr (n, read) ↦ let (d, small) = (parse_u16_iff s n).0 read in absurd (bad n d small)
]

-- A POST to a path that starts with "/echo" is answered with its own body, unless that path is the
-- handler's route.
handle_echoes :
    (h : StaticJsonHandler) (req : Request) (rest : Bytes)
    → req.path ≡ codes "/echo" ++ rest
    → req.method ≡ codes "POST"
    → req.path ≢ h.route
    → ((Handler.handle h req).resp.status ≡ 200) × ((Handler.handle h req).resp.body ≡ req.body)
unfolding Handler.handle set_body add_header new_response
handle_echoes h req rest ep em other =
    let start : starts_with req.path (codes "/echo") ≡ true =
      rw ep (starts_with-append (codes "/echo") rest) in
    let post : bytes_eq req.method (codes "POST") ≡ true =
      (bytes_eq_iff req.method (codes "POST")).1 em in
    let elsewhere : bytes_eq req.path h.route ≡ false =
      ground (arith, bytes_eq_iff req.path h.route) in
    rw (elsewhere, start, post, Handler.handle) (refl, refl)
