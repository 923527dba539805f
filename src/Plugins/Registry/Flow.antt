-- ===== src/Plugins/Registry/Flow.antt =====
-- The test of plugins/sdk.rs, with its two plugins. A test is a function into Bool: it gives true when
-- the code comes to its end, and false when an `unwrap` or an assertion panics.
use olwsx.Base.{Bool, true, false, ◌&&◌, Option, none, some, [], ◌≡◌, refl, codes, bytes_eq, ◌==◌}
use olwsx.Plugins.{
  Request, new_response, add_header, set_body, FilterVerdict, continue, short_circuit, mutate,
  HandlerResult, Outcome, ok, err, FilterPlugin, HandlerPlugin,
}
use olwsx.Plugins.Registry.{
  Registry, init_each, new, register_filter, register_handler, init_all, filter, handle,
  teardown_all,
}

data NopFilter : Type 0 where
  nop_filter : NopFilter

data EchoHandler : Type 0 where
  echo_handler : EchoHandler

-- `impl FilterPlugin for NopFilter`; `teardown` is the one of the trait.
abbrev nop : FilterPlugin NopFilter
nop = record {
  meta = λ p. record {
    name = codes "nop_filter";
    version = codes "1.0.0";
    author = codes "OLWSX";
    flags = 0;
  };
  init = λ cfg p. (p, ok);
  process = λ p req. continue;
  teardown = λ p. p;
}

abbrev echoed : Request → HandlerResult
echoed req =
    let r = add_header (new_response 200) (codes "X-Plugin") (codes "echo_handler") in
    record { resp = set_body r req.body; meta_flags = 1048576 }

-- `impl HandlerPlugin for EchoHandler`
abbrev echo : HandlerPlugin EchoHandler
echo = record {
  meta = λ p. record {
    name = codes "echo_handler";
    version = codes "1.0.0";
    author = codes "OLWSX";
    flags = 1048576;
  };
  init = λ cfg p. (p, ok);
  handle = λ p req. echoed req;
  teardown = λ p. p;
}

-- `unwrap` on a `Result<(), String>`
abbrev unwraps : Outcome → Bool
unwraps ok = true
unwraps (err e) = false

abbrev continues : FilterVerdict → Bool
continues continue = true
continues (short_circuit r) = false
continues (mutate req) = false

-- The two `assert_eq!` on the handler's answer.
abbrev says_hi : Option HandlerResult → Bool
says_hi none = false
says_hi (some out) = out.resp.status == 200 && bytes_eq out.resp.body (codes "hi")

abbrev req : Request
req = record {
  method = codes "GET";
  path = codes "/hello";
  headers = [];
  body = codes "hi";
  tenant = codes "default";
}

-- The test ends with the registry that `teardown_all` leaves.
unfoldable registry_flow : Registry NopFilter EchoHandler × Bool
registry_flow =
    let (reg, filter_res) = register_filter (codes "pre_nop") nop_filter new in
    let (reg, handler_res) = register_handler (codes "echo") echo_handler reg in
    let (reg, init_res) = init_all nop echo [] reg in
    let verdict = filter nop echo (codes "pre_nop") req reg in
    let out = handle nop echo (codes "echo") req reg in
    (
      teardown_all nop echo reg,
      unwraps filter_res
          && unwraps handler_res
          && unwraps init_res
          && continues verdict
          && says_hi out,
    )

registry_flow_lem : registry_flow.1 ≡ true
unfolding registry_flow register_filter new register_handler init_all init_each filter handle
    set_body add_header new_response
registry_flow_lem = refl
