-- ===== src/Plugins/Guard.antt =====
-- plugins/filter_example.rs: the guard filter.
mod Paths
mod Safety
mod Example
mod Tests
use olwsx.Base.{
  ℕ, Bool, true, ◌&&◌, Bytes, List, [], ◌∷◌, ◌++◌, Option, none, some, get, codes, bytes_eq, length,
  drop, starts_with, contains, if◌then◌else◌,
}
use olwsx.Plugins.{
  Request, Response, new_response, add_header, FilterVerdict, continue, short_circuit, mutate,
  PluginMeta, Outcome, ok, Config, FilterPlugin,
}

pub record GuardFilter : Type 0 where
  pub meta : PluginMeta
  pub deny_traversal : Bool
  pub add_server_header : Bool
  pub rewrite_prefix_from : Option Bytes
  pub rewrite_prefix_to : Option Bytes

pub new : GuardFilter
new = record {
  meta = record {
    name = codes "guard_filter";
    version = codes "1.0.0";
    author = codes "OverLab";
    flags = 1048576;
  };
  deny_traversal = true;
  add_server_header = true;
  rewrite_prefix_from = none;
  rewrite_prefix_to = none;
}

-- `cfg.get(key).map(|v| v == "true").unwrap_or(true)`
pub switch : Bytes → Config → Bool
switch key cfg = elim (get key cfg) [ none ↦ true | some v ↦ bytes_eq v (codes "true") ]

unfoldable pub init : Config → GuardFilter → GuardFilter × Outcome
init cfg f = (
  record {
    meta = f.meta;
    deny_traversal = switch (codes "deny_traversal") cfg;
    add_server_header = switch (codes "add_server_header") cfg;
    rewrite_prefix_from = get (codes "rewrite_from") cfg;
    rewrite_prefix_to = get (codes "rewrite_to") cfg;
  },
  ok,
)

-- `s.replacen(from, to, 1)`: the first place where `from` stands.
abbrev pub replace_first : Bytes → Bytes → Bytes → Bytes
replace_first from to [] = if starts_with [] from then to else []
replace_first from to (b ∷ s) =
    if starts_with (b ∷ s) from
    then to ++ drop (length from) (b ∷ s)
    else b ∷ replace_first from to s

-- The 403 that answers a traversal.
pub traversal_denied : Response
traversal_denied =
    let r = new_response 403 in
    let r : Response = add_header r (codes "Content-Type") (codes "text/plain") in
    let r : Response = add_header r (codes "X-WAF") (codes "guard_filter") in
    record { status = r.status; headers = r.headers; body = codes "path traversal denied" }

pub with_path : Request → Bytes → Request
with_path req path = record {
  method = req.method;
  path = path;
  headers = req.headers;
  body = req.body;
  tenant = req.tenant;
}

-- Steps 2 and 3 of `process`: the banner switch changes nothing.
pub rewrite : Option Bytes → Option Bytes → Request → FilterVerdict
rewrite (some from) (some to) req =
    if starts_with req.path from
    then mutate (with_path req (replace_first from to req.path))
    else continue
rewrite (some from) none req = continue
rewrite none to req = continue

pub process : GuardFilter → Request → FilterVerdict
process f req =
    if f.deny_traversal && contains req.path (codes "../")
    then short_circuit traversal_denied
    else rewrite f.rewrite_prefix_from f.rewrite_prefix_to req

abbrev pub guard_filter : FilterPlugin GuardFilter
guard_filter = record { meta = λ f. f.meta; init = init; process = process; teardown = λ f. f }
