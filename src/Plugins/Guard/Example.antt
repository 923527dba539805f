-- ===== src/Plugins/Guard/Example.antt =====
-- The test of plugins/filter_example.rs, as a function into Bool: false when an `unwrap` or an
-- assertion panics.
use olwsx.Base.{Bool, true, false, ◌&&◌, Bytes, [], ◌≡◌, refl, codes, bytes_eq, insert, ◌==◌}
use olwsx.Plugins.{
  Request, new_response, add_header, FilterVerdict, continue, short_circuit, mutate, Outcome, ok,
  err, Config,
}
use olwsx.Plugins.Guard.{new, switch, init, traversal_denied, with_path, rewrite, process}

abbrev test_cfg : Config
test_cfg =
    insert (codes "rewrite_to") (codes "/new/") (insert (codes "rewrite_from") (codes "/old/") [])

abbrev get_request : Bytes → Request
get_request path = record {
  method = codes "GET";
  path = path;
  headers = [];
  body = [];
  tenant = codes "default";
}

abbrev unwraps : Outcome → Bool
unwraps ok = true
unwraps (err e) = false

abbrev mutates_to : Bytes → FilterVerdict → Bool
mutates_to path (mutate m) = bytes_eq m.path path
mutates_to path (short_circuit r) = false
mutates_to path continue = false

abbrev short_circuits : FilterVerdict → Bool
short_circuits (short_circuit r) = r.status == 403
short_circuits (mutate m) = false
short_circuits continue = false

unfoldable deny_and_rewrite : Bool
deny_and_rewrite =
    let (f, res) = init test_cfg new in
    unwraps res
    && mutates_to (codes "/new/page") (process f (get_request (codes "/old/page")))
    && short_circuits (process f (get_request (codes "/../../etc/passwd")))

deny_and_rewrite_lem : deny_and_rewrite ≡ true
unfolding deny_and_rewrite new switch init traversal_denied with_path rewrite process new_response
    add_header
deny_and_rewrite_lem = refl
