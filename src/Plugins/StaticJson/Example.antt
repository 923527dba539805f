-- ===== src/Plugins/StaticJson/Example.antt =====
-- The test of plugins/handler_example.rs, as a function into Bool: false when an `unwrap` or an
-- assertion panics.
use olwsx.Base.{Bool, true, ◌&&◌, Bytes, [], ◌≡◌, refl, codes, bytes_eq, contains, ◌==◌}
use olwsx.Plugins.{Request, new_response, add_header, set_body}
use olwsx.Plugins.StaticJson.{new, handle}

abbrev test_request : Bytes → Bytes → Bytes → Request
test_request method path body = record {
  method = method;
  path = path;
  headers = [];
  body = body;
  tenant = codes "default";
}

-- The content is ASCII, so `String::from_utf8` succeeds on it.
unfoldable health_and_echo : Bool
health_and_echo =
    let r = handle new (test_request (codes "GET") (codes "/__health") []) in
    let r2 = handle new (test_request (codes "POST") (codes "/echo") (codes "OLWSX")) in
    r.resp.status == 200
    && contains r.resp.body (codes "\"ok\"")
    && r2.resp.status == 200
    && bytes_eq r2.resp.body (codes "OLWSX")

health_and_echo_lem : health_and_echo ≡ true
unfolding health_and_echo new handle new_response add_header set_body
health_and_echo_lem = refl
