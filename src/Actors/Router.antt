-- ===== src/Actors/Router.antt =====
-- actors/lib/olwsx/actors/router.ex.
use olwsx.Base.{ℕ, ◌/◌, ◌%◌, Bool, ◌||◌, bytes_eq, codes, starts_with, ◌==◌, if◌then◌else◌}
use olwsx.Actors.{Envelope}

-- The map that `security` returns.
pub record Security : Type 0 where
  pub waf : Bool
  pub ratelimit : Bool
  pub challenged : Bool

-- `security`
unfoldable pub security : ℕ → Security
security edge_hints = record {
  waf = (edge_hints / 2) % 2 == 1;
  ratelimit = edge_hints % 2 == 1;
  challenged = (edge_hints / 4) % 2 == 1;
}

pub data Lane : Type 0 where
  cache_l2 : Lane
  core_write : Lane
  core_read : Lane

-- `pick_lane`
unfoldable pub pick_lane : Envelope → Lane
pick_lane env =
    if starts_with env.path (codes "/static/")
    then cache_l2
    else if bytes_eq env.method (codes "POST")
        || (bytes_eq env.method (codes "PUT") || bytes_eq env.method (codes "PATCH"))
    then core_write
    else core_read
