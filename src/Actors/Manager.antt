-- ===== src/Actors/Manager.antt =====
-- actors/lib/olwsx/actors/manager.ex.
use olwsx.Base.{ℕ, Bool, true, false, not, Option, none, some, if◌then◌else◌}
use olwsx.Actors.{Envelope, Response}
use olwsx.Actors.Isolation.{q_offer, q_done}
use olwsx.Actors.Workflow.{Result, error, timeout, actor_crash, busy, workflow}

-- What happens outside a submission: whether its process starts, whether the result comes in time, and
-- how the NIF answers.
pub record Outside : Type 0 where
  pub starts : Bool
  pub in_time : Bool
  pub answers : ℕ → Option Response

-- What the parent receives: the result, the news that the process went down, or nothing in time.
abbrev pub received : Bool → Option Result → Result
received false r = error timeout
received true none = error actor_crash
received true (some r) = r

-- `submit`: the counter, and the result.
unfoldable pub submit : ℕ → ℕ → Outside → Envelope → ℕ → ℕ × Result
submit max retry_max out env count =
    let (c, admitted) = q_offer max count in
    if not admitted
    then (c, error busy)
    else if out.starts
    then (q_done c, received out.in_time (workflow env retry_max out.answers))
    else (q_done c, error actor_crash)
