-- ===== src/Actors/Workflow.antt =====
-- actors/lib/olwsx/actors/workflow.ex. The core's NIF is an argument: its answer to each call.
use olwsx.Base.{ℕ, ◌-◌, Bytes, codes, ◌++◌, [], ◌∷◌, Option, none, some, ltb, if◌then◌else◌}
use olwsx.Base.Int.{pos}
use olwsx.Actors.{Envelope, Response}
use olwsx.Actors.Router.{Security, security}

pub data Reason : Type 0 where
  timeout : Reason
  core_error : Reason
  invalid : Reason
  exception : Reason
  actor_crash : Reason
  invalid_envelope : Reason
  busy : Reason

-- `{:ok, resp}` and `{:error, reason}`
pub data Result : Type 0 where
  ok : Response → Result
  error : Reason → Result

abbrev pub text_plain : Bytes
text_plain = codes "Content-Type: text/plain" ++ 13 ∷ 10 ∷ []

abbrev pub retry_after : Bytes
retry_after = codes "Retry-After: 1" ++ 13 ∷ 10 ∷ []

-- `core_call`; the lane is only reported.
unfoldable pub core_call : Security → Option Response → Result
core_call sec answer =
    if sec.waf
    then ok (record {
      status = pos 403;
      headers_flat = text_plain;
      body = some (codes "Forbidden (WAF)");
      meta_flags = 0x0020_0000;
    })
    else if sec.ratelimit
    then ok (record {
      status = pos 429;
      headers_flat = text_plain ++ retry_after;
      body = some (codes "Too Many Requests (Rate Limit)");
      meta_flags = 0x0040_0000;
    })
    else elim answer [ some resp ↦ ok resp | none ↦ error core_error ]

-- `step_run`: the envelope has the fields that `valid_env?` asks for by its type, and neither of the two
-- guarded functions raises on them.
unfoldable pub step_run : Envelope → Option Response → Result
step_run env answer = core_call (security env.edge_hints) answer

-- What a message leaves the process with: `:retry` to come with so many retries left, the end with what
-- it sends to the parent, or a crash.
pub data Next : Type 0 where
  again : ℕ → Next
  stop : Result → Next
  crash : Next

-- `handle_info({:begin, parent}, state)`
unfoldable pub handle_begin : Result → ℕ → Next
handle_begin (ok resp) retry_left = stop (ok resp)
handle_begin (error timeout) retry_left =
    if ltb 0 retry_left then again (retry_left - 1) else stop (error timeout)
handle_begin (error core_error) retry_left =
    if ltb 0 retry_left then again (retry_left - 1) else stop (error actor_crash)
handle_begin (error invalid) retry_left = stop (error invalid_envelope)
handle_begin (error exception) retry_left = crash
handle_begin (error actor_crash) retry_left = crash
handle_begin (error invalid_envelope) retry_left = crash
handle_begin (error busy) retry_left = crash

-- `handle_info(:retry, state)`
unfoldable pub handle_retry : Result → Next
handle_retry (ok resp) = stop (ok resp)
handle_retry (error timeout) = stop (error timeout)
handle_retry (error core_error) = stop (error actor_crash)
handle_retry (error invalid) = stop (error actor_crash)
handle_retry (error exception) = stop (error actor_crash)
handle_retry (error actor_crash) = stop (error actor_crash)
handle_retry (error invalid_envelope) = stop (error actor_crash)
handle_retry (error busy) = stop (error actor_crash)

-- The messages of one process: `answers n` is the answer of the NIF to its n-th call, and the process
-- gets `:retry` only from itself. The result is what the parent gets, or `none` when it goes down
-- before.
abbrev pub ended : Next → Option Result
ended (stop r) = some r
ended (again n) = none
ended crash = none

abbrev pub begun : Envelope → Option Response → Next → Option Result
begun env answer (again n) = ended (handle_retry (step_run env answer))
begun env answer (stop r) = some r
begun env answer crash = none

unfoldable pub workflow : Envelope → ℕ → (ℕ → Option Response) → Option Result
workflow env retry_max answers =
    begun env (answers 1) (handle_begin (step_run env (answers 0)) retry_max)
