-- ===== src/Edge/Dispatch/Blocks.antt =====
-- What becomes of a request that the firewall of the edge flags (edge/http/dispatcher.go).
use olwsx.Base.{
  ℕ, ◌/◌, ◌%◌, ◌<◌, ◌≡◌, refl, Bool, true, false, ◌&&◌, Bytes, codes, Option, length, take, arith,
  ltb, leb, ◌≤◌, ◌||◌, ◌==◌, to_le_bytes,
}
use olwsx.Base.Int.{pos}
use olwsx.Edge.Wire.{u32_mod}
use olwsx.Edge.CoreCall.{answered, core_call}
use olwsx.Edge.Headers.{flatten_headers}
use olwsx.Edge.Dispatch.{
  HttpRequest, Answer, hints_of, too_long, emit, retry_after, forward, handler,
}
use olwsx.Actors.{Response}
use olwsx.Actors.Codec.{encode_response}
use olwsx.Actors.Codec.Frames.{FitsWire, frame_size}
use olwsx.Actors.Codec.Responses.{as_read}
use olwsx.Actors.Workflow.{ok}
use olwsx.Actors.Manager.{Outside}
use olwsx.Actors.Listener.{World}
use olwsx.Actors.Listener.EndToEnd.{through, blocked, due, IsQuiet, Deliverable, core_call-due}

-- A request that the edge passes on.
pub record IsPassed (max_header max_body : ℕ) (r : HttpRequest) : Type 0 where
  pub short_body : too_long r.content_length max_body ≡ false
  pub short_headers : ltb max_header (flatten_headers r.headers).1 ≡ false
  pub readable : (r.read_fails && ltb (length r.body) max_body) ≡ false

-- A frame of this size that the listener of the actors receives whole: no longer than what it asks
-- for, and as long as that unless the socket returns with less.
pub record IsReceived (short : Bool) (frame_max size : ℕ) : Type 0 where
  pub bounded : size ≤ frame_max
  pub returned : (short || leb frame_max size) ≡ true

blocked-Deliverable : Deliverable blocked
unfolding encode_response to_le_bytes
blocked-Deliverable = record {
  fits = record {
    fits_status = omega arith;
    fits_headers = omega arith;
    fits_body = omega arith;
    fits_flags = omega arith;
  };
  short = omega arith;
}

waf_hint : (challenged limited : Bool) → (hints_of challenged true limited / 2) % 2 == 1 ≡ true
waf_hint true true = refl
waf_hint true false = refl
waf_hint false true = refl
waf_hint false false = refl

due-blocked :
    (hints retry_max : ℕ) (answers : ℕ → Option Response)
    → (hints / 2) % 2 == 1 ≡ true
    → due hints retry_max answers ≡ ok blocked
due-blocked hints retry_max answers h = rw h refl

with_hints :
    {method path headers body : Bytes} {trace_id span_id : ℕ} (hints : ℕ)
    → FitsWire method path headers body trace_id span_id 0
    → hints < u32_mod
    → FitsWire method path headers body trace_id span_id hints
with_hints hints fits small = record {
  fits_method = fits.fits_method;
  fits_path = fits.fits_path;
  fits_headers = fits.fits_headers;
  fits_body = fits.fits_body;
  fits_trace = fits.fits_trace;
  fits_span = fits.fits_span;
  fits_hints = small;
}

module _ (trim : Bytes → Bytes) {S : Type 0} (challenge_check : Bytes → Bool)
    (waf_check : Bytes → Bytes → Bool) (rate_check : Bytes → S → S × Bool) (max_header max_body : ℕ)
    (short : Bool) (frame_max max retry_max : ℕ) (out : Outside) (now : ℕ) (world : World) where
  -- The handler of the edge in front of these actors.
  abbrev pub handled : HttpRequest → ℕ × ℕ → S → S × Answer
  handled =
      handler trim challenge_check waf_check rate_check
        (core_call (through short frame_max max retry_max out now world)) max_header max_body

  abbrev forwarded : HttpRequest → ℕ × ℕ → Bool → Answer
  forwarded =
      forward trim challenge_check waf_check rate_check
        (core_call (through short frame_max max retry_max out now world)) max_header max_body

  call-blocked :
      (method path headers body : Bytes) (trace_id span_id : ℕ) (challenged limited : Bool)
      → FitsWire method path headers body trace_id span_id 0
      → IsReceived short frame_max (frame_size method path headers body)
      → IsQuiet max out now world
      → core_call
          (through short frame_max max retry_max out now world)
          method
          path
          headers
          body
          trace_id
          span_id
          (hints_of challenged true limited)
        ≡ answered (as_read blocked)
  call-blocked method path headers body trace_id span_id challenged limited fits whole quiet =
      let hints = hints_of challenged true limited in
      let small : hints < u32_mod = ground arith in
      let comes_to = due-blocked hints retry_max out.answers (waf_hint challenged limited) in
      rw comes_to at (
        rw whole.returned at (
          core_call-due max retry_max out now world short frame_max method path headers body
            trace_id span_id hints (with_hints hints fits small) whole.bounded quiet
            (rw comes_to blocked-Deliverable)))

  forwarded-blocked :
      (r : HttpRequest) (trace_id span_id : ℕ) (limited : Bool)
      → waf_check r.uri r.user_agent ≡ true
      → IsPassed max_header max_body r
      → FitsWire r.method r.uri
          (flatten_headers r.headers).0
          (take max_body r.body)
          trace_id
          span_id
          0
      → IsReceived short frame_max
          (frame_size r.method r.uri (flatten_headers r.headers).0 (take max_body r.body))
      → IsQuiet max out now world
      → forwarded r (trace_id, span_id) limited
        ≡ emit trim (retry_after limited) trace_id (answered (as_read blocked))
  forwarded-blocked r trace_id span_id limited flagged passed fits whole quiet =
      rw
        (
          passed.short_headers,
          passed.readable,
          flagged,
          call-blocked r.method r.uri (flatten_headers r.headers).0 (take max_body r.body) trace_id
              span_id (challenge_check r.remote) limited fits whole quiet,
        )
        refl

  -- A request that the firewall of the edge flags is answered with a 403, through the actors and
  -- back, whatever the core, the rate limiter and the challenge say, if it keeps the limits of the edge,
  -- its fields fit the wire, the listener of the actors receives
  -- its frame whole, and the actors take it.
  pub handler-Blocks :
      (r : HttpRequest) (trace_id span_id : ℕ) (s : S)
      → waf_check r.uri r.user_agent ≡ true
      → IsPassed max_header max_body r
      → FitsWire r.method r.uri
          (flatten_headers r.headers).0
          (take max_body r.body)
          trace_id
          span_id
          0
      → IsReceived short frame_max
          (frame_size r.method r.uri (flatten_headers r.headers).0 (take max_body r.body))
      → IsQuiet max out now world
      → ((handled r (trace_id, span_id) s).1.status ≡ pos 403)
        × ((handled r (trace_id, span_id) s).1.body ≡ codes "Forbidden (WAF)")
  unfolding handler
  handler-Blocks r trace_id span_id s flagged passed fits whole quiet =
      let e =
        forwarded-blocked r trace_id span_id (rate_check r.remote s).1 flagged passed fits whole
          quiet in
      rw (passed.short_body, e) (refl, refl)
