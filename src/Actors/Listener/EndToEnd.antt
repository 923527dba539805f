-- ===== src/Actors/Listener/EndToEnd.antt =====
-- A request from the edge (`coreCall` of edge/main.go) through the listener of the actors
-- (actors/lib/olwsx/actors/listener.ex) and back.
use olwsx.Base.{
  ℕ, ◌+◌, ◌/◌, ◌%◌, ◌≤◌, ◌<◌, ◌≡◌, refl, ap, Bool, true, false, Bool-cases, Option-cases, inl, inr,
  Bytes, codes, ◌++◌, Map, Option, none, some, length, take, take-of_le, arith, ltb, leb, ◌||◌,
  ◌==◌, if◌then◌else◌,
}
use olwsx.Base.Int.{pos}
use olwsx.Edge.CoreCall.{Exchange, not_read, received, answered, code, read_buffer, core_call}
use olwsx.Actors.{Envelope, Response}
use olwsx.Actors.Codec.{decode_request, encode_response}
use olwsx.Actors.Codec.Frames.{
  FitsWire, frame_size, envelope_bytes, length-envelope_bytes, sent, write_envelope_lem,
  decode_request-bytes,
}
use olwsx.Actors.Codec.Responses.{FitsAnswer, as_read, read_response-encode_response}
use olwsx.Actors.Router.{security}
use olwsx.Actors.Shield.{Bucket, check}
use olwsx.Actors.Isolation.{q_offer}
use olwsx.Actors.Workflow
use olwsx.Actors.Workflow.{
  Result, ok, error, actor_crash, core_error, handle_begin, handle_retry, step_run, workflow,
  text_plain, retry_after,
}
use olwsx.Actors.Manager.{Outside, submit}
use olwsx.Actors.Listener.{
  recv_all, World, extract_remote, answer_to, checked, decoded, handle_client,
}

-- The connection carries to the listener what it receives of the envelope, and its frame back as far
-- as the edge reads.
abbrev pub carried : Option Bytes → Exchange
carried none = not_read
carried (some frame) = received (take read_buffer frame)

abbrev pub through : Bool → ℕ → ℕ → ℕ → Outside → ℕ → World → Bytes → Exchange
through short frame_max max retry_max out now world bin =
    carried (handle_client max retry_max out now (recv_all short frame_max bin) world).1

abbrev pub blocked : Response
blocked = record {
  status = pos 403;
  headers_flat = text_plain;
  body = some (codes "Forbidden (WAF)");
  meta_flags = 0x0020_0000;
}

abbrev pub slowed : Response
slowed = record {
  status = pos 429;
  headers_flat = text_plain ++ retry_after;
  body = some (codes "Too Many Requests (Rate Limit)");
  meta_flags = 0x0040_0000;
}

abbrev pub second_result : ℕ → Option Response → Result
second_result retry_max (some resp) = if ltb 0 retry_max then ok resp else error actor_crash
second_result retry_max none = error actor_crash

-- The answer of the NIF to the first call, or to the second one where there is none; no more than one
-- retry is made, whatever the limit is.
abbrev pub core_result : ℕ → Option Response → Option Response → Result
core_result retry_max (some resp) second = ok resp
core_result retry_max none second = second_result retry_max second

-- What a request with these hints comes to.
abbrev pub due : ℕ → ℕ → (ℕ → Option Response) → Result
due hints retry_max answers =
    if (hints / 2) % 2 == 1
    then ok blocked
    else if hints % 2 == 1
    then ok slowed
    else core_result retry_max (answers 0) (answers 1)

workflow_lem :
    (env : Envelope) (retry_max : ℕ) (answers : ℕ → Option Response)
    → workflow env retry_max answers ≡ some (due env.edge_hints retry_max answers)
unfolding workflow handle_begin handle_retry step_run olwsx.Actors.Workflow.core_call security
workflow_lem env retry_max answers = elim (Bool-cases ((env.edge_hints / 2) % 2 == 1)) [
  | inl waf ↦ simp waf
  | inr calm ↦ elim (Bool-cases (env.edge_hints % 2 == 1)) [
    | inl rate ↦ simp (calm, rate)
    | inr fine ↦ elim (Option-cases (answers 0)) [
      | inr (resp, first) ↦ simp (calm, fine, first)
      | inl lost ↦ elim (Bool-cases (ltb 0 retry_max)) [
        | inr once ↦ elim (Option-cases (answers 1)) [
          | inr (resp, second) ↦ simp (calm, fine, lost, once, second)
          | inl gone ↦ simp (calm, fine, lost, once, gone)
        ]
        | inl twice ↦ elim (Option-cases (answers 1)) [
          | inr (resp, second) ↦ simp (calm, fine, lost, twice, second)
          | inl gone ↦ simp (calm, fine, lost, twice, gone)
        ]
      ]
    ]
  ]
]

recv_all-whole :
    (short : Bool) (frame_max : ℕ) (bin : Bytes)
    → (short || leb frame_max (length bin)) ≡ true
    → length bin ≤ frame_max
    → recv_all short frame_max bin ≡ some bin
unfolding recv_all
recv_all-whole short frame_max bin h small = elim (Bool-cases (leb frame_max (length bin))) [
  | inl full ↦ rw (full, take-of_le frame_max bin small) refl
  | inr less ↦ rw (less, short_of short less h) refl
]
  where
    short_of :
        (short : Bool)
        → leb frame_max (length bin) ≡ false
        → (short || leb frame_max (length bin)) ≡ true
        → short ≡ true
    short_of true less h = refl
    short_of false less h = cc

recv_all-waits :
    (short : Bool) (frame_max : ℕ) (bin : Bytes)
    → (short || leb frame_max (length bin)) ≡ false
    → recv_all short frame_max bin ≡ none
unfolding recv_all
recv_all-waits true frame_max bin h = cc
recv_all-waits false frame_max bin h = rw h refl

-- A response that fits the wire and the buffer of the edge.
pub record Deliverable (r : Response) : Type 0 where
  pub fits : FitsAnswer r
  pub short : length (encode_response r) ≤ read_buffer

-- Nothing outside stands in the way of a request.
pub record IsQuiet (max : ℕ) (out : Outside) (now : ℕ) (world : World) : Type 0 where
  pub unlimited : (check extract_remote now world.buckets).1 ≡ true
  pub room : world.count < max
  pub starts : out.starts ≡ true
  pub in_time : out.in_time ≡ true

module _ (max retry_max : ℕ) (out : Outside) (now : ℕ) (world : World) where
  submit_lem :
      (env : Envelope)
      → IsQuiet max out now world
      → (submit max retry_max out env world.count).1 ≡ due env.edge_hints retry_max out.answers
  unfolding submit q_offer
  submit_lem env q =
      let room : ltb max (world.count + 1) ≡ false = ground (arith, q.room) in
      simp (room, q.starts, q.in_time, workflow_lem env retry_max out.answers)

  checked_lem :
      (env : Envelope) (s : Map Bucket × Bool)
      → s.1 ≡ true
      → IsQuiet max out now world
      → (checked max retry_max out env world.count s).1
        ≡ answer_to (due env.edge_hints retry_max out.answers)
  checked_lem env (buckets, true) h q =
      ap answer_to (submit_lem (record env { remote = some extract_remote }) q)
  checked_lem env (buckets, false) h q = absurd (cc)

  handle_client_lem :
      (bin : Bytes) (env : Envelope)
      → decode_request bin ≡ some env
      → IsQuiet max out now world
      → (handle_client max retry_max out now (some bin) world).1
        ≡ some (encode_response (answer_to (due env.edge_hints retry_max out.answers)))
  unfolding handle_client
  handle_client_lem bin env d q =
      rw (d, checked_lem env (check extract_remote now world.buckets) q.unlimited q) refl

  handle_client_silent : (handle_client max retry_max out now none world).1 ≡ none
  unfolding handle_client
  handle_client_silent = refl

  -- A request that the edge sends, whose frame is no longer than the listener asks for, and that
  -- neither the shield nor the limit on requests in progress refuses. If the frame is as long as that,
  -- or the socket returns with fewer bytes: with the hint of the firewall the edge gets a 403, with that
  -- of the rate limiter a 429, whatever the core would answer; and otherwise what the core answers to
  -- the first call or, where that one fails and a retry is allowed, to the second, and a 502 if both
  -- fail. If not, it gets nothing to read, which is its code 4. The fields of the request
  -- fit the wire, and those of the answer do.
  pub core_call-due :
      (short : Bool) (frame_max : ℕ) (method path headers body : Bytes) (trace_id span_id hints : ℕ)
      → FitsWire method path headers body trace_id span_id hints
      → frame_size method path headers body ≤ frame_max
      → IsQuiet max out now world
      → Deliverable (answer_to (due hints retry_max out.answers))
      → core_call
          (through short frame_max max retry_max out now world)
          method
          path
          headers
          body
          trace_id
          span_id
          hints
        ≡ (if short || leb frame_max (frame_size method path headers body)
            then answered (as_read (answer_to (due hints retry_max out.answers)))
            else code 4)
  unfolding core_call
  core_call-due short frame_max method path headers body trace_id span_id hints fits small q
        arrives =
      let env : Envelope = sent method path headers body trace_id span_id hints in
      let bin = envelope_bytes method path headers body trace_id span_id hints in
      let size = length-envelope_bytes method path headers body trace_id span_id hints in
      let decodes = decode_request-bytes method path headers body trace_id span_id hints fits in
      let write = write_envelope_lem method path headers body trace_id span_id hints fits in
      elim (Bool-cases (short || leb frame_max (frame_size method path headers body))) [
        | inr waits ↦
            rw
              (
                write,
                recv_all-waits short frame_max bin (rw size waits),
                handle_client_silent,
                waits,
              )
              refl
        | inl returns ↦
            rw
              (
                write,
                recv_all-whole short frame_max bin (rw size returns) (rw size small),
                handle_client_lem _ env decodes q,
                take-of_le read_buffer
                    (encode_response (answer_to (due hints retry_max out.answers))) arrives.short,
                read_response-encode_response (answer_to (due hints retry_max out.answers))
                    arrives.fits,
                returns,
              )
              refl
      ]

  submit-balanced : (env : Envelope) (count : ℕ) → (submit max retry_max out env count).0 ≡ count
  unfolding submit q_offer
  submit-balanced env count = elim (Bool-cases (ltb max (count + 1))) [
    | inl full ↦ rw full (omega arith)
    | inr room ↦ elim (Bool-cases out.starts) [
      | inl runs ↦ simp (room, runs) (omega arith)
      | inr fails ↦ simp (room, fails) (omega arith)
    ]
  ]

  checked-balanced :
      (env : Envelope) (count : ℕ) (s : Map Bucket × Bool)
      → (checked max retry_max out env count s).0.count ≡ count
  checked-balanced env count (buckets, true) =
      submit-balanced (record env { remote = some extract_remote }) count
  checked-balanced env count (buckets, false) = refl

  decoded-balanced :
      (o : Option Envelope) → (decoded max retry_max out now world o).0.count ≡ world.count
  decoded-balanced none = refl
  decoded-balanced (some env) =
      checked-balanced env world.count (check extract_remote now world.buckets)

  -- Whatever the bytes, the shield, the limit and the core do, the counter of the requests in progress
  -- is after a request of a client what it was before it.
  pub handle_client-balanced :
      (bin : Option Bytes) → (handle_client max retry_max out now bin world).0.count ≡ world.count
  unfolding handle_client
  handle_client-balanced none = refl
  handle_client-balanced (some bin) = decoded-balanced (decode_request bin)
