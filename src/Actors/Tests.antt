-- ===== src/Actors/Tests.antt =====
-- Runs of the actors (actors/) on concrete inputs.
use olwsx.Base.{
  false, ℕ, ◌≤◌, ◌≡◌, ◌↔◌, refl, Bool, true, Bytes, codes, none, some, Option, [], ◌∷◌, ◌++◌, arith,
  take, ltb, ◌&&◌, IsOctets, to_le_bytes, read_le, read_bytes, if◌then◌else◌,
}
use olwsx.Base.Int.{pos, negsuc}
use olwsx.Edge.Wire.{write_str, write_bytes, write_envelope, read_str, read_exactly, read_response}
use olwsx.Edge.CoreCall.{core_call, answered, code}
use olwsx.Actors.{Envelope, Response}
use olwsx.Actors.Codec.{decode_request, encode_response}
use olwsx.Actors.Codec.Accepts.{IsFrame, decode_request_iff}
use olwsx.Actors.Codec.Frames.{FitsWire}
use olwsx.Actors.Codec.Responses.{FitsAnswer, as_read, read_response-encode_response}
use olwsx.Actors.Shield.{check}
use olwsx.Actors.Isolation.{
  q_offer, System, outside, offered, inside, offer, admit, refuse, at_start, Reach, start,
  then_step,
}
use olwsx.Actors.Isolation.Bounded.{total, admitted, busy, Reach-Bounded}
use olwsx.Actors.Router.{security}
use olwsx.Actors.Workflow
use olwsx.Actors.Workflow.{text_plain, handle_begin, step_run, workflow}
use olwsx.Actors.Manager.{Outside, submit}
use olwsx.Actors.Listener.{recv_all, World, handle_client}
use olwsx.Actors.Listener.EndToEnd.{
  IsQuiet, Deliverable, through, core_call-due, handle_client-balanced,
}

abbrev env : Envelope
env = record {
  path = codes "/a";
  method = codes "GET";
  headers_flat = [];
  body = some (codes "x");
  trace_id = 258;
  span_id = 0;
  edge_hints = 2;
  remote = none;
}

abbrev frame : Bytes
frame =
    3 ∷ 0 ∷ 0 ∷ 0 ∷ 71 ∷ 69 ∷ 84 ∷ 2 ∷ 0 ∷ 0 ∷ 0 ∷ 47 ∷ 97 ∷ 0 ∷ 0 ∷ 0 ∷ 0 ∷ 1 ∷ 0 ∷ 0 ∷ 0 ∷ 120 ∷ 2
    ∷ 1 ∷ 0 ∷ 0 ∷ 0 ∷ 0 ∷ 0 ∷ 0 ∷ 0 ∷ 0 ∷ 0 ∷ 0 ∷ 0 ∷ 0 ∷ 0 ∷ 0 ∷ 2 ∷ 0 ∷ 0 ∷ 0 ∷ []

abbrev all_bytes : Bytes → Bool
all_bytes [] = true
all_bytes (b ∷ s) = ltb b 256 && all_bytes s

all_bytes-IsOctets : (s : Bytes) → all_bytes s ≡ true → IsOctets s
all_bytes-IsOctets [] h = tt
all_bytes-IsOctets (b ∷ s) h = (ground arith, all_bytes-IsOctets s (ground arith))

decode_request_iff_example : (decode_request frame ≡ some env) ↔ IsFrame frame env
decode_request_iff_example = decode_request_iff frame env (all_bytes-IsOctets frame refl)

decodes : decode_request frame ≡ some env
unfolding decode_request read_le read_bytes
decodes = refl

-- One byte more or less is no frame.
cut_off : decode_request (take 41 frame) ≡ none
unfolding decode_request read_le read_bytes
cut_off = refl

left_over : decode_request (frame ++ 0 ∷ []) ≡ none
unfolding decode_request read_le read_bytes
left_over = refl

abbrev response : Response
response = record { status = negsuc 4; headers_flat = codes "A:b"; body = none; meta_flags = 7 }

response_fits : FitsAnswer response
response_fits = record {
  fits_status = omega arith;
  fits_headers = omega arith;
  fits_body = omega arith;
  fits_flags = omega arith;
}

read_response-encode_response_example :
    read_response (encode_response response) ≡ some (as_read response)
read_response-encode_response_example = read_response-encode_response response response_fits

-- Two processes and room for one: the second one is refused, though the first one has not looked at its
-- number yet.
abbrev both_offered : System
both_offered = record { count = 2; pcs = offered 1 ∷ offered 2 ∷ [] }

crowd : Reach 1 2 (record { count = 1; pcs = inside ∷ outside ∷ [] })
crowd =
    then_step (record { count = 2; pcs = inside ∷ offered 2 ∷ [] }) _
      (then_step both_offered _
        (then_step (record { count = 1; pcs = offered 1 ∷ outside ∷ [] }) _
          (then_step (at_start 2) _ start (offer 0 [] (outside ∷ [])))
          (offer 1 (offered 1 ∷ []) []))
        (admit 2 1 [] (offered 2 ∷ []) refl))
      (refuse 2 2 (inside ∷ []) [] refl)

Reach-Bounded_example :
    (total admitted (inside ∷ outside ∷ []) ≤ 1) × (1 ≡ total busy (inside ∷ outside ∷ []))
Reach-Bounded_example = Reach-Bounded 1 2 (record { count = 1; pcs = inside ∷ outside ∷ [] }) crowd

abbrev served : Response
served = record {
  status = pos 200;
  headers_flat = codes "A:b";
  body = some (codes "hi");
  meta_flags = 5;
}

-- The core fails once and answers then.
abbrev second_time : ℕ → Option Response
second_time n = if ltb 0 n then some served else none

abbrev outer : Outside
outer = record { starts = true; in_time = true; answers = second_time }

abbrev world : World
world = record { buckets = []; count = 3 }

quiet : IsQuiet 10 outer 5 world
unfolding check
quiet = record { unlimited = refl; room = omega arith; starts = refl; in_time = refl }

small : FitsWire (codes "GET") (codes "/a") [] [] 258 0 4
small = record {
  fits_method = omega arith;
  fits_path = omega arith;
  fits_headers = omega arith;
  fits_body = omega arith;
  fits_trace = omega arith;
  fits_span = omega arith;
  fits_hints = omega arith;
}

deliverable : Deliverable served
unfolding encode_response to_le_bytes
deliverable = record {
  fits = record {
    fits_status = omega arith;
    fits_headers = omega arith;
    fits_body = omega arith;
    fits_flags = omega arith;
  };
  short = omega arith;
}

core_call-due_example :
    core_call (through true 1048576 10 1 outer 5 world) (codes "GET") (codes "/a") [] [] 258 0 4
    ≡ answered (as_read served)
core_call-due_example =
    core_call-due 10 1 outer 5 world true 1048576 (codes "GET") (codes "/a") [] [] 258 0 4 small
      (omega arith) quiet deliverable

handle_client-balanced_example : (handle_client 3 1 outer 5 (some frame) world).0.count ≡ 3
handle_client-balanced_example = handle_client-balanced 3 1 outer 5 world (some frame)

-- Where the socket waits for all bytes that were asked for, the edge gets nothing to read.
waiting :
    core_call (through false 1048576 10 1 outer 5 world) (codes "GET") (codes "/a") [] [] 258 0 4
    ≡ code 4
waiting =
    core_call-due 10 1 outer 5 world false 1048576 (codes "GET") (codes "/a") [] [] 258 0 4 small
      (omega arith) quiet deliverable

-- With the hint of the firewall the core is not asked.
blocked :
    core_call (through true 1048576 10 1 outer 5 world) (codes "GET") (codes "/a") [] [] 258 0 3
    ≡ answered (record {
      status = pos 403;
      headers_flat = text_plain;
      body = codes "Forbidden (WAF)";
      meta_flags = 0x0020_0000;
    })
unfolding core_call write_envelope write_str write_bytes to_le_bytes handle_client decode_request
    recv_all read_le read_bytes check submit q_offer workflow handle_begin step_run
    olwsx.Actors.Workflow.core_call security encode_response read_response read_str read_exactly
blocked = refl
