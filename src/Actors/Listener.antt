-- ===== src/Actors/Listener.antt =====
-- actors/lib/olwsx/actors/listener.ex: what a client of the socket gets. What `recv_all` returns, the
-- clock and what lies outside a submission are arguments of `handle_client`.
pub mod EndToEnd
use olwsx.Base.{
  ℕ, Bool, true, false, Bytes, codes, ◌++◌, Map, Option, none, some, length, take, leb,
  if◌then◌else◌,
}
use olwsx.Base.Int.{pos}
use olwsx.Actors.{Envelope, Response}
use olwsx.Actors.Codec.{decode_request, encode_response}
use olwsx.Actors.Shield.{Bucket, check}
use olwsx.Actors.Workflow.{
  Reason, timeout, core_error, invalid, exception, actor_crash, invalid_envelope, busy, Result, ok,
  error, text_plain, retry_after,
}
use olwsx.Actors.Manager.{Outside, submit}

-- The buckets of the shield and the counter of the requests in progress.
pub record World : Type 0 where
  pub buckets : Map Bucket
  pub count : ℕ

-- `recv_all` on a stream in which a client has written these bytes and which it leaves open: never more
-- than `max_bytes`. `:socket.recv` with a length is documented to wait for all of it, and for no more
-- than the timeout; `short` tells whether it returns with fewer bytes nevertheless.
unfoldable pub recv_all : Bool → ℕ → Bytes → Option Bytes
recv_all short max_bytes written =
    if leb max_bytes (length written)
    then some (take max_bytes written)
    else if short
    then some written
    else none

-- `to_string` of an atom
abbrev pub reason_name : Reason → Bytes
reason_name timeout = codes "timeout"
reason_name core_error = codes "core_error"
reason_name invalid = codes "invalid"
reason_name exception = codes "exception"
reason_name actor_crash = codes "actor_crash"
reason_name invalid_envelope = codes "invalid_envelope"
reason_name busy = codes "busy"

-- `extract_remote`
abbrev pub extract_remote : Bytes
extract_remote = codes "unix"

abbrev pub answer_to : Result → Response
answer_to (ok resp) = resp
answer_to (error reason) = record {
  status = pos 502;
  headers_flat = text_plain;
  body = some (codes "Actor error: " ++ reason_name reason);
  meta_flags = 0x0000_0010;
}

abbrev pub limited_answer : Response
limited_answer = record {
  status = pos 429;
  headers_flat = text_plain ++ retry_after;
  body = some (codes "Rate Limit (Actor Shield)");
  meta_flags = 0x0040_0000;
}

abbrev pub bad_frame_answer : Response
bad_frame_answer = record {
  status = pos 400;
  headers_flat = text_plain;
  body = some (codes "Invalid frame");
  meta_flags = 0x0000_0020;
}

module _ (max retry_max : ℕ) (out : Outside) where
  -- Behind the check of the shield.
  abbrev pub checked : Envelope → ℕ → Map Bucket × Bool → World × Response
  checked env count (buckets, false) = (record { buckets = buckets; count = count }, limited_answer)
  checked env count (buckets, true) =
      let (c, result) =
        submit max retry_max out (record env { remote = some extract_remote }) count in
      (record { buckets = buckets; count = c }, answer_to result)

  -- Behind the decoder.
  abbrev pub decoded : ℕ → World → Option Envelope → World × Response
  decoded now world none = (world, bad_frame_answer)
  decoded now world (some env) = checked env world.count (check extract_remote now world.buckets)

  -- `handle_client`: the frame that is sent, if any is.
  unfoldable pub handle_client : ℕ → Option Bytes → World → World × Option Bytes
  handle_client now none world = (world, none)
  handle_client now (some bin) world =
      let (world', answer) = decoded now world (decode_request bin) in
      (world', some (encode_response answer))
