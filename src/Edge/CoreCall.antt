-- ===== src/Edge/CoreCall.antt =====
-- `coreCall` of edge/main.go. The connection to the actors is an argument: what comes of dialling,
-- writing an envelope and reading once.
use olwsx.Base.{ℕ, Bytes, Option, none, some}
use olwsx.Edge.Wire.{Response, write_envelope, read_response}

pub data Exchange : Type 0 where
  no_connection : Exchange
  not_written : Exchange
  not_read : Exchange
  received : Bytes → Exchange

-- The response with code 0, or another code.
pub data CoreAnswer : Type 0 where
  answered : Response → CoreAnswer
  code : ℕ → CoreAnswer

abbrev delivered : Option Response → CoreAnswer
delivered none = code 5
delivered (some resp) = answered resp

abbrev parsed : Exchange → CoreAnswer
parsed no_connection = code 2
parsed not_written = code 3
parsed not_read = code 4
parsed (received bytes) = delivered (read_response bytes)

-- The size of the buffer that is read into.
abbrev pub read_buffer : ℕ
read_buffer = 1048576

-- `coreCall`; the path of the socket is a constant that is not empty.
unfoldable pub core_call :
    (Bytes → Exchange) → Bytes → Bytes → Bytes → Bytes → ℕ → ℕ → ℕ → CoreAnswer
core_call exchange method path headers body trace_id span_id hints =
    parsed (exchange (write_envelope method path headers body trace_id span_id hints))
