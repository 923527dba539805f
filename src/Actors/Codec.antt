-- ===== src/Actors/Codec.antt =====
-- actors/lib/olwsx/actors/codec.ex. `none` is `{:error, :invalid_frame}`.
pub mod Frames
pub mod Accepts
pub mod Responses
use olwsx.Base.{
  ℕ, ◌-◌, ◌%◌, ◌^◌, ◌++◌, [], ◌∷◌, Bytes, Option, none, some, length, ◌>>=◌, read_bytes, read_le,
  to_le_bytes,
}
use olwsx.Base.Int.{ℤ, pos, negsuc}
use olwsx.Actors.{Envelope, Response}

-- The end of the frame: the pattern leaves no byte over.
abbrev pub framed : Envelope → Bytes → Option Envelope
framed env [] = some env
framed env (b ∷ rest) = none

-- `decode_request`
unfoldable pub decode_request : Bytes → Option Envelope
decode_request bin = do
  (method_len, bin) ← read_le 4 bin
  (method, bin) ← read_bytes method_len bin
  (path_len, bin) ← read_le 4 bin
  (path, bin) ← read_bytes path_len bin
  (headers_len, bin) ← read_le 4 bin
  (headers, bin) ← read_bytes headers_len bin
  (body_len, bin) ← read_le 4 bin
  (body, bin) ← read_bytes body_len bin
  (trace_id, bin) ← read_le 8 bin
  (span_id, bin) ← read_le 8 bin
  (hints, bin) ← read_le 4 bin
  framed
      (record {
        path = path;
        method = method;
        headers_flat = headers;
        body = some body;
        trace_id = trace_id;
        span_id = span_id;
        edge_hints = hints;
        remote = none;
      })
      bin

abbrev pub u32_mod : ℕ
u32_mod = 2 ^ 32

-- The low 32 bits of an integer in two's complement.
abbrev pub low_bits : ℤ → ℕ
low_bits (pos n) = n % u32_mod
low_bits (negsuc n) = u32_mod - 1 - n % u32_mod

-- `body || <<>>`
abbrev pub or_empty : Option Bytes → Bytes
or_empty none = []
or_empty (some s) = s

-- `encode_response`
unfoldable pub encode_response : Response → Bytes
encode_response r =
    let body = or_empty r.body in
    to_le_bytes 4 (low_bits r.status)
    ++ (to_le_bytes 4 (length r.headers_flat % u32_mod)
        ++ (r.headers_flat
            ++ (to_le_bytes 4 (length body % u32_mod)
                ++ (body ++ to_le_bytes 4 (r.meta_flags % u32_mod)))))
