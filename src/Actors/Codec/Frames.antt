-- ===== src/Actors/Codec/Frames.antt =====
-- The edge and the actors (edge/wire/, actors/lib/olwsx/actors/codec.ex) understand each other.
use olwsx.Base.{
  ℕ, ◌^◌, ◌<◌, ◌≡◌, refl, ◌++◌, [], ◌∷◌, Bytes, none, some, length, arith, read_bytes-append,
  read_le-append, length-append, ◌+◌, read_le-last, append-nil, lt→ltb, to_le_bytes,
}
use mathlib.Core.List.{append_assoc}
use native.Mathlib.Nat.{mod-eq_of_lt}
use olwsx.Edge.Wire.{u32_mod, write_str, write_bytes, write_envelope}
use olwsx.Actors.{Envelope}
use olwsx.Actors.Codec.{decode_request}

-- What the fields of an envelope on the wire hold.
pub record FitsWire (method path headers body : Bytes) (trace_id span_id hints : ℕ) : Type 0 where
  pub fits_method : length method < u32_mod
  pub fits_path : length path < u32_mod
  pub fits_headers : length headers < u32_mod
  pub fits_body : length body < u32_mod
  pub fits_trace : trace_id < 2 ^ 64
  pub fits_span : span_id < 2 ^ 64
  pub fits_hints : hints < u32_mod

-- A text with its length in front.
abbrev pub framed_text : Bytes → Bytes
framed_text s = to_le_bytes 4 (length s) ++ s

-- The layout of wire.go.
abbrev pub envelope_bytes : Bytes → Bytes → Bytes → Bytes → ℕ → ℕ → ℕ → Bytes
envelope_bytes method path headers body trace_id span_id hints =
    framed_text method
    ++ (framed_text path
        ++ (framed_text headers
            ++ (framed_text body
                ++ (to_le_bytes 8 trace_id ++ (to_le_bytes 8 span_id ++ to_le_bytes 4 hints)))))

-- The bytes of an envelope.
abbrev pub frame_size : Bytes → Bytes → Bytes → Bytes → ℕ
frame_size method path headers body =
    36 + length method + length path + length headers + length body

write_str_lem : (b s : Bytes) → length s < u32_mod → write_str b s ≡ b ++ framed_text s
unfolding write_str
write_str_lem b s h = simp (mod-eq_of_lt h, append_assoc)

write_bytes_lem : (b p : Bytes) → length p < u32_mod → write_bytes b p ≡ b ++ framed_text p
unfolding write_bytes
write_bytes_lem b [] h = simp (append-nil)
write_bytes_lem b (c ∷ p) h =
    simp (mod-eq_of_lt h, append_assoc, lt→ltb 0 (length (c ∷ p)) (omega arith))

module _ (method path headers body : Bytes) (trace_id span_id hints : ℕ) where
  pub write_envelope_lem :
      FitsWire method path headers body trace_id span_id hints
      → write_envelope method path headers body trace_id span_id hints
        ≡ envelope_bytes method path headers body trace_id span_id hints
  unfolding write_envelope
  write_envelope_lem fits =
      rw
        (
          write_str_lem [] method fits.fits_method,
          write_str_lem (framed_text method) path fits.fits_path,
          write_str_lem (framed_text method ++ framed_text path) headers fits.fits_headers,
          write_bytes_lem ((framed_text method ++ framed_text path) ++ framed_text headers) body
              fits.fits_body,
        )
        (simp append_assoc)

  pub length-envelope_bytes :
      length (envelope_bytes method path headers body trace_id span_id hints)
      ≡ frame_size method path headers body
  unfolding to_le_bytes
  length-envelope_bytes = simp length-append (omega arith)

  abbrev pub sent : Envelope
  sent = record {
    path = path;
    method = method;
    headers_flat = headers;
    body = some body;
    trace_id = trace_id;
    span_id = span_id;
    edge_hints = hints;
    remote = none;
  }

  pub decode_request-bytes :
      FitsWire method path headers body trace_id span_id hints
      → decode_request (envelope_bytes method path headers body trace_id span_id hints) ≡ some sent
  unfolding decode_request
  decode_request-bytes fits = simp (
    append_assoc,
    read_le-append 4 (length method) _ fits.fits_method,
    read_bytes-append (length method) method _ refl,
    read_le-append 4 (length path) _ fits.fits_path,
    read_bytes-append (length path) path _ refl,
    read_le-append 4 (length headers) _ fits.fits_headers,
    read_bytes-append (length headers) headers _ refl,
    read_le-append 4 (length body) _ fits.fits_body,
    read_bytes-append (length body) body _ refl,
    read_le-append 8 trace_id _ fits.fits_trace,
    read_le-append 8 span_id _ fits.fits_span,
    read_le-last 4 hints fits.fits_hints,
  )
