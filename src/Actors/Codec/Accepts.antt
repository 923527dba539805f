-- ===== src/Actors/Codec/Accepts.antt =====
-- What the actors accept (actors/lib/olwsx/actors/codec.ex) is what the edge writes (edge/wire/).
use olwsx.Base.{
  ℕ, ◌^◌, ◌<◌, ◌≡◌, ◌↔◌, refl, sym, ◌∙◌, ◌++◌, [], ◌∷◌, Bytes, Option, Option-cases, inl, inr, none,
  some, length, arith, ◌>>=◌, read_bytes, none-some, some_inj, append-nil, ap, All-split,
  read_bytes-inv, read_le, read_le-inv, to_le_bytes, IsOctets,
}
use mathlib.Core.Path.{subst}
use mathlib.Core.List.{append_assoc}
use olwsx.Edge.Wire.{u32_mod, write_envelope}
use olwsx.Actors.{Envelope}
use olwsx.Actors.Codec.{framed, decode_request}
use olwsx.Actors.Codec.Frames.{
  FitsWire, framed_text, envelope_bytes, write_envelope_lem, sent, decode_request-bytes,
}

-- `k` goes on with a number that stood at the front.
record NumberRead {B : Type 0} (n : ℕ) (src : Bytes) (k : ℕ × Bytes → Option B) (out : B)
    : Type 0 where
  number : ℕ
  rest : Bytes
  front : src ≡ to_le_bytes n number ++ rest
  fits : number < 256 ^ n
  octets : IsOctets rest
  goes_on : k (number, rest) ≡ some out

number-inv :
    {B : Type 0} (n : ℕ) (src : Bytes) (k : ℕ × Bytes → Option B) (out : B)
    → IsOctets src
    → (read_le n src >>= k) ≡ some out
    → NumberRead n src k out
number-inv n src k out o h = elim (Option-cases (read_le n src)) [
  | inl short ↦ absurd (none-some (rw short at h))
  | inr (got, read) ↦
      let inv = read_le-inv n src got.0 got.1 o read in
      record {
        number = got.0;
        rest = got.1;
        front = inv.0;
        fits = inv.1.0;
        octets = inv.1.1;
        goes_on = rw read at h;
      }
]

-- `k` goes on with a text that stood at the front with its length.
record TextRead {B : Type 0} (src : Bytes) (k : Bytes × Bytes → Option B) (out : B) : Type 0 where
  text : Bytes
  rest : Bytes
  front : src ≡ framed_text text ++ rest
  fits : length text < u32_mod
  octets : IsOctets rest
  goes_on : k (text, rest) ≡ some out

text-inv :
    {B : Type 0} (src : Bytes) (k : Bytes × Bytes → Option B) (out : B)
    → IsOctets src
    → (read_le 4 src >>= λ x. (read_bytes x.0 x.1 >>= k)) ≡ some out
    → TextRead src k out
text-inv src k out o h =
    let n = number-inv 4 src (λ x. (read_bytes x.0 x.1 >>= k)) out o h in
    elim (Option-cases (read_bytes n.number n.rest)) [
      | inl short ↦ absurd (none-some (rw short at n.goes_on))
      | inr (got, read) ↦
          let inv = read_bytes-inv n.number n.rest got read in
          let parts = All-split (λ b. b < 256) got.0 got.1 (rw inv.0 at n.octets) in
          let shape : to_le_bytes 4 n.number ++ n.rest ≡ framed_text got.0 ++ got.1 =
            simp (inv.0, inv.1, append_assoc) in
          record {
            text = got.0;
            rest = got.1;
            front = n.front ∙ shape;
            fits = omega (arith, inv.1, n.fits);
            octets = parts.1;
            goes_on = rw read at n.goes_on;
          }
    ]

-- The frame of an envelope that came from the edge.
pub record IsFrame (bin : Bytes) (env : Envelope) : Type 0 where
  pub body : Bytes
  pub fits :
      FitsWire env.method env.path env.headers_flat body env.trace_id env.span_id env.edge_hints
  pub written :
      bin
      ≡ write_envelope env.method env.path env.headers_flat body env.trace_id env.span_id
          env.edge_hints
  pub carries : env.body ≡ some body
  pub nowhere : env.remote ≡ none

framed-inv :
    (env : Envelope) (rest : Bytes) (out : Envelope)
    → framed env rest ≡ some out
    → (rest ≡ []) × (env ≡ out)
framed-inv env [] out h = (refl, some_inj h)
framed-inv env (b ∷ rest) out h = absurd (none-some h)

-- The numbers behind the texts.
record NumbersRead (method path headers body src : Bytes) (env : Envelope) : Type 0 where
  trace_id : ℕ
  span_id : ℕ
  hints : ℕ
  front : src ≡ to_le_bytes 8 trace_id ++ (to_le_bytes 8 span_id ++ to_le_bytes 4 hints)
  fits_trace : trace_id < 2 ^ 64
  fits_span : span_id < 2 ^ 64
  fits_hints : hints < u32_mod
  same : sent method path headers body trace_id span_id hints ≡ env

module _ (method path headers : Bytes) (env : Envelope) where
  abbrev numbers_of : Bytes × Bytes → Option Envelope
  numbers_of x = do
    (trace_id, bin) ← read_le 8 x.1
    (span_id, bin) ← read_le 8 bin
    (hints, bin) ← read_le 4 bin
    framed (sent method path headers x.0 trace_id span_id hints) bin

  numbers-inv :
      (body src : Bytes)
      → IsOctets src
      → numbers_of (body, src) ≡ some env
      → NumbersRead method path headers body src env
  numbers-inv body src o h =
      let t = number-inv 8 src _ env o h in
      let s = number-inv 8 t.rest _ env t.octets t.goes_on in
      let e = number-inv 4 s.rest _ env s.octets s.goes_on in
      let done = framed-inv _ e.rest env e.goes_on in
      let last : s.rest ≡ to_le_bytes 4 e.number =
        e.front ∙ rw done.0 (append-nil (to_le_bytes 4 e.number)) in
      let two : t.rest ≡ to_le_bytes 8 s.number ++ to_le_bytes 4 e.number =
        s.front ∙ ap (◌++◌ (to_le_bytes 8 s.number)) last in
      record {
        trace_id = t.number;
        span_id = s.number;
        hints = e.number;
        front = t.front ∙ ap (◌++◌ (to_le_bytes 8 t.number)) two;
        fits_trace = t.fits;
        fits_span = s.fits;
        fits_hints = e.fits;
        same = done.1;
      }

abbrev texts_behind : Bytes → Bytes → Envelope → Bytes × Bytes → Option Envelope
texts_behind method path env x = do
  (body_len, bin) ← read_le 4 x.1
  (body, bin) ← read_bytes body_len bin
  numbers_of method path x.0 env (body, bin)

-- The last two texts and the numbers.
record BodyRead (method path src : Bytes) (env : Envelope) : Type 0 where
  headers : Bytes
  body : Bytes
  rest : Bytes
  front : src ≡ framed_text headers ++ (framed_text body ++ rest)
  fits_headers : length headers < u32_mod
  fits_body : length body < u32_mod
  numbers : NumbersRead method path headers body rest env

body-inv :
    (method path src : Bytes) (env : Envelope)
    → IsOctets src
    → (read_le 4 src >>= λ x. (read_bytes x.0 x.1 >>= texts_behind method path env)) ≡ some env
    → BodyRead method path src env
body-inv method path src env o h =
    let hs = text-inv src (texts_behind method path env) env o h in
    let b = text-inv hs.rest (numbers_of method path hs.text env) env hs.octets hs.goes_on in
    record {
      headers = hs.text;
      body = b.text;
      rest = b.rest;
      front = hs.front ∙ ap (◌++◌ (framed_text hs.text)) b.front;
      fits_headers = hs.fits;
      fits_body = b.fits;
      numbers = numbers-inv method path hs.text env b.text b.rest b.octets b.goes_on;
    }

abbrev path_behind : Envelope → Bytes × Bytes → Option Envelope
path_behind env x = do
  (path_len, bin) ← read_le 4 x.1
  (path, bin) ← read_bytes path_len bin
  (headers_len, bin) ← read_le 4 bin
  (headers, bin) ← read_bytes headers_len bin
  texts_behind x.0 path env (headers, bin)

abbrev rest_behind : Bytes → Envelope → Bytes × Bytes → Option Envelope
rest_behind method env x = do
  (headers_len, bin) ← read_le 4 x.1
  (headers, bin) ← read_bytes headers_len bin
  texts_behind method x.0 env (headers, bin)

decode_request-inv :
    (bin : Bytes) (env : Envelope) → IsOctets bin → decode_request bin ≡ some env → IsFrame bin env
unfolding decode_request
decode_request-inv bin env o h =
    let m = text-inv bin (path_behind env) env o h in
    let p = text-inv m.rest (rest_behind m.text env) env m.octets m.goes_on in
    let b = body-inv m.text p.text p.rest env p.octets p.goes_on in
    let n = b.numbers in
    let fits : FitsWire m.text p.text b.headers b.body n.trace_id n.span_id n.hints = record {
      fits_method = m.fits;
      fits_path = p.fits;
      fits_headers = b.fits_headers;
      fits_body = b.fits_body;
      fits_trace = n.fits_trace;
      fits_span = n.fits_span;
      fits_hints = n.fits_hints;
    } in
    let front : bin ≡ envelope_bytes m.text p.text b.headers b.body n.trace_id n.span_id n.hints =
      m.front
      ∙ ap (◌++◌ (framed_text m.text)) (
          p.front
          ∙ ap (◌++◌ (framed_text p.text)) (
              b.front
              ∙ ap (λ (z : Bytes). framed_text b.headers ++ (framed_text b.body ++ z)) n.front)) in
    subst (IsFrame bin) n.same (record {
      body = b.body;
      fits = fits;
      written =
          front
          ∙ sym
              (write_envelope_lem m.text p.text b.headers b.body n.trace_id n.span_id n.hints fits);
      carries = refl;
      nowhere = refl;
    })

same_envelope :
    (env : Envelope) (body : Bytes)
    → env.body ≡ some body
    → env.remote ≡ none
    → sent env.method env.path env.headers_flat body env.trace_id env.span_id env.edge_hints ≡ env
same_envelope env body carries nowhere = rw⁻¹ (carries, nowhere) refl

IsFrame-decodes : (bin : Bytes) (env : Envelope) → IsFrame bin env → decode_request bin ≡ some env
IsFrame-decodes bin env f =
    rw
      (
        f.written,
        write_envelope_lem env.method env.path env.headers_flat f.body env.trace_id env.span_id
            env.edge_hints f.fits,
        decode_request-bytes env.method env.path env.headers_flat f.body env.trace_id env.span_id
            env.edge_hints f.fits,
      )
      (ap some (same_envelope env f.body f.carries f.nowhere))

-- A string of bytes is accepted as a request, with these fields, exactly if the edge writes it for
-- these fields and they fit: texts shorter than 2^32, identifiers of 64 bits, hints of 32 bits. So what
-- the edge writes is read back as it was, and a frame that is cut off, has bytes left over or a wrong
-- length in it is an invalid frame.
pub decode_request_iff :
    (bin : Bytes) (env : Envelope)
    → IsOctets bin
    → (decode_request bin ≡ some env) ↔ IsFrame bin env
decode_request_iff bin env o = (decode_request-inv bin env o, IsFrame-decodes bin env)
