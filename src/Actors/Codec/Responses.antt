-- ===== src/Actors/Codec/Responses.antt =====
-- The response that the actors encode (actors/lib/olwsx/actors/codec.ex) is the one that the edge reads
-- (edge/wire/deserialize.go).
use olwsx.Base.{
  ℕ, ◌%◌, ◌^◌, ◌<◌, ◌≡◌, refl, ◌++◌, [], ◌∷◌, lt→ltb, false, ◌==◌, Bytes, some, length, take-append,
  drop-append, length-append, arith, read_le-append, read_le-last, to_le_bytes,
}
use native.Mathlib.Nat.{mod-eq_of_lt}
use olwsx.Base.Int.{ℤ, pos, negsuc}
use olwsx.Edge.Wire.{u32_mod, to_i32, read_exactly, read_str, read_response}
use olwsx.Edge.Wire
use olwsx.Actors.{Response}
use olwsx.Actors.Codec.{low_bits, or_empty, encode_response}

abbrev pub FitsStatus : ℤ → Type 0
FitsStatus (pos n) = n < 2 ^ 31
FitsStatus (negsuc n) = n < 2 ^ 31

-- What the fields of a response on the wire hold.
pub record FitsAnswer (r : Response) : Type 0 where
  pub fits_status : FitsStatus r.status
  pub fits_headers : length r.headers_flat < u32_mod
  pub fits_body : length (or_empty r.body) < u32_mod
  pub fits_flags : r.meta_flags < u32_mod

to_i32-low_bits : (z : ℤ) → FitsStatus z → to_i32 (low_bits z) ≡ z
to_i32-low_bits (pos n) h =
    rw (mod-eq_of_lt {n = n} {m = u32_mod} (omega (arith, h)), lt→ltb n (2 ^ 31) h) refl
to_i32-low_bits (negsuc n) h =
    let small : n % u32_mod ≡ n = mod-eq_of_lt (omega (arith, h)) in ground (arith, small, h)

low_bits-small : (z : ℤ) → low_bits z < u32_mod
low_bits-small (pos n) = omega arith
low_bits-small (negsuc n) = omega arith

read_exactly-append :
    (c : ℕ) (s rest : Bytes) → read_exactly (length (c ∷ s)) (c ∷ s ++ rest) ≡ some (c ∷ s, rest)
unfolding read_exactly
read_exactly-append c s rest =
    ground (arith, take-append s rest, drop-append s rest, length-append s rest)

read_str-append :
    (s rest : Bytes)
    → length s < u32_mod
    → read_str (to_le_bytes 4 (length s) ++ (s ++ rest)) ≡ some (s, rest)
unfolding read_str
read_str-append [] rest h = simp (read_le-append 4 0 rest h)
read_str-append (c ∷ s) rest h =
    let filled : (length (c ∷ s) == 0) ≡ false = ground arith in
    simp
      (read_le-append 4 (length (c ∷ s)) ((c ∷ s) ++ rest) h, filled, read_exactly-append c s rest)

-- What the edge makes of a response of the actors.
abbrev pub as_read : Response → olwsx.Edge.Wire.Response
as_read r = record {
  status = r.status;
  headers_flat = r.headers_flat;
  body = or_empty r.body;
  meta_flags = r.meta_flags;
}

-- The edge reads every response that the actors encode as it was, with a missing body as an empty one,
-- if its status is an `int32`, its flags have 32 bits, and its texts are shorter than 2^32.
pub read_response-encode_response :
    (r : Response) → FitsAnswer r → read_response (encode_response r) ≡ some (as_read r)
unfolding read_response encode_response
read_response-encode_response r fits = simp (
  mod-eq_of_lt fits.fits_headers,
  mod-eq_of_lt fits.fits_body,
  mod-eq_of_lt fits.fits_flags,
  read_le-append 4 (low_bits r.status) _ (low_bits-small r.status),
  read_str-append r.headers_flat _ fits.fits_headers,
  read_str-append (or_empty r.body) _ fits.fits_body,
  read_le-last 4 r.meta_flags fits.fits_flags,
  to_i32-low_bits r.status fits.fits_status,
)
