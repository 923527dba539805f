-- ===== src/Edge/Tests.antt =====
-- Runs of the edge (edge/) on concrete inputs.
use olwsx.Base.{
  false, not, ◌==◌, length, ℕ, ◌+◌, ◌-◌, ◌*◌, ◌/◌, ◌≤◌, ◌≡◌, refl, Bool, true, Bytes, codes, none,
  some, Option, List, [], ◌∷◌, ◌++◌, replicate, arith, read_le, read_bytes, leb, ◌&&◌,
}
use olwsx.Base.Int.{pos, negsuc}
use olwsx.Edge.Wire.{read_exactly, read_str, read_response}
use olwsx.Edge.RateLimit.{bucket_capacity, refill_per_second, second, refill, limited_host, limited}
use olwsx.Edge.RateLimit.Bound.{Within, passes, after, passes-bound}
use olwsx.Edge.CoreCall.{CoreAnswer, answered}
use olwsx.Edge.Headers.{flatten_headers, parse_flat, split_lines}
use olwsx.Edge.Headers.RoundTrip.{NoCr, IsClean, lines, parse_flat-flatten_headers}
use olwsx.Edge.Dispatch.{HttpRequest, handler}
use olwsx.Edge.Dispatch.Blocks.{IsPassed, handled, handler-Blocks}
use olwsx.Actors.Codec.Frames.{FitsWire}
use olwsx.Actors.Shield.{check}
use olwsx.Actors.Manager.{Outside}
use olwsx.Actors.Listener.{World}
use olwsx.Actors.Listener.EndToEnd.{IsQuiet}

-- Addresses without a port.
abbrev no_port : Bytes → Option Bytes
no_port remote = none

-- 61 calls in a row, and one a second later.
abbrev burst : List (Bytes × ℕ)
burst =
    replicate 61 (codes "10.0.0.1", 5)
    ++ (codes "10.0.0.2", 6) ∷ (codes "10.0.0.1", 1_000_000_005) ∷ []

abbrev in_span : ℕ → ℕ → List (Bytes × ℕ) → Bool
in_span since until [] = true
in_span since until ((remote, now) ∷ calls) =
    (leb since now && leb now until) && in_span since until calls

in_span-Within :
    (host : Bytes) (since until : ℕ) (calls : List (Bytes × ℕ))
    → in_span since until calls ≡ true
    → Within no_port host since until calls
in_span-Within host since until [] h = tt
in_span-Within host since until ((remote, now) ∷ calls) h =
    (λ e. ground arith, in_span-Within host since until calls (ground arith))

-- A host that called once at the start, and 59 and 30 times a second later.
abbrev late : List (Bytes × ℕ)
late =
    replicate 59 (codes "10.0.0.1", 900_000_000) ++ replicate 30 (codes "10.0.0.1", 1_000_000_000)

passes-bound_example :
    passes no_port (codes "10.0.0.1") late (after no_port ((codes "10.0.0.1", 0) ∷ []) [])
    ≤ bucket_capacity + refill_per_second * ((1_000_000_000 - 900_000_000) / second + 1)
passes-bound_example =
    passes-bound no_port (codes "10.0.0.1") 900_000_000 1_000_000_000 ((codes "10.0.0.1", 0) ∷ [])
      late (in_span-Within (codes "10.0.0.1") 900_000_000 1_000_000_000 late refl)

-- Within a tenth of a second they pass 89 times.
late-passes :
    passes no_port (codes "10.0.0.1") late (after no_port ((codes "10.0.0.1", 0) ∷ []) []) ≡ 89
unfolding passes after limited limited_host refill
late-passes = refl

burst-passes : passes no_port (codes "10.0.0.1") burst [] ≡ 61
unfolding passes limited limited_host refill
burst-passes = refl

-- A negative status, and bytes after the end, which are not looked at.
read :
    read_response
      (255 ∷ 255 ∷ 255 ∷ 255 ∷ 1 ∷ 0 ∷ 0 ∷ 0 ∷ 65 ∷ 0 ∷ 0 ∷ 0 ∷ 0 ∷ 7 ∷ 0 ∷ 0 ∷ 0 ∷ 99 ∷ [])
    ≡ some (record { status = negsuc 0; headers_flat = codes "A"; body = []; meta_flags = 7 })
unfolding read_response read_str read_exactly read_le read_bytes
read = refl

abbrev cookies : List (Bytes × List Bytes)
cookies = (codes "Cookie", codes "a=1" ∷ codes "b=2" ∷ []) ∷ (codes "X", codes "y" ∷ []) ∷ []

abbrev no_cr : Bytes → Bool
no_cr [] = true
no_cr (b ∷ s) = not (b == 13) && no_cr s

no_cr-NoCr : (s : Bytes) → no_cr s ≡ true → NoCr s
no_cr-NoCr [] h = tt
no_cr-NoCr (b ∷ s) h = (ground arith, no_cr-NoCr s (ground arith))

cookies-IsClean : IsClean cookies
cookies-IsClean = (
  (
    no_cr-NoCr (codes "Cookie") refl,
    (no_cr-NoCr (codes "a=1") refl, (no_cr-NoCr (codes "b=2") refl, tt)),
  ),
  ((no_cr-NoCr (codes "X") refl, (no_cr-NoCr (codes "y") refl, tt)), tt),
)

parse_flat-flatten_headers_example :
    (parse_flat (flatten_headers cookies).0 ≡ lines cookies)
    × ((flatten_headers cookies).1 ≡ length (flatten_headers cookies).0)
parse_flat-flatten_headers_example = parse_flat-flatten_headers cookies cookies-IsClean

cookie_lines :
    parse_flat (flatten_headers cookies).0
    ≡ codes "Cookie: a=1" ∷ codes "Cookie: b=2" ∷ codes "X: y" ∷ []
unfolding parse_flat flatten_headers split_lines
cookie_lines = refl

abbrev traversal : HttpRequest
traversal = record {
  method = codes "GET";
  uri = codes "/../etc";
  user_agent = codes "curl/8";
  remote = codes "10.0.0.1:99";
  content_length = negsuc 0;
  headers = cookies;
  body = [];
  read_fails = false;
}

-- The checks of the edge, and spaces left alone.
abbrev flags_all : Bytes → Bytes → Bool
flags_all path ua = true

abbrev challenges_none : Bytes → Bool
challenges_none remote = false

abbrev limits_all : Bytes → ℕ → ℕ × Bool
limits_all remote n = (n + 1, true)

abbrev untrimmed : Bytes → Bytes
untrimmed s = s

abbrev failing : Outside
failing = record { starts = true; in_time = true; answers = λ n. none }

abbrev world : World
world = record { buckets = []; count = 0 }

quiet : IsQuiet 10 failing 5 world
unfolding check
quiet = record { unlimited = refl; room = omega arith; starts = refl; in_time = refl }

passed : IsPassed 2097152 67108864 traversal
unfolding flatten_headers
passed = record { short_body = refl; short_headers = refl; readable = refl }

fits : FitsWire (codes "GET") (codes "/../etc") (flatten_headers cookies).0 [] 258 1 0
unfolding flatten_headers
fits = record {
  fits_method = omega arith;
  fits_path = omega arith;
  fits_headers = omega arith;
  fits_body = omega arith;
  fits_trace = omega arith;
  fits_span = omega arith;
  fits_hints = omega arith;
}

handler-Blocks_example :
    ((handled untrimmed challenges_none flags_all limits_all 2097152 67108864 true 1048576 10 1
        failing 5 world traversal
        (258, 1)
        0).1.status
      ≡ pos 403)
    × ((handled untrimmed challenges_none flags_all limits_all 2097152 67108864 true 1048576 10 1
          failing 5 world traversal
          (258, 1)
          0).1.body
        ≡ codes "Forbidden (WAF)")
unfolding flatten_headers
handler-Blocks_example =
    handler-Blocks untrimmed challenges_none flags_all limits_all 2097152 67108864 true 1048576 10 1
      failing 5 world traversal 258 1 0 refl passed fits
      (record { bounded = omega arith; returned = refl }) quiet

-- A body without a length is cut off at the limit and passed on.
abbrev echo : Bytes → Bytes → Bytes → Bytes → ℕ → ℕ → ℕ → CoreAnswer
echo method path headers body trace_id span_id hints =
    answered (record { status = pos 200; headers_flat = []; body = body; meta_flags = hints })

cut_off :
    (handler untrimmed challenges_none flags_all limits_all echo 2097152 3
      (record traversal { body = codes "abcdef" })
      (258, 1)
      0).1.body
    ≡ codes "abc"
unfolding handler flatten_headers parse_flat
cut_off = refl
