-- ===== src/Edge/Dispatch.antt =====
-- `Handler` of edge/http/dispatcher.go, as edge/main.go sets it up: a request with what its body yields,
-- and the answer as the calls on the response writer.
pub mod Blocks
use olwsx.Base.{
  ℕ, zero, suc, ◌+◌, ◌/◌, ◌%◌, ◌++◌, Bool, true, false, Bytes, codes, Option, none, some, List, [],
  ◌∷◌, ◌&&◌, length, take, ltb, ◌==◌, if◌then◌else◌,
}
use olwsx.Base.Int.{ℤ, pos, negsuc}
use olwsx.Edge.Wire.{Response}
use olwsx.Edge.CoreCall.{CoreAnswer, answered, code}
use olwsx.Edge.Headers.{flatten_headers, parse_flat}

-- What is used of `http.Request`. The body is what a reader gets until it ends or fails.
pub record HttpRequest : Type 0 where
  pub method : Bytes
  pub uri : Bytes
  pub user_agent : Bytes
  pub remote : Bytes
  pub content_length : ℤ
  pub headers : List (Bytes × List Bytes)
  pub body : Bytes
  pub read_fails : Bool

-- `w.Header().Set` and `w.Header().Add`
pub data HeaderCall : Type 0 where
  set : Bytes → Bytes → HeaderCall
  add : Bytes → Bytes → HeaderCall

pub record Answer : Type 0 where
  pub calls : List HeaderCall
  pub status : ℤ
  pub body : Bytes

-- `errorTooLarge` and `errorBadGateway`, behind the header calls that were made before.
abbrev pub error_too_large : List HeaderCall → Bytes → Answer
error_too_large before msg = record {
  calls = before ++ set (codes "Content-Type") (codes "text/plain") ∷ [];
  status = pos 413;
  body = msg;
}

abbrev pub error_bad_gateway : List HeaderCall → Bytes → Answer
error_bad_gateway before msg = record {
  calls = before ++ set (codes "Content-Type") (codes "text/plain") ∷ [];
  status = pos 502;
  body = msg;
}

-- The `%d` of a code; the first argument bounds the digits.
abbrev pub decimal : ℕ → ℕ → Bytes
decimal zero n = []
decimal (suc fuel) n =
    let rest = decimal fuel (n / 10) in
    if ltb n 10 then (48 + n) ∷ [] else rest ++ (48 + n % 10) ∷ []

-- The `%016x` of an identifier
abbrev pub hex_digit : ℕ → ℕ
hex_digit d = if ltb d 10 then 48 + d else 87 + d

abbrev pub hex : ℕ → ℕ → Bytes
hex zero v = []
hex (suc n) v = hex n (v / 16) ++ hex_digit (v % 16) ∷ []

-- `strings.SplitN(hv, ":", 2)`, where it has two parts
abbrev pub with_first : ℕ → Option (Bytes × Bytes) → Option (Bytes × Bytes)
with_first b none = none
with_first b (some (name, value)) = some (b ∷ name, value)

unfoldable pub split_colon : Bytes → Option (Bytes × Bytes)
split_colon [] = none
split_colon (b ∷ s) =
    let rest = split_colon s in if b == 58 then some ([], s) else with_first b rest

-- The three hints are different bits.
abbrev pub hints_of : Bool → Bool → Bool → ℕ
hints_of challenged blocked limited =
    (if challenged then 4 else 0) + ((if blocked then 2 else 0) + (if limited then 1 else 0))

abbrev pub too_long : ℤ → ℕ → Bool
too_long (pos n) max = ltb max n
too_long (negsuc n) max = false

abbrev pub retry_after : Bool → List HeaderCall
retry_after limited = if limited then set (codes "Retry-After") (codes "1") ∷ [] else []

-- `strings.TrimSpace` is the argument `trim`.
module _ (trim : Bytes → Bytes) where
  abbrev pub emit_line : Option (Bytes × Bytes) → List HeaderCall
  emit_line none = []
  emit_line (some (name, value)) = add (trim name) (trim value) ∷ []

  abbrev pub emit_lines : List Bytes → List HeaderCall
  emit_lines [] = []
  emit_lines (hv ∷ lines) = emit_line (split_colon hv) ++ emit_lines lines

  abbrev pub emit : List HeaderCall → ℕ → CoreAnswer → Answer
  emit before trace_id (code n) =
      error_bad_gateway before (codes "Core/Actor error: " ++ decimal (suc n) n)
  emit before trace_id (answered resp) = record {
    calls =
        before
        ++ (emit_lines (parse_flat resp.headers_flat)
            ++ set (codes "X-Trace-ID") (hex 16 trace_id) ∷ []);
    status = resp.status;
    body = resp.body;
  }

  module _ {S : Type 0} (challenge_check : Bytes → Bool) (waf_check : Bytes → Bytes → Bool)
      (rate_check : Bytes → S → S × Bool)
      (core_call : Bytes → Bytes → Bytes → Bytes → ℕ → ℕ → ℕ → CoreAnswer)
      (max_header max_body : ℕ) where
    -- Behind the rate limiter.
    abbrev pub forward : HttpRequest → ℕ × ℕ → Bool → Answer
    forward r (trace_id, span_id) limited =
        let (flat, size) = flatten_headers r.headers in
        let hints = hints_of (challenge_check r.remote) (waf_check r.uri r.user_agent) limited in
        if ltb max_header size
        then error_too_large (retry_after limited) (codes "Headers too large")
        else if r.read_fails && ltb (length r.body) max_body
        then error_bad_gateway (retry_after limited) (codes "Read body failed")
        else emit (retry_after limited) trace_id
            (core_call r.method r.uri flat (take max_body r.body) trace_id span_id hints)

    -- `Handler`; the state is that of the rate limiter, and `ids` are the new identifiers.
    unfoldable pub handler : HttpRequest → ℕ × ℕ → S → S × Answer
    handler r ids s =
        if too_long r.content_length max_body
        then (s, error_too_large [] (codes "Body too large"))
        else (let (s', limited) = rate_check r.remote s in (s', forward r ids limited))
