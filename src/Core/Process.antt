-- ===== src/Core/Process.antt =====
-- `olwsx__process_request_impl` of core/main.cpp, with core/filters/gzip_filter.cpp.
pub mod Expected
pub mod Served
pub mod Routed
pub mod Correct
pub mod Hits
use olwsx.Base.{
  ◌>>=◌, ℕ, ◌+◌, ◌%◌, Bool, true, false, not, ◌&&◌, ◌||◌, Bytes, bytes_eq, codes, Map, get, insert,
  Option, none, some, [], ◌∷◌, ◌++◌, length, take, contains, ltb, ◌==◌, if◌then◌else◌,
}
use olwsx.Base.Int.{ℤ, pos, negsuc}
use olwsx.Core.{
  Status, ok, err_not_initialized, err_invalid_argument, err_too_large, err_alloc_failed, Slice,
  null, at, slice_len, Request, Response, RouteRule, CacheEntry, CoreState, max_header_bytes,
  max_body_bytes, max_route_bytes, u32_mod, meta_comp_none, meta_comp_gzip, meta_cache_miss,
  meta_cache_l1, meta_cache_l2, meta_cache_l3, meta_sec_ok, meta_sec_waf, meta_sec_ratelim,
}
use olwsx.Core.Router.{match_prefix}
use olwsx.Core.Security.{decide}
use olwsx.Core.Export.{Heap, free, load, export_copy}

-- What a call returns: an error code, or `OLWSX_OK` with the response filled in.
pub data Outcome : Type 0 where
  failed : Status → Outcome
  answered : Response → Outcome

abbrev pub crlf : Bytes
crlf = 13 ∷ 10 ∷ []

abbrev pub text_plain : Bytes
text_plain = codes "Content-Type: text/plain" ++ crlf

-- `to_string_view`
abbrev pub to_string : Slice → Bytes
to_string (null n) = []
to_string (at s) = s

-- `validate_request_sizes`
unfoldable pub validate_request_sizes : Request → Status
validate_request_sizes req =
    if ltb max_header_bytes (slice_len req.headers_flat)
    then err_too_large
    else if ltb max_body_bytes (slice_len req.body)
    then err_too_large
    else if ltb max_route_bytes (slice_len req.path)
    then err_too_large
    else ok

-- `compose_headers`
abbrev pub compose_headers : Bytes → Bytes → Bytes
compose_headers [] core_hdrs = core_hdrs
compose_headers (b ∷ route_hdrs) core_hdrs = (b ∷ route_hdrs) ++ core_hdrs

-- `GzipFilter::apply` on the headers and on the flags; it always returns true.
unfoldable pub gzip_headers : Bytes → Bytes
gzip_headers headers =
    if contains headers (codes "Content-Encoding: gzip")
    then headers
    else headers ++ (codes "Content-Encoding: gzip" ++ crlf)

unfoldable pub gzip_flags : ℕ → ℕ
gzip_flags flags = if flags % 2 == 1 then flags else flags + 1

abbrev pub status_of : RouteRule → ℤ
status_of rr = elim rr.status_override [
  | negsuc n ↦ pos 200
  | pos n ↦ if ltb 0 n then pos n else pos 200
]

-- The stubs of L1 and L3.
abbrev pub l1_lookup : Bytes → Option CacheEntry
l1_lookup path = none

abbrev pub l3_lookup : Bytes → Option CacheEntry
l3_lookup path = none

-- The body of a response that was computed.
unfoldable pub miss_body : Bytes → Bytes → Bytes
miss_body path method =
    codes "OLWSX Core Response (MISS): path=" ++ (path ++ (codes " method=" ++ method))

abbrev pub cached_headers : Bytes → Bytes
cached_headers level = text_plain ++ (codes "Cache: " ++ (level ++ crlf))

abbrev pub is_get : Bytes → Bool
is_get method = bytes_eq method (codes "GET")

-- The fields of the response, with what was exported at `p` and `q`.
abbrev pub filled : ℤ → Bytes → Bytes → ℕ → Option ℕ → Option ℕ → Response
filled status hdr body flags p q = record {
  status = status;
  headers_flat = p;
  headers_len = length hdr % u32_mod;
  body = q;
  body_len = length body % u32_mod;
  meta_flags = flags;
  reserved = 0;
}

-- Giving the headers back when the body got no memory.
unfoldable pub give_up : ℕ → Heap → Option (Heap × Outcome)
give_up p h = do h' ← free (some p) h; some (h', failed err_alloc_failed)

-- The three lookups of a `GET`.
unfoldable pub cached : Bytes → CoreState → Option (ℕ × (Bytes × Bytes))
cached path core = elim (l1_lookup path) [
  | some ce ↦ some (meta_cache_l1 + meta_sec_ok, (codes "L1", ce.value))
  | none ↦ elim (get path core.l2) [
    | some ce ↦ some (meta_cache_l2 + meta_sec_ok, (codes "L2", ce.value))
    | none ↦ elim (l3_lookup path) [
      | some ce ↦ some (meta_cache_l3 + meta_sec_ok, (codes "L3", ce.value))
      | none ↦ none
    ]
  ]
]

-- `body_vec`: the body as it stands in its buffer.
unfoldable pub read_body : Option ℕ → ℕ → Heap → Option Bytes
read_body none n h = some []
read_body (some q) n h = do content ← load q h; some (take n content)

module _ (grants : ℕ → Bool) where
  -- Behind the export of the body.
  abbrev pub reply_body : ℤ → Bytes → Bytes → ℕ → ℕ → Heap × Option ℕ → Option (Heap × Outcome)
  reply_body status hdr body flags p (h, none) = give_up p h
  reply_body status hdr body flags p (h, some q) =
      some (h, answered (filled status hdr body flags (some p) (some q)))

  -- Behind the export of the headers.
  abbrev pub reply_headers : ℤ → Bytes → Bytes → ℕ → Heap × Option ℕ → Option (Heap × Outcome)
  reply_headers status hdr body flags (h, none) = some (h, failed err_alloc_failed)
  reply_headers status hdr body flags (h, some p) =
      reply_body status hdr body flags p (export_copy grants body h)

  -- The two exports of an answer and the fields of the response, as each branch but that of a route
  -- has them.
  unfoldable pub reply : ℤ → Bytes → Bytes → ℕ → Heap → Option (Heap × Outcome)
  reply status hdr body flags h = reply_headers status hdr body flags (export_copy grants hdr h)

  -- The part of the filter branch that exports the body again.
  abbrev pub reexported : Response → Bytes → Heap × Option ℕ → Option (Heap × Outcome)
  reexported resp content (h, q) =
      some (h, answered (record resp { body = q; body_len = length content % u32_mod }))

  unfoldable pub reexport : Bytes → Response → Heap → Option (Heap × Outcome)
  reexport [] resp h = some (h, answered resp)
  reexport (b ∷ content) resp h = do
    h' ← free resp.body h
    reexported resp (b ∷ content) (export_copy grants (b ∷ content) h')

  abbrev pub refiltered : Response → Bytes → Bytes → Heap × Option ℕ → Option (Heap × Outcome)
  refiltered resp hdrs content (h, p) =
      reexport content
        (record resp {
          headers_flat = p;
          headers_len = length hdrs % u32_mod;
          meta_flags = gzip_flags resp.meta_flags;
        })
        h

  -- The gzip filter on a response with the headers at `p`: the body and the headers are read, and the
  -- headers are exported again, and the body too if there is one. Neither export is checked.
  unfoldable pub refilter : ℕ → Response → Heap → Option (Heap × Outcome)
  refilter p resp h = do
    content ← read_body resp.body resp.body_len h
    hdrs ← load p h
    let hdrs_mut = gzip_headers (take resp.headers_len hdrs)
    h' ← free (some p) h
    refiltered resp hdrs_mut content (export_copy grants hdrs_mut h')

  abbrev pub finish : ℕ → ℕ → Response → Heap → Option (Heap × Outcome)
  finish flags p resp h = if flags % 2 == 1 then refilter p resp h else some (h, answered resp)

  abbrev pub routed_exported :
      RouteRule → Bytes → ℕ → Bytes → Heap × Option ℕ → Option (Heap × Outcome)
  routed_exported rr hdr p body (h, none) = give_up p h
  routed_exported rr hdr p body (h, some q) =
      finish rr.meta_flags p (filled (status_of rr) hdr body rr.meta_flags (some p) (some q)) h

  -- The body of a rule, which may be empty.
  abbrev pub routed_body : RouteRule → Bytes → ℕ → Bytes → Heap → Option (Heap × Outcome)
  routed_body rr hdr p [] h =
      finish rr.meta_flags p (filled (status_of rr) hdr [] rr.meta_flags (some p) none) h
  routed_body rr hdr p (b ∷ body) h =
      routed_exported rr hdr p (b ∷ body) (export_copy grants (b ∷ body) h)

  abbrev pub routed_headers : RouteRule → Bytes → Heap × Option ℕ → Option (Heap × Outcome)
  routed_headers rr hdr (h, none) = some (h, failed err_alloc_failed)
  routed_headers rr hdr (h, some p) = routed_body rr hdr p rr.static_body h

  -- The branch of a route that matched.
  unfoldable pub routed : RouteRule → Heap → Option (Heap × Outcome)
  routed rr h =
      let hdr = compose_headers rr.resp_headers (codes "Cache: MISS" ++ crlf) in
      routed_headers rr hdr (export_copy grants hdr h)

  -- What follows when nothing was found: a `GET` with a path leaves the body in L2.
  unfoldable pub computed :
      ℕ → Bytes → Bytes → CoreState → Heap → CoreState × Option (Heap × Outcome)
  computed now path method core h =
      let body = miss_body path method in
      (
        (if is_get method && not (bytes_eq path [])
            then record core {
              l2 =
                  insert path (record { value = body; ts_ns = now; flags = meta_comp_none })
                    core.l2;
            }
            else core),
        reply (pos 200) (cached_headers (codes "MISS")) body (meta_cache_miss + meta_sec_ok) h,
      )

  -- Behind the lookups.
  abbrev pub found :
      ℕ
      → Bytes
      → Bytes
      → CoreState
      → Heap
      → Option (ℕ × (Bytes × Bytes))
      → CoreState × Option (Heap × Outcome)
  found now path method core h (some (flags, (level, value))) =
      (core, reply (pos 200) (cached_headers level) value flags h)
  found now path method core h none = computed now path method core h

  -- Behind the routing.
  abbrev pub dispatch :
      ℕ → Bytes → Bytes → CoreState → Heap → Option RouteRule → CoreState × Option (Heap × Outcome)
  dispatch now path method core h (some rr) = (core, routed rr h)
  dispatch now path method core h none =
      found now path method core h (if is_get method then cached path core else none)

  -- What follows the security decision `OK`.
  unfoldable pub serve : ℕ → Bytes → Bytes → CoreState → Heap → CoreState × Option (Heap × Outcome)
  serve now path method core h = dispatch now path method core h (match_prefix path core.rules)

  -- What follows the checks.
  unfoldable pub gate : ℕ → Request → CoreState → Heap → CoreState × Option (Heap × Outcome)
  gate now req core h =
      let (core', sec_flag) = decide req.edge_hints core in
      if sec_flag == meta_sec_waf
      then (
        core',
        reply (pos 403) text_plain (codes "Forbidden (WAF)") (meta_sec_waf + meta_cache_miss) h,
      )
      else if sec_flag == meta_sec_ratelim
      then (
        core',
        reply (pos 429) (text_plain ++ (codes "Retry-After: 1" ++ crlf))
            (codes "Too Many Requests (Rate Limit)") (meta_sec_ratelim + meta_cache_miss) h,
      )
      else serve now (to_string req.path) (to_string req.method) core' h

  -- The whole call; `resp` tells whether the caller gave a response to fill in.
  unfoldable pub process_request :
      ℕ → Option Request → Bool → CoreState → Heap → CoreState × Option (Heap × Outcome)
  process_request now req resp core h =
      if not core.running then (core, some (h, failed err_not_initialized)) else elim req [
        | none ↦ (core, some (h, failed err_invalid_argument))
        | some r ↦
            if not resp
            then (core, some (h, failed err_invalid_argument))
            else elim (validate_request_sizes r) [
              | ok ↦ gate now r core h
              | s ↦ (core, some (h, failed s))
            ]
      ]
