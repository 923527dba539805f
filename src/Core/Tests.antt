-- ===== src/Core/Tests.antt =====
-- Runs of the core (core/main.cpp) on concrete requests.
use olwsx.Base.{◌+◌, ℕ, ◌≡◌, refl, Bool, true, codes, some, none, List, Bytes, arith, [], ◌∷◌, ltb}
use olwsx.Base.Int.{pos}
use olwsx.Core.Router.{match_prefix}
use olwsx.Core.Security.{decide}
use olwsx.Core.{ok, err_alloc_failed, at, RouteRule, Request, CoreState, g_core}
use olwsx.Core.Export.{Heap, free, load, alloc, export_copy}
use olwsx.Core.Control.{
  core_init, stage_config, cache_invalidate_l2, cache_insert_l2, Op, l2_insert, l2_erase, init,
  stage, invalidate, insert_l2, process, step, run,
}
use olwsx.Core.Process.{
  failed, answered, text_plain, validate_request_sizes, gzip_headers, gzip_flags, miss_body,
  give_up, cached, reply, reexport, read_body, refilter, routed, computed, serve, gate,
  process_request,
}
use olwsx.Core.Process.Expected.{hit_reply, expected}
use olwsx.Core.Process.Served.{Served}
use olwsx.Core.Process.Routed.{FitsRule}
use olwsx.Core.Process.Correct.{process_request-Served}
use olwsx.Core.Process.Hits.{IsPlainGet, replayed, process_request-repeated}
use olwsx.Core.Arena.{Arena, allocate, reset, allocate_all, Packed, allocate_all-Packed}
use olwsx.Core.Control.Invariant.{IsValid, core_run-IsValid}

abbrev request : Bytes → ℕ → Request
request path hints = record {
  path = at path;
  method = at (codes "GET");
  headers_flat = at [];
  body = at [];
  trace_id = 7;
  span_id = 9;
  edge_hints = hints;
}

abbrev zipped_rule : RouteRule
zipped_rule = record {
  match_prefix = codes "/z";
  status_override = pos 0;
  static_body = codes "body";
  resp_headers = [];
  meta_flags = 1;
}

abbrev started : CoreState
started = record g_core { running = true; rules = zipped_rule ∷ [] }

abbrev no_blocks : Heap
no_blocks = record { made = 0; live = [] }

-- The first two calls of `malloc` get memory, and no further one does.
abbrev two_only : ℕ → Bool
two_only n = ltb n 2

abbrev always : ℕ → Bool
always n = true

sized : validate_request_sizes (request (codes "/z") 0) ≡ ok
unfolding validate_request_sizes
sized = refl

zipped_fits : FitsRule zipped_rule
zipped_fits = record { fits_headers = omega arith; fits_body = omega arith }

-- The exports of the filter get no memory, and the response is returned all the same.
process_request-Served_example :
    Served two_only
      (expected (request (codes "/z") 0) started)
      no_blocks
      (process_request two_only 5 (some (request (codes "/z") 0)) true started no_blocks).1
process_request-Served_example =
    process_request-Served two_only 5 (request (codes "/z") 0) started no_blocks refl sized
      (zipped_fits, tt)

plain : IsPlainGet (request (codes "/x") 0) started
unfolding validate_request_sizes match_prefix
plain = record {
  sized = refl;
  calm = refl;
  slow = refl;
  gets = refl;
  somewhere = refl;
  unrouted = refl;
}

process_request-repeated_example :
    (process_request always 6
      (some (request (codes "/x") 0))
      true
      (process_request always 5 (some (request (codes "/x") 0)) true started no_blocks).0
      no_blocks).1
    ≡ replayed always (hit_reply (expected (request (codes "/x") 0) started).body) no_blocks
process_request-repeated_example =
    process_request-repeated always 5 6 (request (codes "/x") 0) started no_blocks no_blocks refl
      plain

abbrev calls : List Op
calls =
    init 3 4
    ∷ stage (some (at (codes "cfg"), 8))
    ∷ insert_l2 5 (at (codes "/k")) (at (codes "v")) 0
    ∷ process 6 (some (request (codes "/x") 0)) true no_blocks
    ∷ invalidate (at (codes "/hello"))
    ∷ []

core_run-IsValid_example : IsValid (run always calls g_core)
core_run-IsValid_example = core_run-IsValid always calls

-- What is left of the L2 cache after these calls: two keys, and the body of a miss.
l2_left :
    (run always calls g_core).l2
    ≡ (codes "/k", record { value = codes "v"; ts_ns = 5; flags = 0 })
      ∷ (
        codes "/x",
        record {
          value = codes "OLWSX Core Response (MISS): path=/x method=GET";
          ts_ns = 6;
          flags = 0;
        },
      )
      ∷ []
unfolding run step core_init stage_config cache_insert_l2 cache_invalidate_l2 l2_insert l2_erase
    process_request validate_request_sizes gate decide serve match_prefix cached computed miss_body
l2_left = refl

-- A hint of the firewall is answered with 403 whatever the path is.
denied :
    (process_request always 5 (some (request (codes "/z") 3)) true started no_blocks).1
    ≡ some (
      record { made = 2; live = (1, codes "Forbidden (WAF)") ∷ (0, text_plain) ∷ [] },
      answered (record {
        status = pos 403;
        headers_flat = some 0;
        headers_len = 26;
        body = some 1;
        body_len = 15;
        meta_flags = 0x0021_0000;
        reserved = 0;
      }),
    )
unfolding process_request validate_request_sizes gate decide reply export_copy alloc
denied = refl

-- An entry with an empty value makes every `GET` of its key fail, and its headers are freed.
empty_value :
    (process_request always 5
      (some (request (codes "/x") 0))
      true
      (record started { l2 = (codes "/x", record { value = []; ts_ns = 0; flags = 0 }) ∷ [] })
      no_blocks).1
    ≡ some (record { made = 1; live = [] }, failed err_alloc_failed)
unfolding process_request validate_request_sizes gate decide serve match_prefix cached reply give_up
    export_copy alloc free
empty_value = refl

-- The gzip branch without memory: a null pointer with a length that is not 0.
null_headers :
    (process_request two_only 5 (some (request (codes "/z") 0)) true started no_blocks).1
    ≡ some (
      record { made = 4; live = [] },
      answered (record {
        status = pos 200;
        headers_flat = none;
        headers_len = 37;
        body = none;
        body_len = 4;
        meta_flags = 1;
        reserved = 0;
      }),
    )
unfolding process_request validate_request_sizes gate decide serve match_prefix routed refilter
    read_body reexport gzip_headers gzip_flags export_copy alloc free load
null_headers = refl

abbrev arena : Arena
arena = record { base = 1001; size = 64; offset = 40 }

abbrev arena_requests : List (ℕ × ℕ)
arena_requests = (10, 8) ∷ (100, 1) ∷ (16, 16) ∷ []

allocate_all-Packed_example :
    Packed 1001 (1001 + 64) arena_requests (allocate_all arena_requests (reset arena))
allocate_all-Packed_example = allocate_all-Packed arena_requests arena (
  record { aligned = omega arith; reaches = omega arith; extends = omega arith },
  (
    record { aligned = omega arith; reaches = omega arith; extends = omega arith },
    (record { aligned = omega arith; reaches = omega arith; extends = omega arith }, tt),
  ),
)

arena_regions : allocate_all arena_requests (reset arena) ≡ some 1008 ∷ none ∷ some 1024 ∷ []
unfolding allocate_all allocate
arena_regions = refl

-- A size near 2^64 passes the test for room, and the next region overlaps the first one.
arena_overflows :
    allocate_all ((16, 1) ∷ (18446744073709551608, 1) ∷ (16, 1) ∷ []) (reset arena)
    ≡ some 1001 ∷ some 1017 ∷ some 1009 ∷ []
unfolding allocate_all allocate
arena_overflows = refl
