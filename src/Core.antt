-- ===== src/Core.antt =====
-- The core of the server: the C ABI of core/abi/c_api.h and the state of core/main.cpp. A pointer is
-- `none` or `null` when it is the null pointer; a length is a 32-bit number beside it.
pub mod Router
pub mod Security
pub mod Export
pub mod Process
pub mod Control
pub mod Arena
mod Tests
use olwsx.Base.{ℕ, ◌*◌, ◌^◌, Bool, false, Bytes, Map, Option, List, [], ◌∷◌, length}
use olwsx.Base.Int.{ℤ}

-- `olwsx_status_t`
pub data Status : Type 0 where
  ok : Status
  err_general : Status
  err_not_initialized : Status
  err_invalid_argument : Status
  err_too_large : Status
  err_alloc_failed : Status
  err_not_found : Status
  err_unsupported : Status
  err_busy : Status

-- A pointer with a length, as the fields of a request come in pairs.
pub data Slice : Type 0 where
  null : ℕ → Slice
  at : Bytes → Slice

abbrev pub slice_len : Slice → ℕ
slice_len (null n) = n
slice_len (at s) = length s

-- `olwsx_request_t`
pub record Request : Type 0 where
  pub path : Slice
  pub method : Slice
  pub headers_flat : Slice
  pub body : Slice
  pub trace_id : ℕ
  pub span_id : ℕ
  pub edge_hints : ℕ

-- `olwsx_response_t`: the caller owns what the two pointers point to.
pub record Response : Type 0 where
  pub status : ℤ
  pub headers_flat : Option ℕ
  pub headers_len : ℕ
  pub body : Option ℕ
  pub body_len : ℕ
  pub meta_flags : ℕ
  pub reserved : ℕ

pub record RouteRule : Type 0 where
  pub match_prefix : Bytes
  pub status_override : ℤ
  pub static_body : Bytes
  pub resp_headers : Bytes
  pub meta_flags : ℕ

pub record CacheEntry : Type 0 where
  pub value : Bytes
  pub ts_ns : ℕ
  pub flags : ℕ

-- `Core` without its arena, with the members of its router, its L2 cache and its security counters.
pub record CoreState : Type 0 where
  pub running : Bool
  pub config_generation : ℕ
  pub l2 : Map CacheEntry
  pub rules : List RouteRule
  pub rl_total : ℕ
  pub waf_total : ℕ
  pub ok_total : ℕ

-- `g_core` before `olwsx_core_init`.
abbrev pub g_core : CoreState
g_core = record {
  running = false;
  config_generation = 0;
  l2 = [];
  rules = [];
  rl_total = 0;
  waf_total = 0;
  ok_total = 0;
}

abbrev pub max_header_bytes : ℕ
max_header_bytes = 2 * 1024 * 1024

abbrev pub max_body_bytes : ℕ
max_body_bytes = 64 * 1024 * 1024

abbrev pub max_key_bytes : ℕ
max_key_bytes = 64 * 1024

abbrev pub max_route_bytes : ℕ
max_route_bytes = 64 * 1024

abbrev pub u32_mod : ℕ
u32_mod = 2 ^ 32

abbrev pub u64_mod : ℕ
u64_mod = 2 ^ 64

abbrev pub meta_comp_none : ℕ
meta_comp_none = 0x0000_0000

abbrev pub meta_comp_gzip : ℕ
meta_comp_gzip = 0x0000_0001

abbrev pub meta_cache_miss : ℕ
meta_cache_miss = 0x0001_0000

abbrev pub meta_cache_l1 : ℕ
meta_cache_l1 = 0x0002_0000

abbrev pub meta_cache_l2 : ℕ
meta_cache_l2 = 0x0004_0000

abbrev pub meta_cache_l3 : ℕ
meta_cache_l3 = 0x0008_0000

abbrev pub meta_sec_ok : ℕ
meta_sec_ok = 0x0010_0000

abbrev pub meta_sec_waf : ℕ
meta_sec_waf = 0x0020_0000

abbrev pub meta_sec_ratelim : ℕ
meta_sec_ratelim = 0x0040_0000
