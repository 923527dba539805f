-- ===== src/Core/Control.antt =====
-- The other calls of the C ABI, from core/main.cpp: start and stop, configuration, and the L2 cache.
-- The forwarders of core/abi/ffi_bridge.cpp add nothing to them.
pub mod Invariant
use olwsx.Base.{
  ℕ, ◌+◌, Bool, true, false, not, Bytes, codes, Map, get, insert, remove, Option, none, some, List,
  [], ◌∷◌, ◌++◌, length, ltb, ◌==◌, if◌then◌else◌,
}
use olwsx.Base.Int.{pos}
use olwsx.Core.{
  Status, ok, err_not_initialized, err_invalid_argument, err_too_large, err_not_found, Slice, null,
  at, slice_len, Request, RouteRule, CacheEntry, CoreState, max_key_bytes, meta_comp_none,
  meta_cache_miss, meta_sec_ok,
}
use olwsx.Core.Router.{set_rules}
use olwsx.Core.Export.{Heap}
use olwsx.Core.Process.{crlf, to_string, process_request}

-- `CacheL2::insert` and `CacheL2::erase`
unfoldable pub l2_insert : ℕ → Bytes → Bytes → ℕ → CoreState → CoreState
l2_insert now key val flags core = record core {
  l2 = insert key (record { value = val; ts_ns = now; flags = flags }) core.l2;
}

unfoldable pub l2_erase : Bytes → CoreState → CoreState
l2_erase key core = record core { l2 = remove key core.l2 }

abbrev default_rule : Bytes → Bytes → RouteRule
default_rule prefix body = record {
  match_prefix = prefix;
  status_override = pos 200;
  static_body = body;
  resp_headers = codes "Content-Type: text/plain" ++ crlf;
  meta_flags = meta_comp_none + meta_cache_miss + meta_sec_ok;
}

abbrev pub default_rules : List RouteRule
default_rules =
    default_rule (codes "/__status") (codes "OK")
    ∷ default_rule (codes "/__hello") (codes "Hello, OLWSX!")
    ∷ []

-- `olwsx_core_state_t`
pub record Descriptor : Type 0 where
  pub epoch_ns : ℕ
  pub flags : ℕ
  pub reserved : ℕ
  pub v_major : ℕ
  pub v_minor : ℕ
  pub v_patch : ℕ

-- `olwsx__core_init_impl`: `now` is the clock of the cache, `epoch_ns` the wall clock.
unfoldable pub core_init : ℕ → ℕ → CoreState → CoreState × Descriptor
core_init now epoch_ns core =
    let warm =
      l2_insert now (codes "/hello") (codes "Hello from OLWSX Core (L2 cached)") meta_comp_none
        (record core { running = true }) in
    (
      set_rules default_rules warm,
      record {
        epoch_ns = epoch_ns;
        flags = 3;
        reserved = 0;
        v_major = 1;
        v_minor = 0;
        v_patch = 0;
      },
    )

-- `olwsx__core_shutdown_impl`
unfoldable pub core_shutdown : CoreState → CoreState
core_shutdown core = record core { running = false }

-- `olwsx__core_status_impl`: the flags and the generation, or an error.
unfoldable pub core_status : CoreState → Status × (ℕ × ℕ)
core_status core =
    if not core.running then (err_not_initialized, (0, 0)) else (ok, (3, core.config_generation))

-- `olwsx__stage_config_impl`, on a blob or the null pointer: its bytes and its generation.
unfoldable pub stage_config : Option (Slice × ℕ) → CoreState → CoreState × Status
stage_config none core = (core, err_invalid_argument)
stage_config (some (null n, generation)) core = (core, err_invalid_argument)
stage_config (some (at [], generation)) core = (core, err_invalid_argument)
stage_config (some (at (b ∷ blob), generation)) core =
    (record core { config_generation = generation }, ok)

-- `olwsx__apply_config_impl`
unfoldable pub apply_config : ℕ → CoreState → Status
apply_config generation core = if core.config_generation == generation then ok else err_not_found

-- `olwsx__cache_invalidate_l2_impl`
unfoldable pub cache_invalidate_l2 : Slice → CoreState → CoreState × Status
cache_invalidate_l2 (null n) core = (core, err_invalid_argument)
cache_invalidate_l2 (at key) core =
    if length key == 0
    then (core, err_invalid_argument)
    else if ltb max_key_bytes (length key)
    then (core, err_too_large)
    else (l2_erase key core, ok)

-- `olwsx__cache_insert_l2_impl`
unfoldable pub cache_insert_l2 : ℕ → Slice → Slice → ℕ → CoreState → CoreState × Status
cache_insert_l2 now (null n) val flags core = (core, err_invalid_argument)
cache_insert_l2 now (at key) (null n) flags core = (core, err_invalid_argument)
cache_insert_l2 now (at key) (at val) flags core =
    if length key == 0
    then (core, err_invalid_argument)
    else if ltb max_key_bytes (length key)
    then (core, err_too_large)
    else (l2_insert now key val flags core, ok)

-- A call of the ABI that can change the state.
pub data Op : Type 0 where
  init : ℕ → ℕ → Op
  shutdown : Op
  stage : Option (Slice × ℕ) → Op
  invalidate : Slice → Op
  insert_l2 : ℕ → Slice → Slice → ℕ → Op
  process : ℕ → Option Request → Bool → Heap → Op

module _ (grants : ℕ → Bool) where
  unfoldable pub step : Op → CoreState → CoreState
  step (init now epoch) core = (core_init now epoch core).0
  step shutdown core = core_shutdown core
  step (stage blob) core = (stage_config blob core).0
  step (invalidate key) core = (cache_invalidate_l2 key core).0
  step (insert_l2 now key val flags) core = (cache_insert_l2 now key val flags core).0
  step (process now req resp h) core = (process_request grants now req resp core h).0

  unfoldable pub run : List Op → CoreState → CoreState
  run [] core = core
  run (x ∷ xs) core = run xs (step x core)
