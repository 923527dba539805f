-- ===== src/Core/Security.antt =====
-- `SecurityGate` of core/main.cpp.
use olwsx.Base.{ℕ, ◌+◌, ◌/◌, ◌%◌, Bool, ◌==◌, if◌then◌else◌}
use olwsx.Core.{CoreState, u64_mod, meta_sec_waf, meta_sec_ratelim, meta_sec_ok}

-- `edge_hints & 0x2`
abbrev pub waf_hint : ℕ → Bool
waf_hint hints = (hints / 2) % 2 == 1

-- `edge_hints & 0x1`
abbrev pub rate_hint : ℕ → Bool
rate_hint hints = hints % 2 == 1

-- `decide`: the counter, and the flag.
unfoldable pub decide : ℕ → CoreState → CoreState × ℕ
decide hints core =
    if waf_hint hints
    then (record core { waf_total = (core.waf_total + 1) % u64_mod }, meta_sec_waf)
    else if rate_hint hints
    then (record core { rl_total = (core.rl_total + 1) % u64_mod }, meta_sec_ratelim)
    else (record core { ok_total = (core.ok_total + 1) % u64_mod }, meta_sec_ok)
