-- ===== src/Cache/Shared/Handles.antt =====
-- The handles `L1`, `L2` and `L3` of cache/l1.rs, cache/l2.rs and cache/l3.rs, as threads share them.
use olwsx.Base.{Option, none, some, ltb, length, if◌then◌else◌}
use olwsx.Cache.{err, too_large}
use olwsx.Cache.Contract.{Call, lookup, insert, invalidate}
use olwsx.Cache.L1 as L1
use olwsx.Cache.L2 as L2
use olwsx.Cache.L3 as L3
use olwsx.Cache.Shared.{Answer, done, SharedCache}

-- Every method of L1 and L3 takes the lock first.
unfoldable pub never_early : Call → Option Answer
never_early x = none

-- `insert` of L2 looks at the size of the value before it takes the lock.
unfoldable pub too_large_early : Call → Option Answer
too_large_early (lookup now k) = none
too_large_early (insert k e) =
    if ltb L2.max_value_bytes (length e.value) then some (done (err too_large)) else none
too_large_early (invalidate k) = none

abbrev pub l1_handle : SharedCache L1.State
l1_handle = record { cache = L1.l1; early = never_early }

abbrev pub l2_handle : SharedCache L2.State
l2_handle = record { cache = L2.l2; early = too_large_early }

abbrev pub l3_handle : SharedCache L3.State
l3_handle = record { cache = L3.l3; early = never_early }
