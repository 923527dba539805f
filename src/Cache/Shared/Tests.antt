-- ===== src/Cache/Shared/Tests.antt =====
-- Two threads on one L2 cache (cache/l2.rs), and the theorems on shared caches at their steps.
use olwsx.Base.{◌≡◌, refl, false, Bytes, none, some, List, [], ◌∷◌, codes}
use olwsx.Cache.{Entry, is_expired, ok}
use olwsx.Cache.Contract.{Call, ideal}
use olwsx.Cache.L2 as L2
use olwsx.Cache.L2.Refines.{accepts}
use olwsx.Cache.Shared.{
  perform, done, Event, System, call, acquire, load, body, release, Reach, here, next,
}
use olwsx.Cache.Shared.Handles.{l2_handle, too_large_early}
use olwsx.Cache.Shared.Linear.{IsLinear}
use olwsx.Cache.Shared.Progress.{CanReturn, Reach-CanReturn}
use olwsx.Cache.Shared.Calls.{calls}
use olwsx.Cache.Shared.Observed.{l2_handle-IsLinear, l2_handle_lookup}

handle : Unit {0}
unfolding too_large_early perform is_expired L2.l2 L2.new L2.lookup L2.insert L2.store L2.touch
    L2.position L2.remove_at L2.shrink_all L2.shrink
handle = tt

abbrev key_a : Bytes
key_a = codes "/a"

abbrev entry : Entry
entry = record { value = codes "hello"; flags = 0; ts = 0; ttl = 10 }

abbrev Shared2 : Type 0
Shared2 = (s : System L2.State) × Reach l2_handle L2.new s

-- Thread 0 holds the lock, and thread 1 waits for it.
abbrev contended : Shared2
unfolding handle
contended = (
  _,
  next
      (next (next here (call 0 (Call.insert key_a entry) refl)) (call 1 (Call.lookup 5 key_a) refl))
      (acquire 0 (Call.insert key_a entry) refl refl refl),
)

-- Thread 0 has returned, and thread 1 is about to.
abbrev served : Shared2
unfolding handle
served = (
  _,
  next
      (next
        (next
          (next
            (next (next contended.1 (load 0 (Call.insert key_a entry) refl))
              (body 0 (Call.insert key_a entry) L2.new refl))
            (release 0 (Call.insert key_a entry) (done (ok tt)) refl))
          (acquire 1 (Call.lookup 5 key_a) refl refl refl))
        (load 1 (Call.lookup 5 key_a) refl))
      (body 1 (Call.lookup 5 key_a) _ refl),
)

-- Thread 1 waits behind thread 0, and can return all the same.
Reach-CanReturn_example : CanReturn l2_handle contended.0 1 (Call.lookup 5 key_a) 7
unfolding handle
Reach-CanReturn_example =
    Reach-CanReturn l2_handle L2.new contended.0 1 (Call.lookup 5 key_a) contended.1 refl

l2_handle-IsLinear_example : IsLinear l2_handle L2.new served.0
l2_handle-IsLinear_example = l2_handle-IsLinear served.0 served.1

abbrev inserted_first : List Event
inserted_first = record { thread = 0; call = Call.insert key_a entry; answer = done (ok tt) } ∷ []

l2_handle_lookup_example :
    (ideal L2.store accepts (Call.insert key_a entry ∷ []) (λ _. none) key_a ≡ some entry)
    × (is_expired 5 entry ≡ false)
unfolding handle calls
l2_handle_lookup_example = l2_handle_lookup served.0 [] inserted_first 1 5 key_a entry served.1 refl
