-- ===== src/Cache/Shared/Observed.antt =====
-- What threads that share a cache (cache/l1.rs, cache/l2.rs, cache/l3.rs) observe.
use mathlib.Core.Path.{subst}
use olwsx.Base.{ℕ, ◌≡◌, sym, ◌∙◌, false, Bytes, none, some, List, ◌∷◌, ◌++◌, arith}
use olwsx.Cache.{Entry, is_expired, Result, ok}
use olwsx.Cache.Contract.{Call, ideal}
use olwsx.Cache.L1 as L1
use olwsx.Cache.L1.Invariant as Fifo
use olwsx.Cache.L1.Invariant.{l1-run-IsValid}
use olwsx.Cache.L2 as L2
use olwsx.Cache.L3 as L3
use olwsx.Cache.L2.Refines.{accepts, l2_lookup-run}
use olwsx.Cache.Shared.{Answer, found, perform, Event, System, Reach, SharedCache}
use olwsx.Cache.Shared.Handles.{too_large_early, never_early, l1_handle, l2_handle, l3_handle}
use olwsx.Cache.Shared.Linear.{after, IsSequential, IsLinear, Reach-IsLinear}
use olwsx.Cache.Shared.Calls.{calls, after-run, IsSequential-back}

-- The early refusal is the one that `insert` would answer behind the lock.
too_large_early_prompt :
    (x : Call) (a : Answer) (s : L2.State) → too_large_early x ≡ some a → perform L2.l2 x s ≡ (s, a)
unfolding too_large_early perform L2.l2 L2.insert
too_large_early_prompt (Call.lookup now k) a s h = absurd (ground arith)
too_large_early_prompt (Call.insert k e) a s h = ground arith
too_large_early_prompt (Call.invalidate k) a s h = absurd (ground arith)

l2_log-IsLinear : {s : System L2.State} → Reach l2_handle L2.new s → IsLinear l2_handle L2.new s
l2_log-IsLinear r = Reach-IsLinear l2_handle L2.new too_large_early_prompt r

-- However threads on a shared L2 cache interleave, each of which works on what it read of the cache
-- and writes when it is done, no write is lost: the cache is as the calls of the log leave it, one
-- after the other; each call got the answer that it gets in that order; and what a thread got back is
-- what the log has of it, but for a call that it has not returned from.
pub l2_handle-IsLinear :
    (s : System L2.State) → Reach l2_handle L2.new s → IsLinear l2_handle L2.new s
l2_handle-IsLinear s r = l2_log-IsLinear r

-- The methods of L1 and L3 have no early answer.
never_early_prompt :
    {S : Type 0} (c : SharedCache S) (x : Call) (a : Answer) (s : S)
    → never_early x ≡ some a
    → perform c.cache x s ≡ (s, a)
unfolding never_early
never_early_prompt c x a s h = absurd (cc)

-- The same of threads on a shared L1 cache.
l1_handle-IsLinear :
    (s : System L1.State)
    → Reach l1_handle L1.new s
    → IsLinear l1_handle L1.new s × Fifo.IsValid s.mem
l1_handle-IsLinear s r =
    let v = Reach-IsLinear l1_handle L1.new (never_early_prompt l1_handle) r in
    (
      v,
      subst Fifo.IsValid (sym (v.memory ∙ after-run l1_handle L1.new s.log))
          (l1-run-IsValid (calls s.log)).0,
    )

-- And of threads on a shared L3 cache.
l3_handle-IsLinear : (s : System L3.State) → Reach l3_handle L3.new s → IsLinear l3_handle L3.new s
l3_handle-IsLinear s r = Reach-IsLinear l3_handle L3.new (never_early_prompt l3_handle) r

found_inj : {a b : Result Entry} → found a ≡ found b → a ≡ b
found_inj h = cc

-- However the calls interleave, a lookup that was answered with an entry was answered with the one
-- that the calls before it in the log left in an unbounded store, and which had not expired.
pub l2_handle_lookup :
    (s : System L2.State) (newer older : List Event) (i now : ℕ) (k : Bytes) (e : Entry)
    → Reach l2_handle L2.new s
    → s.log
      ≡ newer ++ record { thread = i; call = Call.lookup now k; answer = found (ok e) } ∷ older
    → (ideal L2.store accepts (calls older) (λ _. none) k ≡ some e) × (is_expired now e ≡ false)
unfolding perform
l2_handle_lookup s newer older i now k e r split =
    let own : Event = record { thread = i; call = Call.lookup now k; answer = found (ok e) } in
    let answers = subst (IsSequential l2_handle L2.new) split (l2_log-IsLinear r).answers in
    let served = (IsSequential-back l2_handle L2.new newer (own ∷ older) answers).0 in
    let before : L2.State = after l2_handle L2.new older in
    let answer : (L2.l2.lookup now k before).1 ≡ ok e = found_inj (sym served) in
    l2_lookup-run (calls older) now k e
      (subst (λ m. (L2.l2.lookup now k m).1 ≡ ok e) (after-run l2_handle L2.new older) answer)
