-- ===== src/Cache/Shared.antt =====
-- The locks of cache/l1.rs, cache/l2.rs and cache/l3.rs: threads that share one cache through its
-- `Arc`, each in a call of a trait method, interleaved in any order. L2 and L3 take their `RwLock` by
-- `write()` only, so all three exclude one another as a `Mutex` does.
mod Lock
mod Linear
mod Handles
mod Calls
mod Observed
mod Progress
mod Tests
use olwsx.Base.{ℕ, ◌≡◌, Option, none, some, List, [], ◌∷◌, ◌==◌, Bytes, if◌then◌else◌}
use olwsx.Cache.{Entry, Cache, Result, err}
use olwsx.Cache.Contract.{Call, lookup, insert, invalidate}

pub data Answer : Type 0 where
  found : Result Entry → Answer
  done : Result (Unit {0}) → Answer

-- A cache as its callers reach it: the body of each method, and the calls that are answered before
-- the lock is taken.
pub record SharedCache (S : Type 0) : Type 0 where
  pub cache : Cache S
  pub early : Call → Option Answer

-- The body of a call, on the state behind the lock.
unfoldable pub perform : {S : Type 0} → Cache S → Call → S → S × Answer
perform c (lookup now k) s = let (s', r) = c.lookup now k s in (s', found r)
perform c (insert k e) s = let (s', r) = c.insert k e s in (s', done r)
perform c (invalidate k) s = let (s', r) = c.invalidate k s in (s', done r)

-- Where a thread stands in its call. In the body it works on what it read of the state, and writes
-- when it is done: what another thread wrote in between would be lost.
pub data Pc (S : Type 0) : Type 0 where
  idle : Pc S
  entered : Call → Pc S  -- at the start of the method
  locked : Call → Pc S  -- behind `lock().unwrap()` or `write().unwrap()`
  working : Call → S → Pc S  -- in the body, with the state that it read
  leaving : Call → Answer → Pc S  -- about to drop the guard and to return

-- A call that has taken effect, and the thread that made it.
pub record Event : Type 0 where
  pub thread : ℕ
  pub call : Call
  pub answer : Answer

-- `holder` is the thread that holds the guard. `log` has the calls in the order in which they took
-- effect, and `seen` what each thread got back, both with the latest first.
pub record System (S : Type 0) : Type 0 where
  pub mem : S
  pub holder : Option ℕ
  pub pc : ℕ → Pc S
  pub log : List Event
  pub seen : ℕ → List Event

abbrev pub update {ℓ} : {A : Type ℓ} → (ℕ → A) → ℕ → A → ℕ → A
update f i a j = if i == j then a else f j

abbrev pub start : {S : Type 0} → S → System S
start s = record { mem = s; holder = none; pc = λ _. idle; log = []; seen = λ _. [] }

module _ {S : Type 0} (c : SharedCache S) where
  -- One step of one thread.
  pub data Step (s : System S) : System S → Type 0 where
    call : (i : ℕ) (x : Call) → s.pc i ≡ idle → Step s (record s { pc = update s.pc i (entered x) })
    refuse :
        (i : ℕ) (x : Call) (a : Answer)
        → s.pc i ≡ entered x
        → c.early x ≡ some a
        → Step s (record s {
          pc = update s.pc i idle;
          log = record { thread = i; call = x; answer = a } ∷ s.log;
          seen = update s.seen i (record { thread = i; call = x; answer = a } ∷ s.seen i);
        })
    acquire :
        (i : ℕ) (x : Call)
        → s.pc i ≡ entered x
        → c.early x ≡ none
        → s.holder ≡ none
        → Step s (record s { holder = some i; pc = update s.pc i (locked x) })
    load :
        (i : ℕ) (x : Call)
        → s.pc i ≡ locked x
        → Step s (record s { pc = update s.pc i (working x s.mem) })
    body :
        (i : ℕ) (x : Call) (m : S)
        → s.pc i ≡ working x m
        → Step s (record s {
          mem = (perform c.cache x m).0;
          pc = update s.pc i (leaving x (perform c.cache x m).1);
          log = record { thread = i; call = x; answer = (perform c.cache x m).1 } ∷ s.log;
        })
    release :
        (i : ℕ) (x : Call) (a : Answer)
        → s.pc i ≡ leaving x a
        → Step s (record s {
          holder = none;
          pc = update s.pc i idle;
          seen = update s.seen i (record { thread = i; call = x; answer = a } ∷ s.seen i);
        })

  pub data Reach (s₀ : S) : System S → Type 0 where
    here : Reach s₀ (start s₀)
    next : {s t : System S} → Reach s₀ s → Step s t → Reach s₀ t
