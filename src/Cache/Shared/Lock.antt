-- ===== src/Cache/Shared/Lock.antt =====
-- One thread at a time is between taking a cache's lock and dropping it.
use olwsx.Base.{ℕ, ◌≡◌, Bool, true, false, some, arith, ==_iff}
use olwsx.Cache.Shared.{
  Pc, idle, entered, locked, working, leaving, System, SharedCache, Step, call, refuse, acquire,
  load, body, release, Reach, here, next,
}

abbrev pub holds : {S : Type 0} → Pc S → Bool
holds idle = false
holds (entered _) = false
holds (locked _) = true
holds (working _ _) = true
holds (leaving _ _) = true

module _ {S : Type 0} where
  -- The guard is held by the thread that stands behind the lock, and by no other.
  pub record IsExclusive (s : System S) : Type 0 where
    pub held : (i : ℕ) → holds (s.pc i) ≡ true → s.holder ≡ some i
    pub owned : (i : ℕ) → s.holder ≡ some i → holds (s.pc i) ≡ true

  module _ (c : SharedCache S) where
    Step-IsExclusive : {s t : System S} → Step c s t → IsExclusive s → IsExclusive t
    Step-IsExclusive {s} (call i x e) v = record {
      held = λ j h. ground (arith, ==_iff i j, v.held j);
      owned = λ j h. ground (arith, ==_iff i j, v.owned j);
    }
    Step-IsExclusive (refuse i x a e r) v = record {
      held = λ j h. ground (arith, ==_iff i j, v.held j);
      owned = λ j h. ground (arith, ==_iff i j, v.owned j);
    }
    Step-IsExclusive (acquire i x e r free) v = record {
      held = λ j h. ground (arith, ==_iff i j, v.held j);
      owned = λ j h. ground (arith, ==_iff i j, v.owned j);
    }
    Step-IsExclusive (load i x e) v = record {
      held = λ j h. ground (arith, ==_iff i j, v.held i, v.held j);
      owned = λ j h. ground (arith, ==_iff i j, v.owned j);
    }
    Step-IsExclusive (body i x m e) v = record {
      held = λ j h. ground (arith, ==_iff i j, v.held i, v.held j);
      owned = λ j h. ground (arith, ==_iff i j, v.owned j);
    }
    Step-IsExclusive (release i x a e) v = record {
      held = λ j h. ground (arith, ==_iff i j, v.held i, v.held j);
      owned = λ j h. ground (arith, ==_iff i j, v.owned j);
    }

    pub Reach-IsExclusive : {s₀ : S} {s : System S} → Reach c s₀ s → IsExclusive s
    Reach-IsExclusive here = record { held = λ j h. ground arith; owned = λ j h. ground arith }
    Reach-IsExclusive (next r st) = Step-IsExclusive st (Reach-IsExclusive r)

    -- In every reachable state, two threads that stand between taking the lock and dropping it are
    -- one.
    mutual_exclusion :
        (s₀ : S) (s : System S) (i j : ℕ)
        → Reach c s₀ s
        → holds (s.pc i) ≡ true
        → holds (s.pc j) ≡ true
        → i ≡ j
    mutual_exclusion s₀ s i j r in_i in_j =
        let v = Reach-IsExclusive r in ground (arith, v.held i, v.held j)
