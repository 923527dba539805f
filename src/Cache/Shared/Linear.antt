-- ===== src/Cache/Shared/Linear.antt =====
-- What threads that share a cache observe is what one sequence of calls gives.
use olwsx.Base.{
  ℕ, ◌≡◌, ◌≢◌, inl, inr, Bool-cases, refl, sym, ◌∙◌, ap, some, List, [], ◌∷◌, ◌++◌, arith, ◌==◌,
  ==_iff, if◌then◌else◌,
}
use olwsx.Cache.Contract.{Call}
use olwsx.Cache.Shared.{
  Answer, SharedCache, perform, Pc, idle, entered, locked, working, leaving, update, Event, System,
  Step, call, refuse, acquire, load, body, release, Reach, here, next,
}
use olwsx.Cache.Shared.Lock.{holds, IsExclusive, Reach-IsExclusive}

-- The events of one thread.
abbrev of_thread : ℕ → List Event → List Event
of_thread i [] = []
of_thread i (e ∷ log) = if i == e.thread then e ∷ of_thread i log else of_thread i log

-- The event that a thread has not returned from yet.
abbrev pending : {S : Type 0} → ℕ → Pc S → List Event
pending i (leaving x a) = record { thread = i; call = x; answer = a } ∷ []
pending i idle = []
pending i (entered x) = []
pending i (locked x) = []
pending i (working x m) = []

module _ {S : Type 0} (c : SharedCache S) (s₀ : S) where
  -- The state after the calls of a log, the latest first, one after the other.
  abbrev pub after : List Event → S
  after [] = s₀
  after (e ∷ log) = (perform c.cache e.call (after log)).0

  -- Each call got the answer that it gets after the calls before it.
  abbrev pub IsSequential : List Event → Type 0
  IsSequential [] = Unit
  IsSequential (e ∷ log) = (e.answer ≡ (perform c.cache e.call (after log)).1) × IsSequential log

  pub record IsLinear (s : System S) : Type 0 where
    pub memory : s.mem ≡ after s.log
    pub answers : IsSequential s.log
    pub observed : (i : ℕ) → of_thread i s.log ≡ pending i (s.pc i) ++ s.seen i

  -- What a thread read of the state is still the state.
  abbrev IsFresh : System S → Type 0
  IsFresh s = (j : ℕ) (y : Call) (m : S) → s.pc j ≡ working y m → m ≡ s.mem

  -- A thread that steps to where it does not work leaves the others as they are.
  fresh_beside :
      (s : System S) (i : ℕ) (p : Pc S) (j : ℕ) (y : Call) (m : S)
      → IsFresh s
      → ((m' : S) → p ≡ working y m' → m' ≡ s.mem)
      → update s.pc i p j ≡ working y m
      → m ≡ s.mem
  fresh_beside s i p j y m v own e = elim (Bool-cases (i == j)) [
    | inl same ↦ own m (rw same at e)
    | inr other ↦ v j y m (rw other at e)
  ]

  Step-IsFresh : {s t : System S} → Step c s t → IsExclusive s → IsFresh s → IsFresh t
  Step-IsFresh {s} (call i x e) u v =
      λ j y m h. fresh_beside s i (entered x) j y m v (λ m' z. absurd (cc)) h
  Step-IsFresh {s} (refuse i x a e r) u v =
      λ j y m h. fresh_beside s i idle j y m v (λ m' z. absurd (cc)) h
  Step-IsFresh {s} (acquire i x e r free) u v =
      λ j y m h. fresh_beside s i (locked x) j y m v (λ m' z. absurd (cc)) h
  Step-IsFresh {s} (load i x e) u v =
      λ j y m h. fresh_beside s i (working x s.mem) j y m v (λ m' z. cc) h
  Step-IsFresh {s} (body i x m e) u v = λ j y m' h. elim (Bool-cases (i == j)) [
    | inl same ↦ absurd (left_working x _ y m' (rw same at h))
    | inr other ↦
        let held_by_i = u.held i (ap holds e) in
        let held_by_j = u.held j (ap holds (rw other at h)) in
        absurd (ground (arith, ==_iff i j, other, held_by_i, held_by_j))
  ]
    where
      left_working : (x : Call) (a : Answer) (y : Call) (m : S) → leaving x a ≢ working y m
      left_working x a y m = λ z. cc
  Step-IsFresh {s} (release i x a e) u v =
      λ j y m h. fresh_beside s i idle j y m v (λ m' z. absurd (cc)) h

  Reach-IsFresh : {s : System S} → Reach c s₀ s → IsFresh s
  Reach-IsFresh here = λ j y m h. absurd (cc)
  Reach-IsFresh (next r st) = Step-IsFresh st (Reach-IsExclusive c r) (Reach-IsFresh r)

  -- An early answer is the one that the body would give, and the body would change nothing.
  module _
      (prompt : (x : Call) (a : Answer) (s : S)
        → c.early x ≡ some a
        → perform c.cache x s ≡ (s, a)) where
    Step-IsLinear : {s t : System S} → Step c s t → IsFresh s → IsLinear s → IsLinear t
    Step-IsLinear {s} (call i x e) u v = record {
      memory = v.memory;
      answers = v.answers;
      observed = λ j. ground (arith, ==_iff i j, ==_iff j i, v.observed j);
    }
    Step-IsLinear {s} (refuse i x a e r) u v =
        let same = prompt x a (after s.log) r in
        record {
          memory = v.memory ∙ sym (ap (λ p. p.0) same);
          answers = (sym (ap (λ p. p.1) same), v.answers);
          observed = λ j. ground (arith, ==_iff i j, ==_iff j i, v.observed j);
        }
    Step-IsLinear (acquire i x e r free) u v = record {
      memory = v.memory;
      answers = v.answers;
      observed = λ j. ground (arith, ==_iff i j, ==_iff j i, v.observed j);
    }
    Step-IsLinear (load i x e) u v = record {
      memory = v.memory;
      answers = v.answers;
      observed = λ j. ground (arith, ==_iff i j, ==_iff j i, v.observed j);
    }
    Step-IsLinear (body i x m e) u v = record {
      memory = ap (λ z. (perform c.cache x z).0) (u i x m e ∙ v.memory);
      answers = (ap (λ z. (perform c.cache x z).1) (u i x m e ∙ v.memory), v.answers);
      observed = λ j. ground (arith, ==_iff i j, ==_iff j i, v.observed j);
    }
    Step-IsLinear (release i x a e) u v = record {
      memory = v.memory;
      answers = v.answers;
      observed = λ j. ground (arith, ==_iff i j, ==_iff j i, v.observed j);
    }

    -- In every reachable state the cache is as the calls of the log leave it, one after the other;
    -- each call got the answer that it gets in that order; and what a thread got back is what the
    -- log has of it, but for a call that it has not returned from.
    pub Reach-IsLinear : {s : System S} → Reach c s₀ s → IsLinear s
    Reach-IsLinear here = record { memory = refl; answers = tt; observed = λ j. refl }
    Reach-IsLinear (next r st) = Step-IsLinear st (Reach-IsFresh r) (Reach-IsLinear r)
