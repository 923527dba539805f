-- ===== src/Cache/Shared/Progress.antt =====
-- No call on a shared cache is stuck behind the lock.
use olwsx.Base.{
  ℕ, suc, ◌+◌, ◌≤◌, ◌≡◌, ◌≢◌, refl, ap, ◌∙◌, true, Option, none, some, Option-cases, inl, inr, ◌∷◌,
  arith, ==_iff,
}
use olwsx.Cache.Contract.{Call}
use olwsx.Cache.Shared.{
  Answer, SharedCache, Pc, idle, entered, locked, working, leaving, System, update, Step, refuse,
  acquire, load, body, release, Reach,
}
use olwsx.Cache.Shared.Lock.{holds, IsExclusive, Reach-IsExclusive}

some_inj : {x y : Call} → some x ≡ some y → x ≡ y
some_inj h = cc

module _ {S : Type 0} (c : SharedCache S) where
  pub data Trace (s : System S) : System S → Type 0 where
    rest : Trace s s
    more : {t u : System S} → Trace s t → Step c t u → Trace s u

  abbrev pub steps : {s t : System S} → Trace s t → ℕ
  steps rest = 0
  steps (more p st) = suc (steps p)

  append : {s t u : System S} → Trace s t → Trace t u → Trace s u
  append p rest = p
  append p (more q st) = more (append p q) st

  steps-append :
      {s t u : System S} (p : Trace s t) (q : Trace t u) → steps (append p q) ≡ steps p + steps q
  unfolding append
  steps-append p rest = omega arith
  steps-append p (more q st) = omega (arith, steps-append p q)

  -- A run of at most `n` steps from `s`, after which the thread `j` has returned from its call of
  -- `x` and the lock is free, and no other thread has moved.
  record Returns (s : System S) (j : ℕ) (x : Call) (n : ℕ) : Type 0 where
    last : System S
    path : Trace s last
    short : steps path ≤ n
    stopped : last.pc j ≡ idle
    free : last.holder ≡ none
    answer : Answer
    got : last.seen j ≡ record { thread = j; call = x; answer = answer } ∷ s.seen j
    others : (i : ℕ) → i ≢ j → last.pc i ≡ s.pc i
    others_seen : (i : ℕ) → i ≢ j → last.seen i ≡ s.seen i

  update_same {ℓ} : {A : Type ℓ} (f : ℕ → A) (i : ℕ) (a : A) → update f i a i ≡ a
  update_same f i a = ground (arith, ==_iff i i)

  update_other {ℓ} : {A : Type ℓ} (f : ℕ → A) (i : ℕ) (a : A) (j : ℕ) → j ≢ i → update f i a j ≡ f j
  update_other f i a j h = ground (arith, ==_iff i j)

  from_leaving :
      (s : System S) (j : ℕ) (x : Call) (a : Answer) (n : ℕ)
      → 1 ≤ n
      → s.pc j ≡ leaving x a
      → Returns s j x n
  from_leaving s j x a n le e = record {
    last = _;
    path = more rest (release j x a e);
    short = omega arith;
    stopped = update_same s.pc j idle;
    free = refl;
    answer = a;
    got = update_same s.seen j _;
    others = λ i h. update_other s.pc j idle i h;
    others_seen = λ i h. update_other s.seen j _ i h;
  }

  -- A step that leaves the other threads alone, before a run.
  before :
      {s t : System S} {j : ℕ} {x : Call} {n : ℕ}
      → Step c s t
      → t.seen ≡ s.seen
      → ((i : ℕ) → i ≢ j → t.pc i ≡ s.pc i)
      → Returns t j x n
      → Returns s j x (suc n)
  before {s} {t} {j} st same keep r = record {
    last = r.last;
    path = append (more rest st) r.path;
    short = omega (arith, steps-append (more rest st) r.path, r.short);
    stopped = r.stopped;
    free = r.free;
    answer = r.answer;
    got = rw (← same) r.got;
    others = λ i h. r.others i h ∙ keep i h;
    others_seen = λ i h. rw (← same) (r.others_seen i h);
  }

  from_working :
      (s : System S) (j : ℕ) (x : Call) (m : S) (n : ℕ)
      → 1 ≤ n
      → s.pc j ≡ working x m
      → Returns s j x (suc n)
  from_working s j x m n le e =
      before (body j x m e) refl (λ i h. update_other s.pc j _ i h)
        (from_leaving _ j x _ n le (update_same s.pc j _))

  from_locked : (s : System S) (j : ℕ) (x : Call) → s.pc j ≡ locked x → Returns s j x 3
  from_locked s j x e =
      before (load j x e) refl (λ i h. update_other s.pc j _ i h)
        (from_working _ j x _ 1 (omega arith) (update_same s.pc j _))

  from_free :
      (s : System S) (j : ℕ) (x : Call)
      → s.pc j ≡ entered x
      → c.early x ≡ none
      → s.holder ≡ none
      → Returns s j x 4
  from_free s j x e r free =
      before (acquire j x e r free) refl (λ i h. update_other s.pc j _ i h)
        (from_locked _ j x (update_same s.pc j _))

  -- A run of at most `n` steps after which the thread `i` has returned from its call of `x`.
  pub record CanReturn (s : System S) (i : ℕ) (x : Call) (n : ℕ) : Type 0 where
    pub last : System S
    pub path : Trace s last
    pub short : steps path ≤ n
    stopped : last.pc i ≡ idle
    pub answer : Answer
    pub got : last.seen i ≡ record { thread = i; call = x; answer = answer } ∷ s.seen i

  returns :
      {s : System S} {i : ℕ} {x : Call} {m : ℕ} (n : ℕ)
      → Returns s i x m
      → m ≤ n
      → CanReturn s i x n
  returns n r le = record {
    last = r.last;
    path = r.path;
    short = omega (arith, r.short);
    stopped = r.stopped;
    answer = r.answer;
    got = r.got;
  }

  -- Behind the run of another thread that frees the lock, a thread goes on as from a free lock.
  after_other :
      {s : System S} {j : ℕ} {y : Call} (i : ℕ) (x : Call)
      → Returns s j y 3
      → i ≢ j
      → s.pc i ≡ entered x
      → c.early x ≡ none
      → CanReturn s i x 7
  after_other {s} i x r ne e none_early =
      let own = from_free r.last i x (r.others i ne ∙ e) none_early r.free in
      record {
        last = own.last;
        path = append r.path own.path;
        short = omega (arith, steps-append r.path own.path, r.short, own.short);
        stopped = own.stopped;
        answer = own.answer;
        got = rw (← r.others_seen i ne) own.got;
      }

  from_held :
      (s : System S) (i j : ℕ) (x : Call) (p : Pc S)
      → s.pc j ≡ p
      → holds p ≡ true
      → s.pc i ≡ entered x
      → c.early x ≡ none
      → CanReturn s i x 7
  from_held s i j x idle ep h e r = absurd (ground arith)
  from_held s i j x (entered y) ep h e r = absurd (ground arith)
  from_held s i j x (locked y) ep h e r =
      after_other i x (from_locked s j y ep) (λ same. ground (arith, same)) e r
  from_held s i j x (working y m) ep h e r =
      after_other {y = y} i x (from_working s j y m 2 (omega arith) ep)
        (λ same. ground (arith, same)) e r
  from_held s i j x (leaving y a) ep h e r =
      after_other {y = y} i x (from_leaving s j y a 3 (omega arith) ep)
        (λ same. ground (arith, same)) e r

  from_entered :
      (s : System S) (i : ℕ) (x : Call) → IsExclusive s → s.pc i ≡ entered x → CanReturn s i x 7
  from_entered s i x v e = elim (Option-cases (c.early x)) [
    | inr (a, r) ↦ record {
      last = _;
      path = more rest (refuse i x a e r);
      short = omega arith;
      stopped = update_same s.pc i idle;
      answer = a;
      got = update_same s.seen i _;
    }
    | inl r ↦ elim (Option-cases s.holder) [
      | inl free ↦ returns 7 (from_free s i x e r free) (omega arith)
      | inr (j, held) ↦ from_held s i j x (s.pc j) refl (v.owned j held) e r
    ]
  ]

  -- The call that a thread is in.
  abbrev calling : Pc S → Option Call
  calling idle = none
  calling (entered x) = some x
  calling (locked x) = some x
  calling (working x m) = some x
  calling (leaving x a) = some x

  from_any :
      (s : System S) (i : ℕ) (x : Call) (p : Pc S)
      → IsExclusive s
      → s.pc i ≡ p
      → calling p ≡ some x
      → CanReturn s i x 7
  from_any s i x idle v e h = absurd (ground arith)
  from_any s i x (entered y) v e h = from_entered s i x v (e ∙ ap entered (some_inj h))
  from_any s i x (locked y) v e h =
      returns 7 (from_locked s i x (e ∙ ap locked (some_inj h))) (omega arith)
  from_any s i x (working y m) v e h =
      returns 7 (from_working s i x m 1 (omega arith) (e ∙ ap (λ z. working z m) (some_inj h)))
        (omega arith)
  from_any s i x (leaving y a) v e h =
      returns 7 (from_leaving s i x a 1 (omega arith) (e ∙ ap (λ z. leaving z a) (some_inj h)))
        (omega arith)

  -- No deadlock: from every reachable state, at most seven steps lead every thread that is in a call
  -- out of it, with an answer.
  pub Reach-CanReturn :
      (s₀ : S) (s : System S) (i : ℕ) (x : Call)
      → Reach c s₀ s
      → calling (s.pc i) ≡ some x
      → CanReturn s i x 7
  Reach-CanReturn s₀ s i x r h = from_any s i x (s.pc i) (Reach-IsExclusive c r) refl h
