-- ===== src/Cache/Contract.antt =====
-- What every implementation of the `Cache` trait of cache/lib.rs promises, and what follows for any
-- sequence of calls.
pub mod Lossless
use olwsx.Base.{
  ℕ, ◌≡◌, Bool, true, false, Bytes, bytes_eq, Option, none, some, List, [], ◌∷◌, arith,
  if◌then◌else◌,
}
use olwsx.Cache.{Entry, is_expired, Cache, Result, ok, err, too_large, not_found, expired}

-- What a lookup answers when `o` is stored under the key.
abbrev pub answer : ℕ → Option Entry → Result Entry
answer now none = err not_found
answer now (some e) = if is_expired now e then err expired else ok e

-- What `invalidate` answers.
abbrev pub removal : Option Entry → Result (Unit {0})
removal none = err not_found
removal (some _) = ok tt

-- `view s k` is what the state holds under `k`; `store` is the form in which an entry is kept, and
-- `accepts` tells which entries are not refused. An implementation may forget an entry at any
-- `lookup` or `insert` (it expired, or it was evicted), and may not make one up.
pub record IsCache {S : Type 0} (c : Cache S) (view : S → Bytes → Option Entry)
    (store : Entry → Entry) (accepts : Entry → Bool) : Type 0 where
  pub lookup_answer : (now : ℕ) (k : Bytes) (s : S) → (c.lookup now k s).1 ≡ answer now (view s k)
  pub lookup_view :
      (now : ℕ) (k q : Bytes) (s : S) (e : Entry)
      → view (c.lookup now k s).0 q ≡ some e
      → view s q ≡ some e
  pub insert_answer :
      (k : Bytes) (e : Entry) (s : S)
      → (c.insert k e s).1 ≡ (if accepts e then ok tt else err too_large)
  pub insert_view :
      (k q : Bytes) (e : Entry) (s : S) (e' : Entry)
      → accepts e ≡ true
      → view (c.insert k e s).0 q ≡ some e'
      → (if bytes_eq k q then some (store e) else view s q) ≡ some e'
  pub insert_refused : (k : Bytes) (e : Entry) (s : S) → accepts e ≡ false → (c.insert k e s).0 ≡ s
  pub invalidate_answer : (k : Bytes) (s : S) → (c.invalidate k s).1 ≡ removal (view s k)
  pub invalidate_view :
      (k q : Bytes) (s : S)
      → view (c.invalidate k s).0 q ≡ (if bytes_eq k q then none else view s q)

-- A call of a trait method, by any thread: the lock puts the calls in one order.
pub data Call : Type 0 where
  lookup : ℕ → Bytes → Call
  insert : Bytes → Entry → Call
  invalidate : Bytes → Call

module _ {S : Type 0} (c : Cache S) where
  unfoldable pub step : Call → S → S
  step (lookup now k) s = (c.lookup now k s).0
  step (insert k e) s = (c.insert k e s).0
  step (invalidate k) s = (c.invalidate k s).0

  unfoldable pub run : List Call → S → S
  run [] s = s
  run (x ∷ xs) s = run xs (step x s)

-- The ideal store: unbounded, and nothing in it expires.
module _ (store : Entry → Entry) (accepts : Entry → Bool) where
  unfoldable pub ideal_step : Call → (Bytes → Option Entry) → Bytes → Option Entry
  ideal_step (lookup now k) m q = m q
  ideal_step (insert k e) m q =
      if accepts e then (if bytes_eq k q then some (store e) else m q) else m q
  ideal_step (invalidate k) m q = if bytes_eq k q then none else m q

  unfoldable pub ideal : List Call → (Bytes → Option Entry) → Bytes → Option Entry
  ideal [] m = m
  ideal (x ∷ xs) m = ideal xs (ideal_step x m)

module _ {S : Type 0} {c : Cache S} {view : S → Bytes → Option Entry} {store : Entry → Entry}
    {accepts : Entry → Bool} (h : IsCache c view store accepts) where
  -- The state holds no more than the ideal store does.
  abbrev Below : S → (Bytes → Option Entry) → Type 0
  Below s m = (q : Bytes) (e : Entry) → view s q ≡ some e → m q ≡ some e

  step-Below :
      (x : Call) (s : S) (m : Bytes → Option Entry)
      → Below s m
      → Below (step c x s) (ideal_step store accepts x m)
  unfolding step ideal_step
  step-Below (lookup now k) s m b q e v = b q e (h.lookup_view now k q s e v)
  step-Below (insert k x) s m b q e v =
      ground (arith, h.insert_view k q x s e, h.insert_refused k x s, b q e)
  step-Below (invalidate k) s m b q e v = ground (arith, h.invalidate_view k q s, b q e)

  run-Below :
      (xs : List Call) (s : S) (m : Bytes → Option Entry)
      → Below s m
      → Below (run c xs s) (ideal store accepts xs m)
  unfolding run ideal
  run-Below [] s m b = b
  run-Below (x ∷ xs) s m b = run-Below xs _ _ (step-Below x s m b)

  -- After any calls on an empty cache, a lookup that answers with an entry answers with the one
  -- that the ideal store holds under the key, and that entry has not expired.
  pub lookup-run-ideal :
      (xs : List Call) (s : S) (now : ℕ) (k : Bytes) (e : Entry)
      → ((q : Bytes) → view s q ≡ none)
      → (c.lookup now k (run c xs s)).1 ≡ ok e
      → (ideal store accepts xs (λ _. none) k ≡ some e) × (is_expired now e ≡ false)
  lookup-run-ideal xs s now k e start found =
      let below = run-Below xs s (λ _. none) (λ q x v. absurd (ground (arith, start q))) in
      let got = h.lookup_answer now k (run c xs s) in ground (arith, below k e)
