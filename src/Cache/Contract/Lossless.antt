-- ===== src/Cache/Contract/Lossless.antt =====
-- When a cache of the `Cache` trait of cache/lib.rs loses nothing: no call evicts, and what has not
-- expired stays.
use olwsx.Base.{
  ℕ, ◌≤◌, ◌≡◌, ◌↔◌, Bool, true, false, Bytes, bytes_eq, Option, none, some, List, [], ◌∷◌, arith,
  All, if◌then◌else◌, Bool-cases, inl, inr,
}
use olwsx.Cache.{Entry, is_expired, Cache, ok}
use olwsx.Cache.Contract.{
  IsCache, Call, lookup, insert, invalidate, step, run, ideal, ideal_step, lookup-run-ideal,
}

-- The clock of a call does not run ahead of `now`.
abbrev pub ByNow : ℕ → Call → Type 0
ByNow now (lookup t k) = t ≤ now
ByNow now (insert k e) = Unit
ByNow now (invalidate k) = Unit

-- Calls that satisfy `Fits`, in states that satisfy `I`, keep every entry that they are not about and
-- that has not expired.
pub record IsLossless {S : Type 0} (c : Cache S) (view : S → Bytes → Option Entry)
    (store : Entry → Entry) (accepts : Entry → Bool) (Fits : Call → Type 0) (I : S → Type 0)
    : Type 0 where
  pub step_holds : (x : Call) (s : S) → Fits x → I s → I (step c x s)
  pub lookup_keeps :
      (t : ℕ) (k q : Bytes) (s : S) (e : Entry)
      → I s
      → view s q ≡ some e
      → is_expired t e ≡ false
      → view (c.lookup t k s).0 q ≡ some e
  pub insert_keeps :
      (k q : Bytes) (x : Entry) (s : S) (e : Entry)
      → I s
      → Fits (insert k x)
      → accepts x ≡ true
      → (if bytes_eq k q then some (store x) else view s q) ≡ some e
      → view (c.insert k x s).0 q ≡ some e

-- What is not expired now was not expired before.
is_expired_mono :
    (t now : ℕ) (e : Entry) → t ≤ now → is_expired now e ≡ false → is_expired t e ≡ false
unfolding is_expired
is_expired_mono t now e le h = ground arith

module _ {S : Type 0} {c : Cache S} {view : S → Bytes → Option Entry} {store : Entry → Entry}
    {accepts : Entry → Bool} {Fits : Call → Type 0} {I : S → Type 0}
    (h : IsCache c view store accepts) (l : IsLossless c view store accepts Fits I) (now : ℕ) where
  -- The state holds all of the ideal store that has not expired.
  abbrev Above : S → (Bytes → Option Entry) → Type 0
  Above s m = (q : Bytes) (e : Entry) → m q ≡ some e → is_expired now e ≡ false → view s q ≡ some e

  step-Above :
      (x : Call) (s : S) (m : Bytes → Option Entry)
      → Fits x
      → ByNow now x
      → I s
      → Above s m
      → Above (step c x s) (ideal_step store accepts x m)
  unfolding step ideal_step
  step-Above (lookup t k) s m fits le i a q e held fresh =
      l.lookup_keeps t k q s e i (a q e held fresh) (is_expired_mono t now e le fresh)
  step-Above (insert k x) s m fits le i a q e held fresh = elim (Bool-cases (accepts x)) [
    | inl taken ↦ l.insert_keeps k q x s e i fits taken (ground (arith, a q e))
    | inr refused ↦ rw (h.insert_refused k x s refused) (ground (arith, a q e))
  ]
  step-Above (invalidate k) s m fits le i a q e held fresh =
      ground (arith, h.invalidate_view k q s, a q e)

  run-Above :
      (xs : List Call) (s : S) (m : Bytes → Option Entry)
      → All Fits xs
      → All (ByNow now) xs
      → I s
      → Above s m
      → Above (run c xs s) (ideal store accepts xs m)
  unfolding run ideal
  run-Above [] s m fits le i a = a
  run-Above (x ∷ xs) s m fits le i a =
      run-Above xs _ _ fits.1 le.1 (l.step_holds x s fits.0 i) (step-Above x s m fits.0 le.0 i a)

  pub lookup-run-exact :
      (xs : List Call) (s : S) (k : Bytes) (e : Entry)
      → All Fits xs
      → All (ByNow now) xs
      → I s
      → ((q : Bytes) → view s q ≡ none)
      → ((c.lookup now k (run c xs s)).1 ≡ ok e)
        ↔ ((ideal store accepts xs (λ _. none) k ≡ some e) × (is_expired now e ≡ false))
  lookup-run-exact xs s k e fits le i empty = (
    lookup-run-ideal h xs s now k e empty,
    λ p.
        let kept = run-Above xs s _ fits le i (λ q x none_held. absurd (cc)) k e p.0 p.1 in
        ground (arith, h.lookup_answer now k (run c xs s)),
  )
