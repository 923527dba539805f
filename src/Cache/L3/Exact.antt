-- ===== src/Cache/L3/Exact.antt =====
-- cache/l3.rs loses nothing.
use olwsx.Base
use olwsx.Base.{
  ℕ, ◌≡◌, ◌↔◌, refl, Bool, true, false, Bytes, bytes_eq, bytes_eq_iff, none, some, List, [], ◌∷◌,
  arith, All, if◌then◌else◌,
}
use olwsx.Cache.{Entry, is_expired, ok}
use olwsx.Cache.Contract.{Call, run, ideal}
use olwsx.Cache.Contract.Lossless.{ByNow, IsLossless, lookup-run-exact}
use olwsx.Cache.L3.{State, new, lookup, insert, l3}
use olwsx.Cache.L3.Refines.{l3-IsCache}

abbrev Any : Call → Type 0
Any x = Unit

lookup_keeps :
    (t : ℕ) (k q : Bytes) (m : State) (e : Entry)
    → Base.get q m ≡ some e
    → is_expired t e ≡ false
    → Base.get q (lookup t k m).0 ≡ some e
unfolding lookup
lookup_keeps t k q m e held fresh = ground (arith, Base.get-remove k q m, bytes_eq_iff k q)

l3-IsLossless : IsLossless l3 (λ m k. Base.get k m) (λ e. e) (λ _. true) Any (λ _. Unit)
unfolding l3 insert
l3-IsLossless = record {
  step_holds = λ x m fits i. tt;
  lookup_keeps = λ t k q m e i held fresh. lookup_keeps t k q m e held fresh;
  insert_keeps = λ k q x m e i fits taken held. ground (arith, Base.get-insert k q x m);
}

fit-All : (xs : List Call) → All Any xs
fit-All [] = tt
fit-All (x ∷ xs) = (tt, fit-All xs)

-- After any calls on a new L3 cache whose clock has not run ahead of `now`, a lookup answers with an
-- entry exactly if an unbounded store, in which nothing expires, holds it after the same calls and
-- it has not expired.
pub l3_lookup-run_iff :
    (xs : List Call) (now : ℕ) (k : Bytes) (e : Entry)
    → All (ByNow now) xs
    → ((lookup now k (run l3 xs new)).1 ≡ ok e)
      ↔ ((ideal (λ x. x) (λ _. true) xs (λ _. none) k ≡ some e) × (is_expired now e ≡ false))
unfolding new l3
l3_lookup-run_iff xs now k e past =
    lookup-run-exact l3-IsCache l3-IsLossless now xs new k e (fit-All xs) past tt (λ q. refl)
