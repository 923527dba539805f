-- ===== src/Cache/Shared/Calls.antt =====
-- The log of a shared cache as the sequence of calls of `Cache/Contract`.
use olwsx.Base.{◌≡◌, refl, sym, ap, ◌∙◌, List, [], ◌∷◌, ◌++◌}
use olwsx.Cache.Contract.{Call, lookup, insert, invalidate, step, run}
use olwsx.Cache.Shared.{SharedCache, perform, Event}
use olwsx.Cache.Shared.Linear.{after, IsSequential}

-- The calls of a log, the first one first.
unfoldable pub calls : List Event → List Call
calls [] = []
calls (e ∷ log) = calls log ++ e.call ∷ []

module _ {S : Type 0} (c : SharedCache S) (s₀ : S) where
  perform-step : (x : Call) (s : S) → (perform c.cache x s).0 ≡ step c.cache x s
  unfolding perform step
  perform-step (lookup now k) s = refl
  perform-step (insert k e) s = refl
  perform-step (invalidate k) s = refl

  run-append :
      (xs ys : List Call) (s : S) → run c.cache (xs ++ ys) s ≡ run c.cache ys (run c.cache xs s)
  unfolding run
  run-append [] ys s = refl
  run-append (x ∷ xs) ys s = run-append xs ys (step c.cache x s)

  pub after-run : (log : List Event) → after c s₀ log ≡ run c.cache (calls log) s₀
  unfolding calls run
  after-run [] = refl
  after-run (e ∷ log) =
      perform-step e.call (after c s₀ log)
      ∙ (ap (step c.cache e.call) (after-run log) ∙ sym (run-append (calls log) (e.call ∷ []) s₀))

  pub IsSequential-back :
      (newer older : List Event) → IsSequential c s₀ (newer ++ older) → IsSequential c s₀ older
  IsSequential-back [] older h = h
  IsSequential-back (e ∷ newer) older h = IsSequential-back newer older h.1
