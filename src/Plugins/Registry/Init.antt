-- ===== src/Plugins/Registry/Init.antt =====
-- `init_all` and `teardown_all` of `Registry` in plugins/sdk.rs, as a whole.
use olwsx.Base.{Bytes, ◌≡◌, refl, none, some, [], ◌∷◌, Map, get, bytes_eq_iff, arith}
use olwsx.Plugins.{Outcome, ok, err, Config, FilterPlugin, HandlerPlugin}
use olwsx.Plugins.Registry.{Registry, cfg_for, init_each, teardown_each, init_all, teardown_all}
use olwsx.Plugins.Registry.Lifecycle.{
  initialised, Succeed, Stops, Ends, succeeds, stops, init_each-Ends, get-initialised,
}

module _ {F H : Type 0} (fs : FilterPlugin F) (hs : HandlerPlugin H) (cfgs : Map Config) where
  -- How `init_all` ends on `reg`, with the registry `after` and an outcome.
  pub data InitEnds (reg after : Registry F H) : Outcome → Type 0 where
    all_initialised :
        Succeed fs.init cfgs reg.filters
        → Succeed hs.init cfgs reg.handlers
        → after.filters ≡ initialised fs.init cfgs reg.filters
        → after.handlers ≡ initialised hs.init cfgs reg.handlers
        → InitEnds reg after ok
    filter_stops :
        (e : Bytes)
        → Stops fs.init cfgs reg.filters after.filters e
        → after.handlers ≡ reg.handlers
        → InitEnds reg after (err e)
    handler_stops :
        (e : Bytes)
        → Succeed fs.init cfgs reg.filters
        → after.filters ≡ initialised fs.init cfgs reg.filters
        → Stops hs.init cfgs reg.handlers after.handlers e
        → InitEnds reg after (err e)

  handlers_end :
      (reg after : Registry F H) (o : Outcome)
      → Succeed fs.init cfgs reg.filters
      → after.filters ≡ initialised fs.init cfgs reg.filters
      → Ends hs.init cfgs reg.handlers after.handlers o
      → InitEnds reg after o
  handlers_end reg after o all e (succeeds all_handlers e_handlers) =
      all_initialised all all_handlers e e_handlers
  handlers_end reg after o all e (stops m s) = handler_stops m all e s

  filters_end :
      (reg : Registry F H) (filters : Map F) (handlers : Map H) (o last : Outcome)
      → Ends fs.init cfgs reg.filters filters o
      → Ends hs.init cfgs reg.handlers handlers last
      → (after : Registry F H × Outcome)
      → after ≡ elim o [
        | err e ↦ (record { filters = filters; handlers = reg.handlers }, err e)
        | ok ↦ (record { filters = filters; handlers = handlers }, last)
      ]
      → InitEnds reg after.0 after.1
  filters_end reg filters handlers o last (succeeds all e) h after eq =
      rw eq (handlers_end reg (record { filters = filters; handlers = handlers }) last all e h)
  filters_end reg filters handlers o last (stops e s) h after eq = rw eq (filter_stops e s refl)

  -- `init_all` returns `Ok` after it initialised every plugin with its own configuration, or the
  -- error of the first plugin that fails, filters before handlers: then those in front of it are
  -- initialised, and those behind it are as they were.
  pub init_all_ends :
      (reg : Registry F H) → InitEnds reg (init_all fs hs cfgs reg).0 (init_all fs hs cfgs reg).1
  unfolding init_all
  init_all_ends reg =
      filters_end reg (init_each fs.init cfgs reg.filters).0 (init_each hs.init cfgs reg.handlers).0
        (init_each fs.init cfgs reg.filters).1 (init_each hs.init cfgs reg.handlers).1
        (init_each-Ends fs.init cfgs reg.filters) (init_each-Ends hs.init cfgs reg.handlers) _ refl

  pub init_all_initialises :
      (reg after : Registry F H) (o : Outcome)
      → InitEnds reg after o
      → o ≡ ok
      → (after.filters ≡ initialised fs.init cfgs reg.filters)
        × (after.handlers ≡ initialised hs.init cfgs reg.handlers)
  init_all_initialises reg after o (all_initialised _ _ ef eh) h = (ef, eh)
  init_all_initialises reg after o (filter_stops e s eh) h = absurd cc
  init_all_initialises reg after o (handler_stops e all ef s) h = absurd cc

get-teardown_each :
    {P : Type 0} (teardown : P → P) (q : Bytes) (m : Map P)
    → get q (teardown_each teardown m) ≡ elim (get q m) [ none ↦ none | some p ↦ some (teardown p) ]
unfolding teardown_each
get-teardown_each teardown q [] = refl
get-teardown_each teardown q ((k, p) ∷ m) =
    ground (arith, get-teardown_each teardown q m, bytes_eq_iff k q)

module _ {F H : Type 0} (fs : FilterPlugin F) (hs : HandlerPlugin H) (cfgs : Map Config) where
  -- When `init_all` returned `Ok`, `teardown_all` leaves under every key the plugin that was there,
  -- initialised once with its own configuration and then torn down once.
  pub teardown_all-init_all :
      (q : Bytes) (reg : Registry F H)
      → (init_all fs hs cfgs reg).1 ≡ ok
      → (get q (teardown_all fs hs (init_all fs hs cfgs reg).0).filters ≡ elim (get q reg.filters) [
        | none ↦ none
        | some p ↦ some (fs.teardown (fs.init (cfg_for q cfgs) p).0)
      ])
        × (get q (teardown_all fs hs (init_all fs hs cfgs reg).0).handlers
            ≡ elim (get q reg.handlers) [
              | none ↦ none
              | some p ↦ some (hs.teardown (hs.init (cfg_for q cfgs) p).0)
            ])
  unfolding teardown_all
  teardown_all-init_all q reg h =
      let after = (init_all fs hs cfgs reg).0 in
      let (ef, eh) = init_all_initialises fs hs cfgs reg after _ (init_all_ends fs hs cfgs reg) h in
      (
        ground (
          arith,
          ef,
          get-teardown_each fs.teardown q after.filters,
          get-initialised fs.init cfgs q reg.filters,
        ),
        ground (
          arith,
          eh,
          get-teardown_each hs.teardown q after.handlers,
          get-initialised hs.init cfgs q reg.handlers,
        ),
      )
