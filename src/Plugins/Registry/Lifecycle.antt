-- ===== src/Plugins/Registry/Lifecycle.antt =====
-- `init_all` and `teardown_all` of `Registry` in plugins/sdk.rs: what they reach, and in which state
-- a failing plugin leaves the registry.
use olwsx.Base.{
  Bytes, ◌≡◌, refl, ap, none, some, [], ◌∷◌, ◌++◌, Map, get, bytes_eq_iff, ◌⊎◌, inl, inr, arith,
}
use olwsx.Plugins.{Outcome, ok, err, Config}
use olwsx.Plugins.Registry.{cfg_for, init_each}

-- Every plugin as its `init` leaves it, whatever that returns.
unfoldable pub initialised : {P : Type 0} → (Config → P → P × Outcome) → Map Config → Map P → Map P
initialised init cfgs [] = []
initialised init cfgs ((k, p) ∷ m) = (k, (init (cfg_for k cfgs) p).0) ∷ initialised init cfgs m

module _ {P : Type 0} (init : Config → P → P × Outcome) (cfgs : Map Config) where
  -- Every plugin's `init` succeeds.
  abbrev pub Succeed : Map P → Type 0
  Succeed [] = Unit
  Succeed ((k, p) ∷ m) = ((init (cfg_for k cfgs) p).1 ≡ ok) × Succeed m

  -- `m` stops with the message `e`, as `after`: the plugins in front succeed and are initialised,
  -- the next one fails with `e`, and those behind it are as they were.
  pub record Stops (m after : Map P) (e : Bytes) : Type 0 where
    pub front : Map P
    pub key : Bytes
    pub plugin : P
    pub back : Map P
    stops_before : m ≡ front ++ (key, plugin) ∷ back
    stops_after :
        after ≡ initialised init cfgs front ++ (key, (init (cfg_for key cfgs) plugin).0) ∷ back
    stops_front : Succeed front
    stops_fails : (init (cfg_for key cfgs) plugin).1 ≡ err e

  pub get-initialised :
      (q : Bytes) (m : Map P)
      → get q (initialised init cfgs m)
        ≡ elim (get q m) [ none ↦ none | some p ↦ some (init (cfg_for q cfgs) p).0 ]
  unfolding initialised
  get-initialised q [] = refl
  get-initialised q ((k, p) ∷ m) = ground (arith, get-initialised q m, bytes_eq_iff k q)

  outcome-cases : (o : Outcome) → (o ≡ ok) ⊎ ((e : Bytes) × (o ≡ err e))
  outcome-cases ok = inl refl
  outcome-cases (err e) = inr (e, refl)

  pub data Ends (m after : Map P) : Outcome → Type 0 where
    succeeds : Succeed m → after ≡ initialised init cfgs m → Ends m after ok
    stops : (e : Bytes) → Stops m after e → Ends m after (err e)

  Ends-cons :
      (k : Bytes) (p : P) (m after : Map P) (o : Outcome)
      → (init (cfg_for k cfgs) p).1 ≡ ok
      → Ends m after o
      → Ends ((k, p) ∷ m) ((k, (init (cfg_for k cfgs) p).0) ∷ after) o
  unfolding initialised
  Ends-cons k p m after o h (succeeds all e) =
      succeeds (h, all) (ap (◌∷◌ (k, (init (cfg_for k cfgs) p).0)) e)
  Ends-cons k p m after o h (stops e s) = stops e (record {
    front = (k, p) ∷ s.front;
    key = s.key;
    plugin = s.plugin;
    back = s.back;
    stops_before = ap (◌∷◌ (k, p)) s.stops_before;
    stops_after = ap (◌∷◌ (k, (init (cfg_for k cfgs) p).0)) s.stops_after;
    stops_front = (h, s.stops_front);
    stops_fails = s.stops_fails;
  })

  pub init_each-Ends : (m : Map P) → Ends m (init_each init cfgs m).0 (init_each init cfgs m).1
  unfolding init_each initialised
  init_each-Ends [] = succeeds tt refl
  init_each-Ends ((k, p) ∷ m) = elim (outcome-cases (init (cfg_for k cfgs) p).1) [
    | inl h ↦ rw (h, init_each) (Ends-cons k p m _ _ h (init_each-Ends m))
    | inr (e, h) ↦
        rw (h, init_each)
          (stops e (record {
            front = [];
            key = k;
            plugin = p;
            back = m;
            stops_before = refl;
            stops_after = refl;
            stops_front = tt;
            stops_fails = h;
          }))
  ]
