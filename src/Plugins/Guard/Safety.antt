-- ===== src/Plugins/Guard/Safety.antt =====
-- What the guard filter of plugins/filter_example.rs denies and how it rewrites.
use mathlib.Core.Path.{subst}
use olwsx.Base.{
  true, false, Bytes, ◌≡◌, refl, sym, ◌∙◌, ap, ◌⊎◌, inl, inr, Bool-cases, [], ◌++◌, Option, none,
  some, Map, get, codes, starts_with, starts_with_iff, starts_with-append, contains, contains_iff,
  Occurs, arith,
}
use olwsx.Plugins.{
  Request, FilterVerdict, continue, short_circuit, mutate, ok, Config, HandlerPlugin,
}
use olwsx.Plugins.Registry.{Registry, cfg_for, init_all, filter}
use olwsx.Plugins.Registry.Init.{init_all_ends, init_all_initialises}
use olwsx.Plugins.Registry.Lifecycle.{get-initialised}
use olwsx.Plugins.Guard.{
  GuardFilter, switch, init, replace_first, traversal_denied, with_path, rewrite, process,
  guard_filter,
}
use olwsx.Plugins.Guard.Paths.{
  ends_in_dot, contains_back, contains-append_dots, replace_first_prefix,
}

-- A configuration that does not turn the traversal check off.
abbrev Denies : Config → Type 0
Denies cfg =
    (get (codes "deny_traversal") cfg ≡ none)
    ⊎ (get (codes "deny_traversal") cfg ≡ some (codes "true"))

Denies-switch : (cfg : Config) → Denies cfg → switch (codes "deny_traversal") cfg ≡ true
unfolding switch
Denies-switch cfg (inl h) = rw (h, switch) refl
Denies-switch cfg (inr h) = rw (h, switch) refl

process_denies :
    (f : GuardFilter) (req : Request)
    → f.deny_traversal ≡ true
    → Occurs (codes "../") req.path
    → process f req ≡ short_circuit traversal_denied
unfolding process
process_denies f req h o = ground (arith, (contains_iff req.path (codes "../")).1 o)

module _ {H : Type 0} (hs : HandlerPlugin H) where
  -- After `init_all` returned `Ok`, a guard filter whose configuration does not turn the check off
  -- answers every request whose path has "../" in it with the 403, under the key it was registered
  -- with.
  pub filter-Denies_traversal :
      (reg : Registry GuardFilter H) (cfgs : Map Config) (key : Bytes) (f : GuardFilter)
      (req : Request)
      → get key reg.filters ≡ some f
      → (init_all guard_filter hs cfgs reg).1 ≡ ok
      → Denies (cfg_for key cfgs)
      → Occurs (codes "../") req.path
      → filter guard_filter hs key req (init_all guard_filter hs cfgs reg).0
        ≡ short_circuit traversal_denied
  unfolding filter init
  filter-Denies_traversal reg cfgs key f req found h denies o =
      let after = (init_all guard_filter hs cfgs reg).0 in
      let (ef, eh) =
        init_all_initialises guard_filter hs cfgs reg after _
          (init_all_ends guard_filter hs cfgs reg) h in
      let here = get-initialised guard_filter.init cfgs key reg.filters in
      let on = Denies-switch (cfg_for key cfgs) denies in
      rw (filter, ef, here, found) (process_denies (init (cfg_for key cfgs) f).0 req on o)

-- The filter as `init` leaves it rewrites a path that starts with the configured
-- `rewrite_from`, that prefix only, to the configured `rewrite_to`, and leaves the rest of the
-- request as it was, when the path does not hold "../".
pub process-init_rewrites :
    (f : GuardFilter) (cfg : Config) (req : Request) (from to rest : Bytes)
    → get (codes "rewrite_from") cfg ≡ some from
    → get (codes "rewrite_to") cfg ≡ some to
    → req.path ≡ from ++ rest
    → contains req.path (codes "../") ≡ false
    → process (init cfg f).0 req ≡ mutate (with_path req (to ++ rest))
unfolding process rewrite init
process-init_rewrites f cfg req from to rest ef et ep h =
    let start : starts_with req.path from ≡ true = rw ep (starts_with-append from rest) in
    let replaced : replace_first from to req.path ≡ to ++ rest =
      rw ep (replace_first_prefix from to rest) in
    ground (arith, ef, et, h, start, replaced)

-- The request that goes on to the core after a verdict.
abbrev forwarded : FilterVerdict → Request → Option Request
forwarded continue req = some req
forwarded (short_circuit resp) req = none
forwarded (mutate r) req = some r

-- A configured `rewrite_to` that neither holds "../" nor ends in a dot, or none.
abbrev SafeTarget : Option Bytes → Type 0
SafeTarget none = Unit
SafeTarget (some to) = (contains to (codes "../") ≡ false) × (ends_in_dot to ≡ false)

abbrev path_of : Option Request → Bytes
path_of none = []
path_of (some r) = r.path

rewrite_safe :
    (from to : Option Bytes) (req r : Request)
    → SafeTarget to
    → contains req.path (codes "../") ≡ false
    → forwarded (rewrite from to req) req ≡ some r
    → contains r.path (codes "../") ≡ false
unfolding rewrite with_path
rewrite_safe (some a) (some b) req r safe clean h = elim (Bool-cases (starts_with req.path a)) [
  | inl start ↦
      let (rest, ep) = (starts_with_iff req.path a).0 start in
      let same : r.path ≡ replace_first a b req.path = sym (ground (arith, ap path_of h)) in
      let replaced : replace_first a b req.path ≡ b ++ rest =
        subst (λ s. replace_first a b s ≡ b ++ rest) (sym ep) (replace_first_prefix a b rest) in
      let clean_rest : contains rest (codes "../") ≡ false =
        contains_back a rest (codes "../")
          (subst (λ s. contains s (codes "../") ≡ false) ep clean) in
      rw (same ∙ replaced) (contains-append_dots b rest safe.0 safe.1 clean_rest)
  | inr other ↦ let same : req.path ≡ r.path = ground (arith, ap path_of h) in rw (← same) clean
]
rewrite_safe (some a) none req r safe clean h = rw (← ap path_of h) clean
rewrite_safe none to req r safe clean h = rw (← ap path_of h) clean

-- With the check on and no `rewrite_to` that holds "../" or ends in a dot, no request that the
-- filter lets through, as it is or rewritten, has "../" in its path.
process_safe :
    (f : GuardFilter) (req r : Request)
    → f.deny_traversal ≡ true
    → SafeTarget f.rewrite_prefix_to
    → forwarded (process f req) req ≡ some r
    → contains r.path (codes "../") ≡ false
unfolding process
process_safe f req r on safe h = elim (Bool-cases (contains req.path (codes "../"))) [
  | inl bad ↦ absurd (ground arith)
  | inr clean ↦
      rewrite_safe f.rewrite_prefix_from f.rewrite_prefix_to req r safe clean (ground arith)
]
