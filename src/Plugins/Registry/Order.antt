-- ===== src/Plugins/Registry/Order.antt =====
-- The iteration order of a `HashMap` is not fixed: what of `init_all` in plugins/sdk.rs does not
-- depend on it.
use mathlib.Core.Bool.{Bool-set}
use mathlib.Core.List.{foldr, Perm}
use mathlib.Core.List.Perm
use olwsx.Base.{Bytes, Bool, true, false, ◌&&◌, ◌≡◌, refl, sym, ap, ◌∙◌, [], ◌∷◌, Map, arith}
use olwsx.Plugins.{Outcome, ok, err, Config, FilterPlugin, HandlerPlugin}
use olwsx.Plugins.Registry.{Registry, cfg_for, init_each, init_all}

is_ok : Outcome → Bool
is_ok ok = true
is_ok (err e) = false

module _ {P : Type 0} (init : Config → P → P × Outcome) (cfgs : Map Config) where
  and_ok : Bytes × P → Bool → Bool
  and_ok (k, p) rest = is_ok (init (cfg_for k cfgs) p).1 && rest

  and_ok_comm :
      (a b : Bytes × P) (rest : Bool) → and_ok a (and_ok b rest) ≡ and_ok b (and_ok a rest)
  unfolding and_ok
  and_ok_comm a b rest = ground arith

  outcome_lem :
      (o last : Outcome) (before after : Map P)
      → is_ok (elim o as (λ _. Map P × Outcome) [ err e ↦ (before, err e) | ok ↦ (after, last) ]).1
        ≡ (is_ok o && is_ok last)
  unfolding is_ok
  outcome_lem ok last before after = refl
  outcome_lem (err e) last before after = refl

  is_ok-init_each : (m : Map P) → is_ok (init_each init cfgs m).1 ≡ foldr and_ok true m
  unfolding init_each and_ok is_ok
  is_ok-init_each [] = refl
  is_ok-init_each ((k, p) ∷ m) =
      outcome_lem (init (cfg_for k cfgs) p).1 (init_each init cfgs m).1 _ _
      ∙ ap (◌&&◌ (is_ok (init (cfg_for k cfgs) p).1)) (is_ok-init_each m)

  init_each_order :
      (m n : Map P) → Perm m n → is_ok (init_each init cfgs m).1 ≡ is_ok (init_each init cfgs n).1
  init_each_order m n perm =
      is_ok-init_each m
      ∙ Perm.foldr-eq Bool-set and_ok and_ok_comm perm true
      ∙ sym (is_ok-init_each n)

module _ {F H : Type 0} (fs : FilterPlugin F) (hs : HandlerPlugin H) (cfgs : Map Config) where
  is_ok-init_all :
      (reg : Registry F H)
      → is_ok (init_all fs hs cfgs reg).1 ≡ (
          is_ok (init_each fs.init cfgs reg.filters).1
          && is_ok (init_each hs.init cfgs reg.handlers).1)
  unfolding init_all is_ok
  is_ok-init_all reg = ground arith

  -- Whether `init_all` succeeds does not depend on the order in which it meets the filters and the
  -- handlers.
  init_all_order :
      (reg reg_permuted : Registry F H)
      → Perm reg.filters reg_permuted.filters
      → Perm reg.handlers reg_permuted.handlers
      → is_ok (init_all fs hs cfgs reg).1 ≡ is_ok (init_all fs hs cfgs reg_permuted).1
  init_all_order reg reg_permuted pf ph =
      rw
        (
          is_ok-init_all reg,
          is_ok-init_all reg_permuted,
          init_each_order fs.init cfgs reg.filters reg_permuted.filters pf,
          init_each_order hs.init cfgs reg.handlers reg_permuted.handlers ph,
        )
        refl
