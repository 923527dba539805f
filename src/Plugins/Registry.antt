-- ===== src/Plugins/Registry.antt =====
-- `Registry` of plugins/sdk.rs. A method on `&mut self` returns the new registry beside its result.
-- The iteration order of a `HashMap` is that of the list that stands for it.
mod Registration
pub mod Lifecycle
mod Order
pub mod Init
mod Flow
mod Tests
use olwsx.Base.{
  Bool, Bytes, Option, none, some, List, [], ◌∷◌, ◌++◌, Map, get, insert, contains_key, codes,
  if◌then◌else◌,
}
use olwsx.Plugins.{
  Request, FilterVerdict, continue, HandlerResult, Outcome, ok, err, Config, FilterPlugin,
  HandlerPlugin,
}

pub record Registry (F H : Type 0) : Type 0 where
  pub filters : Map F
  pub handlers : Map H

-- `format!("{} key '{}' already registered", kind, key)`
abbrev pub already_registered : Bytes → Bytes → Bytes
already_registered kind key = kind ++ (codes " key '" ++ (key ++ codes "' already registered"))

-- `cfgs.get(*k).cloned().unwrap_or_default()`
abbrev pub cfg_for : Bytes → Map Config → Config
cfg_for k cfgs = elim (get k cfgs) [ none ↦ [] | some cfg ↦ cfg ]

-- The loop over the plugins of one kind: it stops at the first that fails.
unfoldable pub init_each :
    {P : Type 0} → (Config → P → P × Outcome) → Map Config → Map P → Map P × Outcome
init_each init cfgs [] = ([], ok)
init_each init cfgs ((k, p) ∷ plugins) =
    let (p_new, res) = init (cfg_for k cfgs) p in
    let (rest, last) = init_each init cfgs plugins in
    elim res [ err e ↦ ((k, p_new) ∷ plugins, err e) | ok ↦ ((k, p_new) ∷ rest, last) ]

pub teardown_each : {P : Type 0} → (P → P) → Map P → Map P
teardown_each teardown [] = []
teardown_each teardown ((k, p) ∷ plugins) = (k, teardown p) ∷ teardown_each teardown plugins

module _ {F H : Type 0} where
  pub new : Registry F H
  new = record { filters = []; handlers = [] }

  pub register_filter : Bytes → F → Registry F H → Registry F H × Outcome
  register_filter key plugin reg =
      if contains_key key reg.filters
      then (reg, err (already_registered (codes "filter") key))
      else (record { filters = insert key plugin reg.filters; handlers = reg.handlers }, ok)

  pub register_handler : Bytes → H → Registry F H → Registry F H × Outcome
  register_handler key plugin reg =
      if contains_key key reg.handlers
      then (reg, err (already_registered (codes "handler") key))
      else (record { filters = reg.filters; handlers = insert key plugin reg.handlers }, ok)

module _ {F H : Type 0} (fs : FilterPlugin F) (hs : HandlerPlugin H) where
  unfoldable pub init_all : Map Config → Registry F H → Registry F H × Outcome
  init_all cfgs reg =
      let (filters, res) = init_each fs.init cfgs reg.filters in
      let (handlers, last) = init_each hs.init cfgs reg.handlers in
      elim res [
        | err e ↦ (record { filters = filters; handlers = reg.handlers }, err e)
        | ok ↦ (record { filters = filters; handlers = handlers }, last)
      ]

  unfoldable pub filter : Bytes → Request → Registry F H → FilterVerdict
  filter key req reg = elim (get key reg.filters) [ none ↦ continue | some p ↦ fs.process p req ]

  unfoldable pub handle : Bytes → Request → Registry F H → Option HandlerResult
  handle key req reg = elim (get key reg.handlers) [ none ↦ none | some p ↦ some (hs.handle p req) ]

  pub teardown_all : Registry F H → Registry F H
  teardown_all reg = record {
    filters = teardown_each fs.teardown reg.filters;
    handlers = teardown_each hs.teardown reg.handlers;
  }
