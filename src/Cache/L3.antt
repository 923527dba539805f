-- ===== src/Cache/L3.antt =====
-- cache/l3.rs: a map alone.
mod Refines
mod Exact
mod Tests
use olwsx.Base
use olwsx.Base.{ℕ, Bytes, Map, [], none, some, if◌then◌else◌}
use olwsx.Cache.{Entry, is_expired, Cache, Result, ok, err, not_found, expired}

abbrev pub State : Type 0
State = Map Entry

pub new : State
new = []

pub lookup : ℕ → Bytes → State → State × Result Entry
lookup now key map = elim (Base.get key map) [
  | none ↦ (map, err not_found)
  | some e ↦ if is_expired now e then (Base.remove key map, err expired) else (map, ok e)
]

pub insert : Bytes → Entry → State → State × Result (Unit {0})
insert key entry map = (Base.insert key entry map, ok tt)

pub invalidate : Bytes → State → State × Result (Unit {0})
invalidate key map = elim (Base.get key map) [
  | none ↦ (map, err not_found)
  | some _ ↦ (Base.remove key map, ok tt)
]

pub l3 : Cache State
l3 = record { lookup = lookup; insert = insert; invalidate = invalidate }
