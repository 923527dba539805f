-- ===== src/Cache/L1.antt =====
-- cache/l1.rs: a map with FIFO eviction.
mod Refines
pub mod Invariant
mod Fifo
mod Keeps
mod Survival
mod Tests
use olwsx.Base
use olwsx.Base.{
  ℕ, Bool, Bytes, Map, List, [], ◌∷◌, ◌++◌, none, some, ltb, length, without, if◌then◌else◌,
}
use olwsx.Cache.{Entry, is_expired, Cache, Result, ok, err, not_found, expired}

abbrev pub max_entries : ℕ
max_entries = 1024

pub record State : Type 0 where
  pub map : Map Entry
  pub order : List Bytes

pub new : State
new = record { map = []; order = [] }

pub lookup : ℕ → Bytes → State → State × Result Entry
lookup now key st = elim (Base.get key st.map) [
  | none ↦ (st, err not_found)
  | some e ↦
      if is_expired now e
      then (record st { map = Base.remove key st.map }, err expired)
      else (st, ok e)
]

-- The `while` loop of `insert`: it goes round once for each key at the front that is too many.
evict : Map Entry → List Bytes → State
evict map [] = record { map = map; order = [] }
evict map (old ∷ order) =
    let rest = evict (Base.remove old map) order in
    if ltb max_entries (length (old ∷ order))
    then rest
    else record { map = map; order = old ∷ order }

pub insert : Bytes → Entry → State → State × Result (Unit {0})
insert key entry st =
    let order = if Base.contains_key key st.map then st.order else st.order ++ key ∷ [] in
    (evict (Base.insert key entry st.map) order, ok tt)

pub invalidate : Bytes → State → State × Result (Unit {0})
invalidate key st = elim (Base.get key st.map) [
  | none ↦ (st, err not_found)
  | some _ ↦ (record { map = Base.remove key st.map; order = without key st.order }, ok tt)
]

pub l1 : Cache State
l1 = record { lookup = lookup; insert = insert; invalidate = invalidate }
