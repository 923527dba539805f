-- ===== src/Cache/L2.antt =====
-- cache/l2.rs: two queues of keys (`t1` recent, `t2` frequent), their ghosts, and a target that
-- balances them.
mod Queues
mod Loop
pub mod Refines
pub mod Touch
pub mod Invariant
mod Policy
mod Exact
mod Tests
use olwsx.Base
use olwsx.Base.{
  ℕ, zero, suc, ◌+◌, ◌-◌, ◌*◌, Bool, not, ◌&&◌, ◌||◌, Bytes, bytes_eq, Map, Option, none, some,
  List, [], ◌∷◌, ◌++◌, ltb, ◌==◌, length, drop, member, without, if◌then◌else◌,
}
use Prim.Native.Nat.{min}
use mathlib.Core.Option
use olwsx.Cache.{Entry, is_expired, Cache, Result, ok, err, too_large, not_found, expired}

abbrev pub max_items : ℕ
max_items = 65_536

abbrev pub max_value_bytes : ℕ
max_value_bytes = 64 * 1024 * 1024

-- 300 seconds
abbrev pub default_ttl : ℕ
default_ttl = 300_000_000_000

pub record State : Type 0 where
  pub t1 : List Bytes
  pub t2 : List Bytes
  pub b1 : List Bytes
  pub b2 : List Bytes
  pub map : Map Entry
  pub p_target : ℕ

unfoldable pub new : State
new = record { t1 = []; t2 = []; b1 = []; b2 = []; map = []; p_target = 32_768 }

-- `push_back` on a ghost queue, and the `pop_front` that bounds it.
pub push_ghost : Bytes → List Bytes → List Bytes
push_ghost k ghosts =
    if ltb max_items (length (ghosts ++ k ∷ []))
    then drop 1 (ghosts ++ k ∷ [])
    else ghosts ++ k ∷ []

-- The two branches of `replace`.
pub pop_t1 : State → State
pop_t1 st = elim st.t1 [
  | [] ↦ st
  | k ∷ rest ↦ record st { t1 = rest; map = Base.remove k st.map; b1 = push_ghost k st.b1 }
]

pub pop_t2 : State → State
pop_t2 st = elim st.t2 [
  | [] ↦ st
  | k ∷ rest ↦ record st { t2 = rest; map = Base.remove k st.map; b2 = push_ghost k st.b2 }
]

-- The test of `replace`.
pub prefers_t1 : State → Bytes → Bool
prefers_t1 st miss_key =
    ltb 0 (length st.t1)
    && (ltb st.p_target (length st.t1) || (member miss_key st.b2 && length st.t1 == st.p_target))

pub replace : State → Bytes → State
replace st miss_key = if prefers_t1 st miss_key then pop_t1 st else pop_t2 st

-- `while st.t1.len() + st.t2.len() > MAX_ITEMS { replace(st, key) }`, on fuel.
unfoldable pub shrink : ℕ → Bytes → State → State
shrink zero key st = st
shrink (suc fuel) key st =
    let rest = shrink fuel key (replace st key) in
    if ltb max_items (length st.t1 + length st.t2) then rest else st

-- Each round takes a key, so as many rounds as there are keys are enough.
unfoldable pub shrink_all : Bytes → State → State
shrink_all key st = shrink (length st.t1 + length st.t2) key st

-- `iter().position(|x| *x == k)`
unfoldable pub position : Bytes → List Bytes → Option ℕ
position k [] = none
position k (x ∷ xs) = if bytes_eq x k then some 0 else Option.map suc (position k xs)

-- `VecDeque::remove(pos)`
unfoldable pub remove_at : ℕ → List Bytes → List Bytes
remove_at pos [] = []
remove_at zero (x ∷ xs) = xs
remove_at (suc pos) (x ∷ xs) = x ∷ remove_at pos xs

unfoldable pub touch : State → Bytes → State
touch st k = elim (position k st.t1) [
  | some pos ↦ record st { t1 = remove_at pos st.t1; t2 = st.t2 ++ k ∷ [] }
  | none ↦ elim (position k st.t2) [
    | some pos ↦ record st { t2 = remove_at pos st.t2 ++ k ∷ [] }
    | none ↦ shrink_all k (record st { t1 = st.t1 ++ k ∷ [] })
  ]
]

-- The ghost hit tuning of `lookup`.
pub tune : Bytes → State → State
tune k st =
    if member k st.b1
    then record st { p_target = min max_items (st.p_target + 1) }
    else if member k st.b2
    then record st { p_target = st.p_target - 1 }
    else st

unfoldable pub lookup : ℕ → Bytes → State → State × Result Entry
lookup now key st = elim (Base.get key st.map) [
  | none ↦ (tune key st, err not_found)
  | some e ↦
      if is_expired now e
      then (record st { map = Base.remove key st.map }, err expired)
      else (touch st key, ok e)
]

-- The entry that `insert` stores: a zero lifetime stands for the default one.
unfoldable pub store : Entry → Entry
store e = record e { ttl = if e.ttl == 0 then default_ttl else e.ttl }

unfoldable pub insert : Bytes → Entry → State → State × Result (Unit {0})
insert key entry st = if ltb max_value_bytes (length entry.value) then (st, err too_large) else (
  shrink_all key (touch (record st { map = Base.insert key (store entry) st.map }) key),
  ok tt,
)

pub invalidate : Bytes → State → State × Result (Unit {0})
invalidate key st = (
  record st { map = Base.remove key st.map; t1 = without key st.t1; t2 = without key st.t2 },
  if Base.contains_key key st.map then ok tt else err not_found,
)

unfoldable pub l2 : Cache State
l2 = record { lookup = lookup; insert = insert; invalidate = invalidate }
