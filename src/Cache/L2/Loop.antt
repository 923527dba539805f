-- ===== src/Cache/L2/Loop.antt =====
-- The eviction loop of cache/l2.rs: one round always takes a key, so the loop ends, and with the
-- number of keys within the limit.
use olwsx.Base
use olwsx.Base.{
  ℕ, zero, suc, ◌+◌, ◌≤◌, ◌<◌, ◌≡◌, refl, Bool, true, false, ◌||◌, Bytes, bytes_eq_iff, none, some,
  List, [], ◌∷◌, ◌++◌, arith, length, drop, member, Distinct, if◌then◌else◌, Bool-cases, inl, inr,
  length-append, length-drop, ltb, ltb→lt, ltb→le, lt→ltb,
}
use olwsx.Cache.{Entry}
use olwsx.Cache.L2.{
  State, max_items, push_ghost, pop_t1, pop_t2, prefers_t1, replace, shrink, shrink_all,
}
use olwsx.Cache.L2.Queues.{Distinct-middle, member-middle}

-- What holds also in the middle of an operation, when a queue may have a key too many.
pub record IsLive (st : State) : Type 0 where
  pub ghosts1 : length st.b1 ≤ max_items
  pub ghosts2 : length st.b2 ≤ max_items
  pub target : st.p_target ≤ max_items
  pub distinct_map : Distinct (Base.keys st.map)
  pub distinct : Distinct (st.t1 ++ st.t2)
  pub tracked : (k : Bytes) → Base.contains_key k st.map ≡ true → member k (st.t1 ++ st.t2) ≡ true

push_ghost_bounded :
    (k : Bytes) (ghosts : List Bytes)
    → length ghosts ≤ max_items
    → length (push_ghost k ghosts) ≤ max_items
unfolding push_ghost
push_ghost_bounded k ghosts h =
    ground (arith, length-append ghosts (k ∷ []), length-drop 1 (ghosts ++ k ∷ []))

-- The keys left in the map after one is gone are those of the queues without it.
tracked_pop :
    (k : Bytes) (map : Base.Map Entry) (ys : List Bytes)
    → ((q : Bytes) → Base.contains_key q map ≡ true → (Base.bytes_eq k q || member q ys) ≡ true)
    → (q : Bytes) → Base.contains_key q (Base.remove k map) ≡ true
    → member q ys ≡ true
tracked_pop k map ys t q m = ground (
  arith,
  t q,
  Base.keys-remove k map,
  Base.member-without k q (Base.keys map),
  bytes_eq_iff k q,
  bytes_eq_iff q k,
)

pub remove-Distinct :
    (k : Bytes) (map : Base.Map Entry)
    → Distinct (Base.keys map)
    → Distinct (Base.keys (Base.remove k map))
remove-Distinct k map d = rw (Base.keys-remove k map) (Base.without-Distinct k _ d)

pop_t1-IsLive : {st : State} → IsLive st → IsLive (pop_t1 st)
unfolding pop_t1
pop_t1-IsLive {st} v = go st.t1 refl
  where
    go : (ks : List Bytes) → st.t1 ≡ ks → IsLive (pop_t1 st)
    go [] e = rw e (rw e at v)
    go (k ∷ rest) e = rw e (record {
      ghosts1 = push_ghost_bounded k st.b1 v.ghosts1;
      ghosts2 = v.ghosts2;
      target = v.target;
      distinct_map = remove-Distinct k st.map v.distinct_map;
      distinct = (rw e at v.distinct).1;
      tracked = tracked_pop k st.map (rest ++ st.t2) (λ q m. rw e at (v.tracked q m));
    })

pop_t2-IsLive : {st : State} → IsLive st → IsLive (pop_t2 st)
unfolding pop_t2
pop_t2-IsLive {st} v = go st.t2 refl
  where
    go : (ks : List Bytes) → st.t2 ≡ ks → IsLive (pop_t2 st)
    go [] e = rw e (rw e at v)
    go (k ∷ rest) e = rw e (record {
      ghosts1 = v.ghosts1;
      ghosts2 = push_ghost_bounded k st.b2 v.ghosts2;
      target = v.target;
      distinct_map = remove-Distinct k st.map v.distinct_map;
      distinct = Distinct-middle k st.t1 rest (rw e at v.distinct);
      tracked =
          tracked_pop k st.map (st.t1 ++ rest)
            (λ q m. rw (← member-middle k q st.t1 rest) (rw e at (v.tracked q m)));
    })

replace-IsLive : (key : Bytes) {st : State} → IsLive st → IsLive (replace st key)
unfolding replace
replace-IsLive key {st} v = elim (Bool-cases (prefers_t1 st key)) [
  | inl here ↦ rw here (pop_t1-IsLive v)
  | inr there ↦ rw there (pop_t2-IsLive v)
]

abbrev pub size : State → ℕ
size st = length st.t1 + length st.t2

-- The branch that is taken finds a key: if the queues hold too many and `t1` is empty or within the
-- target, `t2` is not empty.
pub replace_progress :
    (key : Bytes) (st : State)
    → st.p_target ≤ max_items
    → max_items < size st
    → suc (size (replace st key)) ≡ size st
unfolding replace prefers_t1 pop_t1 pop_t2
replace_progress key st target over = ground arith

shrink-IsLive : (fuel : ℕ) (key : Bytes) {st : State} → IsLive st → IsLive (shrink fuel key st)
unfolding shrink
shrink-IsLive zero key v = v
shrink-IsLive (suc fuel) key {st} v = elim (Bool-cases (ltb max_items (size st))) [
  | inl over ↦ rw over (shrink-IsLive fuel key (replace-IsLive key v))
  | inr done ↦ rw done v
]

shrink_bounded :
    (fuel : ℕ) (key : Bytes) (st : State)
    → IsLive st
    → size st ≤ fuel + max_items
    → size (shrink fuel key st) ≤ max_items
unfolding shrink
shrink_bounded zero key st v h = omega arith
shrink_bounded (suc fuel) key st v h = elim (Bool-cases (ltb max_items (size st))) [
  | inl over ↦ rw over (
      shrink_bounded fuel key (replace st key) (replace-IsLive key v)
        (omega (arith, replace_progress key st v.target (ltb→lt _ _ over))))
  | inr done ↦ rw done (ltb→le _ _ done)
]

-- The eviction loop ends by its own test in every state whose target, ghost queues, queues and
-- map are in order, whatever the length of the queues: afterwards they hold at most 65536 keys,
-- and the rest is still in order.
pub shrink_all_ends :
    (key : Bytes) (st : State)
    → IsLive st
    → (size (shrink_all key st) ≤ max_items) × IsLive (shrink_all key st)
unfolding shrink_all
shrink_all_ends key st v =
    (shrink_bounded (size st) key st v (omega arith), shrink-IsLive (size st) key v)

-- Within the limit the loop does nothing.
shrink_room : (fuel : ℕ) (key : Bytes) (st : State) → size st ≤ max_items → shrink fuel key st ≡ st
unfolding shrink
shrink_room zero key st h = refl
shrink_room (suc fuel) key st h = ground arith

pub shrink_all_room : (key : Bytes) (st : State) → size st ≤ max_items → shrink_all key st ≡ st
unfolding shrink_all
shrink_all_room key st h = shrink_room (size st) key st h

shrink_once :
    (fuel : ℕ) (key : Bytes) (st : State)
    → max_items < size st
    → size (replace st key) ≤ max_items
    → shrink (suc fuel) key st ≡ replace st key
unfolding shrink
shrink_once fuel key st over done =
    rw (lt→ltb _ _ over) (shrink_room fuel key (replace st key) done)

-- One key too many takes one round.
pub shrink_all_once :
    (key : Bytes) (st : State)
    → st.p_target ≤ max_items
    → size st ≡ suc max_items
    → shrink_all key st ≡ replace st key
unfolding shrink_all
shrink_all_once key st target over = go (size st) refl
  where
    go : (n : ℕ) → size st ≡ n → shrink n key st ≡ replace st key
    go zero e = absurd (omega arith)
    go (suc n) e =
        shrink_once n key st (omega arith)
          (omega (arith, replace_progress key st target (omega arith)))
