-- ===== src/Cache/L2/Invariant.antt =====
-- What holds of the L2 cache (cache/l2.rs) after any calls.
use olwsx.Base
use olwsx.Base.{
  ℕ, ◌+◌, ◌-◌, ◌≤◌, ◌≡◌, refl, Bool, true, false, ◌||◌, Bytes, bytes_eq, bytes_eq_iff, none, some,
  List, [], ◌∷◌, ◌++◌, arith, length, member, Distinct, ltb, if◌then◌else◌, Bool-cases,
  Option-cases, inl, inr, length-append, member-append, without, member-without, length-without,
  length-without-le, without-append, without-absent,
}
use olwsx.Cache.{Entry, is_expired}
use olwsx.Cache.Contract.{Call, step, run}
use olwsx.Cache.L2.{
  State, max_items, max_value_bytes, new, touch, tune, lookup, store, insert, invalidate, l2,
}
use olwsx.Cache.L2.Loop.{remove-Distinct, shrink_all_ends}
use olwsx.Cache.L2.Touch.{IsValid, IsReady, touch-IsValid}

pub new-IsValid : IsValid new
unfolding new
new-IsValid = record {
  bounded = omega arith;
  live = record {
    ghosts1 = omega arith;
    ghosts2 = omega arith;
    target = omega arith;
    distinct_map = tt;
    distinct = tt;
    tracked = λ k h. cc;
  };
}

-- A state in order is ready for any key.
IsValid-IsReady : (k : Bytes) {st : State} → IsValid st → IsReady k st
IsValid-IsReady k {st} v = record {
  bounded = v.bounded;
  ghosts1 = v.live.ghosts1;
  ghosts2 = v.live.ghosts2;
  target = v.live.target;
  distinct_map = v.live.distinct_map;
  distinct = v.live.distinct;
  tracked = λ q m. ground (arith, v.live.tracked q m);
}

-- A key that leaves the map may stay in its queue.
forget-IsValid :
    (k : Bytes) {st : State} → IsValid st → IsValid (record st { map = Base.remove k st.map })
forget-IsValid k {st} v = record {
  bounded = v.bounded;
  live = record {
    ghosts1 = v.live.ghosts1;
    ghosts2 = v.live.ghosts2;
    target = v.live.target;
    distinct_map = remove-Distinct k st.map v.live.distinct_map;
    distinct = v.live.distinct;
    tracked = λ q m.
        ground (
          arith,
          v.live.tracked q,
          Base.keys-remove k st.map,
          member-without k q (Base.keys st.map),
        );
  };
}

retarget-IsValid :
    {st : State} (p : ℕ) → IsValid st → p ≤ max_items → IsValid (record st { p_target = p })
retarget-IsValid {st} p v h = record {
  bounded = v.bounded;
  live = record {
    ghosts1 = v.live.ghosts1;
    ghosts2 = v.live.ghosts2;
    target = h;
    distinct_map = v.live.distinct_map;
    distinct = v.live.distinct;
    tracked = v.live.tracked;
  };
}

tune-IsValid : (k : Bytes) {st : State} → IsValid st → IsValid (tune k st)
unfolding tune
tune-IsValid k {st} v = elim (Bool-cases (member k st.b1)) [
  | inl recent ↦ rw (recent, tune) (retarget-IsValid _ v (omega arith))
  | inr cold ↦ elim (Bool-cases (member k st.b2)) [
    | inl frequent ↦ rw (cold, frequent, tune) (retarget-IsValid _ v (omega (arith, v.live.target)))
    | inr unknown ↦ rw (cold, unknown, tune) v
  ]
]

pub lookup-IsValid : (now : ℕ) (k : Bytes) {st : State} → IsValid st → IsValid (lookup now k st).0
unfolding lookup
lookup-IsValid now k {st} v = elim (Option-cases (Base.get k st.map)) [
  | inl miss ↦ rw (miss, lookup) (tune-IsValid k v)
  | inr (e, hit) ↦ elim (Bool-cases (is_expired now e)) [
    | inl old ↦ rw (hit, old, lookup) (forget-IsValid k v)
    | inr fresh ↦ rw (hit, fresh, lookup) (touch-IsValid k (IsValid-IsReady k v))
  ]
]

pub insert-IsValid : (k : Bytes) (e : Entry) {st : State} → IsValid st → IsValid (insert k e st).0
unfolding insert
insert-IsValid k e {st} v = elim (Bool-cases (ltb max_value_bytes (length e.value))) [
  | inl large ↦ rw (large, insert) v
  | inr fits ↦
      rw (fits, insert)
        (let st' = touch (record st { map = Base.insert k (store e) st.map }) k in
          let (small, live) = shrink_all_ends k st' (touch-IsValid k ready).live in
          record { bounded = small; live = live })
]
  where
    ready : IsReady k (record st { map = Base.insert k (store e) st.map })
    ready = record {
      bounded = v.bounded;
      ghosts1 = v.live.ghosts1;
      ghosts2 = v.live.ghosts2;
      target = v.live.target;
      distinct_map = Base.keys-insert-Distinct k (store e) st.map v.live.distinct_map;
      distinct = v.live.distinct;
      tracked =
          λ q m. ground (arith, v.live.tracked q, Base.member-keys-insert k q (store e) st.map);
    }

pub invalidate-IsValid : (k : Bytes) {st : State} → IsValid st → IsValid (invalidate k st).0
unfolding invalidate
invalidate-IsValid k {st} v = record {
  bounded = omega (arith, v.bounded, length-without-le k st.t1, length-without-le k st.t2);
  live = record {
    ghosts1 = v.live.ghosts1;
    ghosts2 = v.live.ghosts2;
    target = v.live.target;
    distinct_map = remove-Distinct k st.map v.live.distinct_map;
    distinct = rw (← without-append k st.t1 st.t2) (Base.without-Distinct k _ v.live.distinct);
    tracked = λ q m. ground (
      arith,
      v.live.tracked q,
      Base.keys-remove k st.map,
      member-without k q (Base.keys st.map),
      member-without k q (st.t1 ++ st.t2),
      without-append k st.t1 st.t2,
    );
  };
}

pub step-IsValid : (x : Call) {st : State} → IsValid st → IsValid (step l2 x st)
unfolding step l2
step-IsValid (Call.lookup now k) v = lookup-IsValid now k v
step-IsValid (Call.insert k e) v = insert-IsValid k e v
step-IsValid (Call.invalidate k) v = invalidate-IsValid k v

run_from-IsValid : (xs : List Call) {st : State} → IsValid st → IsValid (run l2 xs st)
unfolding run
run_from-IsValid [] v = v
run_from-IsValid (x ∷ xs) v = run_from-IsValid xs (step-IsValid x v)

-- After any calls on a new cache: the queues hold at most 65536 keys, each once, and every key of
-- the map among them; each ghost queue holds at most 65536, and the target lies in 0..65536. So the
-- map has at most 65536 entries.
pub l2-run-IsValid :
    (xs : List Call)
    → IsValid (run l2 xs new) × (length (Base.keys (run l2 xs new).map) ≤ max_items)
l2-run-IsValid xs =
    let v = run_from-IsValid xs new-IsValid in
    (
      v,
      omega (
        arith,
        v.bounded,
        Base.length-le_of_members _ _ v.live.distinct_map v.live.tracked,
        length-append (run l2 xs new).t1 (run l2 xs new).t2,
      ),
    )
