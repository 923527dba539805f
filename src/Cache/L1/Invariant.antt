-- ===== src/Cache/L1/Invariant.antt =====
-- What holds of the L1 cache (cache/l1.rs) after any calls.
use olwsx.Base
use olwsx.Base.{
  ℕ, ◌+◌, ◌≤◌, ◌≡◌, refl, Bool, true, false, ◌||◌, Bytes, bytes_eq, bytes_eq_iff, Map, Option, none,
  some, List, [], ◌∷◌, ◌++◌, arith, length, member, Distinct, without, if◌then◌else◌, Bool-cases,
  Option-cases, inl, inr,
}
use olwsx.Cache.{Entry, is_expired}
use olwsx.Cache.Contract.{Call, step, run}
use olwsx.Cache.L1.{State, max_entries, new, lookup, evict, insert, invalidate, l1}

pub record IsValid (st : State) : Type 0 where
  pub bounded : length st.order ≤ max_entries
  pub distinct : Distinct (Base.keys st.map)
  pub tracked : (k : Bytes) → Base.contains_key k st.map ≡ true → member k st.order ≡ true

evict_bounded :
    (map : Map Entry) (order : List Bytes) → length (evict map order).order ≤ max_entries
unfolding evict
evict_bounded map [] = omega arith
evict_bounded map (old ∷ order) = ground (arith, evict_bounded (Base.remove old map) order)

evict-Distinct :
    (map : Map Entry) (order : List Bytes)
    → Distinct (Base.keys map)
    → Distinct (Base.keys (evict map order).map)
unfolding evict
evict-Distinct map [] d = d
evict-Distinct map (old ∷ order) d = ground (
  arith,
  evict-Distinct (Base.remove old map) order,
  Base.keys-remove old map,
  Base.without-Distinct old (Base.keys map) d,
)

evict_tracked :
    (map : Map Entry) (order : List Bytes)
    → ((k : Bytes) → Base.contains_key k map ≡ true → member k order ≡ true)
    → (k : Bytes) → Base.contains_key k (evict map order).map ≡ true
    → member k (evict map order).order ≡ true
unfolding evict
evict_tracked map [] t k = t k
evict_tracked map (old ∷ order) t k =
    ground (arith, evict_tracked (Base.remove old map) order inner k, t k)
  where
    inner : (q : Bytes) → Base.contains_key q (Base.remove old map) ≡ true → member q order ≡ true
    inner q m = ground (
      arith,
      t q,
      Base.keys-remove old map,
      Base.member-without old q (Base.keys map),
      bytes_eq_iff old q,
      bytes_eq_iff q old,
    )

pub new-IsValid : IsValid new
unfolding new
new-IsValid = record { bounded = omega arith; distinct = tt; tracked = λ k h. cc }

-- A key that leaves the map may stay in the order.
forget-IsValid :
    (k : Bytes) {st : State} → IsValid st → IsValid (record st { map = Base.remove k st.map })
forget-IsValid k {st} v = record {
  bounded = v.bounded;
  distinct = rw (Base.keys-remove k st.map) (Base.without-Distinct k _ v.distinct);
  tracked = λ q m.
      ground
        (arith, v.tracked q, Base.keys-remove k st.map, Base.member-without k q (Base.keys st.map));
}

pub lookup-IsValid : (now : ℕ) (k : Bytes) {st : State} → IsValid st → IsValid (lookup now k st).0
unfolding lookup
lookup-IsValid now k {st} v = elim (Option-cases (Base.get k st.map)) [
  | inl miss ↦ rw (miss, lookup) v
  | inr (e, hit) ↦ elim (Bool-cases (is_expired now e)) [
    | inl old ↦ rw (hit, old, lookup) (forget-IsValid k v)
    | inr fresh ↦ rw (hit, fresh, lookup) v
  ]
]

pub insert-IsValid : (k : Bytes) (e : Entry) {st : State} → IsValid st → IsValid (insert k e st).0
unfolding insert
insert-IsValid k e {st} v = record {
  bounded = evict_bounded _ _;
  distinct = evict-Distinct _ _ (Base.keys-insert-Distinct k e st.map v.distinct);
  tracked = evict_tracked _ _ inner;
}
  where
    inner :
        (q : Bytes)
        → Base.contains_key q (Base.insert k e st.map) ≡ true
        → member q (if Base.contains_key k st.map then st.order else st.order ++ k ∷ []) ≡ true
    inner q m = ground (
      arith,
      v.tracked q,
      Base.member-keys-insert k q e st.map,
      Base.member-append q st.order (k ∷ []),
      bytes_eq_iff k q,
    )

pub invalidate-IsValid : (k : Bytes) {st : State} → IsValid st → IsValid (invalidate k st).0
unfolding invalidate
invalidate-IsValid k {st} v = elim (Option-cases (Base.get k st.map)) [
  | inl miss ↦ rw (miss, invalidate) v
  | inr (e, hit) ↦
      rw (hit, invalidate)
        (record {
          bounded = omega (arith, v.bounded, Base.length-without-le k st.order);
          distinct = rw (Base.keys-remove k st.map) (Base.without-Distinct k _ v.distinct);
          tracked = λ q m. ground (
            arith,
            v.tracked q,
            Base.keys-remove k st.map,
            Base.member-without k q (Base.keys st.map),
            Base.member-without k q st.order,
          );
        })
]

pub step-IsValid : (x : Call) {st : State} → IsValid st → IsValid (step l1 x st)
unfolding step l1
step-IsValid (Call.lookup now k) v = lookup-IsValid now k v
step-IsValid (Call.insert k e) v = insert-IsValid k e v
step-IsValid (Call.invalidate k) v = invalidate-IsValid k v

run_from-IsValid : (xs : List Call) {st : State} → IsValid st → IsValid (run l1 xs st)
unfolding run
run_from-IsValid [] v = v
run_from-IsValid (x ∷ xs) v = run_from-IsValid xs (step-IsValid x v)

-- After any calls on a new cache the order has at most 1024 keys, the map has each of its keys once
-- and in the order, and so it has at most 1024 entries.
pub l1-run-IsValid :
    (xs : List Call)
    → IsValid (run l1 xs new) × (length (Base.keys (run l1 xs new).map) ≤ max_entries)
l1-run-IsValid xs =
    let v = run_from-IsValid xs new-IsValid in
    (v, omega (arith, v.bounded, Base.length-le_of_members _ _ v.distinct v.tracked))
