-- ===== src/Cache/L2/Exact.antt =====
-- cache/l2.rs loses nothing while it has room for all keys.
use olwsx.Base
use olwsx.Base.{
  ℕ, suc, ◌+◌, ◌≤◌, ◌<◌, ◌≡◌, ◌↔◌, refl, Bool, true, false, ◌||◌, Bytes, bytes_eq, bytes_eq_iff,
  none, some, List, [], ◌∷◌, ◌++◌, arith, All, length, length-append, member, member-append,
  member-without, without, without-append, Distinct, if◌then◌else◌, Bool-cases, Option-cases, inl,
  inr,
}
use olwsx.Cache.{Entry, is_expired, ok}
use olwsx.Cache.Contract.{Call, run, step, ideal}
use olwsx.Cache.Contract.Lossless.{ByNow, IsLossless, lookup-run-exact}
use olwsx.Cache.L2.{State, max_items, new, tune, lookup, insert, invalidate, store, l2}
use olwsx.Cache.L2.Refines.{accepts, l2-IsCache}
use olwsx.Cache.L2.Loop.{size}
use olwsx.Cache.L2.Touch.{IsValid, requeue_member, enqueue_member}
use olwsx.Cache.L2.Invariant.{new-IsValid, step-IsValid}
use olwsx.Cache.L2.Policy.{lookup_promotes, insert_held, insert_room}

module _ (ks : List Bytes) (few : length ks ≤ max_items) where
  -- An insertion is under one of the keys `ks`.
  abbrev pub Among : Call → Type 0
  Among (Call.lookup t k) = Unit
  Among (Call.insert k e) = member k ks ≡ true
  Among (Call.invalidate k) = Unit

  -- The queues hold no other keys.
  record IsRoomy (st : State) : Type 0 where
    valid : IsValid st
    known : (q : Bytes) → member q (st.t1 ++ st.t2) ≡ true → member q ks ≡ true

  -- A key of `ks` that the queues do not hold finds room.
  room :
      (k : Bytes) {st : State}
      → IsRoomy st
      → member k ks ≡ true
      → member k (st.t1 ++ st.t2) ≡ false
      → size st < max_items
  room k {st} v own fresh = omega (
    arith,
    few,
    length-append st.t1 st.t2,
    Base.length-le_of_members (k ∷ st.t1 ++ st.t2) ks (fresh, v.valid.live.distinct)
        (λ q m. ground (arith, v.known q, bytes_eq_iff k q)),
  )

  lookup_known :
      (t : ℕ) (k : Bytes) {st : State}
      → IsRoomy st
      → (q : Bytes) → member q ((lookup t k st).0.t1 ++ (lookup t k st).0.t2) ≡ true
      → member q ks ≡ true
  unfolding lookup tune
  lookup_known t k {st} v q m = elim (Option-cases (Base.get k st.map)) [
    | inl miss ↦ ground (arith, v.known q)
    | inr (e, hit) ↦ elim (Bool-cases (is_expired t e)) [
      | inl old ↦ ground (arith, v.known q)
      | inr fresh ↦ ground (
        arith,
        v.known q,
        lookup_promotes t k e st v.valid hit fresh,
        requeue_member k q st.t1 st.t2,
        bytes_eq_iff k q,
        v.valid.live.tracked k,
        Base.contains_key-get k st.map,
      )
    ]
  ]

  insert_known :
      (k : Bytes) (e : Entry) {st : State}
      → IsRoomy st
      → member k ks ≡ true
      → (q : Bytes) → member q ((insert k e st).0.t1 ++ (insert k e st).0.t2) ≡ true
      → member q ks ≡ true
  unfolding l2
  insert_known k e {st} v own q m = elim (Bool-cases (accepts e)) [
    | inr refused ↦ ground (arith, v.known q, l2-IsCache.insert_refused k e st refused)
    | inl fits ↦ elim (Bool-cases (member k (st.t1 ++ st.t2))) [
      | inl held ↦ ground (
        arith,
        v.known q,
        insert_held k e st v.valid fits held,
        requeue_member k q st.t1 st.t2,
        bytes_eq_iff k q,
      )
      | inr fresh ↦ ground (
        arith,
        v.known q,
        insert_room k e st v.valid fits fresh (room k v own fresh),
        enqueue_member k q st.t1 st.t2,
        bytes_eq_iff k q,
      )
    ]
  ]

  invalidate_known :
      (k : Bytes) {st : State}
      → IsRoomy st
      → (q : Bytes) → member q ((invalidate k st).0.t1 ++ (invalidate k st).0.t2) ≡ true
      → member q ks ≡ true
  unfolding invalidate
  invalidate_known k {st} v q m =
      ground (arith, v.known q, without-append k st.t1 st.t2, member-without k q (st.t1 ++ st.t2))

  step-IsRoomy : (x : Call) {st : State} → Among x → IsRoomy st → IsRoomy (step l2 x st)
  unfolding step l2
  step-IsRoomy (Call.lookup t k) fits v = record {
    valid = step-IsValid (Call.lookup t k) v.valid;
    known = lookup_known t k v;
  }
  step-IsRoomy (Call.insert k e) own v = record {
    valid = step-IsValid (Call.insert k e) v.valid;
    known = insert_known k e v own;
  }
  step-IsRoomy (Call.invalidate k) fits v = record {
    valid = step-IsValid (Call.invalidate k) v.valid;
    known = invalidate_known k v;
  }

  lookup_keeps :
      (t : ℕ) (k q : Bytes) (st : State) (e : Entry)
      → IsRoomy st
      → Base.get q st.map ≡ some e
      → is_expired t e ≡ false
      → Base.get q (lookup t k st).0.map ≡ some e
  unfolding lookup tune
  lookup_keeps t k q st e v held fresh = elim (Option-cases (Base.get k st.map)) [
    | inl miss ↦ ground arith
    | inr (x, hit) ↦ elim (Bool-cases (is_expired t x)) [
      | inl old ↦ ground (arith, Base.get-remove k q st.map, bytes_eq_iff k q)
      | inr still ↦ ground (arith, lookup_promotes t k x st v.valid hit still)
    ]
  ]

  insert_keeps :
      (k q : Bytes) (x : Entry) (st : State) (e : Entry)
      → IsRoomy st
      → member k ks ≡ true
      → accepts x ≡ true
      → (if bytes_eq k q then some (store x) else Base.get q st.map) ≡ some e
      → Base.get q (insert k x st).0.map ≡ some e
  insert_keeps k q x st e v own fits h = elim (Bool-cases (member k (st.t1 ++ st.t2))) [
    | inl held ↦
        ground (arith, insert_held k x st v.valid fits held, Base.get-insert k q (store x) st.map)
    | inr fresh ↦ ground (
      arith,
      insert_room k x st v.valid fits fresh (room k v own fresh),
      Base.get-insert k q (store x) st.map,
    )
  ]

  l2-IsLossless : IsLossless l2 (λ st k. Base.get k st.map) store accepts Among IsRoomy
  unfolding l2
  l2-IsLossless = record {
    step_holds = λ x st fits v. step-IsRoomy x fits v;
    lookup_keeps = lookup_keeps;
    insert_keeps = insert_keeps;
  }

  new-IsRoomy : IsRoomy new
  unfolding new
  new-IsRoomy = record { valid = new-IsValid; known = λ q m. cc }

  -- After any calls on a new L2 cache that insert under at most 65536 different keys, with no clock
  -- ahead of `now`, a lookup answers with an entry exactly if an unbounded store, in which nothing
  -- expires, holds it after the same calls and it has not expired: nothing is evicted.
  pub l2_lookup-run_iff :
      (xs : List Call) (now : ℕ) (k : Bytes) (e : Entry)
      → All Among xs
      → All (ByNow now) xs
      → ((lookup now k (run l2 xs new)).1 ≡ ok e)
        ↔ ((ideal store accepts xs (λ _. none) k ≡ some e) × (is_expired now e ≡ false))
  unfolding l2 new
  l2_lookup-run_iff xs now k e own past =
      lookup-run-exact l2-IsCache l2-IsLossless now xs new k e own past new-IsRoomy (λ q. refl)
