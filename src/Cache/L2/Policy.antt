-- ===== src/Cache/L2/Policy.antt =====
-- Which keys cache/l2.rs promotes, and which it gives up.
use olwsx.Base
use olwsx.Base.{
  ℕ, ◌+◌, ◌≤◌, ◌<◌, ◌≡◌, ◌≢◌, refl, ap, Bool, true, false, Bytes, bytes_eq, bytes_eq_iff, none,
  some, List, [], ◌∷◌, ◌++◌, arith, length, member, if◌then◌else◌, Bool-cases, inl, inr,
  length-append, member-append, without,
}
use native.Mathlib.Decide.{dec_lt}
use olwsx.Cache.{Entry, is_expired, ok, err, not_found}
use olwsx.Cache.L2.{State, max_items, pop_t1, pop_t2, prefers_t1, replace, lookup, store, insert}
use olwsx.Cache.L2.Refines.{accepts}
use olwsx.Cache.L2.Loop.{size, shrink_all_room, shrink_all_once, replace_progress}
use olwsx.Cache.L2.Touch.{IsValid, touch_held, touch_new, requeue_bounded}

-- A hit on a fresh entry in a valid cache makes its key the most recent of the frequent ones,
-- whichever queue it stood in, and changes nothing else.
pub lookup_promotes :
    (now : ℕ) (k : Bytes) (e : Entry) (st : State)
    → IsValid st
    → Base.get k st.map ≡ some e
    → is_expired now e ≡ false
    → lookup now k st ≡ (record st { t1 = without k st.t1; t2 = without k st.t2 ++ k ∷ [] }, ok e)
unfolding lookup
lookup_promotes now k e st v hit fresh = ground (
  arith,
  touch_held k st v.live.distinct (v.live.tracked k (rw (Base.contains_key-get k st.map, hit))),
)

-- The state in the middle of an insertion.
abbrev stored : Bytes → Entry → State → State
stored k e st = record st { map = Base.insert k (store e) st.map }

abbrev queued : Bytes → Entry → State → State
queued k e st = record st { map = Base.insert k (store e) st.map; t1 = st.t1 ++ k ∷ [] }

module _ (k : Bytes) (e : Entry) (st : State) (v : IsValid st) (fits : accepts e ≡ true) where
  -- Where `insert` of a key ends, by whether the queues hold it and whether they are full.
  pub insert_held :
      member k (st.t1 ++ st.t2) ≡ true
      → (insert k e st).0
        ≡ record (stored k e st) { t1 = without k st.t1; t2 = without k st.t2 ++ k ∷ [] }
  unfolding insert accepts
  insert_held held = ground (
    arith,
    touch_held k (stored k e st) v.live.distinct held,
    shrink_all_room k
        (record (stored k e st) { t1 = without k st.t1; t2 = without k st.t2 ++ k ∷ [] })
        (omega (arith, requeue_bounded k st.t1 st.t2 held, v.bounded)),
  )

  pub insert_room :
      member k (st.t1 ++ st.t2) ≡ false → size st < max_items → (insert k e st).0 ≡ queued k e st
  unfolding insert accepts
  insert_room fresh room = ground (
    arith,
    touch_new k (stored k e st) v.live.distinct fresh,
    shrink_all_room k (queued k e st) (omega (arith, length-append st.t1 (k ∷ []))),
  )

  insert_full :
      member k (st.t1 ++ st.t2) ≡ false
      → size st ≡ max_items
      → (insert k e st).0 ≡ replace (queued k e st) k
  unfolding insert accepts
  insert_full fresh full =
      let over : size (queued k e st) ≡ Base.suc max_items =
        omega (arith, length-append st.t1 (k ∷ [])) in
      ground (
        arith,
        touch_new k (stored k e st) v.live.distinct fresh,
        shrink_all_once k (queued k e st) v.live.target over,
        shrink_all_room k (replace (queued k e st) k)
            (omega (arith, replace_progress k (queued k e st) v.live.target (omega arith))),
      )

  stored-get :
      (j : Bytes)
      → bytes_eq j k ≡ false
      → Base.get k (Base.remove j (stored k e st).map) ≡ some (store e)
  stored-get j other = ground (
    arith,
    Base.get-remove j k (stored k e st).map,
    Base.get-insert k k (store e) st.map,
    bytes_eq_iff k k,
  )

  pop_t1_keeps :
      member k st.t1 ≡ false → st.t1 ≢ [] → Base.get k (pop_t1 (queued k e st)).map ≡ some (store e)
  unfolding pop_t1
  pop_t1_keeps fresh some_key = go st.t1 refl
    where
      go : (xs : List Bytes) → st.t1 ≡ xs → Base.get k (pop_t1 (queued k e st)).map ≡ some (store e)
      go [] p = absurd (some_key p)
      go (x ∷ xs) p =
          let other : bytes_eq x k ≡ false = ground (arith, fresh, p) in rw p (stored-get x other)

  pop_t2_keeps : member k st.t2 ≡ false → Base.get k (pop_t2 (queued k e st)).map ≡ some (store e)
  unfolding pop_t2
  pop_t2_keeps fresh = go st.t2 refl
    where
      go : (xs : List Bytes) → st.t2 ≡ xs → Base.get k (pop_t2 (queued k e st)).map ≡ some (store e)
      go [] p = rw p (ground (arith, Base.get-insert k k (store e) st.map, bytes_eq_iff k k))
      go (x ∷ xs) p =
          let other : bytes_eq x k ≡ false = ground (arith, fresh, p) in rw p (stored-get x other)

  replace_keeps :
      member k (st.t1 ++ st.t2) ≡ false
      → (st.t1 ≡ [] → 2 ≤ st.p_target)
      → Base.get k (replace (queued k e st) k).map ≡ some (store e)
  unfolding replace prefers_t1
  replace_keeps fresh target = go st.t1 refl
    where
      outside : (member k st.t1 ≡ false) × (member k st.t2 ≡ false)
      outside = ground (arith, member-append k st.t1 st.t2)

      go :
          (xs : List Bytes)
          → st.t1 ≡ xs
          → Base.get k (replace (queued k e st) k).map ≡ some (store e)
      go [] p =
          let large = target p in
          ground (arith, ap length p, length-append st.t1 (k ∷ []), pop_t2_keeps outside.1)
      go (x ∷ xs) p = ground (arith, pop_t1_keeps outside.0 (λ q. cc), pop_t2_keeps outside.1)

  insert_keeps :
      (member k (st.t1 ++ st.t2) ≡ false → size st ≡ max_items → st.t1 ≡ [] → 2 ≤ st.p_target)
      → Base.get k (insert k e st).0.map ≡ some (store e)
  insert_keeps keeps = elim (Bool-cases (member k (st.t1 ++ st.t2))) [
    | inl held ↦ rw (insert_held held) self
    | inr fresh ↦ elim (dec_lt (size st) max_items) [
      | yes room ↦ rw (insert_room fresh room) self
      | no full ↦
          let filled : size st ≡ max_items = omega (arith, v.bounded) in
          rw (insert_full fresh filled) (replace_keeps fresh (keeps fresh filled))
    ]
  ]
    where
      self : Base.get k (stored k e st).map ≡ some (store e)
      self = ground (arith, Base.get-insert k k (store e) st.map, bytes_eq_iff k k)

-- In a valid cache an accepted entry that has not expired can be looked up right after its
-- insertion, in the form in which it is stored, if the queues hold its key, or have room, or
-- `t1` has a key, or the target is at least 2.
pub l2_lookup-insert :
    (now : ℕ) (k : Bytes) (e : Entry) (st : State)
    → IsValid st
    → accepts e ≡ true
    → is_expired now (store e) ≡ false
    → (member k (st.t1 ++ st.t2) ≡ false
        → length st.t1 + length st.t2 ≡ max_items
        → st.t1 ≡ []
        → 2 ≤ st.p_target)
    → (lookup now k (insert k e st).0).1 ≡ ok (store e)
unfolding lookup
l2_lookup-insert now k e st v fits fresh keeps = ground (arith, insert_keeps k e st v fits keeps)

lookup_miss :
    (now : ℕ) (k : Bytes) (st : State)
    → Base.get k st.map ≡ none
    → (lookup now k st).1 ≡ err not_found
unfolding lookup
lookup_miss now k st h = ground arith

-- The defect: in a valid cache where `t1` is empty, `t2` full and the target 0, the insertion
-- of an accepted entry under a key that the queues do not hold answers `Ok`, and the key that
-- it evicts is its own.
pub insert_starved_lost :
    (now : ℕ) (k : Bytes) (e : Entry) (st : State)
    → IsValid st
    → accepts e ≡ true
    → member k (st.t1 ++ st.t2) ≡ false
    → st.t1 ≡ []
    → length st.t2 ≡ max_items
    → st.p_target ≡ 0
    → ((insert k e st).1 ≡ ok tt) × ((lookup now k (insert k e st).0).1 ≡ err not_found)
insert_starved_lost now k e st v fits fresh empty full zero_target = (
  unfold insert accepts in ground arith,
  lookup_miss now k _
      (rw (insert_full k e st v fits fresh (omega (arith, full, ap length empty))) gone),
)
  where
    gone : Base.get k (replace (queued k e st) k).map ≡ none
    gone =
        unfold replace prefers_t1 pop_t1 in
        rw (empty, zero_target)
          (ground (arith, Base.get-remove k k (stored k e st).map, bytes_eq_iff k k))
