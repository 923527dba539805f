-- ===== src/Cache/L1/Fifo.antt =====
-- The eviction of cache/l1.rs: what an insertion keeps, and when it loses the entry it was given.
use olwsx.Base
use olwsx.Base.{
  ℕ, ◌+◌, ◌<◌, ◌≤◌, ◌≡◌, ◌≢◌, refl, ap, Bool, true, false, Bytes, bytes_eq, bytes_eq_iff, Map,
  Option, none, some, List, [], ◌∷◌, ◌++◌, arith, ltb, ltb→lt, ltb→le, length, member,
  if◌then◌else◌, Option-cases, Bool-cases, inl, inr,
}
use native.Mathlib.Decide.{dec_lt}
use olwsx.Cache.{Entry, is_expired, ok, err, not_found}
use olwsx.Cache.L1.{State, max_entries, lookup, evict, insert}
use olwsx.Cache.L1.Invariant.{IsValid}

-- With room, nothing is evicted.
evict_room :
    (map : Map Entry) (order : List Bytes)
    → length order ≤ max_entries
    → evict map order ≡ record { map = map; order = order }
unfolding evict
evict_room map [] h = refl
evict_room map (old ∷ order) h = ground arith

-- One key too many: the oldest goes.
evict_full :
    (map : Map Entry) (old : Bytes) (order : List Bytes)
    → length order ≡ max_entries
    → evict map (old ∷ order) ≡ record { map = Base.remove old map; order = order }
evict_full map old order h = rw evict_over (evict_room (Base.remove old map) order (omega arith))
  where
    evict_over : evict map (old ∷ order) ≡ evict (Base.remove old map) order
    evict_over = unfold evict in ground arith

-- What an insertion into a cache in order leaves. A key that the map holds gets the new entry, and
-- the order stays. A new key goes to the back of the order; where that was full, the key at the front
-- leaves the order and the map.
abbrev pub inserted : Bytes → Entry → State → State
inserted k e st =
    if Base.contains_key k st.map
    then record st { map = Base.insert k e st.map }
    else if ltb (length st.order) max_entries
    then record { map = Base.insert k e st.map; order = st.order ++ k ∷ [] }
    else elim st.order [
      | [] ↦ st
      | old ∷ rest ↦ record {
        map = Base.remove old (Base.insert k e st.map);
        order = rest ++ k ∷ [];
      }
    ]

insert_order :
    (k : Bytes) (e : Entry) (map : Map Entry) (order : List Bytes)
    → length order ≤ max_entries
    → Base.contains_key k map ≡ false
    → evict (Base.insert k e map) (order ++ k ∷ [])
      ≡ inserted k e (record { map = map; order = order })
insert_order k e map [] b fresh = rw fresh (evict_room (Base.insert k e map) (k ∷ []) (omega arith))
insert_order k e map (old ∷ rest) b fresh =
    elim (Bool-cases (ltb (length (old ∷ rest)) max_entries)) [
      | inl room ↦
          rw (fresh, room)
            (evict_room (Base.insert k e map) (old ∷ (rest ++ k ∷ []))
              (omega (arith, Base.length-append rest (k ∷ []), ltb→lt _ _ room)))
      | inr full ↦
          rw (fresh, full)
            (evict_full (Base.insert k e map) old (rest ++ k ∷ [])
              (omega (arith, Base.length-append rest (k ∷ []), ltb→le _ _ full)))
    ]

-- An insertion into a valid cache, on each of its branches, as `inserted` says without the
-- loop: a held key gets the new entry and keeps its place; a new key goes to the back of the
-- order, and where that was full, the key at the front leaves the order and the map.
pub insert_fifo :
    (k : Bytes) (e : Entry) (st : State) → IsValid st → (insert k e st).0 ≡ inserted k e st
unfolding insert
insert_fifo k e st v = elim (Bool-cases (Base.contains_key k st.map)) [
  | inl held ↦ rw held (evict_room (Base.insert k e st.map) st.order v.bounded)
  | inr fresh ↦ rw fresh (rw fresh at (insert_order k e st.map st.order v.bounded fresh))
]

insert_fresh :
    (k : Bytes) (e : Entry) (map : Map Entry) (order : List Bytes)
    → length order ≤ max_entries
    → ((rest : List Bytes) → length order ≡ max_entries → order ≢ k ∷ rest)
    → Base.get k (evict (Base.insert k e map) (order ++ k ∷ [])).map ≡ some e
insert_fresh k e map [] b h =
    rw (evict_room (Base.insert k e map) (k ∷ []) (omega arith))
      (ground (arith, Base.get-insert k k e map, bytes_eq_iff k k))
insert_fresh k e map (old ∷ rest) b h = elim (dec_lt (length (old ∷ rest)) max_entries) [
  | yes room ↦
      rw (evict_room (Base.insert k e map) (old ∷ rest ++ k ∷ []) (grow room))
        (ground (arith, Base.get-insert k k e map, bytes_eq_iff k k))
  | no full ↦ rw (evict_full (Base.insert k e map) old (rest ++ k ∷ []) (swap full)) (
      ground (
        arith,
        Base.get-remove old k (Base.insert k e map),
        Base.get-insert k k e map,
        bytes_eq_iff k k,
        bytes_eq_iff old k,
        not_front full,
      ))
]
  where
    grow : length (old ∷ rest) < max_entries → length (old ∷ rest ++ k ∷ []) ≤ max_entries
    grow room = omega (arith, Base.length-append rest (k ∷ []))

    swap : ¬ (length (old ∷ rest) < max_entries) → length (rest ++ k ∷ []) ≡ max_entries
    swap full = omega (arith, Base.length-append rest (k ∷ []))

    not_front : ¬ (length (old ∷ rest) < max_entries) → old ≢ k
    not_front full e = h rest (omega arith) (rw e refl)

-- In a valid cache an inserted entry that has not expired can be looked up right away, unless
-- its key is a stale one at the front of a full order.
l1_lookup-insert :
    (now : ℕ) (k : Bytes) (e : Entry) (st : State)
    → IsValid st
    → is_expired now e ≡ false
    → ((rest : List Bytes)
        → Base.contains_key k st.map ≡ false
        → length st.order ≡ max_entries
        → st.order ≢ k ∷ rest)
    → (lookup now k (insert k e st).0).1 ≡ ok e
unfolding lookup
l1_lookup-insert now k e st v fresh front = ground (arith, found)
  where
    found : Base.get k (insert k e st).0.map ≡ some e
    found = elim (Bool-cases (Base.contains_key k st.map)) [
      | inl held ↦
          rw (insert_fifo k e st v, held)
            (ground (arith, Base.get-insert k k e st.map, bytes_eq_iff k k))
      | inr absent ↦
          unfold insert in
          rw absent (insert_fresh k e st.map st.order v.bounded (λ rest. front rest absent))
    ]

lookup_expired :
    (now : ℕ) (k : Bytes) (old : Entry) (st : State)
    → Base.get k st.map ≡ some old
    → is_expired now old ≡ true
    → (lookup now k st).0 ≡ record st { map = Base.remove k st.map }
unfolding lookup
lookup_expired now k old st hit dead = ground arith

lookup_miss :
    (now : ℕ) (k : Bytes) (st : State)
    → Base.get k st.map ≡ none
    → (lookup now k st).1 ≡ err not_found
unfolding lookup
lookup_miss now k st h = ground arith

-- The defect: after a lookup that found the entry of the oldest key expired, in a full cache, an
-- insertion of that key answers `Ok`, and the entry is gone at once.
pub insert_stale_lost :
    (now : ℕ) (k : Bytes) (old e : Entry) (st : State) (rest : List Bytes)
    → Base.get k st.map ≡ some old
    → is_expired now old ≡ true
    → length st.order ≡ max_entries
    → st.order ≡ k ∷ rest
    → let stale = (lookup now k st).0 in
      ((insert k e stale).1 ≡ ok tt) × ((lookup now k (insert k e stale).0).1 ≡ err not_found)
insert_stale_lost now k old e st rest hit dead full front =
    rw (lookup_expired now k old st hit dead) (unfold insert in refl, lookup_miss now k _ gone)
  where
    absent : Base.contains_key k (Base.remove k st.map) ≡ false
    absent = ground (
      arith,
      Base.keys-remove k st.map,
      Base.member-without k k (Base.keys st.map),
      bytes_eq_iff k k,
    )

    fits : length (rest ++ k ∷ []) ≡ max_entries
    fits = omega (arith, full, ap length front, Base.length-append rest (k ∷ []))

    gone : Base.get k (insert k e (record st { map = Base.remove k st.map })).0.map ≡ none
    gone =
        unfold insert in
        rw
          (
            absent,
            front,
            evict_full (Base.insert k e (Base.remove k st.map)) k (rest ++ k ∷ []) fits,
          )
          (ground
            (arith, Base.get-remove k k (Base.insert k e (Base.remove k st.map)), bytes_eq_iff k k))
