-- ===== src/Cache/L1/Keeps.antt =====
-- That one call of the L1 cache (cache/l1.rs) keeps an entry.
use olwsx.Base
use olwsx.Base.{
  ℕ, zero, suc, ◌+◌, ◌≤◌, ◌<◌, ◌≡◌, ◌≢◌, refl, sym, ◌∙◌, ap, Bool, true, false, ◌&&◌, Bytes, Map,
  bytes_eq, bytes_eq_iff, bytes_eq_refl, none, some, List, [], ◌∷◌, ◌++◌, arith, length, All,
  member, without, ltb, ltb→le, if◌then◌else◌, Bool-cases, Option-cases, inl, inr,
}
use mathlib.Core.List.{append_assoc}
use olwsx.Cache.{Entry, is_expired}
use olwsx.Cache.L1.{State, max_entries, lookup, insert, invalidate}
use olwsx.Cache.L1.Invariant.{IsValid}
use olwsx.Cache.L1.Fifo.{insert_fifo}

-- `e` is held under `k`, and `n` more keys behind `k` leave it in the order.
pub record Keeps (k : Bytes) (e : Entry) (n : ℕ) (st : State) : Type 0 where
  front : List Bytes
  back : List Bytes
  pub held : Base.get k st.map ≡ some e
  placed : st.order ≡ front ++ k ∷ back
  once : member k front ≡ false
  late : length back + n < max_entries

pub lookup-Keeps :
    (k q : Bytes) (e : Entry) (now n : ℕ) {st : State}
    → Keeps k e n st
    → (bytes_eq q k && is_expired now e) ≡ false
    → Keeps k e n (lookup now q st).0
unfolding lookup
lookup-Keeps k q e now n {st} v spares = elim (Option-cases (Base.get q st.map)) [
  | inl miss ↦ rw (miss, lookup) v
  | inr (x, hit) ↦ elim (Bool-cases (is_expired now x)) [
    | inl old ↦
        rw (hit, old, lookup)
          (record {
            front = v.front;
            back = v.back;
            held = dropped x hit old;
            placed = v.placed;
            once = v.once;
            late = v.late;
          })
    | inr fresh ↦ rw (hit, fresh, lookup) v
  ]
]
  where
    dropped :
        (x : Entry)
        → Base.get q st.map ≡ some x
        → is_expired now x ≡ true
        → Base.get k (Base.remove q st.map) ≡ some e
    dropped x hit old = ground (arith, Base.get-remove q k st.map, v.held, spares, bytes_eq_iff q k)

pub invalidate-Keeps :
    (k q : Bytes) (e : Entry) (n : ℕ) {st : State}
    → Keeps k e n st
    → bytes_eq q k ≡ false
    → Keeps k e n (invalidate q st).0
unfolding invalidate
invalidate-Keeps k q e n {st} v other = elim (Option-cases (Base.get q st.map)) [
  | inl miss ↦ rw (miss, invalidate) v
  | inr (x, hit) ↦
      rw (hit, invalidate)
        (record {
          front = without q v.front;
          back = without q v.back;
          held = ground (arith, Base.get-remove q k st.map, v.held);
          placed = rw v.placed (
              ground (
                arith,
                Base.without-append q v.front (k ∷ v.back),
                bytes_eq_iff q k,
                bytes_eq_iff k q,
              ));
          once = ground (arith, v.once, Base.member-without q k v.front);
          late = omega (arith, v.late, Base.length-without-le q v.back);
        })
]

-- The oldest key leaves a full order; that is not `k`, which has too few keys behind it.
full-Keeps :
    (k q : Bytes) (e : Entry) (n : ℕ) (st : State) (map : Map Entry) (front back : List Bytes)
    → Base.get k map ≡ some e
    → member k front ≡ false
    → length back + suc n < max_entries
    → max_entries ≤ length (front ++ k ∷ back)
    → Keeps k e n (elim (front ++ k ∷ back) [
      | [] ↦ st
      | old ∷ rest ↦ record { map = Base.remove old map; order = rest ++ q ∷ [] }
    ])
full-Keeps k q e n st map [] back held once late many = absurd (omega arith)
full-Keeps k q e n st map (first ∷ front) back held once late many = record {
  front = front;
  back = back ++ q ∷ [];
  held = ground (arith, Base.get-remove first k map);
  placed = append_assoc front (k ∷ back) (q ∷ []);
  once = ground arith;
  late = omega (arith, late, Base.length-append back (q ∷ []));
}

pub insert-Keeps :
    (k q : Bytes) (e x : Entry) (n : ℕ) {st : State}
    → IsValid st
    → Keeps k e (suc n) st
    → bytes_eq q k ≡ false
    → Keeps k e n (insert q x st).0
insert-Keeps k q e x n {st} valid v other =
    rw (insert_fifo q x st valid) (elim (Bool-cases (Base.contains_key q st.map)) [
      | inl had ↦ rw had (record {
        front = v.front;
        back = v.back;
        held = kept;
        placed = v.placed;
        once = v.once;
        late = omega (arith, v.late);
      })
      | inr new ↦ elim (Bool-cases (ltb (length st.order) max_entries)) [
        | inl fits ↦
            rw (new, fits)
              (record {
                front = v.front;
                held = kept;
                back = v.back ++ q ∷ [];
                placed = rw v.placed (append_assoc v.front (k ∷ v.back) (q ∷ []));
                once = v.once;
                late = omega (arith, v.late, Base.length-append v.back (q ∷ []));
              })
        | inr full ↦
            rw (new, full)
              (rw v.placed (
                full-Keeps k q e n st (Base.insert q x st.map) v.front v.back kept v.once v.late
                  (omega (arith, ltb→le _ _ full, ap length v.placed))))
      ]
    ])
  where
    kept : Base.get k (Base.insert q x st.map) ≡ some e
    kept = ground (arith, Base.get-insert q k x st.map, v.held)

-- A new key stands at the back of the order.
pub insert_new-Keeps :
    (k : Bytes) (e : Entry) (n : ℕ) {st : State}
    → IsValid st
    → member k st.order ≡ false
    → n < max_entries
    → Keeps k e n (insert k e st).0
insert_new-Keeps k e n {st} valid new few =
    rw (insert_fifo k e st valid, absent)
      (elim (Bool-cases (ltb (length st.order) max_entries)) [
        | inl fits ↦ rw fits (record {
          front = st.order;
          back = [];
          held = held;
          placed = refl;
          once = new;
          late = omega arith;
        })
        | inr full ↦ rw full (at_back st.order new (ltb→le _ _ full))
      ])
  where
    absent : Base.contains_key k st.map ≡ false
    absent = ground (arith, valid.tracked k)

    held : Base.get k (Base.insert k e st.map) ≡ some e
    held = ground (arith, Base.get-insert k k e st.map, bytes_eq_refl k)

    at_back :
        (order : List Bytes)
        → member k order ≡ false
        → max_entries ≤ length order
        → Keeps k e n (elim order [
          | [] ↦ st
          | old ∷ rest ↦ record {
            map = Base.remove old (Base.insert k e st.map);
            order = rest ++ k ∷ [];
          }
        ])
    at_back [] new many = absurd (omega arith)
    at_back (old ∷ rest) new many = record {
      front = rest;
      back = [];
      held = ground (arith, Base.get-remove old k (Base.insert k e st.map), held);
      placed = refl;
      once = ground arith;
      late = omega arith;
    }
