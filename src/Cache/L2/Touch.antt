-- ===== src/Cache/L2/Touch.antt =====
-- What `touch` of cache/l2.rs does to queues in order.
use olwsx.Base
use olwsx.Base.{
  ℕ, ◌+◌, ◌-◌, ◌≤◌, ◌≡◌, refl, Bool, true, false, ◌||◌, Bytes, bytes_eq, bytes_eq_iff, none, some,
  List, [], ◌∷◌, ◌++◌, arith, length, member, Distinct, ltb, if◌then◌else◌, Bool-cases,
  Option-cases, inl, inr, length-append, member-append, without, member-without, length-without,
  length-without-le, without-append, without-absent,
}
use olwsx.Cache.L2.{State, max_items, shrink_all, position, touch}
use olwsx.Cache.L2.Queues.{
  position_miss, position_hit, Distinct-append_left, Distinct-append_right, Distinct-append_ne,
  Distinct-insert, Distinct-requeue,
}
use olwsx.Cache.L2.Loop.{IsLive, shrink_all_ends}

pub record IsValid (st : State) : Type 0 where
  pub bounded : length st.t1 + length st.t2 ≤ max_items
  pub live : IsLive st

-- What `touch` does to queues that have each key once.
pub touch_held :
    (k : Bytes) (st : State)
    → Distinct (st.t1 ++ st.t2)
    → member k (st.t1 ++ st.t2) ≡ true
    → touch st k ≡ record st { t1 = without k st.t1; t2 = without k st.t2 ++ k ∷ [] }
unfolding touch
touch_held k st d m = elim (Option-cases (position k st.t1)) [
  | inr (pos, found) ↦
      let (here, gone) = position_hit k st.t1 pos found (Distinct-append_left st.t1 st.t2 d) in
      ground (arith, without-absent k st.t2 (Distinct-append_ne k st.t1 st.t2 d here))
  | inl miss1 ↦
      let out1 = position_miss k st.t1 miss1 in
      elim (Option-cases (position k st.t2)) [
        | inr (pos, found) ↦
            let (here, gone) =
              position_hit k st.t2 pos found (Distinct-append_right st.t1 st.t2 d) in
            ground (arith, without-absent k st.t1 out1)
        | inl miss2 ↦ ground (arith, position_miss k st.t2 miss2, out1, member-append k st.t1 st.t2)
      ]
]

pub touch_new :
    (k : Bytes) (st : State)
    → Distinct (st.t1 ++ st.t2)
    → member k (st.t1 ++ st.t2) ≡ false
    → touch st k ≡ shrink_all k (record st { t1 = st.t1 ++ k ∷ [] })
unfolding touch
touch_new k st d m = elim (Option-cases (position k st.t1)) [
  | inr (pos, found) ↦ ground (
    arith,
    position_hit k st.t1 pos found (Distinct-append_left st.t1 st.t2 d),
    member-append k st.t1 st.t2,
  )
  | inl miss1 ↦ elim (Option-cases (position k st.t2)) [
    | inr (pos, found) ↦ ground (
      arith,
      position_hit k st.t2 pos found (Distinct-append_right st.t1 st.t2 d),
      member-append k st.t1 st.t2,
    )
    | inl miss2 ↦ ground arith
  ]
]

-- A state in which the map may hold `k` before the queues do, as in the middle of `insert`.
pub record IsReady (k : Bytes) (st : State) : Type 0 where
  pub bounded : length st.t1 + length st.t2 ≤ max_items
  pub ghosts1 : length st.b1 ≤ max_items
  pub ghosts2 : length st.b2 ≤ max_items
  pub target : st.p_target ≤ max_items
  pub distinct_map : Distinct (Base.keys st.map)
  pub distinct : Distinct (st.t1 ++ st.t2)
  pub tracked :
      (q : Bytes)
      → Base.contains_key q st.map ≡ true
      → (bytes_eq k q || member q (st.t1 ++ st.t2)) ≡ true

pub requeue_member :
    (k q : Bytes) (xs ys : List Bytes)
    → member q (without k xs ++ (without k ys ++ k ∷ [])) ≡ (bytes_eq k q || member q (xs ++ ys))
requeue_member k q xs ys = ground (
  arith,
  member-append q (without k xs) (without k ys ++ k ∷ []),
  member-append q (without k ys) (k ∷ []),
  member-append q xs ys,
  member-without k q xs,
  member-without k q ys,
  bytes_eq_iff k q,
  bytes_eq_iff q k,
)

pub requeue_bounded :
    (k : Bytes) (xs ys : List Bytes)
    → member k (xs ++ ys) ≡ true
    → length (without k xs) + length (without k ys ++ k ∷ []) ≤ length xs + length ys
requeue_bounded k xs ys m = ground (
  arith,
  member-append k xs ys,
  length-append (without k ys) (k ∷ []),
  length-without k xs,
  length-without k ys,
  length-without-le k xs,
  length-without-le k ys,
)

pub enqueue_member :
    (k q : Bytes) (xs ys : List Bytes)
    → member q ((xs ++ k ∷ []) ++ ys) ≡ (bytes_eq k q || member q (xs ++ ys))
enqueue_member k q xs ys =
    ground
      (arith, member-append q (xs ++ k ∷ []) ys, member-append q xs (k ∷ []), member-append q xs ys)

pub touch-IsValid : (k : Bytes) {st : State} → IsReady k st → IsValid (touch st k)
touch-IsValid k {st} r = elim (Bool-cases (member k (st.t1 ++ st.t2))) [
  | inl held ↦ rw (touch_held k st r.distinct held) (record {
    bounded = omega (arith, requeue_bounded k st.t1 st.t2 held);
    live = record {
      ghosts1 = r.ghosts1;
      ghosts2 = r.ghosts2;
      target = r.target;
      distinct_map = r.distinct_map;
      distinct = Distinct-requeue k st.t1 st.t2 r.distinct;
      tracked = λ q m. rw (requeue_member k q st.t1 st.t2) (r.tracked q m);
    };
  })
  | inr fresh ↦ rw (touch_new k st r.distinct fresh) (
      let (small, live) =
        shrink_all_ends k (record st { t1 = st.t1 ++ k ∷ [] })
          (record {
            ghosts1 = r.ghosts1;
            ghosts2 = r.ghosts2;
            target = r.target;
            distinct_map = r.distinct_map;
            distinct = Distinct-insert k st.t1 st.t2 r.distinct fresh;
            tracked = λ q m. rw (enqueue_member k q st.t1 st.t2) (r.tracked q m);
          }) in
      record { bounded = small; live = live })
]
