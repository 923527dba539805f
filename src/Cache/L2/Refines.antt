-- ===== src/Cache/L2/Refines.antt =====
-- cache/l2.rs keeps the contract of the `Cache` trait.
use olwsx.Base
use olwsx.Base.{
  ℕ, zero, suc, ◌+◌, ◌≡◌, refl, Bool, true, false, not, Bytes, bytes_eq, bytes_eq_iff, Option, none,
  some, List, [], ◌∷◌, ◌++◌, arith, length, ltb, if◌then◌else◌, Bool-cases, Option-cases, inl, inr,
}
use olwsx.Cache.{Entry, is_expired, ok}
use olwsx.Cache.Contract.{IsCache, Call, run, ideal, lookup-run-ideal}
use olwsx.Cache.L2.{
  State, new, max_value_bytes, pop_t1, pop_t2, replace, shrink, shrink_all, touch, tune, lookup,
  store, insert, invalidate, l2,
}

abbrev view : State → Bytes → Option Entry
view st k = Base.get k st.map

module _ (q : Bytes) (e : Entry) where
  view-replace : (key : Bytes) (st : State) → view (replace st key) q ≡ some e → view st q ≡ some e
  unfolding replace pop_t1 pop_t2
  view-replace key st h = grind (arith, Base.get-remove)

  view-shrink :
      (fuel : ℕ) (key : Bytes) (st : State)
      → view (shrink fuel key st) q ≡ some e
      → view st q ≡ some e
  unfolding shrink
  view-shrink zero key st h = h
  view-shrink (suc fuel) key st h =
      ground (arith, view-shrink fuel key (replace st key), view-replace key st)

  view-shrink_all :
      (key : Bytes) (st : State) → view (shrink_all key st) q ≡ some e → view st q ≡ some e
  unfolding shrink_all
  view-shrink_all key st = view-shrink _ key st

  view-touch : (key : Bytes) (st : State) → view (touch st key) q ≡ some e → view st q ≡ some e
  unfolding touch
  view-touch key st h = ground (arith, view-shrink_all key (record st { t1 = st.t1 ++ key ∷ [] }))

  lookup_view :
      (now : ℕ) (k : Bytes) (st : State) → view (lookup now k st).0 q ≡ some e → view st q ≡ some e
  unfolding lookup tune
  lookup_view now k st h = ground (arith, Base.get-remove k q st.map, view-touch k st)

-- The test of `insert`.
unfoldable pub accepts : Entry → Bool
accepts e = not (ltb max_value_bytes (length e.value))

insert_view :
    (k q : Bytes) (x : Entry) (st : State) (e : Entry)
    → accepts x ≡ true
    → view (insert k x st).0 q ≡ some e
    → (if bytes_eq k q then some (store x) else view st q) ≡ some e
unfolding insert accepts
insert_view k q x st e fits h =
    let st' = record st { map = Base.insert k (store x) st.map } in
    rw (Base.get-insert k q (store x) st.map) at
      (view-touch q e k st' (view-shrink_all q e k (touch st' k) (ground arith)))

-- The L2 cache keeps the contract of the trait: it answers a lookup from what it holds under
-- the key and whether that has expired, refuses a value of more than 64 MiB with `TooLarge` and
-- then changes nothing, stores a zero lifetime as the default one, forgets the one key in
-- `invalidate`, and no call makes an entry up.
pub l2-IsCache : IsCache l2 (λ st k. Base.get k st.map) store accepts
unfolding l2 lookup insert invalidate accepts
l2-IsCache = record {
  lookup_answer = λ now k st. ground arith;
  lookup_view = λ now k q st e h. lookup_view q e now k st h;
  insert_answer = λ k e st. ground arith;
  insert_view = λ k q e st e' fits h. insert_view k q e st e' fits h;
  insert_refused = λ k e st h. ground arith;
  invalidate_answer = λ k st. ground (arith, Base.contains_key-get k st.map);
  invalidate_view = λ k q st. ground (arith, Base.get-remove k q st.map, bytes_eq_iff k q);
}

-- After any calls on a new L2 cache, a lookup that answers with an entry answers with the one that
-- the last of the calls that concern its key left in an unbounded store: in the form in which an
-- insertion stores it, not refused, not invalidated since, and not expired.
pub l2_lookup-run :
    (xs : List Call) (now : ℕ) (k : Bytes) (e : Entry)
    → (l2.lookup now k (run l2 xs new)).1 ≡ ok e
    → (ideal store accepts xs (λ _. none) k ≡ some e) × (is_expired now e ≡ false)
unfolding new
l2_lookup-run xs now k e found = lookup-run-ideal l2-IsCache xs new now k e (λ q. refl) found
