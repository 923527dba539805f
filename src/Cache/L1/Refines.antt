-- ===== src/Cache/L1/Refines.antt =====
-- cache/l1.rs keeps the contract of the `Cache` trait.
use olwsx.Base
use olwsx.Base.{
  ℕ, ◌≡◌, refl, ◌∙◌, Bool, true, Bytes, bytes_eq_iff, Map, Option, none, some, List, [], ◌∷◌, arith,
  if◌then◌else◌,
}
use olwsx.Cache.{Entry}
use olwsx.Cache.Contract.{IsCache}
use olwsx.Cache.L1.{State, lookup, evict, insert, invalidate, l1}

abbrev view : State → Bytes → Option Entry
view st k = Base.get k st.map

evict-view :
    (map : Map Entry) (order : List Bytes) (q : Bytes) (e : Entry)
    → view (evict map order) q ≡ some e
    → Base.get q map ≡ some e
unfolding evict
evict-view map [] q e h = h
evict-view map (old ∷ order) q e h =
    ground (arith, evict-view (Base.remove old map) order q e, Base.get-remove old q map)

lookup_view :
    (now : ℕ) (k q : Bytes) (st : State) (e : Entry)
    → view (lookup now k st).0 q ≡ some e
    → view st q ≡ some e
unfolding lookup
lookup_view now k q st e h = ground (arith, Base.get-remove k q st.map)

insert_view :
    (k q : Bytes) (x : Entry) (st : State) (e : Entry)
    → view (insert k x st).0 q ≡ some e
    → (if Base.bytes_eq k q then some x else view st q) ≡ some e
unfolding insert
insert_view k q x st e h =
    rw (Base.get-insert k q x st.map) at (evict-view (Base.insert k x st.map) _ q e h)

-- The L1 cache keeps the contract of the trait, storing entries as they come and refusing none:
-- it answers a lookup from what it holds under the key and whether that has expired,
-- `invalidate` forgets the one key, and no call makes an entry up.
pub l1-IsCache : IsCache l1 (λ st k. Base.get k st.map) (λ e. e) (λ _. true)
unfolding l1 lookup invalidate
l1-IsCache = record {
  lookup_answer = λ now k st. ground arith;
  lookup_view = lookup_view;
  insert_answer = λ k e st. unfold insert in refl;
  insert_view = λ k q e st e' _ h. insert_view k q e st e' h;
  insert_refused = λ k e st h. cc;
  invalidate_answer = λ k st. ground arith;
  invalidate_view = λ k q st. ground (arith, Base.get-remove k q st.map, bytes_eq_iff k q);
}
