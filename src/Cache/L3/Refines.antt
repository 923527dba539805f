-- ===== src/Cache/L3/Refines.antt =====
-- cache/l3.rs keeps the contract of the `Cache` trait, and never forgets what has not expired.
use olwsx.Base
use olwsx.Base.{
  ℕ, ◌+◌, ◌≤◌, ◌<◌, ◌≡◌, ◌≢◌, refl, Bool, true, false, Bytes, bytes_eq_iff, Option, none, some,
  arith, ltb, if◌then◌else◌,
}
use olwsx.Cache.{Entry, new_entry, is_expired, ok, err, expired, not_found}
use olwsx.Cache.Contract.{IsCache}
use olwsx.Cache.L3.{State, lookup, insert, invalidate, l3}

abbrev view : State → Bytes → Option Entry
view m k = Base.get k m

lookup_view :
    (now : ℕ) (k q : Bytes) (m : State) (e : Entry)
    → view (lookup now k m).0 q ≡ some e
    → view m q ≡ some e
unfolding lookup
lookup_view now k q m e h = ground (arith, Base.get-remove k q m)

-- The L3 cache keeps the contract of the trait, storing entries as they come and refusing none:
-- it answers a lookup from what it holds under the key and whether that has expired,
-- `invalidate` forgets the one key, and no call makes an entry up.
pub l3-IsCache : IsCache l3 (λ m k. Base.get k m) (λ e. e) (λ _. true)
unfolding l3 lookup insert invalidate
l3-IsCache = record {
  lookup_answer = λ now k m. ground arith;
  lookup_view = lookup_view;
  insert_answer = λ k e m. refl;
  insert_view = λ k q e m e' _ h. ground (arith, Base.get-insert k q e m);
  insert_refused = λ k e m h. cc;
  invalidate_answer = λ k m. ground arith;
  invalidate_view = λ k q m. ground (arith, Base.get-remove k q m, bytes_eq_iff k q);
}

new_entry-is_expired :
    (now age flags ttl : ℕ) (value : Bytes)
    → is_expired (now + age) (new_entry now value flags ttl) ≡ ltb ttl age
unfolding is_expired new_entry
new_entry-is_expired now age flags ttl value = ground arith

-- An entry made and inserted at one time is found up to the end of its lifetime. Later a first lookup
-- answers `Expired`, and the next one `NotFound`.
l3_lookup-insert_lifetime :
    (now age flags ttl : ℕ) (k value : Bytes) (m : State)
    → let e = new_entry now value flags ttl in
      let later = lookup (now + age) k (insert k e m).0 in
      (later.1 ≡ (if ltb ttl age then err expired else ok e))
      × ((lookup (now + age) k later.0).1 ≡ (if ltb ttl age then err not_found else ok e))
unfolding lookup insert
l3_lookup-insert_lifetime now age flags ttl k value m = (
  ground (arith, held, new_entry-is_expired now age flags ttl value),
  ground (
    arith,
    held,
    new_entry-is_expired now age flags ttl value,
    Base.get-remove k k (Base.insert k e m),
    bytes_eq_iff k k,
  ),
)
  where
    e : Entry
    e = new_entry now value flags ttl

    held : Base.get k (Base.insert k e m) ≡ some e
    held = ground (arith, Base.get-insert k k e m, bytes_eq_iff k k)
