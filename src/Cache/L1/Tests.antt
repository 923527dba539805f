-- ===== src/Cache/L1/Tests.antt =====
-- Concrete runs of cache/l1.rs, and its theorems at concrete inputs.
use olwsx.Base.{
  suc, ◌≡◌, refl, ap, Bytes, List, [], ◌∷◌, codes, arith, length, length-replicate, replicate,
}
use olwsx.Cache.{Entry, is_expired, ok, err, not_found, expired}
use olwsx.Cache.Contract.{Call, run}
use olwsx.Cache.L1.{State, max_entries, new, lookup, evict, insert, l1}
use olwsx.Cache.L1.Invariant.{IsValid, new-IsValid}
use olwsx.Cache.L1.Fifo.{inserted, insert_fifo, insert_stale_lost}
use olwsx.Cache.L1.Survival.{l1_survives}

abbrev key_a : Bytes
key_a = codes "/a"

abbrev key_b : Bytes
key_b = codes "/b"

-- An entry of the time 0 that lives for ten ticks.
abbrev entry : Entry
entry = record { value = codes "hello"; flags = 0; ts = 0; ttl = 10 }

-- The last tick of an entry's life is that of its age `ttl`.
lookup_tests :
    ((lookup 10 key_a (insert key_a entry new).0).1 ≡ ok entry)
    × ((lookup 11 key_a (insert key_a entry new).0).1 ≡ err expired)
    × ((lookup 0 key_b (insert key_a entry new).0).1 ≡ err not_found)
unfolding lookup insert evict new is_expired
lookup_tests = (refl, refl, refl)

-- A full cache: the order has the key `/a` in front of 1023 others.
abbrev full_order : List Bytes
full_order = key_a ∷ replicate 1023 key_b

abbrev full : State
full = record { map = (key_a, entry) ∷ []; order = full_order }

full_length : length full_order ≡ max_entries
full_length = ap suc (length-replicate 1023 key_b)

insert_stale_lost_example :
    let stale = (lookup 11 key_a full).0 in
    ((insert key_a entry stale).1 ≡ ok tt)
    × ((lookup 11 key_a (insert key_a entry stale).0).1 ≡ err not_found)
insert_stale_lost_example =
    insert_stale_lost 11 key_a entry entry full (replicate 1023 key_b) refl
      (unfold is_expired in refl) full_length refl

-- A cache in order that holds one key.
abbrev one : State
one = record { map = (key_a, entry) ∷ []; order = key_a ∷ [] }

one-IsValid : IsValid one
one-IsValid = record { bounded = omega arith; distinct = (refl, tt); tracked = λ k h. ground arith }

insert_fifo_example : (insert key_b entry one).0 ≡ inserted key_b entry one
insert_fifo_example = insert_fifo key_b entry one one-IsValid

-- Another key comes, the first is looked up in time, and the other goes.
abbrev between : List Call
between = Call.insert key_b entry ∷ Call.lookup 5 key_a ∷ Call.invalidate key_b ∷ []

l1_survives_example : (lookup 10 key_a (run l1 between (insert key_a entry new).0)).1 ≡ ok entry
l1_survives_example =
    l1_survives 10 key_a entry between new new-IsValid (unfold new in refl)
      (refl, ((unfold is_expired in refl), (refl, tt))) (omega arith) (unfold is_expired in refl)
