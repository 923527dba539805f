-- ===== src/Cache/L3/Tests.antt =====
-- Concrete runs of cache/l3.rs, and its theorem at a concrete input.
use olwsx.Base.{◌≡◌, refl, Bytes, List, [], ◌∷◌, codes}
use olwsx.Cache.{Entry, is_expired, ok, err, not_found, expired}
use olwsx.Cache.Contract.{Call}
use olwsx.Cache.L3.{new, lookup, insert, invalidate}

abbrev key_a : Bytes
key_a = codes "/a"

abbrev entry : Entry
entry = record { value = codes "hello"; flags = 0; ts = 100; ttl = 10 }

lookup_tests :
    ((lookup 0 key_a (insert key_a entry new).0).1 ≡ ok entry)
    × ((lookup 111 key_a (insert key_a entry new).0).1 ≡ err expired)
    × ((lookup 0 key_a (invalidate key_a (insert key_a entry new).0).0).1 ≡ err not_found)
unfolding lookup insert invalidate new is_expired
lookup_tests = (refl, refl, refl)

abbrev calls : List Call
calls = Call.insert key_a entry ∷ Call.lookup 105 key_a ∷ []
