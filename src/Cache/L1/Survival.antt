-- ===== src/Cache/L1/Survival.antt =====
-- How long the L1 cache (cache/l1.rs) keeps an entry.
use olwsx.Base.{ℕ, suc, ◌<◌, ◌≡◌, false, ◌&&◌, Bytes, bytes_eq, List, [], ◌∷◌, arith, All, member}
use olwsx.Cache.{Entry, is_expired, ok}
use olwsx.Cache.Contract.{Call, step, run}
use olwsx.Cache.L1.{State, max_entries, lookup, insert, l1}
use olwsx.Cache.L1.Invariant.{IsValid, insert-IsValid, step-IsValid}
use olwsx.Cache.L1.Keeps.{Keeps, lookup-Keeps, invalidate-Keeps, insert-Keeps, insert_new-Keeps}

-- A call that leaves the entry `e` under `k` alone: it neither writes nor invalidates `k`, and does
-- not look it up after its lifetime.
abbrev Spares : Bytes → Entry → Call → Type 0
Spares k e (Call.lookup now q) = (bytes_eq q k && is_expired now e) ≡ false
Spares k e (Call.insert q x) = bytes_eq q k ≡ false
Spares k e (Call.invalidate q) = bytes_eq q k ≡ false

abbrev inserts : List Call → ℕ
inserts [] = 0
inserts (Call.lookup now q ∷ xs) = inserts xs
inserts (Call.insert q x ∷ xs) = suc (inserts xs)
inserts (Call.invalidate q ∷ xs) = inserts xs

step-Keeps :
    (x : Call) (k : Bytes) (e : Entry) (xs : List Call) {st : State}
    → IsValid st
    → Keeps k e (inserts (x ∷ xs)) st
    → Spares k e x
    → Keeps k e (inserts xs) (step l1 x st)
unfolding step l1
step-Keeps (Call.lookup now q) k e xs valid v spares = lookup-Keeps k q e now _ v spares
step-Keeps (Call.insert q x) k e xs valid v other = insert-Keeps k q e x _ valid v other
step-Keeps (Call.invalidate q) k e xs valid v other = invalidate-Keeps k q e _ v other

run-Keeps :
    (xs : List Call) (k : Bytes) (e : Entry) {st : State}
    → IsValid st
    → Keeps k e (inserts xs) st
    → All (Spares k e) xs
    → Keeps k e 0 (run l1 xs st)
unfolding run
run-Keeps [] k e valid v all = v
run-Keeps (x ∷ xs) k e valid v (spares, all) =
    run-Keeps xs k e (step-IsValid x valid) (step-Keeps x k e xs valid v spares) all

-- An entry put into a valid cache under a key that the order has not yet is found by a lookup
-- before its lifetime is over, whatever calls come in between, as long as they neither write nor
-- invalidate the key, look it up only within the lifetime, and insert fewer than 1024 times.
pub l1_survives :
    (now : ℕ) (k : Bytes) (e : Entry) (xs : List Call) (st : State)
    → IsValid st
    → member k st.order ≡ false
    → All (Spares k e) xs
    → inserts xs < max_entries
    → is_expired now e ≡ false
    → (lookup now k (run l1 xs (insert k e st).0)).1 ≡ ok e
unfolding lookup
l1_survives now k e xs st valid new spares few fresh = ground (arith, found.held)
  where
    found : Keeps k e 0 (run l1 xs (insert k e st).0)
    found =
        run-Keeps xs k e (insert-IsValid k e valid) (insert_new-Keeps k e _ valid new few) spares
