-- ===== src/Cache/L2/Tests.antt =====
-- Concrete runs of cache/l2.rs, and its theorems at concrete inputs.
use olwsx.Base
use olwsx.Base.{
  ℕ, zero, suc, ◌/◌, ◌%◌, ◌≤◌, ◌<◌, ◌≡◌, ◌↔◌, refl, ap, Bool, true, false, Bytes, none, some, List,
  [], ◌∷◌, ◌++◌, codes, arith, length, member, without, Distinct,
}
use olwsx.Cache.{Entry, is_expired, ok, err, not_found}
use olwsx.Cache.Contract.{Call, run, step, ideal}
use olwsx.Cache.L2.Exact.{l2_lookup-run_iff}
use olwsx.Cache.L2.{
  State, max_items, new, push_ghost, pop_t1, pop_t2, prefers_t1, replace, shrink, shrink_all,
  position, remove_at, touch, tune, lookup, store, insert, invalidate, l2,
}
use olwsx.Cache.L2.Loop.{IsLive, size, shrink_all_ends}
use olwsx.Cache.L2.Refines.{accepts}
use olwsx.Cache.L2.Touch.{IsValid}
use olwsx.Cache.L2.Invariant.{l2-run-IsValid}
use olwsx.Cache.L2.Policy.{insert_starved_lost}

cache : Unit {0}
unfolding new replace pop_t1 pop_t2 push_ghost prefers_t1 shrink shrink_all position remove_at touch
    tune lookup store insert invalidate is_expired l2 accepts run step
cache = tt

abbrev key_a : Bytes
key_a = codes "/a"

abbrev key_b : Bytes
key_b = codes "/b"

abbrev entry : Entry
entry = record { value = codes "hello"; flags = 0; ts = 0; ttl = 0 }

abbrev one : State
one = record {
  t1 = key_a ∷ [];
  t2 = [];
  b1 = [];
  b2 = [];
  map = (key_a, record entry { ttl = 300_000_000_000 }) ∷ [];
  p_target = 32_768;
}

-- The default lifetime replaces a zero one, and a hit promotes the key.
insert_test : (insert key_a entry new).0 ≡ one
unfolding cache
insert_test = refl

lookup_test : (lookup 7 key_a one).0.t2 ≡ key_a ∷ []
unfolding cache
lookup_test = refl

abbrev calls : List Call
calls =
    Call.insert key_a entry
    ∷ Call.lookup 5 key_a
    ∷ Call.insert key_b entry
    ∷ Call.invalidate key_b
    ∷ []

l2-run-IsValid_example :
    IsValid (run l2 calls new) × (length (Base.keys (run l2 calls new).map) ≤ max_items)
l2-run-IsValid_example = l2-run-IsValid calls

one-IsLive : IsLive one
one-IsLive = record {
  ghosts1 = omega arith;
  ghosts2 = omega arith;
  target = omega arith;
  distinct_map = (refl, tt);
  distinct = (refl, tt);
  tracked = λ k h. ground arith;
}

one-IsValid : IsValid one
one-IsValid = record { bounded = omega arith; live = one-IsLive }

shrink_all_ends_example : (size (shrink_all key_b one) ≤ max_items) × IsLive (shrink_all key_b one)
shrink_all_ends_example = shrink_all_ends key_b one one-IsLive

-- `t1` empty, the target 0, and `t2` full.
abbrev starved : List Bytes → State
starved t2 = record { t1 = []; t2 = t2; b1 = []; b2 = []; map = []; p_target = 0 }

-- `n` keys, each of three bytes.
abbrev key : ℕ → Bytes
key n = n / 65_536 ∷ (n / 256 % 256) ∷ (n % 256) ∷ []

numbered : ℕ → List Bytes
numbered zero = []
numbered (suc n) = key n ∷ numbered n

length-numbered : (n : ℕ) → length (numbered n) ≡ n
unfolding numbered
length-numbered zero = refl
length-numbered (suc n) = ap suc (length-numbered n)

numbered_absent : (m n : ℕ) → n ≤ m → member (key m) (numbered n) ≡ false
unfolding numbered
numbered_absent m zero h = refl
numbered_absent m (suc n) h = ground (arith, numbered_absent m n)

numbered-Distinct : (n : ℕ) → Distinct (numbered n)
unfolding numbered
numbered-Distinct zero = tt
numbered-Distinct (suc n) = (numbered_absent n n (omega arith), numbered-Distinct n)

starved-IsValid : (n : ℕ) → n ≤ max_items → IsValid (starved (numbered n))
starved-IsValid n h = record {
  bounded = omega (arith, length-numbered n);
  live = record {
    ghosts1 = omega arith;
    ghosts2 = omega arith;
    target = omega arith;
    distinct_map = tt;
    distinct = numbered-Distinct n;
    tracked = λ k m. cc;
  };
}

insert_starved_lost_example :
    let full = starved (numbered max_items) in
    let fresh : Bytes = key max_items in
    ((insert fresh entry full).1 ≡ ok tt)
    × ((lookup 1 fresh (insert fresh entry full).0).1 ≡ err not_found)
insert_starved_lost_example =
    insert_starved_lost 1 (key max_items) entry (starved (numbered max_items))
      (starved-IsValid max_items (omega arith)) (unfold accepts in refl)
      (numbered_absent max_items max_items (omega arith)) refl (length-numbered max_items) refl

l2_lookup-run_iff_example : ((lookup 9 key_a (run l2 calls new)).1 ≡ ok (store entry)) ↔ (
    (ideal store accepts calls (λ _. none) key_a ≡ some (store entry))
    × (is_expired 9 (store entry) ≡ false))
l2_lookup-run_iff_example =
    l2_lookup-run_iff (key_a ∷ key_b ∷ []) (omega arith) calls 9 key_a (store entry)
      (refl, (tt, (refl, (tt, tt)))) (tt, (omega arith, (tt, (tt, tt))))
