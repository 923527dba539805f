-- ===== src/Cache/L2/Queues.antt =====
-- Searching and removing by position in the queues of cache/l2.rs.
use olwsx.Base.{
  ℕ, ◌≡◌, refl, ap, true, false, ◌||◌, Bytes, bytes_eq, bytes_eq_iff, none, some, List, [], ◌∷◌,
  ◌++◌, arith, member, Distinct, without, without-absent, without-append, member-without,
  member-append, Bool-cases, inl, inr, without-Distinct,
}
use mathlib.Core.List.{append-nil, append_assoc}
use mathlib.Core.Option
use olwsx.Cache.L2.{position, remove_at}

pub position_miss : (k : Bytes) (xs : List Bytes) → position k xs ≡ none → member k xs ≡ false
unfolding position
position_miss k [] h = refl
position_miss k (x ∷ xs) h = ground (arith, position_miss k xs)

pub position_hit :
    (k : Bytes) (xs : List Bytes) (pos : ℕ)
    → position k xs ≡ some pos
    → Distinct xs
    → (member k xs ≡ true) × (remove_at pos xs ≡ without k xs)
unfolding position remove_at
position_hit k [] pos h d = cc
position_hit k (x ∷ xs) pos h d = elim (Bool-cases (bytes_eq x k)) [
  | inl same ↦ ground (arith, without-absent k xs, bytes_eq_iff x k)
  | inr other ↦
      let (i, found, next) = (Option.map-eq-some_iff _ _).0 (rw other at h) in
      let (here, rest) = position_hit k xs i found d.1 in rw (other, ← next) (here, ap (◌∷◌ x) rest)
]

pub Distinct-append_left : (xs ys : List Bytes) → Distinct (xs ++ ys) → Distinct xs
Distinct-append_left [] ys d = tt
Distinct-append_left (x ∷ xs) ys d =
    ground (arith, Distinct-append_left xs ys, member-append x xs ys)

pub Distinct-append_right : (xs ys : List Bytes) → Distinct (xs ++ ys) → Distinct ys
Distinct-append_right [] ys d = d
Distinct-append_right (x ∷ xs) ys d = Distinct-append_right xs ys d.1

-- A key of the first list is not in the second.
pub Distinct-append_ne :
    (k : Bytes) (xs ys : List Bytes)
    → Distinct (xs ++ ys)
    → member k xs ≡ true
    → member k ys ≡ false
Distinct-append_ne k [] ys d m = cc
Distinct-append_ne k (x ∷ xs) ys d m =
    ground (arith, Distinct-append_ne k xs ys, member-append x xs ys, bytes_eq_iff x k)

-- A new key anywhere.
pub Distinct-insert :
    (k : Bytes) (xs ys : List Bytes)
    → Distinct (xs ++ ys)
    → member k (xs ++ ys) ≡ false
    → Distinct ((xs ++ k ∷ []) ++ ys)
Distinct-insert k [] ys d m = (m, d)
Distinct-insert k (x ∷ xs) ys d m = ground (
  arith,
  Distinct-insert k xs ys,
  member-append x xs ys,
  member-append x (xs ++ k ∷ []) ys,
  member-append x xs (k ∷ []),
  bytes_eq_iff x k,
  bytes_eq_iff k x,
)

Distinct-snoc :
    (k : Bytes) (xs : List Bytes) → Distinct xs → member k xs ≡ false → Distinct (xs ++ k ∷ [])
Distinct-snoc k xs d m =
    rw (append-nil (xs ++ k ∷ [])) at
      (Distinct-insert k xs [] (rw (append-nil xs) d) (rw (append-nil xs) m))

-- Moving a key to the back.
pub Distinct-requeue :
    (k : Bytes) (xs ys : List Bytes)
    → Distinct (xs ++ ys)
    → Distinct (without k xs ++ (without k ys ++ k ∷ []))
Distinct-requeue k xs ys d =
    rw (← append_assoc (without k xs) (without k ys) (k ∷ []), ← without-append k xs ys)
      (Distinct-snoc k (without k (xs ++ ys)) (without-Distinct k _ d)
        (ground (arith, member-without k k (xs ++ ys), bytes_eq_iff k k)))

pub member-middle :
    (k q : Bytes) (xs ys : List Bytes)
    → member q (xs ++ k ∷ ys) ≡ (bytes_eq k q || member q (xs ++ ys))
member-middle k q [] ys = refl
member-middle k q (x ∷ xs) ys = ground (arith, member-middle k q xs ys)

-- Taking a key out of the middle.
pub Distinct-middle :
    (k : Bytes) (xs ys : List Bytes) → Distinct (xs ++ k ∷ ys) → Distinct (xs ++ ys)
Distinct-middle k [] ys d = d.1
Distinct-middle k (x ∷ xs) ys d = ground (arith, Distinct-middle k xs ys, member-middle k x xs ys)
