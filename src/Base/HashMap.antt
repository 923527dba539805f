-- ===== src/Base/HashMap.antt =====
-- `HashMap<Vec<u8>, V>` and its kin as association lists: the order of the list stands for the
-- iteration order, which the program never fixes.
use Prim.Native.Nat.{◌≤◌}
use mathlib.Core.Bool.{Bool, true, false, ◌||◌}
use mathlib.Core.List.{List, [], ◌∷◌}
use mathlib.Core.Option.{Option, none, some}
use mathlib.Core.Path.{◌≡◌, refl}
use native.Mathlib.Omega.{arith}
use olwsx.Base.Test.{if◌then◌else◌}
use olwsx.Base.Lists.{length}
use olwsx.Base.ByteString.{
  Bytes, bytes_eq, bytes_eq_iff, member, Distinct, without, member-without, length-without,
}

abbrev pub Map {ℓ} : Type ℓ → Type ℓ
Map V = List (Bytes × V)

module _ {ℓ} {V : Type ℓ} where
  abbrev pub get : Bytes → Map V → Option V
  get k [] = none
  get k ((j, v) ∷ m) = if bytes_eq j k then some v else get k m

  abbrev pub insert : Bytes → V → Map V → Map V
  insert k v [] = (k, v) ∷ []
  insert k v ((j, w) ∷ m) = if bytes_eq j k then (k, v) ∷ m else (j, w) ∷ insert k v m

  abbrev pub remove : Bytes → Map V → Map V
  remove k [] = []
  remove k ((j, v) ∷ m) = if bytes_eq j k then remove k m else (j, v) ∷ remove k m

  abbrev pub keys : Map V → List Bytes
  keys [] = []
  keys ((k, v) ∷ m) = k ∷ keys m

  abbrev pub contains_key : Bytes → Map V → Bool
  contains_key k m = member k (keys m)

module _ {ℓ} {V : Type ℓ} where
  pub get-insert :
      (k q : Bytes) (v : V) (m : Map V)
      → get q (insert k v m) ≡ (if bytes_eq k q then some v else get q m)
  get-insert k q v [] = refl
  get-insert k q v ((j, w) ∷ m) =
      ground (arith, get-insert k q v m, bytes_eq_iff j k, bytes_eq_iff k q, bytes_eq_iff j q)

  pub get-remove :
      (k q : Bytes) (m : Map V) → get q (remove k m) ≡ (if bytes_eq k q then none else get q m)
  get-remove k q [] = ground arith
  get-remove k q ((j, w) ∷ m) =
      ground (arith, get-remove k q m, bytes_eq_iff j k, bytes_eq_iff k q, bytes_eq_iff j q)

  pub contains_key-get :
      (k : Bytes) (m : Map V) → contains_key k m ≡ elim (get k m) [ none ↦ false | some _ ↦ true ]
  contains_key-get k [] = refl
  contains_key-get k ((j, v) ∷ m) = ground (arith, contains_key-get k m)

  pub keys-remove : (k : Bytes) (m : Map V) → keys (remove k m) ≡ without k (keys m)
  keys-remove k [] = refl
  keys-remove k ((j, v) ∷ m) = ground (arith, keys-remove k m)

  pub member-keys-insert :
      (k q : Bytes) (v : V) (m : Map V)
      → member q (keys (insert k v m)) ≡ (bytes_eq k q || member q (keys m))
  member-keys-insert k q v [] = refl
  member-keys-insert k q v ((j, w) ∷ m) =
      ground (arith, member-keys-insert k q v m, bytes_eq_iff j k)

  pub keys-insert-Distinct :
      (k : Bytes) (v : V) (m : Map V) → Distinct (keys m) → Distinct (keys (insert k v m))
  keys-insert-Distinct k v [] d = (refl, tt)
  keys-insert-Distinct k v ((j, w) ∷ m) d = ground (
    arith,
    keys-insert-Distinct k v m,
    member-keys-insert k j v m,
    bytes_eq_iff j k,
    bytes_eq_iff k j,
  )

-- Distinct keys that all occur in a list are no more than the list is long.
pub length-le_of_members :
    (ks xs : List Bytes)
    → Distinct ks
    → ((k : Bytes) → member k ks ≡ true → member k xs ≡ true)
    → length ks ≤ length xs
length-le_of_members [] xs d h = omega arith
length-le_of_members (k ∷ ks) xs d h = omega (
  arith,
  length-without k xs (h k (ground (arith, bytes_eq_iff k k))),
  length-le_of_members ks (without k xs) d.1 inner,
)
  where
    inner : (q : Bytes) → member q ks ≡ true → member q (without k xs) ≡ true
    inner q m = ground (arith, h q, d.0, member-without k q xs, bytes_eq_iff q k)
