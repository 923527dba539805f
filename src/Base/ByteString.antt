-- ===== src/Base/ByteString.antt =====
-- Byte strings. A `Vec<u8>`, a `&str` and a `String` are the list of their bytes (UTF-8 for text);
-- `codes` spells an ASCII literal.
use Prim.Native.Char.{code}
use Prim.Native.Nat.{ℕ, ◌≤◌, suc}
use Prim.Native.String.{String}
use mathlib.Core.Bool.{Bool, true, false, ◌&&◌, ◌||◌}
use mathlib.Core.List.{List, [], ◌∷◌, ◌++◌}
use mathlib.Core.Logic.{◌↔◌}
use mathlib.Core.Path.{◌≡◌, refl}
use native.Mathlib.Omega.{arith}
use olwsx.Base.Test.{◌==◌, if◌then◌else◌}
use olwsx.Base.Lists.{length}

abbrev pub Bytes : Type 0
Bytes = List ℕ

abbrev pub codes : String → Bytes
codes String.[] = []
codes (String.◌∷◌ c s) = code c ∷ codes s

abbrev pub bytes_eq : Bytes → Bytes → Bool
bytes_eq [] [] = true
bytes_eq (x ∷ xs) (y ∷ ys) = x == y && bytes_eq xs ys
bytes_eq [] (y ∷ ys) = false
bytes_eq (x ∷ xs) [] = false

bytes_eq→eq : (a b : Bytes) → bytes_eq a b ≡ true → a ≡ b
bytes_eq→eq [] [] h = refl
bytes_eq→eq (x ∷ xs) (y ∷ ys) h = ground (arith, bytes_eq→eq xs ys)
bytes_eq→eq [] (y ∷ ys) h = cc
bytes_eq→eq (x ∷ xs) [] h = cc

pub bytes_eq_refl : (a : Bytes) → bytes_eq a a ≡ true
bytes_eq_refl [] = refl
bytes_eq_refl (x ∷ xs) = ground (arith, bytes_eq_refl xs)

pub bytes_eq_iff : (a b : Bytes) → (bytes_eq a b ≡ true) ↔ (a ≡ b)
bytes_eq_iff a b = (bytes_eq→eq a b, λ e. rw e (bytes_eq_refl b))

-- `VecDeque<Vec<u8>>::contains`
abbrev pub member : Bytes → List Bytes → Bool
member k [] = false
member k (x ∷ xs) = bytes_eq x k || member k xs

abbrev pub Distinct : List Bytes → Type 0
Distinct [] = Unit
Distinct (x ∷ xs) = (member x xs ≡ false) × Distinct xs

-- `xs.iter().filter(|x| **x != k)`
abbrev pub without : Bytes → List Bytes → List Bytes
without k [] = []
without k (x ∷ xs) = if bytes_eq x k then without k xs else x ∷ without k xs

pub member-append :
    (k : Bytes) (xs ys : List Bytes) → member k (xs ++ ys) ≡ (member k xs || member k ys)
member-append k [] ys = refl
member-append k (x ∷ xs) ys = ground (arith, member-append k xs ys)

pub member-without :
    (k q : Bytes) (xs : List Bytes)
    → member q (without k xs) ≡ (if bytes_eq q k then false else member q xs)
member-without k q [] = ground arith
member-without k q (x ∷ xs) =
    ground (arith, member-without k q xs, bytes_eq_iff x k, bytes_eq_iff q k, bytes_eq_iff x q)

pub without-append :
    (k : Bytes) (xs ys : List Bytes) → without k (xs ++ ys) ≡ without k xs ++ without k ys
without-append k [] ys = refl
without-append k (x ∷ xs) ys = ground (arith, without-append k xs ys)

pub without-absent : (k : Bytes) (xs : List Bytes) → member k xs ≡ false → without k xs ≡ xs
without-absent k [] h = refl
without-absent k (x ∷ xs) h = ground (arith, without-absent k xs)

pub length-without-le : (k : Bytes) (xs : List Bytes) → length (without k xs) ≤ length xs
length-without-le k [] = omega arith
length-without-le k (x ∷ xs) = ground (arith, length-without-le k xs)

pub length-without :
    (k : Bytes) (xs : List Bytes) → member k xs ≡ true → suc (length (without k xs)) ≤ length xs
length-without k [] h = cc
length-without k (x ∷ xs) h = ground (arith, length-without k xs, length-without-le k xs)

pub without-Distinct : (k : Bytes) (xs : List Bytes) → Distinct xs → Distinct (without k xs)
without-Distinct k [] d = tt
without-Distinct k (x ∷ xs) d = ground (arith, without-Distinct k xs d.1, member-without k x xs)
