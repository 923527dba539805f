-- ===== src/Base/Readers.antt =====
-- Readers of byte strings, with unsigned numbers in little-endian order.
use Prim.Native.Nat.{ℕ, zero, suc, ◌+◌, ◌*◌, ◌/◌, ◌%◌, ◌^◌, ◌≤◌, ◌<◌}
use mathlib.Core.Path.{◌≡◌, refl, ap, sym, subst}
use mathlib.Core.List.{List, [], ◌∷◌, ◌++◌}
use mathlib.Core.Option.{Option, none, some}
use native.Mathlib.Nat.{pow-suc}
use native.Mathlib.Omega.{arith}
use mathlib.Core.Logic.{inl, inr}
use olwsx.Base.Test.{Option-cases, ltb→le, ltb, some_inj, Bool-cases, if◌then◌else◌}
use olwsx.Base.Lists.{
  length, take, drop, All, length-append, take-append, drop-append, take-append-drop,
}
use olwsx.Base.ByteString.{Bytes}

infixl 5 ◌>>=◌
abbrev pub ◌>>=◌ {ℓ κ} : {A : Type ℓ} {B : Type κ} → Option A → (A → Option B) → Option B
none >>= f = none
some a >>= f = f a

-- A reader returns what it read and the bytes that follow.
abbrev pub Reader {ℓ} : Type ℓ → Type ℓ
Reader A = Bytes → Option (A × Bytes)

unfoldable pub read_bytes : ℕ → Reader Bytes
read_bytes n src = if ltb (length src) n then none else some (take n src, drop n src)

-- Every number of the list is a byte.
abbrev pub IsOctets : Bytes → Type 0
IsOctets s = All (λ b. b < 256) s

unfoldable pub to_le_bytes : ℕ → ℕ → Bytes
to_le_bytes zero v = []
to_le_bytes (suc n) v = v % 256 ∷ to_le_bytes n (v / 256)

abbrev pub from_le : Bytes → ℕ
from_le [] = 0
from_le (b ∷ bytes) = b + 256 * from_le bytes

unfoldable pub read_le : ℕ → Reader ℕ
read_le n src = do (bytes, rest) ← read_bytes n src; some (from_le bytes, rest)

pub read_bytes-append :
    (n : ℕ) (s rest : Bytes) → length s ≡ n → read_bytes n (s ++ rest) ≡ some (s, rest)
unfolding read_bytes
read_bytes-append n s rest e = subst (λ j. read_bytes j (s ++ rest) ≡ some (s, rest)) e whole
  where
    whole : read_bytes (length s) (s ++ rest) ≡ some (s, rest)
    whole = ground (arith, length-append s rest, take-append s rest, drop-append s rest)

length-to_le_bytes : (n v : ℕ) → length (to_le_bytes n v) ≡ n
unfolding to_le_bytes
length-to_le_bytes zero v = refl
length-to_le_bytes (suc n) v = omega (arith, length-to_le_bytes n (v / 256))

from_le-to_le_bytes : (n v : ℕ) → v < 256 ^ n → from_le (to_le_bytes n v) ≡ v
unfolding to_le_bytes
from_le-to_le_bytes zero v h = omega arith
from_le-to_le_bytes (suc n) v h =
    let small : v / 256 < 256 ^ n = omega (arith, pow-suc 256 n) in
    omega (arith, from_le-to_le_bytes n (v / 256) small)

pub read_le-append :
    (n v : ℕ) (rest : Bytes) → v < 256 ^ n → read_le n (to_le_bytes n v ++ rest) ≡ some (v, rest)
unfolding read_le
read_le-append n v rest h =
    rw (
      read_bytes-append n (to_le_bytes n v) rest (length-to_le_bytes n v),
      from_le-to_le_bytes n v h,
    )

pub append-nil : (s : Bytes) → s ++ [] ≡ s
append-nil [] = refl
append-nil (b ∷ s) = ap (◌∷◌ b) (append-nil s)

-- The same at the end of the input.
pub read_le-last : (n v : ℕ) → v < 256 ^ n → read_le n (to_le_bytes n v) ≡ some (v, [])
read_le-last n v h = rw (append-nil (to_le_bytes n v)) at (read_le-append n v [] h)

length-take : (n : ℕ) (s : Bytes) → n ≤ length s → length (take n s) ≡ n
length-take zero s h = refl
length-take (suc n) [] h = absurd (omega (arith, h))
length-take (suc n) (b ∷ s) h = omega (arith, length-take n s (omega (arith, h)))

pub none-some {ℓ} : {A : Type ℓ} {a : A} → none ≡ some a → ⊥
none-some h = cc

-- What a reader of bytes read stood at the front.
pub read_bytes-inv :
    (n : ℕ) (src : Bytes) (got : Bytes × Bytes)
    → read_bytes n src ≡ some got
    → (src ≡ got.0 ++ got.1) × (length got.0 ≡ n)
unfolding read_bytes
read_bytes-inv n src got h = elim (Bool-cases (ltb (length src) n)) [
  | inl short ↦ absurd (none-some (rw short at h))
  | inr enough ↦
      let same : (take n src, drop n src) ≡ got = some_inj (rw enough at h) in
      rw⁻¹ same (sym (take-append-drop n src), length-take n src (ltb→le _ _ enough))
]

to_le_bytes-from_le :
    (n : ℕ) (s : Bytes)
    → IsOctets s
    → length s ≡ n
    → (from_le s < 256 ^ n) × (to_le_bytes n (from_le s) ≡ s)
unfolding to_le_bytes
to_le_bytes-from_le zero [] o e = (omega arith, refl)
to_le_bytes-from_le zero (b ∷ s) o e = absurd (omega (arith, e))
to_le_bytes-from_le (suc n) [] o e = absurd (omega (arith, e))
to_le_bytes-from_le (suc n) (b ∷ s) o e =
    let ih = to_le_bytes-from_le n s o.1 (omega (arith, e)) in
    let low : (b + 256 * from_le s) % 256 ≡ b = omega (arith, o.0) in
    let high : (b + 256 * from_le s) / 256 ≡ from_le s = omega (arith, o.0) in
    (omega (arith, ih.0, o.0, pow-suc 256 n), rw (low, high, ih.1) refl)

pub All-split {ℓ} :
    {A : Type ℓ} (P : A → Type 0) (xs ys : List A) → All P (xs ++ ys) → All P xs × All P ys
All-split P [] ys a = (tt, a)
All-split P (x ∷ xs) ys a = let ih = All-split P xs ys a.1 in ((a.0, ih.0), ih.1)

pub read_le-inv :
    (n : ℕ) (src : Bytes) (v : ℕ) (rest : Bytes)
    → IsOctets src
    → read_le n src ≡ some (v, rest)
    → (src ≡ to_le_bytes n v ++ rest) × ((v < 256 ^ n) × IsOctets rest)
unfolding read_le
read_le-inv n src v rest o h = elim (Option-cases (read_bytes n src)) [
  | inl short ↦ absurd (none-some (rw short at h))
  | inr (got, read) ↦
      let inv = read_bytes-inv n src got read in
      let parts = All-split (λ b. b < 256) got.0 got.1 (rw inv.0 at o) in
      let same : (from_le got.0, got.1) ≡ (v, rest) = some_inj (rw read at h) in
      let number = to_le_bytes-from_le n got.0 parts.0 inv.1 in
      let whole : src ≡ to_le_bytes n (from_le got.0) ++ got.1 = rw number.1 inv.0 in
      subst (λ z. (src ≡ to_le_bytes n z.0 ++ z.1) × ((z.0 < 256 ^ n) × IsOctets z.1)) same
        (whole, (number.0, parts.1))
]
