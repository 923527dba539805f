-- ===== src/Base/Text.antt =====
-- What the program uses of the standard library's text functions, on bytes.
use Prim.Native.Nat.{ℕ, ◌+◌, suc}
use mathlib.Core.Bool.{Bool, true, false, ◌&&◌, ◌||◌}
use mathlib.Core.List.{[], ◌∷◌, ◌++◌}
use mathlib.Core.Logic.{◌↔◌, inl, inr}
use mathlib.Core.Path.{◌≡◌, refl, ap}
use native.Mathlib.Omega.{arith}
use olwsx.Base.Test.{leb, ◌==◌, if◌then◌else◌, Bool-cases}
use olwsx.Base.Lists.{length}
use olwsx.Base.ByteString.{Bytes, bytes_eq}

-- `u8::to_ascii_lowercase`
unfoldable pub lower : ℕ → ℕ
lower b = if leb b'A' b && leb b b'Z' then b + 32 else b

-- `str::to_ascii_lowercase`
abbrev pub to_ascii_lowercase : Bytes → Bytes
to_ascii_lowercase [] = []
to_ascii_lowercase (b ∷ s) = lower b ∷ to_ascii_lowercase s

-- `str::eq_ignore_ascii_case`
abbrev pub eq_ignore_ascii_case : Bytes → Bytes → Bool
eq_ignore_ascii_case a b = bytes_eq (to_ascii_lowercase a) (to_ascii_lowercase b)

abbrev pub starts_with : Bytes → Bytes → Bool
starts_with s [] = true
starts_with [] (p ∷ ps) = false
starts_with (x ∷ xs) (p ∷ ps) = x == p && starts_with xs ps

-- `str::contains`
abbrev pub contains : Bytes → Bytes → Bool
contains [] needle = starts_with [] needle
contains (x ∷ xs) needle = starts_with (x ∷ xs) needle || contains xs needle

-- `needle` stands somewhere in `hay`.
abbrev pub Occurs : Bytes → Bytes → Type 0
Occurs needle hay = (front : Bytes) × (back : Bytes) × (hay ≡ front ++ (needle ++ back))

starts_with_sound : (s p : Bytes) → starts_with s p ≡ true → (back : Bytes) × (s ≡ p ++ back)
starts_with_sound s [] h = (s, refl)
starts_with_sound [] (p ∷ ps) h = absurd (ground arith)
starts_with_sound (x ∷ xs) (p ∷ ps) h =
    let (back, e) = starts_with_sound xs ps (ground arith) in (back, ground arith)

pub starts_with-append : (p back : Bytes) → starts_with (p ++ back) p ≡ true
starts_with-append [] back = refl
starts_with-append (x ∷ p) back = ground (arith, starts_with-append p back)

pub starts_with_iff : (s p : Bytes) → (starts_with s p ≡ true) ↔ ((back : Bytes) × (s ≡ p ++ back))
starts_with_iff s p = (starts_with_sound s p, λ (back, e). rw e (starts_with-append p back))

contains_sound : (hay needle : Bytes) → contains hay needle ≡ true → Occurs needle hay
contains_sound [] needle h = let (back, e) = starts_with_sound [] needle h in ([], back, e)
contains_sound (x ∷ xs) needle h = elim (Bool-cases (starts_with (x ∷ xs) needle)) [
  | inl here ↦ let (back, e) = starts_with_sound (x ∷ xs) needle here in ([], back, e)
  | inr later ↦
      let (front, back, e) = contains_sound xs needle (ground arith) in
      (x ∷ front, back, ap (◌∷◌ x) e)
]

pub contains_here : (s needle : Bytes) → starts_with s needle ≡ true → contains s needle ≡ true
contains_here [] needle h = h
contains_here (x ∷ xs) needle h = ground arith

contains_complete : (front needle back : Bytes) → contains (front ++ (needle ++ back)) needle ≡ true
contains_complete [] needle back = contains_here _ needle (starts_with-append needle back)
contains_complete (x ∷ front) needle back = ground (arith, contains_complete front needle back)

pub contains_iff : (hay needle : Bytes) → (contains hay needle ≡ true) ↔ Occurs needle hay
contains_iff hay needle =
    (contains_sound hay needle, λ (front, back, e). rw e (contains_complete front needle back))

pub to_ascii_lowercase-append :
    (a b : Bytes) → to_ascii_lowercase (a ++ b) ≡ to_ascii_lowercase a ++ to_ascii_lowercase b
to_ascii_lowercase-append [] b = refl
to_ascii_lowercase-append (x ∷ a) b = ap (◌∷◌ (lower x)) (to_ascii_lowercase-append a b)

pub lower_idempotent :
    (s : Bytes) → to_ascii_lowercase (to_ascii_lowercase s) ≡ to_ascii_lowercase s
unfolding lower
lower_idempotent [] = refl
lower_idempotent (b ∷ s) = ground (arith, lower_idempotent s)

pub length-lowercase : (s : Bytes) → length (to_ascii_lowercase s) ≡ length s
length-lowercase [] = refl
length-lowercase (b ∷ s) = ap suc (length-lowercase s)
