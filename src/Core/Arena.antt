-- ===== src/Core/Arena.antt =====
-- core/memory/arena.cpp: the bump arena. A `size_t` wraps at 2^64, and an alignment is not 0.
use olwsx.Base.{
  ℕ, ◌+◌, ◌-◌, ◌*◌, ◌/◌, ◌%◌, ◌≤◌, ◌<◌, ◌≡◌, refl, Option, none, some, List, [], ◌∷◌, All, arith,
  Bool-cases, inl, inr, ltb, ltb→lt, ltb→le, if◌then◌else◌,
}
use native.Mathlib.Nat.{
  mod-eq_of_lt, div-mul-le_self, lt-div-mul-add, div-lt_iff_lt-mul, mul-le-mul_right,
}
use mathlib.Core.Path.{subst}
use olwsx.Core.{u64_mod}

-- `base` is the address of the buffer and `size` its length.
pub record Arena : Type 0 where
  pub base : ℕ
  pub size : ℕ
  pub offset : ℕ

abbrev pub wadd : ℕ → ℕ → ℕ
wadd a b = (a + b) % u64_mod

abbrev pub wsub : ℕ → ℕ → ℕ
wsub a b = (a + (u64_mod - b)) % u64_mod

-- `allocate`
unfoldable pub allocate : ℕ → ℕ → Arena → Arena × Option ℕ
allocate bytes align a =
    let ptr = wadd a.base a.offset in
    let aligned = (wsub (wadd ptr align) 1 / align * align) % u64_mod in
    let delta = wsub aligned a.base in
    if ltb a.size (wadd delta bytes)
    then (a, none)
    else (record a { offset = wadd delta bytes }, some (wadd a.base delta))

-- `reset`
abbrev pub reset : Arena → Arena
reset a = record a { offset = 0 }

-- The results of a sequence of requests, each a number of bytes and an alignment.
unfoldable pub allocate_all : List (ℕ × ℕ) → Arena → List (Option ℕ)
allocate_all [] a = []
allocate_all ((bytes, align) ∷ reqs) a =
    let (a', p) = allocate bytes align a in p ∷ allocate_all reqs a'

abbrev pub IsAligned : ℕ → ℕ → Type 0
IsAligned align p = (q : ℕ) × (p ≡ q * align)

-- The regions that were handed out lie between `lo` and `hi` one after the other, each aligned, and
-- a request got none only where no aligned region of its size is left.
abbrev pub Packed : ℕ → ℕ → List (ℕ × ℕ) → List (Option ℕ) → Type 0
Packed lo hi [] [] = lo ≤ hi
Packed lo hi ((bytes, align) ∷ reqs) (none ∷ ps) =
    ((q : ℕ) → lo ≤ q * align → hi < q * align + bytes) × Packed lo hi reqs ps
Packed lo hi ((bytes, align) ∷ reqs) (some p ∷ ps) =
    (lo ≤ p) × (IsAligned align p × Packed (p + bytes) hi reqs ps)
Packed lo hi [] (p ∷ ps) = ⊥
Packed lo hi (r ∷ reqs) [] = ⊥

-- A request that does not overflow a `size_t` in an arena of this size at this address.
pub record FitsArena (base size : ℕ) (req : ℕ × ℕ) : Type 0 where
  pub aligned : 0 < req.1
  pub reaches : base + size + req.1 < u64_mod
  pub extends : size + req.1 + req.0 < u64_mod

-- The least multiple of `align` from `x` on.
abbrev up : ℕ → ℕ → ℕ
up x align = (x + align - 1) / align * align

up-ge : (x align : ℕ) → 0 < align → x ≤ up x align
up-ge x align h = omega (arith, lt-div-mul-add {a = x + align - 1} h)

up-lt : (x align : ℕ) → 0 < align → up x align < x + align
up-lt x align h = omega (arith, div-mul-le_self (x + align - 1) align)

up_least : (x align q : ℕ) → 0 < align → x ≤ q * align → up x align ≤ q * align
up_least x align q h le =
    let fits = (div-lt_iff_lt-mul {x = x + align - 1} {y = q + 1} h).1 (omega arith) in
    mul-le-mul_right align (omega (arith, fits))

module _ (bytes align : ℕ) (a : Arena) (fits : FitsArena a.base a.size (bytes, align))
    (le : a.offset ≤ a.size) where
  abbrev start : ℕ
  start = up (a.base + a.offset) align

  start-bounds : (a.base + a.offset ≤ start) × (start < a.base + a.offset + align)
  start-bounds =
      (up-ge (a.base + a.offset) align fits.aligned, up-lt (a.base + a.offset) align fits.aligned)

  no_wrap : wsub (wadd (wadd a.base a.offset) align) 1 ≡ a.base + a.offset + align - 1
  no_wrap = omega (arith, fits.aligned, fits.reaches, le)

  aligned_lem : (wsub (wadd (wadd a.base a.offset) align) 1 / align * align) % u64_mod ≡ start
  aligned_lem = rw no_wrap (mod-eq_of_lt (omega (arith, start-bounds.1, fits.reaches, le)))

  delta_lem : wsub start a.base ≡ start - a.base
  delta_lem = omega (arith, start-bounds, fits.reaches, le)

  end_lem : wadd (start - a.base) bytes ≡ start + bytes - a.base
  end_lem = omega (arith, start-bounds, fits.extends, le)

  back_lem : wadd a.base (start - a.base) ≡ start
  back_lem = omega (arith, start-bounds, fits.reaches, le)

  allocate_lem : allocate bytes align a ≡ (
      if ltb a.size (start + bytes - a.base)
      then (a, none)
      else (record a { offset = start + bytes - a.base }, some start))
  unfolding allocate
  allocate_lem = simp (aligned_lem, delta_lem, end_lem, back_lem)

Packed-from :
    (reqs : List (ℕ × ℕ)) (a : Arena)
    → All (FitsArena a.base a.size) reqs
    → a.offset ≤ a.size
    → Packed (a.base + a.offset) (a.base + a.size) reqs (allocate_all reqs a)
unfolding allocate_all
Packed-from [] a fits le = omega (arith, le)
Packed-from ((bytes, align) ∷ reqs) a fits le =
    let x = start bytes align a fits.0 le in
    let after = start-bounds bytes align a fits.0 le in
    elim (Bool-cases (ltb a.size (x + bytes - a.base))) [
      | inl full ↦
          rw (allocate_lem bytes align a fits.0 le, full)
            (
              (λ q past. omega (
                arith,
                up_least (a.base + a.offset) align q fits.0.aligned past,
                after,
                ltb→lt _ _ full,
              )),
              Packed-from reqs a fits.1 le,
            )
      | inr room ↦
          let next : Arena = record a { offset = x + bytes - a.base } in
          let there : a.base + (x + bytes - a.base) ≡ x + bytes = omega (arith, after) in
          rw (allocate_lem bytes align a fits.0 le, room)
            (
              after.0,
              (
                (_, refl),
                subst (λ z. Packed z (a.base + a.size) reqs (allocate_all reqs next)) there
                    (Packed-from reqs next fits.1 (ltb→le _ _ room)),
              ),
            )
    ]

-- The regions that an arena hands out after a reset lie in its buffer one after the other, so that no
-- two of them overlap, and each starts at a multiple of its alignment. A request is refused only if no
-- aligned region of its size is left behind the earlier ones. The alignments are not 0, and no sum of
-- sizes overflows a `size_t`.
pub allocate_all-Packed :
    (reqs : List (ℕ × ℕ)) (a : Arena)
    → All (FitsArena a.base a.size) reqs
    → Packed a.base (a.base + a.size) reqs (allocate_all reqs (reset a))
allocate_all-Packed reqs a fits =
    let from_start : a.base + 0 ≡ a.base = omega arith in
    subst (λ z. Packed z (a.base + a.size) reqs (allocate_all reqs (reset a))) from_start
      (Packed-from reqs (reset a) fits (omega arith))
