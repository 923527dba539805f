-- ===== src/Metrics/Histogram/Rank.antt =====
-- The loop of `quantile` in observability/metrics.rs: it stops at the least bound that reaches the rank.
use olwsx.Base.{
  ℕ, zero, suc, ◌+◌, ◌≤◌, ◌<◌, ◌≡◌, refl, sym, ◌∙◌, ◌⊎◌, inl, inr, List, [], ◌∷◌, some, arith, ltb,
  ltb→lt, leb, leb→le, length, All, get_elem?, drop, Bool-cases,
}
use mathlib.Core.Path.{subst}
use native.Mathlib.Nat.{mod-eq_of_lt, le_refl}
use olwsx.Metrics.{u64_mod}
use olwsx.Metrics.Histogram.{lat_bounds, bound_at, quantile_from}
use olwsx.Metrics.Histogram.Counts.{
  count_le, above, tally, Covers, Ascending, count_le-add-above, count_le-above,
}
use olwsx.Metrics.Histogram.Records.{Covers-tail}

All-weaken : (b c : ℕ) (xs : List ℕ) → b ≤ c → All (λ x. c ≤ x) xs → All (λ x. b ≤ x) xs
All-weaken b c [] h a = tt
All-weaken b c (x ∷ xs) h a = (omega (arith, a.0), All-weaken b c xs h a.1)

Ascending-All : (b : ℕ) (bounds : List ℕ) → Ascending (b ∷ bounds) → All (λ c. b ≤ c) bounds
Ascending-All b [] a = tt
Ascending-All b (c ∷ bounds) a = (a.0, All-weaken b c bounds a.0 (Ascending-All c bounds a.1))

Ascending-tail : (b : ℕ) (bounds : List ℕ) → Ascending (b ∷ bounds) → Ascending bounds
Ascending-tail b [] a = tt
Ascending-tail b (c ∷ bounds) a = a.1

above-Covers :
    (b : ℕ) (bounds xs : List ℕ) → All (Covers (b ∷ bounds)) xs → All (Covers bounds) (above b xs)
above-Covers b bounds [] a = tt
above-Covers b bounds (x ∷ xs) a = elim (Bool-cases (ltb b x)) [
  | inl past ↦ rw past (Covers-tail b bounds x a.0 (ltb→lt _ _ past), above-Covers b bounds xs a.1)
  | inr here ↦ rw here (above-Covers b bounds xs a.1)
]

pub All-get_elem :
    (P : ℕ → Type 0) (xs : List ℕ) (i : ℕ) {v : ℕ} → All P xs → get_elem? xs i ≡ some v → P v
All-get_elem P [] i a h = cc
All-get_elem P (x ∷ xs) zero {v} a h = let e : x ≡ v = cc in rw (← e) a.0
All-get_elem P (x ∷ xs) (suc i) a h = All-get_elem P xs i a.1 h

get_elem-drop :
    (i : ℕ) (xs : List ℕ) {b : ℕ} {rest : List ℕ}
    → drop i xs ≡ b ∷ rest
    → (get_elem? xs i ≡ some b) × (drop (suc i) xs ≡ rest)
get_elem-drop zero [] e = cc
get_elem-drop zero (x ∷ xs) e = (cc, cc)
get_elem-drop (suc i) [] e = cc
get_elem-drop (suc i) (x ∷ xs) e = get_elem-drop i xs e

-- `v` is a bound, at least `target` observations (beside `acc` others) are up to it, and fewer than
-- `target` are up to any smaller bound.
abbrev IsLeast : List ℕ → ℕ → ℕ → List ℕ → ℕ → Type 0
IsLeast bounds target acc xs v =
    ((i : ℕ) × (get_elem? bounds i ≡ some v))
    × (target ≤ acc + count_le v xs)
    × All (λ b. (v ≤ b) ⊎ (acc + count_le b xs < target)) bounds

smaller_bounds :
    (bounds : List ℕ) (target acc b v : ℕ) (xs : List ℕ)
    → All (λ c. b ≤ c) bounds
    → All (λ c. (v ≤ c) ⊎ (acc + count_le b xs + count_le c (above b xs) < target)) bounds
    → All (λ c. (v ≤ c) ⊎ (acc + count_le c xs < target)) bounds
smaller_bounds [] target acc b v xs a h = tt
smaller_bounds (c ∷ bounds) target acc b v xs a h = (
  elim h.0 [ inl low ↦ inl low | inr few ↦ inr (omega (arith, few, count_le-above b c xs a.0)) ],
  smaller_bounds bounds target acc b v xs a.1 h.1,
)

All-larger :
    (v : ℕ) (P : ℕ → Type 0) (bounds : List ℕ)
    → All (λ c. v ≤ c) bounds
    → All (λ c. (v ≤ c) ⊎ P c) bounds
All-larger v P [] a = tt
All-larger v P (c ∷ bounds) a = (inl a.0, All-larger v P bounds a.1)

module _ (target acc i c : ℕ) (bins : List ℕ) (few : acc + c < u64_mod) where
  quantile_from-here : target ≤ acc + c → quantile_from target acc i (c ∷ bins) ≡ bound_at i
  unfolding quantile_from
  quantile_from-here h = ground (arith, mod-eq_of_lt few)

  quantile_from-later :
      acc + c < target
      → quantile_from target acc i (c ∷ bins) ≡ quantile_from target (acc + c) (suc i) bins
  unfolding quantile_from
  quantile_from-later h = ground (arith, mod-eq_of_lt few)

bound_at-eq : (i b : ℕ) → get_elem? lat_bounds i ≡ some b → bound_at i ≡ b
unfolding bound_at
bound_at-eq i b h = rw h

pub quantile_from-IsLeast :
    (bounds : List ℕ) (target acc i : ℕ) (xs : List ℕ)
    → drop i lat_bounds ≡ bounds
    → Ascending bounds
    → All (Covers bounds) xs
    → acc + length xs < u64_mod
    → acc < target
    → target ≤ acc + length xs
    → IsLeast bounds target acc xs (quantile_from target acc i (tally bounds xs))
quantile_from-IsLeast [] target acc i [] e up a few more enough = absurd (omega arith)
quantile_from-IsLeast [] target acc i (x ∷ xs) e up a few more enough = absurd a.0
quantile_from-IsLeast (b ∷ bounds) target acc i xs e up a few more enough =
    elim (Bool-cases (leb target (acc + count_le b xs))) [
      | inl here ↦
          let reached : target ≤ acc + count_le b xs = leb→le _ _ here in
          subst (IsLeast (b ∷ bounds) target acc xs)
            (sym (
              quantile_from-here target acc i (count_le b xs) (tally bounds (above b xs)) fits
                reached
              ∙ at_b))
            ((0, refl), reached, (inl (le_refl b), All-larger b _ bounds larger))
      | inr later ↦
          let missed : acc + count_le b xs < target = ground arith in
          let ((j, found), many, least) =
            quantile_from-IsLeast bounds target (acc + count_le b xs) (suc i) (above b xs)
              (get_elem-drop i lat_bounds e).1 (Ascending-tail b bounds up)
              (above-Covers b bounds xs a) (omega (arith, parts)) missed (omega (arith, parts)) in
          let v : ℕ =
            quantile_from target (acc + count_le b xs) (suc i) (tally bounds (above b xs)) in
          let over : b ≤ v = All-get_elem (λ c. b ≤ c) bounds j larger found in
          subst (IsLeast (b ∷ bounds) target acc xs)
            (sym (
              quantile_from-later target acc i (count_le b xs) (tally bounds (above b xs)) fits
                missed))
            (
              (suc j, found),
              omega (arith, many, count_le-above b v xs over),
              (inr missed, smaller_bounds bounds target acc b v xs larger least),
            )
    ]
  where
    larger : All (λ c. b ≤ c) bounds
    larger = Ascending-All b bounds up

    at_b : bound_at i ≡ b
    at_b = bound_at-eq i b (get_elem-drop i lat_bounds e).0

    parts : count_le b xs + length (above b xs) ≡ length xs
    parts = count_le-add-above b xs

    fits : acc + count_le b xs < u64_mod
    fits = omega (arith, parts)
