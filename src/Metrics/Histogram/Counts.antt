-- ===== src/Metrics/Histogram/Counts.antt =====
-- Counting observations by bounds: the reference for the bins of observability/metrics.rs.
use olwsx.Base.{ℕ, suc, ◌+◌, ◌≤◌, ◌≡◌, refl, List, [], ◌∷◌, arith, ltb, length, All, if◌then◌else◌}

-- How many of the observations are at most `b`, and those above `b`.
abbrev pub count_le : ℕ → List ℕ → ℕ
count_le b [] = 0
count_le b (x ∷ xs) = if ltb b x then count_le b xs else suc (count_le b xs)

abbrev pub above : ℕ → List ℕ → List ℕ
above b [] = []
above b (x ∷ xs) = if ltb b x then x ∷ above b xs else above b xs

-- The bin of each bound counts the observations up to it and above the bounds before it.
abbrev pub tally : List ℕ → List ℕ → List ℕ
tally [] xs = []
tally (b ∷ bounds) xs = count_le b xs ∷ tally bounds (above b xs)

abbrev pub total : List ℕ → ℕ
total [] = 0
total (x ∷ xs) = x + total xs

-- Some bound is no smaller.
abbrev pub Covers : List ℕ → ℕ → Type 0
Covers [] x = ⊥
Covers (b ∷ []) x = x ≤ b
Covers (b ∷ c ∷ bounds) x = Covers (c ∷ bounds) x

-- Each bound is at most the next.
abbrev pub Ascending : List ℕ → Type 0
Ascending [] = Unit
Ascending (b ∷ []) = Unit
Ascending (b ∷ c ∷ bounds) = (b ≤ c) × Ascending (c ∷ bounds)

pub count_le-le-length : (b : ℕ) (xs : List ℕ) → count_le b xs ≤ length xs
count_le-le-length b [] = omega arith
count_le-le-length b (x ∷ xs) = ground (arith, count_le-le-length b xs)

pub count_le-add-above : (b : ℕ) (xs : List ℕ) → count_le b xs + length (above b xs) ≡ length xs
count_le-add-above b [] = omega arith
count_le-add-above b (x ∷ xs) = ground (arith, count_le-add-above b xs)

-- The observations up to the larger of two bounds.
pub count_le-above :
    (b c : ℕ) (xs : List ℕ) → b ≤ c → count_le b xs + count_le c (above b xs) ≡ count_le c xs
count_le-above b c [] h = omega arith
count_le-above b c (x ∷ xs) h = ground (arith, count_le-above b c xs h)

pub above-All :
    (b : ℕ) (bounds xs : List ℕ) → All (Covers bounds) xs → All (Covers bounds) (above b xs)
above-All b bounds [] a = tt
above-All b bounds (x ∷ xs) a = ground (arith, above-All b bounds xs a.1)

pub length-tally : (bounds xs : List ℕ) → length (tally bounds xs) ≡ length bounds
length-tally [] xs = refl
length-tally (b ∷ bounds) xs = omega (arith, length-tally bounds (above b xs))

count_le-All : (b : ℕ) (xs : List ℕ) → All (Covers (b ∷ [])) xs → count_le b xs ≡ length xs
count_le-All b [] a = refl
count_le-All b (x ∷ xs) a = ground (arith, count_le-All b xs a.1)

-- No observation is lost or counted twice.
pub total-tally :
    (bounds xs : List ℕ) → All (Covers bounds) xs → total (tally bounds xs) ≡ length xs
total-tally [] [] a = refl
total-tally [] (x ∷ xs) a = absurd a.0
total-tally (b ∷ []) xs a = omega (arith, count_le-All b xs a)
total-tally (b ∷ c ∷ bounds) xs a = omega (
  arith,
  count_le-add-above b xs,
  total-tally (c ∷ bounds) (above b xs) (above-All b (c ∷ bounds) xs a),
)
