-- ===== src/Actors/Isolation/Bounded.antt =====
-- The counter of actors/lib/olwsx/actors/isolation.ex under processes whose steps come in any order.
use olwsx.Base.{ℕ, zero, suc, ◌+◌, ◌≤◌, ◌≡◌, refl, List, [], ◌∷◌, ◌++◌, arith, ltb, if◌then◌else◌}
use olwsx.Actors.Isolation.{
  Pc, outside, offered, inside, System, Step, offer, admit, refuse, done, at_start, Reach, start,
  then_step,
}

-- The processes that count once by `weight`.
abbrev pub total : (Pc → ℕ) → List Pc → ℕ
total weight [] = 0
total weight (pc ∷ pcs) = weight pc + total weight pcs

total-middle :
    (weight : Pc → ℕ) (l r : List Pc) (pc : Pc)
    → total weight (l ++ pc ∷ r) ≡ weight pc + (total weight l + total weight r)
total-middle weight [] r pc = omega arith
total-middle weight (q ∷ l) r pc = omega (arith, total-middle weight l r pc)

-- In a submission or on the way in or out.
abbrev pub busy : Pc → ℕ
busy outside = 0
busy (offered c) = 1
busy inside = 1

abbrev pub admitted : Pc → ℕ
admitted outside = 0
admitted (offered c) = 0
admitted inside = 1

-- Admitted, or sure to be.
abbrev granted : ℕ → Pc → ℕ
granted max outside = 0
granted max (offered c) = if ltb max c then 0 else 1
granted max inside = 1

granted-busy : (max : ℕ) (pcs : List Pc) → total (granted max) pcs ≤ total busy pcs
granted-busy max [] = omega arith
granted-busy max (outside ∷ pcs) = omega (arith, granted-busy max pcs)
granted-busy max (offered c ∷ pcs) = ground (arith, granted-busy max pcs)
granted-busy max (inside ∷ pcs) = omega (arith, granted-busy max pcs)

admitted-granted : (max : ℕ) (pcs : List Pc) → total admitted pcs ≤ total (granted max) pcs
admitted-granted max [] = omega arith
admitted-granted max (outside ∷ pcs) = omega (arith, admitted-granted max pcs)
admitted-granted max (offered c ∷ pcs) = ground (arith, admitted-granted max pcs)
admitted-granted max (inside ∷ pcs) = omega (arith, admitted-granted max pcs)

record IsValid (max : ℕ) (s : System) : Type 0 where
  counted : s.count ≡ total busy s.pcs
  bounded : total (granted max) s.pcs ≤ max

start-IsValid : (max n : ℕ) → IsValid max (at_start n)
start-IsValid max zero = record { counted = refl; bounded = omega arith }
start-IsValid max (suc n) =
    let ih = start-IsValid max n in
    record { counted = omega (arith, ih.counted); bounded = omega (arith, ih.bounded) }

-- The totals when one process goes from `was` to `is`.
module _ (max : ℕ) (l r : List Pc) (was is : Pc) where
  busy_moves : total busy (l ++ is ∷ r) + busy was ≡ total busy (l ++ was ∷ r) + busy is
  busy_moves = omega (arith, total-middle busy l r was, total-middle busy l r is)

  granted_moves :
      total (granted max) (l ++ is ∷ r) + granted max was
      ≡ total (granted max) (l ++ was ∷ r) + granted max is
  granted_moves =
      omega (arith, total-middle (granted max) l r was, total-middle (granted max) l r is)

Step-IsValid : (max : ℕ) (s t : System) → Step max s t → IsValid max s → IsValid max t
Step-IsValid max s t (offer c l r) v = record {
  counted = omega (arith, v.counted, busy_moves max l r outside (offered (c + 1)));
  bounded = ground (
    arith,
    v.counted,
    v.bounded,
    granted-busy max (l ++ outside ∷ r),
    granted_moves max l r outside (offered (c + 1)),
  );
}
Step-IsValid max s t (admit c mine l r fits) v = record {
  counted = omega (arith, v.counted, busy_moves max l r (offered mine) inside);
  bounded = omega (arith, v.bounded, rw fits at (granted_moves max l r (offered mine) inside));
}
Step-IsValid max s t (refuse c mine l r over) v = record {
  counted = omega (arith, v.counted, busy_moves max l r (offered mine) outside);
  bounded = omega (arith, v.bounded, granted_moves max l r (offered mine) outside);
}
Step-IsValid max s t (done c l r) v = record {
  counted = omega (arith, v.counted, busy_moves max l r inside outside);
  bounded = omega (arith, v.bounded, granted_moves max l r inside outside);
}

Reach-IsValid : (max n : ℕ) (s : System) → Reach max n s → IsValid max s
Reach-IsValid max n s start = start-IsValid max n
Reach-IsValid max n _ (then_step s t before last) =
    Step-IsValid max s t last (Reach-IsValid max n s before)

-- In whatever order processes offer, are refused and end, at most `max` of them are admitted at a time,
-- and the counter is the number of those that offered and were neither refused nor have ended; so it is
-- 0 again when none is left.
pub Reach-Bounded :
    (max n : ℕ) (s : System)
    → Reach max n s
    → (total admitted s.pcs ≤ max) × (s.count ≡ total busy s.pcs)
Reach-Bounded max n s reach =
    let v = Reach-IsValid max n s reach in
    (omega (arith, admitted-granted max s.pcs, v.bounded), v.counted)
