-- ===== src/Actors/Isolation.antt =====
-- actors/lib/olwsx/actors/isolation.ex: the counter of the requests in progress. One call of
-- `:ets.update_counter` is one step.
pub mod Bounded
use olwsx.Base.{
  ℕ, ◌+◌, ◌-◌, ◌≡◌, Bool, true, false, List, [], ◌∷◌, ◌++◌, replicate, ltb, if◌then◌else◌,
}

-- `q_offer`, when no other process comes in between: the counter, and whether the answer is `:ok`.
unfoldable pub q_offer : ℕ → ℕ → ℕ × Bool
q_offer max count = let c = count + 1 in if ltb max c then (c - 1, false) else (c, true)

-- `q_done`
abbrev pub q_done : ℕ → ℕ
q_done count = count - 1

-- Where a process stands: outside, in `q_offer` with what the counter gave it, or between the `:ok` of
-- `q_offer` and `q_done`.
pub data Pc : Type 0 where
  outside : Pc
  offered : ℕ → Pc
  inside : Pc

pub record System : Type 0 where
  pub count : ℕ
  pub pcs : List Pc

-- One process takes its next step.
pub data Step (max : ℕ) : System → System → Type 0 where
  offer :
      (c : ℕ) (l r : List Pc)
      → Step max
          (record { count = c; pcs = l ++ outside ∷ r })
          (record { count = c + 1; pcs = l ++ offered (c + 1) ∷ r })
  admit :
      (c mine : ℕ) (l r : List Pc)
      → ltb max mine ≡ false
      → Step max
          (record { count = c; pcs = l ++ offered mine ∷ r })
          (record { count = c; pcs = l ++ inside ∷ r })
  refuse :
      (c mine : ℕ) (l r : List Pc)
      → ltb max mine ≡ true
      → Step max
          (record { count = c; pcs = l ++ offered mine ∷ r })
          (record { count = c - 1; pcs = l ++ outside ∷ r })
  done :
      (c : ℕ) (l r : List Pc)
      → Step max
          (record { count = c; pcs = l ++ inside ∷ r })
          (record { count = q_done c; pcs = l ++ outside ∷ r })

abbrev pub at_start : ℕ → System
at_start n = record { count = 0; pcs = replicate n outside }

-- What `n` processes can come to in any order of their steps.
pub data Reach (max n : ℕ) : System → Type 0 where
  start : Reach max n (at_start n)
  then_step : (s t : System) → Reach max n s → Step max s t → Reach max n t
