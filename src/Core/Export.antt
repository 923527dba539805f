-- ===== src/Core/Export.antt =====
-- core/memory/allocator.cpp and the export helpers of core/main.cpp: the buffers that a response hands
-- to the caller. `malloc` is the argument `grants`: whether the n-th call gets memory. It returns an
-- address that it never returned before.
use olwsx.Base.{ℕ, ◌+◌, Bool, Bytes, Option, none, some, List, [], ◌∷◌, ◌==◌, if◌then◌else◌}

-- `made` counts the calls of `malloc`, and `live` has the blocks that were not freed.
pub record Heap : Type 0 where
  pub made : ℕ
  pub live : List (ℕ × Bytes)

abbrev pub block_at : ℕ → List (ℕ × Bytes) → Option Bytes
block_at p [] = none
block_at p ((q, s) ∷ live) = if q == p then some s else block_at p live

abbrev pub without_block : ℕ → List (ℕ × Bytes) → List (ℕ × Bytes)
without_block p [] = []
without_block p ((q, s) ∷ live) = if q == p then live else (q, s) ∷ without_block p live

-- `ExportPool::free`; `none` is the undefined behaviour of freeing what is not a live block.
unfoldable pub free : Option ℕ → Heap → Option Heap
free none h = some h
free (some p) h = elim (block_at p h.live) [
  | none ↦ none
  | some s ↦ some (record { made = h.made; live = without_block p h.live })
]

-- Reading a block through its pointer; `none` is a dangling pointer.
unfoldable pub load : ℕ → Heap → Option Bytes
load p h = block_at p h.live

module _ (grants : ℕ → Bool) where
  -- `ExportPool::alloc`, and the `memcpy` that fills the block.
  unfoldable pub alloc : Bytes → Heap → Heap × Option ℕ
  alloc src h =
      if grants h.made
      then (record { made = h.made + 1; live = (h.made, src) ∷ h.live }, some h.made)
      else (record { made = h.made + 1; live = h.live }, none)

  -- `export_copy` and `export_copy_str`: nothing is exported of an empty buffer.
  unfoldable pub export_copy : Bytes → Heap → Heap × Option ℕ
  export_copy [] h = (h, none)
  export_copy (b ∷ src) h = alloc (b ∷ src) h
