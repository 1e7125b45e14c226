-- ===== src/Mmap/Areas.antt =====
-- The regions of a process as areas of its address space.
use biglab.Base.{ℕ, ◌+◌, ◌*◌, ◌≤◌, ◌<◌, ◌⊎◌, List, [], ◌∷◌, arith}
use biglab.Base.Word.{mmap_end}
use biglab.Machine.{Node}

-- The end of a region, as a number that does not wrap.
abbrev pub stop : Node → ℕ
stop n = n.begin + n.npages * 4096

-- The regions are in order from `lo` on, not empty, do not overlap and end at MMAP_END at most.
abbrev pub Sorted : (ℕ → Node) → ℕ → List ℕ → Type 0
Sorted node lo [] = Unit
Sorted node lo (x ∷ xs) =
    (lo ≤ (node x).begin)
    × (0 < (node x).npages)
    × (stop (node x) ≤ mmap_end)
    × Sorted node (stop (node x)) xs

-- `len` bytes from `b` on overlap none of the regions.
abbrev pub Free : (ℕ → Node) → ℕ → ℕ → List ℕ → Type 0
Free node b len [] = Unit
Free node b len (x ∷ xs) = ((b + len ≤ (node x).begin) ⊎ (stop (node x) ≤ b)) × Free node b len xs

-- A range that ends where the regions begin is free.
pub Free-before :
    (node : ℕ → Node) (lo b len : ℕ) (xs : List ℕ)
    → Sorted node lo xs
    → b + len ≤ lo
    → Free node b len xs
Free-before node lo b len [] s h = tt
Free-before node lo b len (x ∷ xs) (le, pos, fits, s) h =
    (omega arith, Free-before node (stop (node x)) b len xs s (omega arith))
