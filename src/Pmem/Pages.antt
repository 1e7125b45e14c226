-- ===== src/Pmem/Pages.antt =====
-- The free list of a region: a chain of pages through memory.
use biglab.Base.{
  ℕ, ◌+◌, ◌%◌, ◌^◌, ◌≤◌, ◌<◌, ◌≡◌, false, ◌⊎◌, List, [], ◌∷◌, arith, length, All, Fresh, Distinct,
}
use biglab.Base.Word.{u32}
use biglab.Memory.{Mem, load64}
use biglab.Memory.Words.{load64-congr}
use biglab.Machine.{Region}

-- From `p` the `next` pointers lead through the pages `xs` to NULL.
abbrev pub Chain : Mem → ℕ → List ℕ → Type 0
Chain mem p [] = p ≡ 0
Chain mem p (x ∷ xs) = (p ≡ x) × Chain mem (load64 mem x) xs

-- An aligned page of the region.
pub record IsPage (r : Region) (x : ℕ) : Type 0 where
  pub aligned : x % 4096 ≡ 0
  pub above : r.begin ≤ x
  pub below : x < r.end

-- The region is one that `pmem_init` sets up: whole pages, not at address 0, inside the address
-- space.
pub record IsRegion (r : Region) : Type 0 where
  pub begin_aligned : r.begin % 4096 ≡ 0
  pub end_aligned : r.end % 4096 ≡ 0
  pub not_null : 0 < r.begin
  pub fits : r.end + 4096 < 2 ^ 64

-- `xs` are the free pages of the region, in the order in which they will be given out.
pub record FreePages (mem : Mem) (r : Region) (xs : List ℕ) : Type 0 where
  pub chain : Chain mem r.head xs
  pub pages : All (IsPage r) xs
  pub distinct : Distinct xs
  pub count : r.allocable ≡ u32 (length xs)
  pub lk_free : r.lk.locked ≡ false

-- The chain stands as long as no byte of its pages' links changes.
pub Chain-congr :
    (m n : Mem) (p : ℕ) (xs : List ℕ)
    → All (λ x. (i : ℕ) → i < 8 → n (x + i) ≡ m (x + i)) xs
    → Chain m p xs
    → Chain n p xs
Chain-congr m n p [] h c = c
Chain-congr m n p (x ∷ xs) (h, hs) (e, c) =
    (e, rw (load64-congr n m x h) (Chain-congr m n (load64 m x) xs hs c))

-- A page of the region ends inside it, and is no address below 4096.
pub IsPage-bounds : (r : Region) (x : ℕ) → IsRegion r → IsPage r x → (x + 4096 ≤ r.end) × (4096 ≤ x)
IsPage-bounds r x ir ip = omega arith

-- Another page of the list is a page apart.
pub All-apart :
    (r : Region) (x : ℕ) (xs : List ℕ)
    → IsPage r x
    → All (IsPage r) xs
    → Fresh x xs
    → All (λ y. (y + 4096 ≤ x) ⊎ (x + 4096 ≤ y)) xs
All-apart r x [] ip ips f = tt
All-apart r x (y ∷ ys) ip (iq, ips) (ne, f) = (omega arith, All-apart r x ys ip ips f)

pub All-map {ℓ κ} :
    {P : ℕ → Type ℓ} {Q : ℕ → Type κ} (xs : List ℕ) → ((x : ℕ) → P x → Q x) → All P xs → All Q xs
All-map [] f h = tt
All-map (x ∷ xs) f (p, h) = (f x p, All-map xs f h)

-- The list heads a page inside the region, or is empty.
pub head-lt :
    (mem : Mem) (r : Region) (xs : List ℕ) → IsRegion r → FreePages mem r xs → r.head < 2 ^ 64
head-lt mem r [] ir f = let c = f.chain in omega arith
head-lt mem r (x ∷ xs) ir f = let c = f.chain in let (p, _) = f.pages in omega arith
