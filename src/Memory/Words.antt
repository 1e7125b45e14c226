-- ===== src/Memory/Words.antt =====
-- Laws of the 64-bit accesses.
use biglab.Base.{ℕ, ◌+◌, ◌-◌, ◌*◌, ◌^◌, ◌≤◌, ◌<◌, ◌≡◌, sym, ◌∙◌, ◌⊎◌, ap, arith}
use native.Mathlib.Nat.{add-zero}
use biglab.Memory.{Mem, byte, load64, store64}

store64_in : (mem : Mem) (a v i : ℕ) → i < 8 → store64 mem a v (a + i) ≡ byte v i
unfolding store64
store64_in mem a v i h = let e : a + i - a ≡ i = omega arith in ground (arith, ap (byte v) e)

-- A write changes the eight bytes at its address only.
pub store64_out : (mem : Mem) (a v q : ℕ) → (q < a) ⊎ (a + 8 ≤ q) → store64 mem a v q ≡ mem q
unfolding store64
store64_out mem a v q h = ground arith

bytes_sum :
    (v : ℕ)
    → v < 2 ^ 64
    → byte v 0
        + 256 ^ 1 * byte v 1
        + 256 ^ 2 * byte v 2
        + 256 ^ 3 * byte v 3
        + 256 ^ 4 * byte v 4
        + 256 ^ 5 * byte v 5
        + 256 ^ 6 * byte v 6
        + 256 ^ 7 * byte v 7
      ≡ v
bytes_sum v h = omega arith

pub load64-store64_self : (mem : Mem) (a v : ℕ) → v < 2 ^ 64 → load64 (store64 mem a v) a ≡ v
unfolding load64
load64-store64_self mem a v h = omega (
  arith,
  bytes_sum v h,
  first,
  store64_in mem a v 1,
  store64_in mem a v 2,
  store64_in mem a v 3,
  store64_in mem a v 4,
  store64_in mem a v 5,
  store64_in mem a v 6,
  store64_in mem a v 7,
)
  where
    first : store64 mem a v a ≡ byte v 0
    first = ap (store64 mem a v) (sym (add-zero a)) ∙ store64_in mem a v 0 (omega arith)

-- The word depends on its eight bytes only.
pub load64-congr :
    (m n : Mem) (a : ℕ) → ((i : ℕ) → i < 8 → m (a + i) ≡ n (a + i)) → load64 m a ≡ load64 n a
unfolding load64
load64-congr m n a h = omega (
  arith,
  first,
  h 1 (omega arith),
  h 2 (omega arith),
  h 3 (omega arith),
  h 4 (omega arith),
  h 5 (omega arith),
  h 6 (omega arith),
  h 7 (omega arith),
)
  where
    first : m a ≡ n a
    first = rw add-zero at (h 0 (omega arith))

-- A word apart from the one written is as before.
pub load64-store64_ne :
    (mem : Mem) (a b v : ℕ) → (b + 8 ≤ a) ⊎ (a + 8 ≤ b) → load64 (store64 mem a v) b ≡ load64 mem b
load64-store64_ne mem a b v h = load64-congr _ _ b λ i lt. store64_out mem a v (b + i) (omega arith)

-- Eight zero bytes are the word 0.
pub load64-zero : (mem : Mem) (a : ℕ) → ((i : ℕ) → i < 8 → mem (a + i) ≡ 0) → load64 mem a ≡ 0
unfolding load64
load64-zero mem a h = load64-congr mem (λ _. 0) a h
