-- ===== src/Base/Bits.antt =====
-- `|` as it builds a page table entry: a shifted page number joined with flag bits.
use Prim.Native.Nat.{
  ℕ, zero, suc, ◌+◌, ◌*◌, ◌/◌, ◌%◌, ◌≤◌, ◌<◌, max, digits, bit_or, bit_or-bitwise,
}
use mathlib.Core.Path.{◌≡◌, refl, ◌∙◌, ap}
use native.Mathlib.Omega.{arith}

abbrev or_digits : ℕ → ℕ → ℕ → ℕ
or_digits k a b = digits (λ y. y) max k a b

-- Any count of digits that covers the first number gives the same result.
or_digits-enough : (k l a b : ℕ) → a ≤ k → a ≤ l → or_digits k a b ≡ or_digits l a b
or_digits-enough zero zero a b h g = refl
or_digits-enough zero (suc l) zero b h g = refl
or_digits-enough zero (suc l) (suc a) b h g = absurd (omega arith)
or_digits-enough (suc k) zero zero b h g = refl
or_digits-enough (suc k) zero (suc a) b h g = absurd (omega arith)
or_digits-enough (suc k) (suc l) zero b h g = refl
or_digits-enough (suc k) (suc l) (suc a) b h g =
    omega (arith, or_digits-enough k l (suc a / 2) (b / 2) (omega arith) (omega arith))

zero-bit_or : (b : ℕ) → bit_or 0 b ≡ b
zero-bit_or b = bit_or-bitwise 0 b

-- The lowest digit apart from the others.
bit_or-digit : (a b : ℕ) → bit_or a b ≡ bit_or (a / 2) (b / 2) * 2 + max (a % 2) (b % 2)
bit_or-digit zero b = omega (arith, zero-bit_or b, zero-bit_or (b / 2))
bit_or-digit (suc a) b = omega (
  arith,
  bit_or-bitwise (suc a) b,
  bit_or-bitwise (suc a / 2) (b / 2),
  or_digits-enough a (suc a / 2) (suc a / 2) (b / 2) (omega arith) (omega arith),
)

bit_or-zero_below : (k a : ℕ) → a ≤ k → bit_or a 0 ≡ a
bit_or-zero_below k zero h = refl
bit_or-zero_below zero (suc a) h = absurd (omega arith)
bit_or-zero_below (suc k) (suc a) h =
    omega (arith, bit_or-digit (suc a) 0, bit_or-zero_below k (suc a / 2) (omega arith))

pub bit_or-zero : (a : ℕ) → bit_or a 0 ≡ a
bit_or-zero a = bit_or-zero_below a a (omega arith)

-- Joining bit 0 sets it.
pub bit_or-one : (a : ℕ) → bit_or a 1 ≡ a / 2 * 2 + 1
bit_or-one a = omega (arith, bit_or-digit a 1, bit_or-zero (a / 2))

abbrev doubled : ℕ → ℕ → ℕ
doubled zero q = q
doubled (suc k) q = 2 * doubled k q

bit_or-doubled : (k q r : ℕ) → r < doubled k 1 → bit_or (doubled k q) r ≡ doubled k q + r
bit_or-doubled zero q r h = ap (bit_or q) none ∙ (bit_or-zero q ∙ omega arith)
  where
    none : r ≡ 0
    none = omega arith
bit_or-doubled (suc k) q r h = omega (
  arith,
  bit_or-digit (2 * doubled k q) r,
  ap (λ t. bit_or t (r / 2)) half,
  bit_or-doubled k q (r / 2) (omega arith),
)
  where
    half : 2 * doubled k q / 2 ≡ doubled k q
    half = omega arith

-- Flags below bit 10 join a page number at bit 10 without carry.
pub bit_or_fields : (q r : ℕ) → r < 1024 → bit_or (q * 1024) r ≡ q * 1024 + r
bit_or_fields q r h = ap (λ n. bit_or n r) to ∙ (bit_or-doubled 10 q r (omega arith) ∙ omega arith)
  where
    to : q * 1024 ≡ doubled 10 q
    to = omega arith
