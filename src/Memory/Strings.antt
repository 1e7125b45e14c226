-- ===== src/Memory/Strings.antt =====
-- `strncmp` against the first difference of two strings.
use biglab.Base.{ℕ, zero, suc, ◌+◌, ◌≡◌, refl, ◌⊎◌, inl, inr, not, ◌&&◌, arith, ◌==◌, Bool-cases}
use biglab.Memory.{Mem, strncmp}

-- The first `n` bytes at `p` and at `q` agree, up to and with the end of the string.
unfoldable pub SamePrefix : Mem → ℕ → ℕ → ℕ → Type 0
SamePrefix mem p q zero = Unit
SamePrefix mem p q (suc n) = (mem p ≡ mem q) × ((mem p ≡ 0) ⊎ SamePrefix mem (p + 1) (q + 1) n)

-- The two bytes whose difference `strncmp` returns are equal exactly if the strings agree in
-- their first `n` bytes, or up to their common end if that comes first.
pub strncmp-SamePrefix :
    (mem : Mem) (n p q : ℕ)
    → (SamePrefix mem p q n → (strncmp mem p q n).0 ≡ (strncmp mem p q n).1)
      × ((strncmp mem p q n).0 ≡ (strncmp mem p q n).1 → SamePrefix mem p q n)
unfolding strncmp SamePrefix
strncmp-SamePrefix mem zero p q = (λ h. refl, λ h. tt)
strncmp-SamePrefix mem (suc n) p q =
    let (to, from) = strncmp-SamePrefix mem n (p + 1) (q + 1) in
    elim (Bool-cases (not (mem p == 0) && (mem p == mem q))) [
      | inl e ↦ rw e (λ (same, h). ground arith, λ h. (ground arith, inr (from h)))
      | inr e ↦ (λ (same, h). ground arith, λ h. ground arith)
    ]
