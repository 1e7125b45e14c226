-- ===== src/Kvm/Entry.antt =====
-- Page table entries: packing and unpacking.
use biglab.Base.{ℕ, ◌+◌, ◌*◌, ◌/◌, ◌%◌, ◌^◌, ◌<◌, ◌≡◌, ap, bit_or, true, arith}
use biglab.Base.Bits.{bit_or_fields, bit_or-one}
use biglab.Kvm.{pa_to_pte, pte_to_pa, make_pte, is_v, pte_check}

pub make_pte_sum :
    (pa perm : ℕ)
    → pa < 2 ^ 56
    → perm < 1024
    → make_pte pa perm ≡ pa / 4096 * 1024 + perm / 2 * 2 + 1
unfolding make_pte
make_pte_sum pa perm h p = omega (
  arith,
  bit_or-one (bit_or (pa_to_pte pa) perm),
  ap (λ e. bit_or e perm) small,
  bit_or_fields (pa / 4096) perm p,
)
  where
    small : pa_to_pte pa ≡ pa / 4096 * 1024
    small = omega arith

-- An entry made for an aligned page below 2 ^ 56 with flags below bit 10 gives back the page and
-- the flags, is valid, and fits a word.
pub make_pte_fields :
    (pa perm : ℕ)
    → pa < 2 ^ 56
    → pa % 4096 ≡ 0
    → perm < 1024
    → (pte_to_pa (make_pte pa perm) ≡ pa)
      × (make_pte pa perm % 1024 ≡ perm / 2 * 2 + 1)
      × (is_v (make_pte pa perm) ≡ true)
      × (make_pte pa perm < 2 ^ 64)
make_pte_fields pa perm h al p =
    let e = make_pte_sum pa perm h p in (omega arith, omega arith, ground arith, omega arith)

-- The entry for a table: no flag but PTE_V, so it points to the next level.
pub table_pte :
    (pa : ℕ)
    → pa < 2 ^ 56
    → pa % 4096 ≡ 0
    → (pte_to_pa (bit_or (pa_to_pte pa) 1) ≡ pa)
      × (is_v (bit_or (pa_to_pte pa) 1) ≡ true)
      × (pte_check (bit_or (pa_to_pte pa) 1) ≡ true)
      × (bit_or (pa_to_pte pa) 1 < 2 ^ 64)
table_pte pa h al =
    let e = bit_or-one (pa_to_pte pa) in (omega arith, ground arith, ground arith, omega arith)
