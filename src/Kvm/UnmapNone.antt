-- ===== src/Kvm/UnmapNone.antt =====
-- `vm_unmappages` over a range of pages that are not mapped.
use biglab.Base.{
  ℕ, zero, suc, ◌+◌, ◌*◌, ◌/◌, ◌%◌, ◌≤◌, ◌<◌, ◌≡◌, ◌⊎◌, Bool, true, false, none, some, arith, ltb,
  lt→ltb, le→ltb, le→leb, eq→==,
}
use biglab.Base.Word.{va_max, pgsize, add64}
use biglab.Base.Outcome.{ok}
use biglab.Memory.{load64}
use biglab.Machine.{Machine}
use biglab.Kvm.{is_v, unmap_loop, vm_unmappages, whole_pages}
use biglab.Kvm.Walk.{lookup}
use biglab.Kvm.Unmap.{unmap_page-skips}

-- The address has no entry, or one that is not valid.
abbrev pub NotMapped : Machine → ℕ → ℕ → Type 0
NotMapped m root va =
    (lookup m.mem root va ≡ none)
    ⊎ ((a : ℕ) × (lookup m.mem root va ≡ some a) × (is_v (load64 m.mem a) ≡ false))

unmap_loop-skips :
    (k n root va : ℕ) (freeit : Bool) (m : Machine)
    → n < k
    → va + n * 4096 ≤ va_max
    → ((w : ℕ) → va ≤ w → w < va + n * 4096 → NotMapped m root w)
    → unmap_loop k root (va + n * 4096) va freeit m ≡ ok (tt, m)
unfolding unmap_loop
unmap_loop-skips zero n root va freeit m fuel fits none_mapped = absurd (omega arith)
unmap_loop-skips (suc k) zero root va freeit m fuel fits none_mapped =
    rw (le→ltb va (va + 0 * 4096) (omega arith))
unmap_loop-skips (suc k) (suc n) root va freeit m fuel fits none_mapped =
    let test : ltb va (va + suc n * 4096) ≡ true = lt→ltb va (va + suc n * 4096) (omega arith) in
    let to_va : add64 va pgsize ≡ va + 4096 = omega arith in
    let to_end : va + suc n * 4096 ≡ va + 4096 + n * 4096 = omega arith in
    rw
      (
        test,
        unmap_page-skips m root va freeit (none_mapped va (omega arith) (omega arith)),
        to_va,
        to_end,
      )
      (unmap_loop-skips k n root (va + 4096) freeit m (omega arith) (omega arith)
        (λ w lo hi. none_mapped w (omega arith) (omega arith)))

-- An aligned range of whole pages below VA_MAX none of whose addresses is mapped is passed over.
pub vm_unmappages-skips :
    (m : Machine) (root va len : ℕ) (freeit : Bool)
    → va % 4096 ≡ 0
    → len % 4096 ≡ 0
    → 0 < len
    → va + len ≤ va_max
    → ((w : ℕ) → va ≤ w → w < va + len → NotMapped m root w)
    → vm_unmappages root va len freeit m ≡ ok (tt, m)
unfolding vm_unmappages
vm_unmappages-skips m root va len freeit al al' pos fits none_mapped =
    let last : add64 va (whole_pages len) ≡ va + len / 4096 * 4096 = omega arith in
    rw
      (eq→== (va % pgsize) 0 al, lt→ltb 0 len pos, le→leb (add64 va len) va_max (omega arith), last)
      (unmap_loop-skips (len / 4096 + 2) (len / 4096) root va freeit m (omega arith) (omega arith)
        (λ w lo hi. none_mapped w lo (omega arith)))
