-- ===== src/Kvm/OnePage.antt =====
-- `vm_mappages` for one page.
use biglab.Base.{
  ℕ, ◌+◌, ◌%◌, ◌≤◌, ◌≡◌, true, false, some, arith, ltb, lt→ltb, le→ltb, le→leb, eq→==,
}
use biglab.Base.Word.{va_max, pgsize, add64}
use biglab.Base.Outcome.{ok}
use biglab.Memory.{store64}
use biglab.Machine.{Machine}
use biglab.Kvm.{make_pte, vm_getpte, map_page, map_loop, vm_mappages, whole_pages}

-- An aligned page below VA_MAX, for which `vm_getpte` returns the entry `a`, is mapped by one write
-- to that entry.
pub vm_mappages-one :
    (m m' : Machine) (root va pa perm a : ℕ)
    → va % 4096 ≡ 0
    → pa % 4096 ≡ 0
    → va + 4096 ≤ va_max
    → vm_getpte root va true m ≡ ok (some a, m')
    → vm_mappages root va pa pgsize perm m
      ≡ ok (tt, record m' { mem = store64 m'.mem a (make_pte pa perm) })
unfolding vm_mappages map_loop map_page
vm_mappages-one m m' root va pa perm a al pal fits found =
    let last : add64 va (whole_pages pgsize) ≡ va + 4096 = omega arith in
    let first : ltb va (va + 4096) ≡ true = lt→ltb va (va + 4096) (omega arith) in
    let ends : ltb (va + 4096) (va + 4096) ≡ false = le→ltb (va + 4096) (va + 4096) (omega arith) in
    rw (
      eq→== (va % pgsize) 0 al,
      eq→== (pa % pgsize) 0 pal,
      le→leb (add64 va pgsize) va_max (omega arith),
      last,
      first,
      found,
      ends,
    )
