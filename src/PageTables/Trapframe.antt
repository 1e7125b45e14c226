-- ===== src/PageTables/Trapframe.antt =====
-- `uvm_destroy_pgtbl` and the page of the trapframe.
use biglab.Base.{ℕ, suc, ◌≤◌, ◌<◌, ◌≡◌, true, false, some, arith, le→ltb}
use biglab.Base.Word.{pgsize, pg_round_up, trapframe_va, uheap_start}
use biglab.Base.Outcome.{ok, panic}
use biglab.Memory.{load64}
use biglab.Machine.{Proc, Region, Machine}
use biglab.Pmem.Free.{accepts, pmem_free-refused}
use biglab.Kvm.{is_v, pte_to_pa, vm_unmappages, unmap_page}
use biglab.Kvm.Walk.{lookup, vm_getpte-lookup}
use biglab.PageTables.{destroy_regions, uvm_destroy_pgtbl}

-- The page is mapped to a physical page below the user region.
pub record MapsForeign (m : Machine) (pgtbl va : ℕ) : Type 0 where
  pub addr : ℕ
  pub found : lookup m.mem pgtbl va ≡ some addr
  pub valid : is_v (load64 m.mem addr) ≡ true
  pub foreign : pte_to_pa (load64 m.mem addr) < m.user.begin

accepts_below : (r : Region) (x : ℕ) → x < r.begin → accepts r x ≡ false
accepts_below r x h = ground arith

unmap_page-foreign :
    (m : Machine) (pgtbl va : ℕ) → MapsForeign m pgtbl va → unmap_page pgtbl va true m ≡ panic
unfolding unmap_page
unmap_page-foreign m pgtbl va f = rw (
  vm_getpte-lookup m pgtbl va,
  f.found,
  f.valid,
  pmem_free-refused false m (pte_to_pa (load64 m.mem f.addr)) (accepts_below m.user _ f.foreign),
)

-- The unmapping of the page of the trapframe.
unmap_trapframe :
    (m : Machine) (pgtbl : ℕ)
    → MapsForeign m pgtbl trapframe_va
    → vm_unmappages pgtbl trapframe_va pgsize true m ≡ panic
unfolding vm_unmappages
unmap_trapframe m pgtbl f = rw (unmap_page-foreign m pgtbl trapframe_va f)

destroy_regions-nil :
    (k pgtbl cur : ℕ) (m : Machine) → cur ≡ 0 → destroy_regions (suc k) pgtbl cur m ≡ ok (tt, m)
unfolding destroy_regions
destroy_regions-nil k pgtbl cur m e = ground arith

-- For a process with no mmap region, no heap and at most one page of stack, whose page of the
-- trap frame is mapped to a physical page below the user region, as that of the first process
-- is: `uvm_destroy_pgtbl` panics, since it gives that page back as one of the user region.
pub uvm_destroy_pgtbl-panics :
    (p : Proc) (m : Machine)
    → p.mmap ≡ 0
    → pg_round_up p.heap_top ≤ uheap_start
    → p.ustack_npage ≤ 1
    → MapsForeign m p.pgtbl trapframe_va
    → uvm_destroy_pgtbl p m ≡ panic
unfolding uvm_destroy_pgtbl
uvm_destroy_pgtbl-panics p m none_left small one f = simp (
  destroy_regions-nil 299 p.pgtbl p.mmap m none_left,
  le→ltb uheap_start (pg_round_up p.heap_top) small,
  le→ltb 1 p.ustack_npage one,
  unmap_trapframe m p.pgtbl f,
)
