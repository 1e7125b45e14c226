-- ===== src/Heap.antt =====
-- `uvm_heap_grow` and `uvm_heap_ungrow` of mem/uvm.c.
pub mod Bounds
pub mod Growing
use biglab.Base.{
  ℕ, zero, suc, ◌+◌, ◌*◌, ◌/◌, ◌%◌, ◌^◌, Bool, true, false, ◌==◌, ltb, leb, if◌then◌else◌,
}
use biglab.Base.Word.{add64, sub64, pgsize, pg_round_up, minus_one, mmap_begin}
use biglab.Base.Outcome.{out_of_fuel}
use biglab.Machine.{Proc, Machine, Cmd, pure, ◌>>=◌, ◌>>◌, get}
use biglab.Pmem.{pmem_alloc}
use biglab.Kvm.{vm_mappages, vm_unmappages}

-- PTE_U | PTE_R | PTE_W
abbrev pub user_data : ℕ
user_data = 22

abbrev pub set_heap_top : ℕ → Cmd (Unit {0})
set_heap_top top m = pure tt (record m { proc = record m.proc { heap_top = top } })

-- The loop over the new pages; the result is 0, or -1 once the pages have been given back.
unfoldable pub grow_loop : ℕ → ℕ → ℕ → ℕ → Cmd ℕ
grow_loop zero old_top_pg new_top_pg va m = out_of_fuel
grow_loop (suc k) old_top_pg new_top_pg va m =
    let rest = grow_loop k old_top_pg new_top_pg (add64 va pgsize) in
    let round : Cmd ℕ = do
      pa ← pmem_alloc false
      m ← get
      if pa == 0
          then (do vm_unmappages m.proc.pgtbl old_top_pg (sub64 va old_top_pg) true; pure minus_one)
          else (do vm_mappages m.proc.pgtbl va pa pgsize user_data; rest)
    in (if ltb va new_top_pg then round else pure 0) m

unfoldable pub uvm_heap_grow : ℕ → Cmd ℕ
unfolding grow_loop
uvm_heap_grow new_top = do
  m ← get
  let old_top_pg = pg_round_up m.proc.heap_top
  let new_top_pg = pg_round_up new_top
  if leb new_top_pg old_top_pg
      then (do set_heap_top new_top; pure 0)
      else if ltb mmap_begin new_top_pg
      then pure minus_one
      else (do
        r ← grow_loop (sub64 new_top_pg old_top_pg / 4096 + 1) old_top_pg new_top_pg old_top_pg
        if r == minus_one then pure minus_one else (do set_heap_top new_top; pure 0))

unfoldable pub uvm_heap_ungrow : ℕ → Cmd ℕ
uvm_heap_ungrow new_top = do
  m ← get
  let old_top_pg = pg_round_up m.proc.heap_top
  let new_top_pg = pg_round_up new_top
  if ltb new_top_pg old_top_pg
      then vm_unmappages m.proc.pgtbl new_top_pg (sub64 old_top_pg new_top_pg) true
      else pure tt
  set_heap_top new_top
  pure 0
