-- ===== src/Stack.antt =====
-- `uvm_ustack_grow` of mem/uvm.c.
pub mod Bounds
pub mod Grow
use biglab.Base.{
  ℕ, zero, suc, ◌+◌, ◌-◌, ◌*◌, ◌/◌, ◌%◌, ◌^◌, Bool, true, false, ◌||◌, ◌==◌, ltb, leb,
  if◌then◌else◌,
}
use biglab.Base.Word.{add64, sub64, mul64, pgsize, pg_round_down, minus_one, mmap_end, va_max}
use biglab.Base.Outcome.{out_of_fuel}
use biglab.Machine.{Proc, Machine, Cmd, pure, ◌>>=◌, ◌>>◌, get}
use biglab.Pmem.{pmem_alloc}
use biglab.Kvm.{vm_mappages, vm_unmappages}
use biglab.Heap.{user_data}

-- `VA_MAX - (ustack_npage + 2) * PGSIZE`: the lowest address of the stack.
abbrev pub ustack_top : ℕ → ℕ
ustack_top npage = sub64 va_max (mul64 (add64 npage 2) pgsize)

abbrev set_npage : ℕ → Cmd (Unit {0})
set_npage n m = pure tt (record m { proc = record m.proc { ustack_npage = n } })

-- The loop that adds several pages, downwards from `va`; the result is 0 or -1.
unfoldable pub stack_loop : ℕ → ℕ → ℕ → ℕ → Cmd ℕ
stack_loop zero top new_page_va va m = out_of_fuel
stack_loop (suc k) top new_page_va va m =
    let rest = stack_loop k top new_page_va (sub64 va pgsize) in
    let round : Cmd ℕ = do
      pa ← pmem_alloc false
      m ← get
      if pa == 0
          then (do
            vm_unmappages m.proc.pgtbl (add64 va pgsize) (sub64 top (add64 va pgsize)) true
            pure minus_one)
          else (do vm_mappages m.proc.pgtbl va pa pgsize user_data; rest)
    in (if leb new_page_va va then round else pure 0) m

-- The branch that adds one page.
unfoldable pub stack_page : ℕ → Cmd ℕ
stack_page new_page_va = do
  pa ← pmem_alloc false
  m ← get
  if pa == 0
      then pure minus_one
      else (do vm_mappages m.proc.pgtbl new_page_va pa pgsize user_data; pure 0)

unfoldable pub uvm_ustack_grow : ℕ → Cmd ℕ
unfolding stack_loop stack_page
uvm_ustack_grow fault_va = do
  m ← get
  let top = ustack_top m.proc.ustack_npage
  let new_page_va = pg_round_down fault_va
  if leb top fault_va || ltb fault_va mmap_end then pure minus_one else do
    r ←
        (if ltb new_page_va (sub64 top pgsize)
          then stack_loop (sub64 top new_page_va / 4096 + 1) top new_page_va (sub64 top pgsize)
          else stack_page new_page_va)
    if r == minus_one
        then pure r
        else do set_npage (sub64 (va_max - 2 * 4096) new_page_va / 4096); pure 0
