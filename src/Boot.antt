-- ===== src/Boot.antt =====
-- The kernel's start: `pmem_init` (mem/pmem.c), `kvm_init` (mem/kvm.c), and `proc_pgtbl_init` and
-- `proc_make_first` (proc/proc.c).
pub mod Regions
pub mod Harts
pub mod UserEntries
pub mod UserTable
pub mod Prepared
pub mod StackTable
pub mod Stacked
pub mod Frame
pub mod AddressSpace
pub mod Program
pub mod Make
pub mod FirstProcess
pub mod Departure
use biglab.Base.{
  ℕ, zero, suc, ◌+◌, ◌-◌, ◌*◌, ◌/◌, ◌%◌, ◌^◌, Bool, true, false, List, [], ◌∷◌, ◌==◌, ltb, leb,
  if◌then◌else◌,
}
use biglab.Base.Word.{
  add64, sub64, pgsize, trampoline_va, trapframe_va, kstack, user_base, uheap_start,
}
use biglab.Base.Outcome.{Outcome, ok, and_then}
use biglab.Memory.{memset, memmove}
use biglab.Machine.{Region, Machine, Proc, Cmd, pure, fail, ◌>>=◌, ◌>>◌, assert, get, write64}
use biglab.Pmem.{region_setup, pmem_alloc, put_region}
use biglab.Kvm.{vm_mappages, kvm_map_trampoline}
use biglab.Trap.{Symbols, Return, epc_offset, trap_user_return}

-- The addresses that the linker script fixes.
pub record Layout : Type 0 where
  pub kernel_data : ℕ
  pub alloc_begin : ℕ
  pub alloc_end : ℕ

abbrev pub kernel_base : ℕ
kernel_base = 0x80000000

-- KERN_PAGES * PGSIZE
abbrev pub kern_bytes : ℕ
kern_bytes = 1024 * 4096

abbrev setup_fuel : ℕ → ℕ → ℕ
setup_fuel begin end = (end - begin) / 4096 + 1

abbrev set_up : Bool → ℕ → ℕ → Cmd (Unit {0})
set_up k begin end m =
    and_then (region_setup (setup_fuel begin end) m.mem begin end)
      λ (mem', r). ok (tt, put_region k r (record m { mem = mem' }))

-- The flag `initialized` is false: the function is called once.
unfoldable pub pmem_init : Layout → Cmd (Unit {0})
pmem_init l = do
  assert (l.alloc_begin % pgsize == 0)
  assert (l.alloc_end % pgsize == 0)
  assert (ltb l.alloc_begin l.alloc_end)
  let kern_end = add64 l.alloc_begin kern_bytes
  assert (leb kern_end l.alloc_end)
  set_up true l.alloc_begin kern_end
  set_up false kern_end l.alloc_end

-- PTE_R | PTE_W and PTE_R | PTE_X
abbrev pub kernel_data_flags : ℕ
kernel_data_flags = 6

abbrev pub kernel_code_flags : ℕ
kernel_code_flags = 10

-- The result is the new `kernel_pgtbl`.
unfoldable pub kvm_init : Layout → (trampoline : ℕ) → Cmd ℕ
kvm_init l trampoline = do
  pgtbl ← pmem_alloc true
  vm_mappages pgtbl 0x10000000 0x10000000 pgsize kernel_data_flags
  vm_mappages pgtbl 0x2000000 0x2000000 0x10000 kernel_data_flags
  vm_mappages pgtbl 0x0c000000 0x0c000000 0x400000 kernel_data_flags
  vm_mappages pgtbl kernel_base kernel_base (sub64 l.kernel_data kernel_base) kernel_code_flags
  vm_mappages pgtbl l.kernel_data l.kernel_data (sub64 l.alloc_begin l.kernel_data)
      kernel_data_flags
  vm_mappages pgtbl l.alloc_begin l.alloc_begin (sub64 l.alloc_end l.alloc_begin) kernel_data_flags
  vm_mappages pgtbl trampoline_va trampoline pgsize kernel_code_flags
  kstack0_pa ← pmem_alloc false
  if kstack0_pa == 0 then fail else pure tt
  vm_mappages pgtbl (kstack 0) kstack0_pa (2 * 4096) kernel_data_flags
  pure pgtbl

abbrev clear_page : ℕ → Cmd (Unit {0})
clear_page a m = ok (tt, record m { mem = memset m.mem a 0 pgsize })

unfoldable pub proc_pgtbl_init : (trampoline : ℕ) → (trapframe : ℕ) → Cmd ℕ
proc_pgtbl_init trampoline trapframe = do
  upgtbl ← pmem_alloc true
  if upgtbl == 0 then fail else pure tt
  clear_page upgtbl
  vm_mappages upgtbl trampoline_va trampoline pgsize kernel_code_flags
  vm_mappages upgtbl trapframe_va trapframe pgsize kernel_data_flags
  pure upgtbl

abbrev set_proc : Proc → Cmd (Unit {0})
set_proc p m = ok (tt, record m { proc = p })

abbrev copy_code : ℕ → ℕ → ℕ → Cmd (Unit {0})
copy_code dst src n m = ok (tt, record m { mem = memmove m.mem dst src n })

-- What `proc_make_first` takes from elsewhere: the registers, the handler's address, and the
-- array `initcode`, which the build generates.
pub record Start : Type 0 where
  pub satp : ℕ
  pub hartid : ℕ
  pub handler : ℕ
  pub initcode : ℕ
  pub initcode_len : ℕ

unfoldable pub proc_make_first : Symbols → Start → Cmd Return
proc_make_first s st = do
  tf ← pmem_alloc true
  if tf == 0 then fail else pure tt
  clear_page tf
  pgtbl ← proc_pgtbl_init s.trampoline tf
  ustack_pa ← pmem_alloc false
  if ustack_pa == 0 then fail else pure tt
  vm_mappages pgtbl (trapframe_va - 4096) ustack_pa pgsize 22
  ucode_pa ← pmem_alloc false
  if ucode_pa == 0 then fail else pure tt
  clear_page ucode_pa
  copy_code ucode_pa st.initcode (if ltb st.initcode_len 4096 then st.initcode_len else 4096)
  vm_mappages pgtbl user_base ucode_pa pgsize 26
  set_proc
      (record { pgtbl = pgtbl; heap_top = user_base + 4096; ustack_npage = 1; mmap = 0; tf = tf })
  write64 tf st.satp
  write64 (tf + 8) (kstack 0 + 4096)
  write64 (tf + 16) st.handler
  write64 (tf + epc_offset) (user_base + 0x2c)
  write64 (tf + 32) st.hartid
  write64 (tf + 48) trapframe_va
  trap_user_return s
