-- ===== src/Syscall.antt =====
-- syscall/syscall.c and syscall/sysfunc.c, less their console output.
pub mod Results
use biglab.Base.{
  ℕ, zero, suc, ◌+◌, ◌*◌, ◌/◌, ◌%◌, ◌^◌, Bool, true, false, Option, none, some, ◌||◌, ◌==◌, ltb,
  leb, if◌then◌else◌, on_some,
}
use biglab.Base.Word.{u32, mul64, minus_one}
use biglab.Machine.{Proc, Machine, Cmd, pure, fail, ◌>>=◌, ◌>>◌, get, read64, write64}
use biglab.Kvm.{pte_r, pte_w}
use biglab.Copy.{uvm_copyin, uvm_copyout, uvm_copyin_str}
use biglab.Heap.{uvm_heap_grow, uvm_heap_ungrow}
use biglab.Munmap.{uvm_munmap}
use biglab.Mmap.{uvm_mmap}

-- Offsets of `a0` and `a7` in `trapframe_t` (proc/type.h); a0 to a5 follow one another.
abbrev pub a0_offset : ℕ
a0_offset = 112

abbrev pub a7_offset : ℕ
a7_offset = 168

abbrev pub read_tf : ℕ → Cmd ℕ
read_tf offset m = read64 (m.proc.tf + offset) m

abbrev pub write_tf : ℕ → ℕ → Cmd (Unit {0})
write_tf offset v m = write64 (m.proc.tf + offset) v m

-- `arg_raw`: argument `n` lies in register `an`.
unfoldable pub arg_raw : ℕ → Cmd ℕ
arg_raw n = if ltb n 6 then read_tf (a0_offset + 8 * n) else fail

unfoldable pub arg_uint32 : ℕ → Cmd ℕ
unfolding arg_raw
arg_uint32 n = do v ← arg_raw n; pure (u32 v)

unfoldable pub arg_uint64 : ℕ → Cmd ℕ
unfolding arg_raw
arg_uint64 n = arg_raw n

-- `arg_str` copies to the kernel address `buf`; it drops the result of the copy.
unfoldable pub arg_str : ℕ → ℕ → ℕ → Cmd (Unit {0})
unfolding arg_uint64
arg_str n buf maxlen = do
  addr ← arg_uint64 n
  m ← get
  uvm_copyin_str m.proc.pgtbl buf addr maxlen
  pure tt

-- A copy walks at most the 2 ^ 26 pages below VA_MAX, and ends on the first one behind.
abbrev pub copy_fuel : ℕ
copy_fuel = 2 ^ 26 + 2

-- Where the arrays of the calls lie: `test_L`, and `kernel_L` and `kernel_s` on the kernel stack.
pub record Buffers : Type 0 where
  pub test_l : ℕ
  pub kernel_l : ℕ
  pub kernel_s : ℕ

module _ (bufs : Buffers) where
  -- `sizeof(test_L)` is 20.
  unfoldable pub sys_copyout : Cmd ℕ
  sys_copyout = do
    user_l_va ← read_tf a0_offset
    m ← get
    uvm_copyout copy_fuel m.proc.pgtbl user_l_va bufs.test_l 20

  unfoldable pub sys_copyin : Cmd ℕ
  sys_copyin = do
    user_l_va ← read_tf a0_offset
    len ← read_tf (a0_offset + 8)
    m ← get
    r ← uvm_copyin copy_fuel m.proc.pgtbl bufs.kernel_l user_l_va (mul64 len 4)
    if r == minus_one then pure minus_one else pure 0

  unfoldable pub sys_copyinstr : Cmd ℕ
  sys_copyinstr = do
    user_s_va ← read_tf a0_offset
    m ← get
    r ← uvm_copyin_str m.proc.pgtbl bufs.kernel_s user_s_va 128
    if r == minus_one then pure minus_one else pure 0

  unfoldable pub sys_brk : Cmd ℕ
  sys_brk = do
    new_top ← read_tf a0_offset
    m ← get
    let old_top = m.proc.heap_top
    if new_top == 0
        then pure old_top
        else if ltb old_top new_top
        then (do
          r ← uvm_heap_grow new_top
          m ← get
          pure (if r == minus_one then minus_one else m.proc.heap_top))
        else (do
          if ltb new_top old_top then uvm_heap_ungrow new_top else pure 0
          m ← get
          pure m.proc.heap_top)

  -- PTE_R | PTE_W
  unfoldable pub sys_mmap : Cmd ℕ
  sys_mmap = do begin ← read_tf a0_offset; len ← read_tf (a0_offset + 8); uvm_mmap begin len 6

  unfoldable pub sys_munmap : Cmd ℕ
  sys_munmap = do begin ← read_tf a0_offset; len ← read_tf (a0_offset + 8); uvm_munmap begin len

  -- The table `syscalls`, with `none` for a NULL entry; SYS_MAX_NUM is 6.
  unfoldable pub syscalls : ℕ → Option (Cmd ℕ)
  syscalls n =
      if n == 1
      then some sys_copyin
      else if n == 2
      then some sys_copyout
      else if n == 3
      then some sys_copyinstr
      else if n == 4
      then some sys_brk
      else if n == 5
      then some sys_mmap
      else if n == 6
      then some sys_munmap
      else none

  -- `sys_num` is an int: the low half of a7, negative from 2 ^ 31 on.
  unfoldable pub syscall : Cmd (Unit {0})
  unfolding syscalls
  syscall = do
    a7 ← read_tf a7_offset
    let sys_num = u32 a7
    if leb (2 ^ 31) sys_num || ltb 6 sys_num
        then fail
        else on_some (syscalls sys_num) fail λ call. do r ← call; write_tf a0_offset r
