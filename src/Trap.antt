-- ===== src/Trap.antt =====
-- trap/trap_user.c, less its console output.
pub mod User
pub mod Trampoline
use biglab.Base.{
  ℕ, zero, suc, ◌+◌, ◌-◌, ◌*◌, ◌/◌, ◌%◌, ◌^◌, Bool, true, false, ◌||◌, ◌==◌, if◌then◌else◌,
}
use biglab.Base.Word.{add64, minus_one, trampoline_va}
use biglab.Machine.{Proc, Machine, Cmd, pure, fail, ◌>>=◌, ◌>>◌, get}
use biglab.Stack.{uvm_ustack_grow}
use biglab.Syscall.{Buffers, read_tf, write_tf, syscall}

-- Addresses of the symbols of trampoline.S and trap.S.
pub record Symbols : Type 0 where
  pub trampoline : ℕ
  pub user_vector : ℕ
  pub user_return : ℕ
  pub kernel_vector : ℕ

-- The jump to `user_return` in the trampoline page, with its two arguments.
pub record Return : Type 0 where
  pub fn : ℕ
  pub tf : ℕ
  pub satp : ℕ

-- Offset of `user_to_kern_epc` in `trapframe_t`.
abbrev pub epc_offset : ℕ
epc_offset = 24

abbrev set_stvec : ℕ → Cmd (Unit {0})
set_stvec v m = pure tt (record m { stvec = v })

-- `MAKE_SATP`; the mode lies above the 44 bits of a page number.
abbrev pub make_satp : ℕ → ℕ
make_satp pagetable = 8 * 2 ^ 60 + pagetable / 4096

-- `kill_proc` of proc/proc.c: process 0 is the only one, so the kernel stops.
abbrev pub kill_proc : {A : Type 0} → Cmd A
kill_proc = fail

unfoldable pub trap_user_return : Symbols → Cmd Return
trap_user_return s = do
  set_stvec (add64 trampoline_va (s.user_vector - s.trampoline))
  m ← get
  pure (record {
    fn = add64 trampoline_va (s.user_return - s.trampoline);
    tf = m.proc.tf;
    satp = make_satp m.proc.pgtbl;
  })

-- `scause`, `sepc` and `stval` are the values of the registers at the trap.
unfoldable pub trap_user_handler : Symbols → Buffers → ℕ → ℕ → ℕ → Cmd Return
unfolding trap_user_return
trap_user_handler s bufs scause sepc stval = do
  write_tf epc_offset sepc
  set_stvec s.kernel_vector
  if scause == 8
      then (do epc ← read_tf epc_offset; write_tf epc_offset (add64 epc 4); syscall bufs)
      else if scause == 13 || scause == 15
      then (do r ← uvm_ustack_grow stval; if r == minus_one then kill_proc else pure tt)
      else kill_proc
  trap_user_return s
