-- ===== src/Trap/User.antt =====
-- What the trap handler does for each cause.
use biglab.Base.{ℕ, ◌+◌, ◌≤◌, ◌<◌, ◌≡◌, ◌≢◌, ◌⊎◌, inl, inr, ne→==}
use biglab.Base.Word.{mmap_end}
use biglab.Base.Outcome.{panic}
use biglab.Memory.{store64}
use biglab.Machine.{Machine}
use biglab.Stack.{ustack_top}
use biglab.Stack.Bounds.{uvm_ustack_grow-refused}
use biglab.Syscall.{Buffers}
use biglab.Trap.{Symbols, epc_offset, trap_user_handler}

-- A cause that is neither a system call nor a page fault on a load or a store ends in a panic.
pub trap_user_handler-unknown :
    (s : Symbols) (bufs : Buffers) (scause sepc stval : ℕ) (m : Machine)
    → scause ≢ 8
    → scause ≢ 13
    → scause ≢ 15
    → trap_user_handler s bufs scause sepc stval m ≡ panic
unfolding trap_user_handler
trap_user_handler-unknown s bufs scause sepc stval m a b c =
    rw (ne→== scause 8 a, ne→== scause 13 b, ne→== scause 15 c)

-- The machine when the cause is looked at.
abbrev entered : Symbols → ℕ → Machine → Machine
entered s sepc m = record m {
  mem = store64 m.mem (m.proc.tf + epc_offset) sepc;
  stvec = s.kernel_vector;
}

-- A page fault on a load or a store at or above the lowest stack address, or below MMAP_END,
-- ends in a panic.
pub trap_user_handler-stray :
    (s : Symbols) (bufs : Buffers) (scause sepc stval : ℕ) (m : Machine)
    → (scause ≡ 13) ⊎ (scause ≡ 15)
    → (ustack_top m.proc.ustack_npage ≤ stval) ⊎ (stval < mmap_end)
    → trap_user_handler s bufs scause sepc stval m ≡ panic
unfolding trap_user_handler
trap_user_handler-stray s bufs scause sepc stval m (inl c) out =
    rw c (rw (uvm_ustack_grow-refused (entered s sepc m) stval out))
trap_user_handler-stray s bufs scause sepc stval m (inr c) out =
    rw c (rw (uvm_ustack_grow-refused (entered s sepc m) stval out))
