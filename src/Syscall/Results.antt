-- ===== src/Syscall/Results.antt =====
-- The dispatch of `syscall`, and the calls whose result does not depend on memory.
use biglab.Base.{ℕ, ◌+◌, ◌*◌, ◌<◌, ◌≡◌, ◌⊎◌, inl, inr, arith}
use biglab.Base.Word.{u32, minus_one, va_max, minus_one}
use biglab.Base.Outcome.{ok, panic}
use biglab.Memory.{load64}
use biglab.Machine.{Machine}
use biglab.Copy.Partial.{uvm_copyout-partial}
use biglab.Syscall.{
  Buffers, a0_offset, a7_offset, copy_fuel, syscalls, syscall, sys_brk, sys_copyout,
}

unfoldable pub reg : Machine → ℕ → ℕ
reg m offset = load64 m.mem (m.proc.tf + offset)

-- A number in the low half of a7 that is 0 or above 6 makes the kernel panic.
pub syscall-unknown :
    (bufs : Buffers) (m : Machine)
    → (u32 (reg m a7_offset) ≡ 0) ⊎ (6 < u32 (reg m a7_offset))
    → syscall bufs m ≡ panic
unfolding syscall syscalls reg
syscall-unknown bufs m (inl h) = rw h
syscall-unknown bufs m (inr h) = ground arith

-- The fuel of the copies reaches the first page behind VA_MAX from any address below it.
copy_fuel-enough : (a : ℕ) → va_max + 4096 < a + copy_fuel * 4096
copy_fuel-enough a = omega arith

-- sys_copyout returns -1 for every user address up to the page behind VA_MAX, whatever is
-- mapped.
pub sys_copyout-fails :
    (bufs : Buffers) (m : Machine)
    → reg m a0_offset < va_max + 4096
    → (m' : Machine) × (sys_copyout bufs m ≡ ok (minus_one, m'))
unfolding sys_copyout reg
sys_copyout-fails bufs m low =
    uvm_copyout-partial copy_fuel m.proc.pgtbl (reg m a0_offset) bufs.test_l 20 m (omega arith)
      (omega arith) low (copy_fuel-enough (reg m a0_offset))

-- sys_brk(0) returns the top of the heap, as does sys_brk of the top itself; neither changes
-- anything.
pub sys_brk-same :
    (bufs : Buffers) (m : Machine)
    → (reg m a0_offset ≡ 0) ⊎ (reg m a0_offset ≡ m.proc.heap_top)
    → sys_brk bufs m ≡ ok (m.proc.heap_top, m)
unfolding sys_brk reg
sys_brk-same bufs m (inl h) = rw h
sys_brk-same bufs m (inr h) = ground arith
