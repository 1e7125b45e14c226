-- ===== src/Examples/Calls.antt =====
-- System calls and traps.
use biglab.Base.{◌+◌, ◌-◌, ◌^◌, ◌≡◌, refl, arith}
use biglab.Base.Word.{minus_one}
use biglab.Base.Outcome.{ok}
use biglab.Memory.{load64, store64}
use biglab.Machine.{Machine}
use biglab.Heap.{uvm_heap_grow}
use biglab.Heap.Bounds.{uvm_heap_grow-wraps, with_top}
use biglab.Syscall.{Buffers, sys_copyout, a0_offset}
use biglab.Syscall.Results.{sys_copyout-fails, reg}
use biglab.Trap.{Symbols}
use biglab.Examples.{machine, blank}

abbrev pub buffers : Buffers
buffers = record { test_l = 0x80100000; kernel_l = 0x80100100; kernel_s = 0x80100200 }

abbrev pub symbols : Symbols
symbols = record {
  trampoline = 0x80001000;
  user_vector = 0x80001000;
  user_return = 0x80001080;
  kernel_vector = 0x80002000;
}

-- A call with three words to copy.
abbrev copying : Machine
copying = record machine { mem = store64 blank (65536 + 120) 3 }

uvm_heap_grow-wraps_example :
    uvm_heap_grow (2 ^ 64 - 1) machine ≡ ok (0, with_top machine (2 ^ 64 - 1))
uvm_heap_grow-wraps_example = uvm_heap_grow-wraps machine (2 ^ 64 - 1) (omega arith) (omega arith)

user_zero :
    (reg machine a0_offset ≡ 0) × (reg copying a0_offset ≡ 0) × (reg copying (a0_offset + 8) ≡ 3)
unfolding reg load64 store64
user_zero = (refl, refl, refl)

sys_copyout-fails_example : (m' : Machine) × (sys_copyout buffers machine ≡ ok (minus_one, m'))
sys_copyout-fails_example = sys_copyout-fails buffers machine (omega (arith, user_zero.0))
