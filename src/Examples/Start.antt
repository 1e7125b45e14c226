-- ===== src/Examples/Start.antt =====
-- The start of two harts, and the end of a process whose trap frame is a page of the kernel.
use biglab.Base.{ℕ, ◌≤◌, ◌≡◌, refl, true, false, arith}
use biglab.Base.Word.{trapframe_va}
use biglab.Base.Outcome.{panic}
use biglab.Memory.{Mem, load64, store64}
use biglab.Machine.{Proc}
use biglab.Kvm.{make_pte}
use biglab.Kvm.Walk.{entry_at, Path3, lookup-Path3}
use biglab.Boot.Harts.{
  Boot, waiting, released, Run, here as at_once, next, call, raise, leave, power_on, goto,
  set_up_before_use,
}
use biglab.Devices.{Mmio, Hart, Entries, start}
use biglab.Devices.Apart.{Entered, start-Entered}
use biglab.PageTables.{uvm_destroy_pgtbl}
use biglab.PageTables.Trapframe.{MapsForeign, uvm_destroy_pgtbl-panics}
use biglab.Examples.{machine, blank}

-- Hart 0 makes its calls and raises the flag, and hart 1 leaves the loop.
abbrev at_stage : ℕ → Boot
at_stage n = record { stage = n; halted = false; started = false; other = λ _. waiting }

calls_four : Run power_on (at_stage 4)
calls_four =
    next
      (next (next (next at_once (call refl (omega arith))) (call refl (omega arith)))
        (call refl (omega arith)))
      (call refl (omega arith))

calls : Run power_on (at_stage 8)
calls =
    next
      (next (next (next calls_four (call refl (omega arith))) (call refl (omega arith)))
        (call refl (omega arith)))
      (call refl (omega arith))

abbrev flagged : Boot
flagged = record { stage = 9; halted = false; started = true; other = λ _. waiting }

abbrev one_free : Boot
one_free = record flagged { other = goto flagged 1 released }

hart_one_left : Run power_on one_free
hart_one_left = next (next calls (raise refl refl)) (leave 1 refl refl)

set_up_before_use_example : 9 ≤ 9
set_up_before_use_example = set_up_before_use hart_one_left 1 (λ e. cc)

-- The registers of hart 1 at its start.
abbrev cold : Hart
cold = record {
  mhartid = 1;
  tp = 0;
  satp = 0;
  medeleg = 0;
  mideleg = 0;
  mcounteren = 0;
  mstatus = 0x1800;
  mie = 0;
  mepc = 0;
  mtvec = 0;
  mscratch = 0;
  scratch = λ _. 0;
  stvec = 0;
  sie = 0;
  intr = false;
}

abbrev entries : Entries
entries = record { timer_vector = 0x80000100; mscratch_base = 0x80002000; main = 0x80000200 }

abbrev device : Mmio
device = λ _. 0

start-Entered_example :
    Entered entries cold device (start entries cold device).0 (start entries cold device).1
start-Entered_example = start-Entered entries cold device (omega arith)

-- A process whose trap frame is a page of the kernel.
abbrev pub frame_mem : Mem
frame_mem =
    store64
      (store64 (store64 blank (entry_at 4096 trapframe_va 2) (make_pte 8192 0))
        (entry_at 8192 trapframe_va 1) (make_pte 12288 0))
      (entry_at 12288 trapframe_va 0) (make_pte 0x81000000 6)

abbrev first_proc : Proc
first_proc = record machine.proc { heap_top = 8192 }

pub frame_path : Path3 frame_mem 4096 trapframe_va 8192 12288
unfolding load64 store64 make_pte
frame_path = record {
  below = omega arith;
  first = record { valid = refl; inner = refl; target = refl };
  second = record { valid = refl; inner = refl; target = refl };
}

pub frame_entry : load64 frame_mem (entry_at 12288 trapframe_va 0) ≡ 0x20400007
unfolding load64 store64 make_pte
frame_entry = refl

frame_foreign : MapsForeign (record machine { mem = frame_mem }) 4096 trapframe_va
frame_foreign = record {
  addr = entry_at 12288 trapframe_va 0;
  found = lookup-Path3 frame_mem 4096 trapframe_va 8192 12288 frame_path;
  valid = rw frame_entry;
  foreign = rw frame_entry (omega arith);
}

uvm_destroy_pgtbl-panics_example :
    uvm_destroy_pgtbl first_proc (record machine { mem = frame_mem }) ≡ panic
uvm_destroy_pgtbl-panics_example =
    uvm_destroy_pgtbl-panics first_proc (record machine { mem = frame_mem }) refl (omega arith)
      (omega arith) frame_foreign
