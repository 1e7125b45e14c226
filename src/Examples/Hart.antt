-- ===== src/Examples/Hart.antt =====
-- One hart: its interrupt switches, the output, and a system call of a user program.
use biglab.Base.{ℕ, ◌≡◌, refl, false, List, [], ◌∷◌, some, update}
use biglab.Base.Outcome.{ok, spin, and_then}
use biglab.Lock
use biglab.Lock.{Cpu, Spinlock, spinlock_init}
use biglab.Print.{Arg, num, printf_loop}
use biglab.Print.Output.{
  Printer, unlocked, printf, printed, report_panic, panic_line, with_lock, printf-prints,
  report_panic-silences,
}
use biglab.Machine.{Machine}
use biglab.Arch.{Registers}
use biglab.Arch.Switch.{Place, push_off, pop_off, view, Keeps, switches-refine}
use biglab.Trap.Trampoline.{UserHart}
use biglab.User.{Regs}
use biglab.User.Round.{arrived}
use biglab.Base.Word.{trapframe_va}
use biglab.Trap.{make_satp}
use biglab.Examples.Start.{frame_mem}
use biglab.Examples.{hart, machine, process}
use biglab.Examples.Calls.{symbols, buffers}

abbrev printer : Printer
printer = record {
  console = record { cpu = hart; panicked = false; sent = [] };
  print_lk = spinlock_init;
}

-- `a%d`
abbrev format : List ℕ
format = 97 ∷ 37 ∷ 100 ∷ []

format_bytes : printf_loop format (num 7 ∷ []) ≡ some (97 ∷ 55 ∷ [])
unfolding printf_loop
format_bytes = refl

printf-prints_example :
    printf (some format) (num 7 ∷ []) printer ≡ some (ok (printed (97 ∷ 55 ∷ []) printer))
printf-prints_example =
    printf-prints format (num 7 ∷ []) (97 ∷ 55 ∷ []) printer format_bytes refl (unlocked refl)

report_panic-silences_example :
    (p' : Printer) × (report_panic (120 ∷ []) printer ≡ some (ok p'))
    × (p'.console.sent ≡ panic_line (120 ∷ []))
    × ((c : Cpu) (l : Spinlock) (fmt : List ℕ) (args : List Arg) (b : ℕ) (bs : List ℕ)
        → printf_loop fmt args ≡ some (b ∷ bs)
        → printf (some fmt) args (with_lock c l p') ≡ some spin)
report_panic-silences_example = report_panic-silences (120 ∷ []) printer refl (unlocked refl)

abbrev registers : Registers
registers = record {
  mhartid = 1;
  mstatus = 0;
  mepc = 0;
  sstatus = 2;
  sip = 0;
  sie = 0;
  mie = 0;
  sepc = 0;
  medeleg = 0;
  mideleg = 0;
  stvec = 0;
  mtvec = 0;
  satp = 0;
  sscratch = 0;
  mscratch = 0;
  scause = 0;
  stval = 0;
  mcounteren = 0;
  time = 0;
  sp = 0;
  tp = 1;
  ra = 0;
}

abbrev place : Place
place = record { regs = registers; cpus = λ _. record { noff = 0; origin = false; proc = process } }

switches-refine_example :
    (view (push_off place) ≡ Lock.push_off (view place))
    × (and_then (pop_off place) (λ t. ok (view t)) ≡ Lock.pop_off (view place))
    × Keeps place (push_off place)
    × ((t : Place) → pop_off place ≡ ok t → Keeps place t)
switches-refine_example = switches-refine place

-- `syscall(SYS_brk, 0)`, with every other register 0.
abbrev asking : Regs
asking = update (update (λ _. 0) 17 4) 10 0

abbrev caller : UserHart
caller = record { x = asking; pc = 4096; sepc = 0; sscratch = trapframe_va; satp = make_satp 4096 }

-- The process's page table maps TRAPFRAME to its trap frame.
abbrev running : Machine
running = record machine {
  mem = frame_mem;
  proc = record process { pgtbl = 4096; tf = 0x81000000 };
}

abbrev begun : Machine
begun = arrived symbols buffers caller running

abbrev top : ℕ
top = begun.proc.heap_top
