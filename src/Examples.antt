-- ===== src/Examples.antt =====
-- Concrete harts, memories and machines on which the theorems are applied.
pub mod Locks
pub mod Pages
pub mod Tables
pub mod Growth
pub mod Regions
pub mod Unmapping
pub mod Fresh
pub mod Start
pub mod Text
pub mod Calls
pub mod Output
pub mod First
pub mod Hart
pub mod Brk
pub mod Mapping
use biglab.Base.{ℕ, ◌+◌, ◌*◌, ◌<◌, true, false, none, arith, zero, suc, ◌^◌}
use biglab.Lock.{Cpu, Spinlock, spinlock_init}
use biglab.Memory.{Mem}
use biglab.Machine.{Region, Node, Pool, Proc, Machine}

abbrev pub hart : Cpu
hart = record { hartid = 0; intr = true; noff = 0; origin = false }

abbrev pub blank : Mem
blank = λ _. 0

abbrev pub no_node : Node
no_node = record { begin = 0; npages = 0; next = 0; link = 0 }

-- A region with the one free page at its begin.
abbrev pub one_page : ℕ → Region
one_page a = record { begin = a; end = a + 2 * 4096; lk = spinlock_init; allocable = 1; head = a }

abbrev pub empty_pool : Pool
empty_pool = record { node = λ _. no_node; head = 0; lk = spinlock_init }

abbrev pub process : Proc
process = record { pgtbl = 4096; heap_top = 8192; ustack_npage = 1; mmap = 0; tf = 65536 }

abbrev pub machine : Machine
machine = record {
  cpu = hart;
  mem = blank;
  kern = one_page 0x81000000;
  user = one_page 0x82000000;
  pool = empty_pool;
  proc = process;
  stvec = 0;
}

-- What holds for 0 holds below 1.
pub below_one : (P : ℕ → Type 0) → P 0 → (i : ℕ) → i < 1 → P i
below_one P h zero lt = h
below_one P h (suc i) lt = absurd (omega arith)
