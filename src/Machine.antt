-- ===== src/Machine.antt =====
-- The kernel's state on one hart, and commands that read and change it.
use biglab.Base.{ℕ, Bool, if◌then◌else◌}
use biglab.Base.Outcome.{Outcome, ok, panic, and_then}
use biglab.Lock.{Cpu, Spinlock}
use biglab.Memory.{Mem, load64, store64}

-- `alloc_region_t` (mem/type.h); `head` is `list_head.next`, and the `next` of a free page lies in
-- the first eight bytes of the page.
pub record Region : Type 0 where
  pub begin : ℕ
  pub end : ℕ
  pub lk : Spinlock
  pub allocable : ℕ
  pub head : ℕ

-- `mmap_region_node_t` (mem/type.h): a `mmap_region_t`, and the `next` of the wrapper as `link`.
pub record Node : Type 0 where
  pub begin : ℕ
  pub npages : ℕ
  pub next : ℕ
  pub link : ℕ

-- The statics of mem/mmap.c. A pointer is 0 for NULL, `i + 1` for `&node_list[i]`, and
-- `dummy_head` for the local variable of that name in mem/uvm.c.
pub record Pool : Type 0 where
  pub node : ℕ → Node
  pub head : ℕ
  pub lk : Spinlock

-- The fields of `proc_t` that the memory calls and the traps use. `mmap` is a pointer as in `Pool`,
-- and `tf` the address of the trapframe.
pub record Proc : Type 0 where
  pub pgtbl : ℕ
  pub heap_top : ℕ
  pub ustack_npage : ℕ
  pub mmap : ℕ
  pub tf : ℕ

pub record Machine : Type 0 where
  pub cpu : Cpu
  pub mem : Mem
  pub kern : Region
  pub user : Region
  pub pool : Pool
  pub proc : Proc
  pub stvec : ℕ  -- the register with the trap vector

abbrev pub Cmd : Type 0 → Type 0
Cmd A = Machine → Outcome (A × Machine)

abbrev pub pure : {A : Type 0} → A → Cmd A
pure a m = ok (a, m)

abbrev pub fail : {A : Type 0} → Cmd A
fail m = panic

infixl 5 ◌>>=◌ ◌>>◌
abbrev pub ◌>>=◌ : {A B : Type 0} → Cmd A → (A → Cmd B) → Cmd B
◌>>=◌ c f m = and_then (c m) (λ (a, m'). f a m')

abbrev pub ◌>>◌ : {A B : Type 0} → Cmd A → Cmd B → Cmd B
◌>>◌ c d m = and_then (c m) (λ (a, m'). d m')

-- `assert` of lib/print.c
abbrev pub assert : Bool → Cmd (Unit {0})
assert b m = if b then ok (tt, m) else panic

abbrev pub get : Cmd Machine
get m = ok (m, m)

abbrev pub read64 : ℕ → Cmd ℕ
read64 a m = ok (load64 m.mem a, m)

abbrev pub write64 : ℕ → ℕ → Cmd (Unit {0})
write64 a v m = ok (tt, record m { mem = store64 m.mem a v })
