-- ===== src/Boot/Make.antt =====
-- The calls of `proc_make_first` (proc/proc.c) one after the other.
use biglab.Base.{ℕ, ◌+◌, ◌-◌, ◌≡◌, ◌≢◌, true, false, ne→==, ltb, if◌then◌else◌}
use biglab.Base.Word.{pgsize, trampoline_va, user_base, add64}
use biglab.Base.Outcome.{ok}
use biglab.Memory.{memmove}
use biglab.Machine.{Machine, Proc}
use biglab.Pmem.{pmem_alloc}
use biglab.Kvm.{vm_mappages}
use biglab.Trap.{Symbols, Return, trap_user_return, make_satp}
use biglab.Boot.{Start, proc_pgtbl_init, proc_make_first}
use biglab.Boot.UserEntries.{cleared}
use biglab.Boot.Frame.{filled}
use biglab.Boot.StackTable.{stack_va}

-- What is copied of the program.
abbrev pub code_size : Start → ℕ
code_size st = if ltb st.initcode_len 4096 then st.initcode_len else 4096

module _ (s : Symbols) (st : Start) (tf root : ℕ) where
  abbrev pub made : Proc
  made = record { pgtbl = root; heap_top = user_base + 4096; ustack_npage = 1; mmap = 0; tf = tf }

  abbrev pub ready : Machine → Machine
  ready m = record m {
    proc = made;
    mem = filled st tf m.mem;
    stvec = add64 trampoline_va (s.user_vector - s.trampoline);
  }

  abbrev pub leaving : Return
  leaving = record {
    fn = add64 trampoline_va (s.user_return - s.trampoline);
    tf = tf;
    satp = make_satp root;
  }

  -- The calls of `proc_make_first` one after the other.
  pub make-runs :
      (m m1 m3 m4 m5 m6 m9 : Machine) (stack code : ℕ)
      → tf ≢ 0
      → stack ≢ 0
      → code ≢ 0
      → pmem_alloc true m ≡ ok (tf, m1)
      → proc_pgtbl_init s.trampoline tf (cleared m1 tf) ≡ ok (root, m3)
      → pmem_alloc false m3 ≡ ok (stack, m4)
      → vm_mappages root stack_va stack pgsize 22 m4 ≡ ok (tt, m5)
      → pmem_alloc false m5 ≡ ok (code, m6)
      → vm_mappages root user_base code pgsize 26 (record (cleared m6 code) {
        mem = memmove (cleared m6 code).mem code st.initcode (code_size st);
      })
        ≡ ok (tt, m9)
      → proc_make_first s st m ≡ ok (leaving, ready m9)
  unfolding proc_make_first filled trap_user_return
  make-runs m m1 m3 m4 m5 m6 m9 stack code ntf nst nco e1 e2 e3 e4 e5 e6 =
      rw (e1, ne→== tf 0 ntf, e2, e3, ne→== stack 0 nst, e4, e5, ne→== code 0 nco, e6)
