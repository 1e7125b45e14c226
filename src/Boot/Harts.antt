-- ===== src/Boot/Harts.antt =====
-- main.c with any number of harts: hart 0 sets the kernel up and raises the flag `started`, for
-- which the other harts wait before they use what it has set up.
use biglab.Base.{ℕ, ◌+◌, ◌≤◌, ◌<◌, ◌≡◌, refl, ◌≢◌, Bool, true, false, arith, update}

-- The calls of hart 0 in their order: a stage is the number of those that have returned.
-- 1 print_init, 2 printf, 3 pmem_init, 4 kvm_init, 5 kvm_inithart, 6 trap_kernel_init,
-- 7 trap_kernel_inithart, 8 mmap_init, 9 the write to `started`; 10 is in `proc_make_first`.
abbrev pub raised : ℕ
raised = 9

abbrev pub in_user : ℕ
in_user = 10

-- Where another hart stands: in the loop that waits, behind it in `printf`, behind that, with
-- paging on, with its interrupts on.
pub data Other : Type 0 where
  waiting : Other
  released : Other
  announced : Other
  paged : Other
  ready : Other

pub record Boot : Type 0 where
  pub stage : ℕ
  pub halted : Bool  -- hart 0 is in the endless loop of `panic`
  pub started : Bool
  pub other : ℕ → Other

abbrev pub goto : Boot → ℕ → Other → ℕ → Other
goto s i p = update s.other i p

-- One call, or one turn of a loop that waits. A call of hart 0 may panic; a call of any hart may
-- wait for a lock or, behind a panic, for the console without end.
pub data Step (s : Boot) : Boot → Type 0 where
  call : s.halted ≡ false → s.stage < 8 → Step s (record s { stage = s.stage + 1 })
  raise : s.halted ≡ false → s.stage ≡ 8 → Step s (record s { stage = raised; started = true })
  enter : s.halted ≡ false → s.stage ≡ raised → Step s (record s { stage = in_user })
  panics : s.halted ≡ false → Step s (record s { halted = true })
  busy : Step s s
  wait : (i : ℕ) → s.other i ≡ waiting → s.started ≡ false → Step s s
  leave :
      (i : ℕ)
      → s.other i ≡ waiting
      → s.started ≡ true
      → Step s (record s { other = goto s i released })
  print : (i : ℕ) → s.other i ≡ released → Step s (record s { other = goto s i announced })
  page : (i : ℕ) → s.other i ≡ announced → Step s (record s { other = goto s i paged })
  trap : (i : ℕ) → s.other i ≡ paged → Step s (record s { other = goto s i ready })

abbrev pub power_on : Boot
power_on = record { stage = 0; halted = false; started = false; other = λ _. waiting }

pub data Run (s : Boot) : Boot → Type 0 where
  here : Run s s
  next : {t u : Boot} → Run s t → Step t u → Run s u

-- The flag says that hart 0 is past everything that it sets up, and no hart leaves the loop before.
pub record IsOrdered (s : Boot) : Type 0 where
  pub flag : s.started ≡ true → raised ≤ s.stage
  pub low : s.started ≡ false → s.stage ≤ 8
  pub behind : (i : ℕ) → s.other i ≢ waiting → s.started ≡ true

Step-IsOrdered : {s t : Boot} → Step s t → IsOrdered s → IsOrdered t
Step-IsOrdered {s} (call live h) o = record {
  flag = λ e. absurd (omega (arith, o.flag e));
  low = λ e. omega arith;
  behind = o.behind;
}
Step-IsOrdered (raise live h) o = record {
  flag = λ e. omega arith;
  low = λ e. cc;
  behind = λ i ne. refl;
}
Step-IsOrdered (enter live h) o = record {
  flag = λ e. omega arith;
  low = λ e. absurd (omega (arith, o.low e));
  behind = o.behind;
}
Step-IsOrdered (panics live) o = record { flag = o.flag; low = o.low; behind = o.behind }
Step-IsOrdered busy o = o
Step-IsOrdered (wait i h w) o = o
Step-IsOrdered {s} (leave i h w) o = record { flag = o.flag; low = o.low; behind = λ j ne. w }
Step-IsOrdered {s} (print i h) o =
    let up = o.behind i (λ e. cc) in record { flag = o.flag; low = o.low; behind = λ j ne. up }
Step-IsOrdered {s} (page i h) o =
    let up = o.behind i (λ e. cc) in record { flag = o.flag; low = o.low; behind = λ j ne. up }
Step-IsOrdered {s} (trap i h) o =
    let up = o.behind i (λ e. cc) in record { flag = o.flag; low = o.low; behind = λ j ne. up }

Run-IsOrdered : {s t : Boot} → IsOrdered s → Run s t → IsOrdered t
Run-IsOrdered o here = o
Run-IsOrdered o (next r st) = Step-IsOrdered st (Run-IsOrdered o r)

power_on-IsOrdered : IsOrdered power_on
power_on-IsOrdered = record {
  flag = λ e. cc;
  low = λ e. omega arith;
  behind = λ i ne. absurd (ne refl);
}

-- In every state that the start reaches, with any number of harts and in any order of their
-- steps: if another hart has left the loop that waits for `started`, hart 0 has returned from
-- every call up to `mmap_init` and raised the flag.
pub set_up_before_use :
    {s : Boot} → Run power_on s → (i : ℕ) → s.other i ≢ waiting → raised ≤ s.stage
set_up_before_use r i ne = let o = Run-IsOrdered power_on-IsOrdered r in o.flag (o.behind i ne)
