-- ===== src/Lock/Concurrent.antt =====
-- lock/spinlock.c with any number of harts, one shared access at a time.
use biglab.Base.{ℕ, ◌≡◌, ◌≢◌, Bool, true, false, none, some, arith, ap, if◌then◌else◌, update}
use biglab.Lock.{Spinlock, held_by}

-- Where a hart stands.
pub data Pc : Type 0 where
  outside : Pc  -- before `spinlock_acquire`
  asking : Pc  -- in its assertion, which has read `locked` set and not yet `cpuid`
  spinning : Pc  -- past its assertion, in the `while`
  swapped : Pc  -- the swap has returned 0; `lk->cpuid` is not yet written
  inside : Pc  -- `spinlock_acquire` has returned
  checking : Pc  -- in the assertion of `spinlock_release`, which has read `locked` set
  checked : Pc  -- past that assertion
  cleared : Pc  -- `lk->cpuid` is -1 and `locked` still set
  failed : Pc  -- an assertion has failed

pub record System : Type 0 where
  pub lock : Spinlock
  pub pc : ℕ → Pc

abbrev pub holding : System → ℕ → Bool
holding s i = if s.lock.locked then held_by s.lock.cpuid i else false

abbrev pub goto : System → ℕ → Pc → ℕ → Pc
goto s i p = update s.pc i p

-- One shared access of hart `i`: a read of `locked`, a read of `cpuid`, the swap, or a write.
pub data Step (s : System) : System → Type 0 where
  enter :
      (i : ℕ)
      → s.pc i ≡ outside
      → s.lock.locked ≡ false
      → Step s (record s { pc = goto s i spinning })
  ask :
      (i : ℕ) → s.pc i ≡ outside → s.lock.locked ≡ true → Step s (record s { pc = goto s i asking })
  enter_foreign :
      (i : ℕ)
      → s.pc i ≡ asking
      → held_by s.lock.cpuid i ≡ false
      → Step s (record s { pc = goto s i spinning })
  reenter :
      (i : ℕ)
      → s.pc i ≡ asking
      → held_by s.lock.cpuid i ≡ true
      → Step s (record s { pc = goto s i failed })
  swap_busy : (i : ℕ) → s.pc i ≡ spinning → s.lock.locked ≡ true → Step s s
  swap_free :
      (i : ℕ)
      → s.pc i ≡ spinning
      → s.lock.locked ≡ false
      → Step s
          (record { lock = record { locked = true; cpuid = s.lock.cpuid }; pc = goto s i swapped })
  sign :
      (i : ℕ)
      → s.pc i ≡ swapped
      → Step s (record {
        lock = record { locked = s.lock.locked; cpuid = some i };
        pc = goto s i inside;
      })
  check :
      (i : ℕ)
      → s.pc i ≡ inside
      → s.lock.locked ≡ true
      → Step s (record s { pc = goto s i checking })
  refuse_free :
      (i : ℕ) → s.pc i ≡ inside → s.lock.locked ≡ false → Step s (record s { pc = goto s i failed })
  confirm :
      (i : ℕ)
      → s.pc i ≡ checking
      → held_by s.lock.cpuid i ≡ true
      → Step s (record s { pc = goto s i checked })
  refuse :
      (i : ℕ)
      → s.pc i ≡ checking
      → held_by s.lock.cpuid i ≡ false
      → Step s (record s { pc = goto s i failed })
  clear :
      (i : ℕ)
      → s.pc i ≡ checked
      → Step s
          (record { lock = record { locked = s.lock.locked; cpuid = none }; pc = goto s i cleared })
  unlock :
      (i : ℕ)
      → s.pc i ≡ cleared
      → Step s
          (record { lock = record { locked = false; cpuid = s.lock.cpuid }; pc = goto s i outside })

-- `spinlock_init`, with every hart outside
abbrev pub start : System
start = record { lock = record { locked = false; cpuid = none }; pc = λ _. outside }

pub data Reach : System → Type 0 where
  here : Reach start
  next : {s t : System} → Reach s → Step s t → Reach t

-- Between the swap that takes the lock and the write that gives it back.
abbrev pub critical : Pc → Bool
critical swapped = true
critical inside = true
critical checking = true
critical checked = true
critical cleared = true
critical _ = false

-- `lk->cpuid` is the hart's own number.
abbrev pub owns : Pc → Bool
owns inside = true
owns checking = true
owns checked = true
owns _ = false

pub record Inv (s : System) : Type 0 where
  pub free : (i : ℕ) → critical (s.pc i) ≡ true → s.lock.locked ≡ true
  pub unique : (i j : ℕ) → critical (s.pc i) ≡ true → critical (s.pc j) ≡ true → i ≡ j
  pub signed : (i : ℕ) → owns (s.pc i) ≡ true → s.lock.cpuid ≡ some i
  pub owner : (i : ℕ) → s.lock.cpuid ≡ some i → owns (s.pc i) ≡ true
  pub sound : (i : ℕ) → s.pc i ≢ failed

Inv-start : Inv start
Inv-start = record {
  free = λ i. cc;
  unique = λ i j. cc;
  signed = λ i. cc;
  owner = λ i. cc;
  sound = λ i. cc;
}

-- The hart that moves, and what its step needs, for the catch-all clauses below.
abbrev mover : {s t : System} → Step s t → ℕ
mover (enter i _ _) = i
mover (ask i _ _) = i
mover (enter_foreign i _ _) = i
mover (reenter i _ _) = i
mover (swap_busy i _ _) = i
mover (swap_free i _ _) = i
mover (sign i _) = i
mover (check i _ _) = i
mover (refuse_free i _ _) = i
mover (confirm i _ _) = i
mover (refuse i _ _) = i
mover (clear i _) = i
mover (unlock i _) = i

abbrev Guard : {s t : System} → Step s t → Type 0
Guard {s} (enter i _ _) = (s.pc i ≡ outside) × (s.lock.locked ≡ false)
Guard {s} (ask i _ _) = (s.pc i ≡ outside) × (s.lock.locked ≡ true)
Guard {s} (enter_foreign i _ _) = (s.pc i ≡ asking) × (held_by s.lock.cpuid i ≡ false)
Guard {s} (reenter i _ _) = (s.pc i ≡ asking) × (held_by s.lock.cpuid i ≡ true)
Guard {s} (swap_busy i _ _) = (s.pc i ≡ spinning) × (s.lock.locked ≡ true)
Guard {s} (swap_free i _ _) = (s.pc i ≡ spinning) × (s.lock.locked ≡ false)
Guard {s} (sign i _) = s.pc i ≡ swapped
Guard {s} (check i _ _) = (s.pc i ≡ inside) × (s.lock.locked ≡ true)
Guard {s} (refuse_free i _ _) = (s.pc i ≡ inside) × (s.lock.locked ≡ false)
Guard {s} (confirm i _ _) = (s.pc i ≡ checking) × (held_by s.lock.cpuid i ≡ true)
Guard {s} (refuse i _ _) = (s.pc i ≡ checking) × (held_by s.lock.cpuid i ≡ false)
Guard {s} (clear i _) = s.pc i ≡ checked
Guard {s} (unlock i _) = s.pc i ≡ cleared

guard : {s t : System} (st : Step s t) → Guard st
guard (enter i e g) = (e, g)
guard (ask i e g) = (e, g)
guard (enter_foreign i e g) = (e, g)
guard (reenter i e g) = (e, g)
guard (swap_busy i e g) = (e, g)
guard (swap_free i e g) = (e, g)
guard (sign i e) = e
guard (check i e g) = (e, g)
guard (refuse_free i e g) = (e, g)
guard (confirm i e g) = (e, g)
guard (refuse i e g) = (e, g)
guard (clear i e) = e
guard (unlock i e) = e

module _ {s : System} (inv : Inv s) where
  open inv use {free, unique, signed, owner, sound}

  Step-free : {t : System} → Step s t → (j : ℕ) → critical (t.pc j) ≡ true → t.lock.locked ≡ true
  Step-free (unlock i e) j h = ground (arith, unique i j, free j)
  Step-free st j h = ground (arith, guard st, free j, free (mover st))

  Step-unique :
      {t : System}
      → Step s t
      → (j k : ℕ) → critical (t.pc j) ≡ true
      → critical (t.pc k) ≡ true
      → j ≡ k
  Step-unique (unlock i e) j k h g = ground (arith, unique j k)
  Step-unique st j k h g =
      ground (arith, guard st, free j, free k, unique j k, unique (mover st) k, unique j (mover st))

  Step-signed : {t : System} → Step s t → (j : ℕ) → owns (t.pc j) ≡ true → t.lock.cpuid ≡ some j
  Step-signed (unlock i e) j h = ground (arith, signed j)
  Step-signed st j h = ground (arith, guard st, signed j, unique (mover st) j)

  Step-owner : {t : System} → Step s t → (j : ℕ) → t.lock.cpuid ≡ some j → owns (t.pc j) ≡ true
  Step-owner (unlock i e) j h = ground (arith, owner j)
  Step-owner st j h = ground (arith, guard st, owner j, signed (mover st), free (mover st))

  Step-sound : {t : System} → Step s t → (j : ℕ) → t.pc j ≢ failed
  Step-sound (unlock i e) j h = ground (arith, sound j)
  Step-sound st j h = ground (
    arith,
    guard st,
    sound j,
    signed (mover st),
    free (mover st),
    owner (mover st),
    held (mover st),
  )
    where
      held : (i : ℕ) → held_by s.lock.cpuid i ≡ true → s.lock.cpuid ≡ some i
      held i h = ground arith

  Step-Inv : {t : System} → Step s t → Inv t
  Step-Inv st = record {
    free = Step-free st;
    unique = Step-unique st;
    signed = Step-signed st;
    owner = Step-owner st;
    sound = Step-sound st;
  }

Reach-Inv : {s : System} → Reach s → Inv s
Reach-Inv here = Inv-start
Reach-Inv (next r st) = Step-Inv (Reach-Inv r) st

-- In every reachable state at most one hart is between the swap that takes the lock and the write
-- that gives it back, whatever the order of the harts' accesses.
pub mutual_exclusion :
    {s : System} → Reach s → (i j : ℕ) → critical (s.pc i) ≡ true → critical (s.pc j) ≡ true → i ≡ j
mutual_exclusion r = (Reach-Inv r).unique

-- In every reachable state no assertion of `spinlock_acquire` or `spinlock_release` has failed, and
-- a hart whose `spinlock_acquire` has returned is the one that `spinlock_holding` names.
pub no_assertion_fails :
    {s : System} → Reach s → (i : ℕ) → (s.pc i ≢ failed) × (s.pc i ≡ inside → holding s i ≡ true)
no_assertion_fails r i =
    let inv = Reach-Inv r in (inv.sound i, λ h. ground (arith, inv.free i, inv.signed i, ap owns h))
