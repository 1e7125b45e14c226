-- ===== src/Lock.antt =====
-- lock/spinlock.c on one hart: nested interrupt switches, and the spin lock.
pub mod Sequential
pub mod Concurrent
use biglab.Base.{
  ℕ, ◌+◌, ◌-◌, Bool, true, false, not, ◌&&◌, Option, none, some, ◌==◌, leb, if◌then◌else◌,
}
use biglab.Base.Outcome.{Outcome, ok, panic, spin, out_of_fuel, and_then}

-- The fields of `cpu_t` (lib/type.h) that the lock uses, with the hart's number (`r_tp`) and its
-- interrupt switch (`intr_get`, `intr_on` and `intr_off` of arch/method.h). `noff` is an int: from
-- 2^31 - 1 on C does not define what `push_off` does, and the number that stands here means nothing.
pub record Cpu : Type 0 where
  pub hartid : ℕ
  pub intr : Bool
  pub noff : ℕ
  pub origin : Bool

-- `spinlock_t` without its name; `none` is the -1 of `cpuid`.
pub record Spinlock : Type 0 where
  pub locked : Bool
  pub cpuid : Option ℕ

unfoldable pub push_off : Cpu → Cpu
push_off c = record c {
  intr = false;
  noff = c.noff + 1;
  origin = if c.noff == 0 then c.intr else c.origin;
}

unfoldable pub pop_off : Cpu → Outcome Cpu
pop_off c =
    if c.intr
    then panic
    else if not (leb 1 c.noff)
    then panic
    else ok (record c { noff = c.noff - 1; intr = ((c.noff - 1) == 0) && c.origin })

abbrev pub spinlock_init : Spinlock
spinlock_init = record { locked = false; cpuid = none }

-- `lk->cpuid == mycpuid()`
abbrev pub held_by : Option ℕ → ℕ → Bool
held_by none h = false
held_by (some j) h = j == h

unfoldable pub spinlock_holding : Cpu → Spinlock → Bool
spinlock_holding c l = l.locked && held_by l.cpuid c.hartid

-- The atomic swap leaves `locked` set; on a lock that is taken the loop waits for its holder.
unfoldable pub spinlock_acquire : Cpu → Spinlock → Outcome (Cpu × Spinlock)
unfolding push_off spinlock_holding
spinlock_acquire c l =
    let c' = push_off c in
    if spinlock_holding c' l
    then panic
    else if l.locked
    then spin
    else ok (c', record { locked = true; cpuid = some c.hartid })

unfoldable pub spinlock_release : Cpu → Spinlock → Outcome (Cpu × Spinlock)
unfolding pop_off spinlock_holding
spinlock_release c l =
    if not (spinlock_holding c l)
    then panic
    else and_then (pop_off c) λ c'. ok (c', record { locked = false; cpuid = none })
