-- ===== src/Examples/Locks.antt =====
-- Locks, interrupt switches, the timer and the kernel's traps.
use biglab.Base.{ℕ, ◌+◌, ◌≡◌, ◌≢◌, refl, true, false, some, update, arith, ◌%◌, ◌^◌}
use biglab.Base.Outcome.{ok, and_then}
use biglab.Lock.{Cpu, push_off, spinlock_init, spinlock_acquire, spinlock_release}
use biglab.Lock.Sequential.{settle, pop_offs, push_offs, pop_offs-push_offs, release-acquire}
use biglab.Lock.Concurrent.{
  System, Reach, start, here, next, enter, swap_free, sign, holding, failed, inside, swapped,
  spinning, mutual_exclusion, no_assertion_fails,
}
use biglab.Interrupt.{Timer, timer_get_ticks}
use biglab.Interrupt.Ticks.{updates, timer_get_ticks-updates, at}
use biglab.Examples.{hart}

-- Hart 1 has entered, swapped and signed.
abbrev one_in : System
one_in = record {
  lock = record { locked = true; cpuid = some 1 };
  pc = update (update (update start.pc 1 spinning) 1 swapped) 1 inside;
}

hart_one_in : Reach one_in
hart_one_in = next (next (next here (enter 1 refl refl)) (swap_free 1 refl refl)) (sign 1 refl)

mutual_exclusion_example : ◌≡◌ {A = ℕ} 1 1
mutual_exclusion_example = mutual_exclusion hart_one_in 1 1 refl refl

no_assertion_fails_example :
    (one_in.pc 1 ≢ failed) × (one_in.pc 1 ≡ inside → holding one_in 1 ≡ true)
no_assertion_fails_example = no_assertion_fails hart_one_in 1

pop_offs-push_offs_example : pop_offs 3 (push_offs 3 hart) ≡ ok (settle hart)
pop_offs-push_offs_example = pop_offs-push_offs 2 hart (omega arith)

release-acquire_example :
    (and_then (spinlock_acquire hart spinlock_init) (λ (c', l'). spinlock_release c' l')
      ≡ ok (settle hart, spinlock_init))
    × ((push_off hart).intr ≡ false)
release-acquire_example = release-acquire hart spinlock_init refl

timer_get_ticks-updates_example :
    (c' : Cpu) × (t' : Timer) × (updates 3 hart (at 0) ≡ ok (c', t'))
    × (timer_get_ticks c' t' ≡ ok ((3 + 0) % 2 ^ 64, settle c', t'))
timer_get_ticks-updates_example = timer_get_ticks-updates 3 0 hart (omega arith)
