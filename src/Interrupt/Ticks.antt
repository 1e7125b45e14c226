-- ===== src/Interrupt/Ticks.antt =====
-- The tick count, and the causes that the kernel's handler accepts.
use biglab.Base.{
  ℕ, zero, suc, ◌+◌, ◌%◌, ◌^◌, ◌<◌, ◌≡◌, refl, ◌≢◌, ◌⊎◌, Bool, true, false, List, arith,
}
use biglab.Base.Word.{add64}
use biglab.Base.Outcome.{Outcome, ok, panic, and_then}
use biglab.Lock.{Cpu, spinlock_init}
use biglab.Lock.Sequential.{settle, acquire-ok, release-ok}
use biglab.Interrupt.{Timer, timer_update, timer_get_ticks, Devices, trap_kernel_handler}

-- `n` updates in a row.
unfoldable pub updates : ℕ → Cpu → Timer → Outcome (Cpu × Timer)
unfolding timer_update
updates zero c t = ok (c, t)
updates (suc n) c t = and_then (timer_update c t) λ (c', t'). updates n c' t'

timer_update-ok :
    (c : Cpu) (t : Timer)
    → t.lk.locked ≡ false
    → timer_update c t ≡ ok (settle c, record { ticks = add64 t.ticks 1; lk = spinlock_init })
unfolding timer_update
timer_update-ok c t free = rw (acquire-ok c t.lk free, release-ok c)

abbrev pub at : ℕ → Timer
at k = record { ticks = k; lk = spinlock_init }

-- What `timer_get_ticks` returns on a timer at `k`, with the hart and the timer it leaves.
ticks_read : (c : Cpu) (k : ℕ) → timer_get_ticks c (at k) ≡ ok (k, settle c, at k)
unfolding timer_get_ticks
ticks_read c k = rw (acquire-ok c spinlock_init refl, release-ok c)

-- After `n` updates of a timer at `k`, a uint64, with a free lock: `timer_get_ticks` returns the
-- sum of both as a uint64, and leaves the timer with a free lock as it was.
pub timer_get_ticks-updates :
    (n k : ℕ) (c : Cpu)
    → k < 2 ^ 64
    → (c' : Cpu) × (t' : Timer) × (updates n c (at k) ≡ ok (c', t'))
      × (timer_get_ticks c' t' ≡ ok ((n + k) % 2 ^ 64, settle c', t'))
unfolding updates
timer_get_ticks-updates zero k c h =
    let same : (0 + k) % 2 ^ 64 ≡ k = omega arith in (c, at k, refl, rw same (ticks_read c k))
timer_get_ticks-updates (suc n) k c h =
    let (c', t', runs, reads) = timer_get_ticks-updates n (add64 k 1) (settle c) (omega arith) in
    let sum : (suc n + k) % 2 ^ 64 ≡ (n + add64 k 1) % 2 ^ 64 = omega arith in
    (c', t', rw (timer_update-ok c (at k) refl) runs, rw sum reads)

-- A trap that comes from user mode or with interrupts enabled, an exception, and an interrupt
-- that is neither the timer's nor the PLIC's make the kernel panic.
pub trap_kernel_handler-refused :
    (spp enabled : Bool) (scause irq : ℕ) (input line : List ℕ) (d : Devices)
    → ((spp ≡ false) ⊎ (enabled ≡ true))
      ⊎ ((scause < 2 ^ 63) ⊎ ((scause % 16 ≢ 1) × (scause % 16 ≢ 9)))
    → trap_kernel_handler spp enabled scause irq input line d ≡ panic
unfolding trap_kernel_handler
trap_kernel_handler-refused spp enabled scause irq input line d h = ground arith
