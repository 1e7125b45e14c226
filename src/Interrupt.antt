-- ===== src/Interrupt.antt =====
-- trap/timer.c (the system timer) and trap/trap_kernel.c, less the initialisation of the devices.
pub mod Ticks
use biglab.Base.{
  ℕ, zero, suc, ◌+◌, ◌-◌, ◌*◌, ◌/◌, ◌%◌, ◌^◌, Bool, true, false, not, ◌&&◌, ◌||◌, List, [], ◌∷◌,
  ◌++◌, ◌==◌, ltb, leb, if◌then◌else◌,
}
use biglab.Base.Word.{u32, add64}
use biglab.Base.Outcome.{Outcome, ok, panic, and_then}
use biglab.Lock.{Cpu, Spinlock, spinlock_init, spinlock_acquire, spinlock_release}
use biglab.Console.{Console, put_all, uart_intr}
use biglab.Print.{printint}

-- `timer_t`
pub record Timer : Type 0 where
  pub ticks : ℕ
  pub lk : Spinlock

abbrev pub timer_create : Timer
timer_create = record { ticks = 0; lk = spinlock_init }

unfoldable pub timer_update : Cpu → Timer → Outcome (Cpu × Timer)
timer_update c t = and_then (spinlock_acquire c t.lk) λ (c1, l1).
    and_then (spinlock_release c1 l1)
      λ (c2, l2). ok (c2, record { ticks = add64 t.ticks 1; lk = l2 })

unfoldable pub timer_get_ticks : Cpu → Timer → Outcome (ℕ × Cpu × Timer)
timer_get_ticks c t =
    and_then (spinlock_acquire c t.lk) λ (c1, l1).
      and_then (spinlock_release c1 l1) λ (c2, l2). ok (t.ticks, c2, record t { lk = l2 })

-- What the kernel's interrupts change: the console with its hart, the timer, the pending bits
-- `sip`, and the interrupt numbers reported to the PLIC as complete, the last one first.
pub record Devices : Type 0 where
  pub console : Console
  pub timer : Timer
  pub sip : ℕ
  pub completed : List ℕ

abbrev set_cpu : Cpu → Console → Console
set_cpu c con = record con { cpu = c }

-- `tick=%d\n`
unfoldable pub tick_line : ℕ → List ℕ
tick_line ticks = 116 ∷ 105 ∷ 99 ∷ 107 ∷ 61 ∷ (printint (u32 ticks) 10 true ++ (10 ∷ []))

-- `w_sip(r_sip() & ~2)` clears the second bit.
abbrev pub clear_ssip : ℕ → ℕ
clear_ssip sip = sip - sip / 2 % 2 * 2

unfoldable pub count_tick : Devices → Outcome Devices
unfolding timer_update
count_tick d =
    if d.console.cpu.hartid == 0
    then and_then (timer_update d.console.cpu d.timer)
        (λ (c, t). ok (record d { console = set_cpu c d.console; timer = t }))
    else ok d

unfoldable pub timer_interrupt_handler : Devices → Outcome Devices
unfolding count_tick timer_get_ticks tick_line
timer_interrupt_handler d = and_then (count_tick d) λ d1.
    and_then (timer_get_ticks d1.console.cpu d1.timer) λ (ticks, c, t).
      and_then
        (if (ticks % 100) == 0
          then put_all (tick_line ticks) (set_cpu c d1.console)
          else ok (set_cpu c d1.console))
        λ con. ok (record d1 { console = con; timer = t; sip = clear_ssip d1.sip })

abbrev pub uart_irq : ℕ
uart_irq = 10

-- `irq` is what the PLIC hands out, 0 for nothing, as an int; `input` is what the UART has
-- received, and `line` the message for an unknown number.
unfoldable pub external_interrupt_handler : ℕ → List ℕ → List ℕ → Devices → Outcome Devices
external_interrupt_handler irq input line d =
    let positive = ltb 0 irq && ltb irq (2 ^ 31) in
    and_then
      (if irq == uart_irq
        then uart_intr input d.console
        else if positive
        then put_all line d.console
        else ok d.console)
      λ con. ok (record d {
        console = con;
        completed = if positive then irq ∷ d.completed else d.completed;
      })

-- The registers at the trap: `sstatus` by its bit SPP, `intr_get`, and `scause`.
unfoldable pub trap_kernel_handler :
    Bool → Bool → ℕ → ℕ → List ℕ → List ℕ → Devices → Outcome Devices
unfolding timer_interrupt_handler external_interrupt_handler
trap_kernel_handler spp enabled scause irq input line d =
    let trap_id = scause % 16 in
    let timer = timer_interrupt_handler d in
    let external = external_interrupt_handler irq input line d in
    if not spp || enabled
    then panic
    else if leb (2 ^ 63) scause
    then if trap_id == 1 then timer else if trap_id == 9 then external else panic
    else panic
