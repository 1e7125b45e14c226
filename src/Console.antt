-- ===== src/Console.antt =====
-- lib/uart.c, as bytes that reach the device and bytes that come from it.
pub mod Echo
use biglab.Base.{
  ℕ, zero, suc, ◌+◌, ◌-◌, Bool, true, false, ◌||◌, ◌&&◌, List, [], ◌∷◌, ◌==◌, leb, if◌then◌else◌,
}
use mathlib.Core.List.{◌++◌}
use biglab.Base.Outcome.{Outcome, ok, spin, and_then}
use biglab.Lock.{Cpu, push_off, pop_off}

-- The hart, the flag `panicked`, and the bytes sent so far, the first one first.
pub record Console : Type 0 where
  pub cpu : Cpu
  pub panicked : Bool
  pub sent : List ℕ

-- The loop that waits for an idle transmitter is left out: the device is taken to become idle.
unfoldable pub uart_putc_sync : ℕ → Console → Outcome Console
uart_putc_sync c con =
    if con.panicked
    then spin
    else and_then (pop_off (push_off con.cpu))
        λ cpu. ok (record con { cpu = cpu; sent = con.sent ++ (c ∷ []) })

unfoldable pub put_all : List ℕ → Console → Outcome Console
unfolding uart_putc_sync
put_all [] con = ok con
put_all (c ∷ cs) con = and_then (uart_putc_sync c con) (put_all cs)

-- The bytes with which one byte of input is answered.
unfoldable pub echo : ℕ → List ℕ
echo c =
    if (c == 13) || (c == 10)
    then 13 ∷ 10 ∷ []
    else if (c == 8) || (c == 127)
    then 8 ∷ 32 ∷ 8 ∷ []
    else if (leb 32 c && leb c 126) || (c == 9)
    then c ∷ []
    else []

-- The bytes are those `uart_getc_sync` reads until it returns -1.
unfoldable pub uart_intr : List ℕ → Console → Outcome Console
unfolding echo put_all
uart_intr [] con = ok con
uart_intr (c ∷ cs) con = and_then (put_all (echo c) con) (uart_intr cs)
