-- ===== src/Print/Output.antt =====
-- `printf` and `panic` of lib/print.c with the lock of the output and the console.
use biglab.Base.{
  ℕ, ◌≡◌, refl, ◌∙◌, ◌<◌, Bool, true, false, Option, none, some, List, [], ◌∷◌, ◌++◌, append_assoc,
  append-nil, arith, if◌then◌else◌, on_some,
}
use biglab.Base.Outcome.{Outcome, ok, panic, spin, and_then}
use biglab.Lock.{
  Cpu, Spinlock, push_off, pop_off, spinlock_init, spinlock_holding, spinlock_acquire,
  spinlock_release,
}
use biglab.Lock.Sequential.{settle, taken, acquire-ok, release-ok}
use biglab.Console.{Console, uart_putc_sync, put_all}
use biglab.Print.{Arg, str, printf_loop}

-- The console with its hart, and `print_lk`.
pub record Printer : Type 0 where
  pub console : Console
  pub print_lk : Spinlock

abbrev pub with_lock : Cpu → Spinlock → Printer → Printer
with_lock c l p = record { console = record p.console { cpu = c }; print_lk = l }

-- The lock is taken unless this hart has it already; the result is `need_unlock`.
unfoldable pub lock_output : Printer → Outcome (Bool × Printer)
lock_output p =
    if spinlock_holding p.console.cpu p.print_lk
    then ok (false, p)
    else and_then (spinlock_acquire p.console.cpu p.print_lk) (λ (c, l). ok (true, with_lock c l p))

unfoldable pub unlock_output : Bool → Printer → Outcome Printer
unlock_output need_unlock p =
    if need_unlock
    then and_then (spinlock_release p.console.cpu p.print_lk) (λ (c, l). ok (with_lock c l p))
    else ok p

unfoldable pub print_bytes : List ℕ → Printer → Outcome Printer
print_bytes bs p = and_then (lock_output p) λ (need_unlock, p1).
    and_then (put_all bs p1.console) λ con. unlock_output need_unlock (record p1 { console = con })

-- `fmt` is `none` for NULL; the whole is `none` where C defines nothing.
unfoldable pub printf : Option (List ℕ) → List Arg → Printer → Option (Outcome Printer)
unfolding print_bytes
printf none args p = some panic
printf (some fmt) args p = on_some (printf_loop fmt args) none (λ bs. some (print_bytes bs p))

-- `panic! %s\n`
abbrev panic_format : List ℕ
panic_format = 112 ∷ 97 ∷ 110 ∷ 105 ∷ 99 ∷ 33 ∷ 32 ∷ 37 ∷ 115 ∷ 10 ∷ []

abbrev raise_panicked : Printer → Printer
raise_panicked p = record p { console = record p.console { panicked = true } }

-- The state in which `panic` enters its endless loop.
unfoldable pub report_panic : List ℕ → Printer → Option (Outcome Printer)
unfolding printf
report_panic s p =
    on_some (printf (some panic_format) (str (some s) ∷ []) p) none
      (λ o. some (and_then o (λ p'. ok (raise_panicked p'))))

-- The lock is free, or this hart has it and so is inside an interrupt switch.
pub data CanPrint (p : Printer) : Type 0 where
  unlocked : p.print_lk.locked ≡ false → CanPrint p
  nested :
      spinlock_holding p.console.cpu p.print_lk ≡ true
      → 0 < p.console.cpu.noff
      → p.console.cpu.intr ≡ false
      → CanPrint p

-- The state after `bs` has been printed: the lock is as it was, or free again.
abbrev pub printed : List ℕ → Printer → Printer
printed bs p = record {
  console = record p.console { cpu = settle p.console.cpu; sent = p.console.sent ++ bs };
  print_lk = if p.print_lk.locked then p.print_lk else spinlock_init;
}

-- Inside a switch the bytes are sent and the hart is left as it is.
put_all-inside :
    (bs : List ℕ) (con : Console)
    → con.panicked ≡ false
    → 0 < con.cpu.noff
    → con.cpu.intr ≡ false
    → put_all bs con ≡ ok (record con { sent = con.sent ++ bs })
unfolding put_all uart_putc_sync push_off pop_off
put_all-inside [] con alive deep off = rw (append-nil con.sent)
put_all-inside (b ∷ bs) con alive deep off =
    let step : uart_putc_sync b con ≡ ok (record con { sent = con.sent ++ (b ∷ []) }) =
      ground arith in
    rw step (
      put_all-inside bs (record con { sent = con.sent ++ (b ∷ []) }) alive deep off
      ∙ rw (append_assoc con.sent (b ∷ []) bs))

not_held : (c : Cpu) (l : Spinlock) → l.locked ≡ false → spinlock_holding c l ≡ false
unfolding spinlock_holding
not_held c l h = ground arith

held_locked : (c : Cpu) (l : Spinlock) → spinlock_holding c l ≡ true → l.locked ≡ true
unfolding spinlock_holding
held_locked c l h = ground arith

lock_output-takes :
    (p : Printer)
    → p.print_lk.locked ≡ false
    → lock_output p ≡ ok (true, with_lock (push_off p.console.cpu) (taken p.console.cpu) p)
unfolding lock_output
lock_output-takes p h =
    rw (not_held p.console.cpu p.print_lk h, acquire-ok p.console.cpu p.print_lk h)

lock_output-nested :
    (p : Printer) → spinlock_holding p.console.cpu p.print_lk ≡ true → lock_output p ≡ ok (false, p)
unfolding lock_output
lock_output-nested p h = rw h

settle-inside : (c : Cpu) → 0 < c.noff → c.intr ≡ false → settle c ≡ c
settle-inside c deep off = ground arith

put_all-locked :
    (bs : List ℕ) (p : Printer)
    → p.console.panicked ≡ false
    → put_all bs (record p.console { cpu = push_off p.console.cpu })
      ≡ ok (record p.console { cpu = push_off p.console.cpu; sent = p.console.sent ++ bs })
unfolding push_off
put_all-locked bs p alive =
    put_all-inside bs (record p.console { cpu = push_off p.console.cpu }) alive (omega arith) refl

-- Whether the lock is free or already held by this hart: the bytes are sent, and the lock and
-- the interrupt switches are as before.
pub print_bytes-prints :
    (bs : List ℕ) (p : Printer)
    → p.console.panicked ≡ false
    → CanPrint p
    → print_bytes bs p ≡ ok (printed bs p)
unfolding print_bytes unlock_output
print_bytes-prints bs p alive (unlocked h) =
    rw (lock_output-takes p h, put_all-locked bs p alive, release-ok p.console.cpu, h)
print_bytes-prints bs p alive (nested h deep off) = rw (
  lock_output-nested p h,
  put_all-inside bs p.console alive deep off,
  settle-inside p.console.cpu deep off,
  held_locked p.console.cpu p.print_lk h,
)

-- The text of `panic`.
abbrev pub panic_line : List ℕ → List ℕ
panic_line s = 112 ∷ 97 ∷ 110 ∷ 105 ∷ 99 ∷ 33 ∷ 32 ∷ (s ++ (10 ∷ []))

panic_format-line :
    (s : List ℕ) → printf_loop panic_format (str (some s) ∷ []) ≡ some (panic_line s)
unfolding printf_loop
panic_format-line s = refl

-- After a panic a hart that prints a byte does not come back from it, whatever it holds.
print_bytes-silent :
    (b : ℕ) (bs : List ℕ) (p : Printer) → p.console.panicked ≡ true → print_bytes (b ∷ bs) p ≡ spin
unfolding print_bytes lock_output put_all uart_putc_sync spinlock_acquire push_off spinlock_holding
print_bytes-silent b bs p h = ground arith

-- Where `printf` can print: `panic` writes its line before its endless loop, and from then on
-- no call of `printf` that has a byte to print returns, on any hart.
pub report_panic-silences :
    (s : List ℕ) (p : Printer)
    → p.console.panicked ≡ false
    → CanPrint p
    → (p' : Printer) × (report_panic s p ≡ some (ok p'))
      × (p'.console.sent ≡ p.console.sent ++ panic_line s)
      × ((c : Cpu) (l : Spinlock) (fmt : List ℕ) (args : List Arg) (b : ℕ) (bs : List ℕ)
          → printf_loop fmt args ≡ some (b ∷ bs)
          → printf (some fmt) args (with_lock c l p') ≡ some spin)
unfolding report_panic printf
report_panic-silences s p alive can = (
  raise_panicked (printed (panic_line s) p),
  rw (panic_format-line s, print_bytes-prints (panic_line s) p alive can),
  refl,
  λ c l fmt args b bs h.
      rw (
        h,
        print_bytes-silent b bs (with_lock c l (raise_panicked (printed (panic_line s) p))) refl,
      ),
)

-- A call of `printf` with a format and arguments that fit, on a console that nothing has
-- panicked on, where the lock is free or held by this hart inside an interrupt switch: it
-- returns, the bytes of the format have been sent, a lock that was free is free again and one
-- that was held is held, and the depth of the interrupt switches and, from depth 0, the switch
-- itself are restored.
pub printf-prints :
    (fmt : List ℕ) (args : List Arg) (bs : List ℕ) (p : Printer)
    → printf_loop fmt args ≡ some bs
    → p.console.panicked ≡ false
    → CanPrint p
    → printf (some fmt) args p ≡ some (ok (printed bs p))
unfolding printf
printf-prints fmt args bs p runs alive can = rw (runs, print_bytes-prints bs p alive can)
