-- ===== src/Lock/Sequential.antt =====
-- What the nested interrupt switches and one lock do on a single hart.
use biglab.Base.{
  ℕ, zero, suc, ◌+◌, ◌^◌, ◌<◌, ◌≡◌, refl, ◌∙◌, ap, true, false, some, arith, ◌==◌, if◌then◌else◌,
}
use biglab.Base.Outcome.{Outcome, ok, panic, spin, and_then}
use biglab.Lock.{
  Cpu, Spinlock, push_off, pop_off, spinlock_init, spinlock_holding, spinlock_acquire,
  spinlock_release,
}

-- `n` calls in a row.
unfoldable pub push_offs : ℕ → Cpu → Cpu
push_offs zero c = c
push_offs (suc n) c = push_off (push_offs n c)

unfoldable pub pop_offs : ℕ → Cpu → Outcome Cpu
pop_offs zero c = ok c
pop_offs (suc n) c = and_then (pop_off c) (pop_offs n)

-- The state once every switch has been undone: only the remembered one may differ, and interrupts
-- are on if they were on before the outermost switch.
abbrev pub settle : Cpu → Cpu
settle c = record c {
  intr = if c.noff == 0 then c.intr else false;
  origin = if c.noff == 0 then c.intr else c.origin;
}

-- The state inside `n + 1` switches.
abbrev inside : ℕ → Cpu → Cpu
inside n c = record c {
  intr = false;
  noff = c.noff + suc n;
  origin = if c.noff == 0 then c.intr else c.origin;
}

push_offs-inside : (n : ℕ) (c : Cpu) → push_offs (suc n) c ≡ inside n c
unfolding push_offs push_off
push_offs-inside zero c = ground arith
push_offs-inside (suc n) c = ap push_off (push_offs-inside n c) ∙ ground arith

pop_off-inside-suc : (n : ℕ) (c : Cpu) → pop_off (inside (suc n) c) ≡ ok (inside n c)
unfolding pop_off
pop_off-inside-suc n c = ground arith

pop_off-inside-zero : (c : Cpu) → pop_off (inside 0 c) ≡ ok (settle c)
unfolding pop_off
pop_off-inside-zero c = ground arith

pop_offs-inside : (n : ℕ) (c : Cpu) → pop_offs (suc n) (inside n c) ≡ ok (settle c)
unfolding pop_offs
pop_offs-inside zero c = rw (pop_off-inside-zero c)
pop_offs-inside (suc n) c = rw (pop_off-inside-suc n c) (pop_offs-inside n c)

-- Up to a depth below 2^31, which an int holds, `n + 1` calls of `push_off` followed by `n + 1`
-- calls of `pop_off` never panic, and restore the depth and, from depth 0, the interrupt switch;
-- below an enclosing `push_off` interrupts are off at the end.
pub pop_offs-push_offs :
    (n : ℕ) (c : Cpu)
    → c.noff + suc n < 2 ^ 31
    → pop_offs (suc n) (push_offs (suc n) c) ≡ ok (settle c)
pop_offs-push_offs n c small = rw (push_offs-inside n c) (pop_offs-inside n c)

abbrev pub taken : Cpu → Spinlock
taken c = record { locked = true; cpuid = some c.hartid }

pub acquire-ok :
    (c : Cpu) (l : Spinlock) → l.locked ≡ false → spinlock_acquire c l ≡ ok (push_off c, taken c)
unfolding spinlock_acquire
acquire-ok c l h = ground arith

pub release-ok : (c : Cpu) → spinlock_release (push_off c) (taken c) ≡ ok (settle c, spinlock_init)
unfolding spinlock_release push_off
release-ok c = ground arith

-- Taking a lock that is not taken succeeds with interrupts off, and the release that follows
-- gives back a free lock, the depth of the switches and, from depth 0, the interrupt switch.
pub release-acquire :
    (c : Cpu) (l : Spinlock)
    → l.locked ≡ false
    → (and_then (spinlock_acquire c l) (λ (c', l'). spinlock_release c' l')
        ≡ ok (settle c, spinlock_init))
      × ((push_off c).intr ≡ false)
unfolding push_off
release-acquire c l h = (rw (acquire-ok c l h) (release-ok c), refl)

-- Every other use of a lock is refused: a hart that holds it panics on `spinlock_acquire`, one that
-- does not hold it waits there while it is taken, and panics on `spinlock_release`.
pub lock_misuse :
    (c : Cpu) (l : Spinlock)
    → (spinlock_holding c l ≡ true → spinlock_acquire c l ≡ panic)
      × (l.locked ≡ true → spinlock_holding c l ≡ false → spinlock_acquire c l ≡ spin)
      × (spinlock_holding c l ≡ false → spinlock_release c l ≡ panic)
unfolding spinlock_acquire spinlock_release
lock_misuse c l = ground arith
