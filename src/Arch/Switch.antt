-- ===== src/Arch/Switch.antt =====
-- `push_off` and `pop_off` of lock/spinlock.c on the registers and the array `cpus`.
use biglab.Base.{
  ℕ, ◌+◌, ◌-◌, ◌*◌, ◌/◌, ◌%◌, ◌^◌, ◌≡◌, refl, sym, ◌≢◌, Bool, true, false, not, ◌&&◌, arith, ◌==◌,
  leb, if◌then◌else◌, update, Bool-cases, inl, inr, ap, eq→==, ne→==,
}
use mathlib.Core.Path.{subst}
use biglab.Base.Outcome.{Outcome, ok, panic, and_then}
use biglab.Lock
use biglab.Lock.{Cpu}
use biglab.Arch.{Registers, CpuStruct, Cpus, intr_on, intr_off, intr_get, mycpu, mycpuid}

-- One hart's registers, and the array that all harts share.
pub record Place : Type 0 where
  pub regs : Registers
  pub cpus : Cpus

abbrev enter_switch : Bool → CpuStruct → CpuStruct
enter_switch old c = record c { noff = c.noff + 1; origin = if c.noff == 0 then old else c.origin }

unfoldable pub push_off : Place → Place
push_off s =
    let i = mycpu (intr_off s.regs) in
    record {
      regs = intr_off s.regs;
      cpus = update s.cpus i (enter_switch (intr_get s.regs) (s.cpus i));
    }

abbrev leave_switch : CpuStruct → CpuStruct
leave_switch c = record c { noff = c.noff - 1 }

abbrev intr_on_if : Bool → Registers → Registers
intr_on_if b r = if b then intr_on r else r

unfoldable pub pop_off : Place → Outcome Place
pop_off s =
    let i = mycpu s.regs in
    let c = leave_switch (s.cpus i) in
    if intr_get s.regs
    then panic
    else if not (leb 1 (s.cpus i).noff)
    then panic
    else ok
        (record { regs = intr_on_if ((c.noff == 0) && c.origin) s.regs; cpus = update s.cpus i c })

-- The hart as the lock sees it.
abbrev pub view : Place → Cpu
view s = record {
  hartid = mycpuid s.regs;
  intr = intr_get s.regs;
  noff = (s.cpus (mycpu s.regs)).noff;
  origin = (s.cpus (mycpu s.regs)).origin;
}

-- Apart from its switch a hart keeps its registers and, of the array, the entries of other harts
-- and the running process.
pub record Keeps (s t : Place) : Type 0 where
  pub index : mycpu t.regs ≡ mycpu s.regs
  pub others : (j : ℕ) → j ≢ mycpu s.regs → t.cpus j ≡ s.cpus j
  pub proc : (t.cpus (mycpu s.regs)).proc ≡ (s.cpus (mycpu s.regs)).proc
  pub bits : (t.regs.sstatus / 4 ≡ s.regs.sstatus / 4) × (t.regs.sstatus % 2 ≡ s.regs.sstatus % 2)
  pub registers : t.regs ≡ record s.regs { sstatus = t.regs.sstatus }

intr_get-off : (r : Registers) → intr_get (intr_off r) ≡ false
unfolding intr_get intr_off
intr_get-off r = ground arith

intr_get-on : (r : Registers) → intr_get (intr_on r) ≡ true
unfolding intr_get intr_on
intr_get-on r = ground arith

cleared : (x : ℕ) → ((x - x / 2 % 2 * 2) / 4 ≡ x / 4) × ((x - x / 2 % 2 * 2) % 2 ≡ x % 2)
cleared x = omega arith

set :
    (x : ℕ)
    → ((if (x / 2 % 2) == 1 then x else x + 2) / 4 ≡ x / 4)
      × ((if (x / 2 % 2) == 1 then x else x + 2) % 2 ≡ x % 2)
set x = ground arith

push_off-view : (s : Place) → view (push_off s) ≡ Lock.push_off (view s)
unfolding push_off Lock.push_off mycpu mycpuid intr_off
push_off-view s = let i = s.regs.tp % 2 ^ 32 in rw (eq→== i i refl, intr_get-off s.regs)

push_off-Keeps : (s : Place) → Keeps s (push_off s)
unfolding push_off mycpu intr_off
push_off-Keeps s =
    let i = s.regs.tp % 2 ^ 32 in
    record {
      index = refl;
      others = λ j ne. rw (ne→== i j (λ e. ne (sym e)));
      proc = rw (eq→== i i refl);
      bits = cleared s.regs.sstatus;
      registers = refl;
    }

-- `pop_off` where it does not panic.
abbrev popped : Place → Place
popped s =
    let i = mycpu s.regs in
    let c = leave_switch (s.cpus i) in
    record { regs = intr_on_if ((c.noff == 0) && c.origin) s.regs; cpus = update s.cpus i c }

tp-intr_on_if : (b : Bool) (r : Registers) → (intr_on_if b r).tp ≡ r.tp
unfolding intr_on
tp-intr_on_if true r = refl
tp-intr_on_if false r = refl

intr_get-intr_on_if :
    (b : Bool) (r : Registers) → intr_get r ≡ false → intr_get (intr_on_if b r) ≡ b
intr_get-intr_on_if true r off = intr_get-on r
intr_get-intr_on_if false r off = off

sstatus-intr_on_if :
    (b : Bool) (r : Registers)
    → ((intr_on_if b r).sstatus / 4 ≡ r.sstatus / 4)
      × ((intr_on_if b r).sstatus % 2 ≡ r.sstatus % 2)
unfolding intr_on
sstatus-intr_on_if true r = set r.sstatus
sstatus-intr_on_if false r = (refl, refl)

registers-intr_on_if :
    (b : Bool) (r : Registers) → intr_on_if b r ≡ record r { sstatus = (intr_on_if b r).sstatus }
unfolding intr_on
registers-intr_on_if true r = refl
registers-intr_on_if false r = refl

popped-view :
    (s : Place)
    → intr_get s.regs ≡ false
    → view (popped s) ≡ record (view s) {
      noff = (view s).noff - 1;
      intr = (((view s).noff - 1) == 0) && (view s).origin;
    }
unfolding mycpu mycpuid
popped-view s off =
    let i = s.regs.tp % 2 ^ 32 in
    let c = s.cpus i in
    let b = ((c.noff - 1) == 0) && c.origin in
    rw (tp-intr_on_if b s.regs, intr_get-intr_on_if b s.regs off, eq→== i i refl)

pop_off-view : (s : Place) → and_then (pop_off s) (λ t. ok (view t)) ≡ Lock.pop_off (view s)
unfolding pop_off Lock.pop_off
pop_off-view s = elim (Bool-cases (intr_get s.regs)) [
  | inl on ↦ rw on
  | inr off ↦ elim (Bool-cases (leb 1 (s.cpus (mycpu s.regs)).noff)) [
    | inl deep ↦ rw (off, deep) (ap ok (popped-view s off))
    | inr none ↦ rw (off, none)
  ]
]

popped-Keeps : (s : Place) → Keeps s (popped s)
unfolding mycpu
popped-Keeps s =
    let i = s.regs.tp % 2 ^ 32 in
    let c = s.cpus i in
    let b = ((c.noff - 1) == 0) && c.origin in
    record {
      index = rw (tp-intr_on_if b s.regs);
      others = λ j ne. rw (ne→== i j (λ e. ne (sym e)));
      proc = rw (eq→== i i refl);
      bits = sstatus-intr_on_if b s.regs;
      registers = registers-intr_on_if b s.regs;
    }

pop_off-popped : (s t : Place) → pop_off s ≡ ok t → popped s ≡ t
unfolding pop_off
pop_off-popped s t runs = ground arith

-- On the registers and the entry of `cpus` that `tp` selects, `push_off` and `pop_off` do to the
-- hart's number, its interrupt switch, its depth and the remembered switch what the lock's model
-- of them does, `pop_off` with a panic exactly where that panics. They change of the registers
-- only bit 1 of `sstatus`, and of the array neither the entry of another hart nor the process
-- that runs.
pub switches-refine :
    (s : Place)
    → (view (push_off s) ≡ Lock.push_off (view s))
      × (and_then (pop_off s) (λ t. ok (view t)) ≡ Lock.pop_off (view s))
      × Keeps s (push_off s)
      × ((t : Place) → pop_off s ≡ ok t → Keeps s t)
switches-refine s = (
  push_off-view s,
  pop_off-view s,
  push_off-Keeps s,
  λ t runs. subst (Keeps s) (pop_off-popped s t runs) (popped-Keeps s),
)
