-- ===== src/Devices/Apart.antt =====
-- Which registers the initialisation of a hart reaches.
use biglab.Base.{ℕ, ◌+◌, ◌/◌, ◌%◌, ◌^◌, ◌≤◌, ◌<◌, ◌≡◌, refl, ◌∙◌, ◌≢◌, ◌⊎◌, inl, inr, arith}
use biglab.Base.Word.{add64}
use biglab.Devices.{
  int_of, timer_init, Mmio, Hart, Entries, plic_base, plic_senable, plic_spriority, plic_sclaim,
  clint_mtimecmp, clint_mtime, interval, plic_inithart, plic_complete, set_bit, set_mpp_s, start,
  trap_kernel_inithart,
}

-- NCPU
abbrev pub ncpu : ℕ
ncpu = 2

-- The registers of one hart in the PLIC.
abbrev pub OwnPlic : ℕ → ℕ → Type 0
OwnPlic h a = (a ≡ plic_senable h) ⊎ ((a ≡ plic_spriority h) ⊎ (a ≡ plic_sclaim h))

-- For two different harts below NCPU: the first one's `plic_inithart` and `plic_complete` leave
-- every register of the second in the PLIC as it is, and every address outside the 0x400000
-- bytes from PLIC_BASE on that `kvm_init` maps.
pub plic-apart :
    (h j irq a : ℕ) (io : Mmio)
    → h < ncpu
    → j < ncpu
    → h ≢ j
    → OwnPlic j a ⊎ ((a < plic_base) ⊎ (plic_base + 0x400000 ≤ a))
    → (plic_inithart h io a ≡ io a) × (plic_complete h irq io a ≡ io a)
unfolding plic_inithart plic_complete
plic-apart h j irq a io hh hj ne far = ground arith

-- Bit `k` of a register.
abbrev pub bit : ℕ → ℕ → ℕ
bit k x = x / 2 ^ k % 2

-- When the hart executes `mret`, MPP is S, timer interrupts of machine mode are on, the next one is
-- an interval away, and the hart's number is in tp. Only the hart's own comparison register of the
-- CLINT has changed.
pub record Entered (s : Entries) (h : Hart) (io : Mmio) (h' : Hart) (io' : Mmio) : Type 0 where
  pub mpp : h'.mstatus / 2 ^ 11 % 4 ≡ 1
  pub machine_on : bit 3 h'.mstatus ≡ 1
  pub timer_on : bit 7 h'.mie ≡ 1
  pub target : h'.mepc ≡ s.main
  pub number : h'.tp ≡ h.mhartid
  pub deadline : io' (clint_mtimecmp h.mhartid) ≡ add64 (io clint_mtime) interval
  pub others : (a : ℕ) → a ≢ clint_mtimecmp h.mhartid → io' a ≡ io a

bit-set_bit : (x : ℕ) → (bit 3 (set_bit 3 x) ≡ 1) × (bit 7 (set_bit 7 x) ≡ 1)
bit-set_bit x = (ground arith, ground arith)

set_mpp_fields : (x : ℕ) → (set_mpp_s x / 2 ^ 11 % 4 ≡ 1) × (bit 3 (set_mpp_s x) ≡ bit 3 x)
set_mpp_fields x = (omega arith, omega arith)

-- When a hart whose number is below NCPU executes the `mret` of `start`, whatever its other
-- registers were: the previous mode is S, interrupts of machine mode and its timer are on, it
-- goes on at `main` with its number in tp, its next timer interrupt is one interval away, and no
-- device register but its own comparison register has changed.
pub start-Entered :
    (s : Entries) (h : Hart) (io : Mmio)
    → h.mhartid < ncpu
    → Entered s h io (start s h io).0 (start s h io).1
unfolding start timer_init
start-Entered s h io low = record {
  mpp = (set_mpp_fields (set_bit 3 h.mstatus)).0;
  machine_on = (set_mpp_fields (set_bit 3 h.mstatus)).1 ∙ (bit-set_bit h.mstatus).0;
  timer_on = (bit-set_bit h.mie).1;
  target = refl;
  number = number_is;
  deadline = rw same (ground arith);
  others = λ a ne. rw same (ground arith);
}
  where
    number_is : int_of h.mhartid ≡ h.mhartid
    number_is = ground arith

    again : int_of (int_of h.mhartid) ≡ h.mhartid
    again = rw number_is number_is

    same : clint_mtimecmp (int_of (int_of h.mhartid)) % 2 ^ 64 ≡ clint_mtimecmp h.mhartid
    same = rw again (omega arith)

-- Setting a bit leaves the bits below it, and those above.
bit-set_low : (x : ℕ) → (bit 5 (set_bit 1 x) ≡ bit 5 x) × (bit 9 (set_bit 1 x) ≡ bit 9 x)
bit-set_low x = (ground arith, ground arith)

bit-set_middle : (x : ℕ) → bit 9 (set_bit 5 x) ≡ bit 9 x
bit-set_middle x = ground arith

bit-set_self :
    (x : ℕ) → (bit 1 (set_bit 1 x) ≡ 1) × (bit 5 (set_bit 5 x) ≡ 1) × (bit 9 (set_bit 9 x) ≡ 1)
bit-set_self x = (ground arith, ground arith, ground arith)

-- The software, timer and external interrupts that `trap_kernel_inithart` enables are those that
-- `start` has delegated to supervisor mode.
pub trap_kernel_inithart-delegated :
    (s : Entries) (v : ℕ) (h g : Hart) (io io' : Mmio) (k : ℕ)
    → (k ≡ 1) ⊎ ((k ≡ 5) ⊎ (k ≡ 9))
    → (bit k (trap_kernel_inithart v g io').0.sie ≡ 1) × (bit k (start s h io).0.mideleg ≡ 1)
unfolding start trap_kernel_inithart
trap_kernel_inithart-delegated s v h g io io' k which =
    let nine = set_bit 9 g.sie in
    let five = set_bit 5 nine in
    elim which [
      | inl e ↦ rw e ((bit-set_self five).0, refl)
      | inr (inl e) ↦ rw e ((bit-set_low five).0 ∙ (bit-set_self nine).1, refl)
      | inr (inr e) ↦
          rw e ((bit-set_low five).1 ∙ bit-set_middle nine ∙ (bit-set_self g.sie).2, refl)
    ]
