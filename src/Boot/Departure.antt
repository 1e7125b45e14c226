-- ===== src/Boot/Departure.antt =====
-- How `proc_make_first` (proc/proc.c) leaves for the user program.
use biglab.Base.{
  ℕ, ◌+◌, ◌*◌, ◌/◌, ◌%◌, ◌^◌, ◌≤◌, ◌<◌, ◌≡◌, refl, ◌⊎◌, false, List, ◌∷◌, none, arith, lt→leb,
}
use biglab.Base.Word.{va_max}
use biglab.Base.Outcome.{ok}
use biglab.Memory.{load64}
use biglab.Machine.{Machine}
use biglab.Kvm.{vm_getpte, walk_from, descend}
use biglab.Kvm.Walk.{entry_at}
use biglab.Trap.{Symbols, Return, make_satp}
use biglab.Boot.{Start, proc_make_first}
use biglab.Boot.Prepared.{Prepared}
use biglab.Boot.Make.{code_size, leaving}
use biglab.Boot.FirstProcess.{proc_make_first-Made}

-- An address whose entry in the root table is 0 has no entry.
vm_getpte-empty :
    (m : Machine) (root va : ℕ)
    → va < va_max
    → load64 m.mem (entry_at root va 2) ≡ 0
    → vm_getpte root va false m ≡ ok (none, m)
unfolding vm_getpte walk_from descend
vm_getpte-empty m root va lt e = rw (lt→leb va_max va lt, e)

-- Under the conditions of `proc_make_first-Made`, and with the kernel's region between 2^30 and
-- 255 * 2^30, as memory at 0x80000000 is: `proc_make_first` leaves for `user_return` with its new
-- page table and the trap frame's physical address, for which that table has no entry.
pub proc_make_first-unmapped :
    (m : Machine) (s : Symbols) (st : Start) (tf root x y x2 y2 stack code : ℕ) (ks us : List ℕ)
    → Prepared m (tf ∷ root ∷ x ∷ y ∷ x2 ∷ y2 ∷ ks) (stack ∷ code ∷ us)
    → 2 ^ 30 ≤ m.kern.begin
    → m.kern.end ≤ 255 * 2 ^ 30
    → s.trampoline % 4096 ≡ 0
    → s.trampoline < 2 ^ 56
    → (st.satp < 2 ^ 64) × (st.handler < 2 ^ 64) × (st.hartid < 2 ^ 64)
    → (m.kern.end ≤ st.initcode) ⊎ (st.initcode + code_size st ≤ m.kern.begin)
    → (m.user.end ≤ st.initcode) ⊎ (st.initcode + code_size st ≤ m.user.begin)
    → ((i : ℕ) → i < code_size st → m.mem (st.initcode + i) < 256)
    → (m' : Machine) × (r : Return) × (proc_make_first s st m ≡ ok (r, m'))
      × (r.satp ≡ make_satp root)
      × (vm_getpte root r.tf false m' ≡ ok (none, m'))
proc_make_first-unmapped m s st tf root x y x2 y2 stack code ks us h lo hi al lt regs ko uo bytes =
    let (m', runs, d) =
      proc_make_first-Made m s st tf root x y x2 y2 stack code ks us h al lt regs ko uo bytes in
    let ip = h.kern_free.pages.0 in
    let above = ip.above in
    let below = ip.below in
    let index : tf / 2 ^ 30 % 512 ≡ tf / 2 ^ 30 = omega arith in
    (
      m',
      leaving s st tf root,
      runs,
      refl,
      vm_getpte-empty m' root tf (omega arith) (
          rw index (
            d.space.only_root (tf / 2 ^ 30) (omega arith) (λ e. absurd (omega arith))
              (λ e. absurd (omega arith)))),
    )
