-- ===== src/Kvm/Walk.antt =====
-- `vm_getpte` against the path of entries that leads to a virtual address.
use biglab.Base.{
  ℕ, zero, suc, ◌+◌, ◌*◌, ◌≤◌, ◌<◌, ◌≡◌, refl, ◌≢◌, inl, inr, Bool, true, false, Option, none, some,
  arith, leb, lt→leb, le→leb, if◌then◌else◌, Bool-cases, Option-cases, on_some,
}
use native.Mathlib.Decide.{dec_lt}
use biglab.Base.Word.{va_max}
use biglab.Base.Outcome.{ok}
use biglab.Memory.{Mem, load64}
use biglab.Machine.{Machine}
use biglab.Kvm.{va_to_vpn, pte_to_pa, is_v, pte_check, descend, walk_from, vm_getpte}

-- The address of the entry for `va` in a table of the given level.
abbrev pub entry_at : ℕ → ℕ → ℕ → ℕ
entry_at table va level = table + 8 * va_to_vpn va level

-- The entry for `va` in `table` leads to the table `next`.
pub record LeadsTo (mem : Mem) (table va level next : ℕ) : Type 0 where
  pub valid : is_v (load64 mem (entry_at table va level)) ≡ true
  pub inner : pte_check (load64 mem (entry_at table va level)) ≡ true
  pub target : pte_to_pa (load64 mem (entry_at table va level)) ≡ next

-- From `root` the entries for `va` lead over `t1` to the last table `t0`.
pub record Path3 (mem : Mem) (root va t1 t0 : ℕ) : Type 0 where
  pub below : va < va_max
  pub first : LeadsTo mem root va 2 t1
  pub second : LeadsTo mem t1 va 1 t0

descend-ok :
    (m : Machine) (table va level next : ℕ) (alloc : Bool)
    → LeadsTo m.mem table va level next
    → descend (entry_at table va level) alloc m ≡ ok (some next, m)
unfolding descend
descend-ok m table va level next alloc l = rw (l.valid, l.inner, l.target)

-- Where the tables for an address exist, `vm_getpte` returns the address of its entry and changes
-- nothing, whether or not it may allocate.
pub vm_getpte-found :
    (m : Machine) (root va t1 t0 : ℕ) (alloc : Bool)
    → Path3 m.mem root va t1 t0
    → vm_getpte root va alloc m ≡ ok (some (entry_at t0 va 0), m)
unfolding vm_getpte walk_from
vm_getpte-found m root va t1 t0 alloc p = rw (
  lt→leb va_max va p.below,
  descend-ok m root va 2 t1 alloc p.first,
  descend-ok m t1 va 1 t0 alloc p.second,
)

-- An address outside the address space has no entry.
pub vm_getpte-outside :
    (m : Machine) (root va : ℕ) (alloc : Bool)
    → va_max ≤ va
    → vm_getpte root va alloc m ≡ ok (none, m)
unfolding vm_getpte
vm_getpte-outside m root va alloc h = rw (le→leb va_max va h)

-- The table that an entry leads to, if it does.
abbrev next_table : ℕ → Option ℕ
next_table e = if is_v e then (if pte_check e then some (pte_to_pa e) else none) else none

descend-false : (m : Machine) (a : ℕ) → descend a false m ≡ ok (next_table (load64 m.mem a), m)
unfolding descend
descend-false m a = ground arith

next_table-LeadsTo :
    (mem : Mem) (table va level next : ℕ)
    → next_table (load64 mem (entry_at table va level)) ≡ some next
    → LeadsTo mem table va level next
next_table-LeadsTo mem table va level next e = record {
  valid = ground arith;
  inner = ground arith;
  target = ground arith;
}

-- The entry for an address as memory alone determines it.
lookup_from : Mem → ℕ → ℕ → ℕ → Option ℕ
lookup_from mem zero table va = some (entry_at table va 0)
lookup_from mem (suc level) table va =
    on_some (next_table (load64 mem (entry_at table va (suc level)))) none
      λ next. lookup_from mem level next va

unfoldable pub lookup : Mem → ℕ → ℕ → Option ℕ
unfolding lookup_from
lookup mem root va = if leb va_max va then none else lookup_from mem 2 root va

walk_from-lookup :
    (m : Machine) (level table va : ℕ)
    → walk_from level table va false m ≡ ok (lookup_from m.mem level table va, m)
unfolding walk_from lookup_from
walk_from-lookup m zero table va = refl
walk_from-lookup m (suc level) table va =
    rw (descend-false m (entry_at table va (suc level)))
      (elim (Option-cases (next_table (load64 m.mem (entry_at table va (suc level))))) [
        | inl e ↦ rw e
        | inr (t, e) ↦ rw e (walk_from-lookup m level t va)
      ])

-- Without leave to allocate `vm_getpte` changes nothing on any branch, and its result depends on
-- the address and memory only.
pub vm_getpte-lookup :
    (m : Machine) (root va : ℕ) → vm_getpte root va false m ≡ ok (lookup m.mem root va, m)
unfolding vm_getpte lookup
vm_getpte-lookup m root va = elim (Bool-cases (leb va_max va)) [
  | inl e ↦ rw e
  | inr e ↦ rw e (walk_from-lookup m 2 root va)
]

LeadsTo-next_table :
    (mem : Mem) (table va level next : ℕ)
    → LeadsTo mem table va level next
    → next_table (load64 mem (entry_at table va level)) ≡ some next
LeadsTo-next_table mem table va level next l = rw (l.valid, l.inner, l.target)

-- What is found at a path is the entry at its end.
pub lookup-Path3 :
    (mem : Mem) (root va t1 t0 : ℕ)
    → Path3 mem root va t1 t0
    → lookup mem root va ≡ some (entry_at t0 va 0)
unfolding lookup lookup_from
lookup-Path3 mem root va t1 t0 p = rw (
  lt→leb va_max va p.below,
  LeadsTo-next_table mem root va 2 t1 p.first,
  LeadsTo-next_table mem t1 va 1 t0 p.second,
)

-- Nothing is found below an entry of the root that is not valid.
pub lookup-empty :
    (mem : Mem) (root va : ℕ)
    → va < va_max
    → is_v (load64 mem (entry_at root va 2)) ≡ false
    → lookup mem root va ≡ none
unfolding lookup lookup_from
lookup-empty mem root va lt empty = rw (lt→leb va_max va lt, empty)

lookup-eq-some :
    (mem : Mem) (root va a : ℕ)
    → lookup mem root va ≡ some a
    → (t1 : ℕ) × (t0 : ℕ) × Path3 mem root va t1 t0 × (a ≡ entry_at t0 va 0)
unfolding lookup lookup_from
lookup-eq-some mem root va a h = elim (dec_lt va va_max) [
  | no out ↦ absurd (not_some (rw (le→leb va_max va (omega arith)) at h))
  | yes lt ↦
      upper lt (next_table (load64 mem (entry_at root va 2))) refl (rw (lt→leb va_max va lt) at h)
]
  where
    not_some : ◌≢◌ {A = Option ℕ} none (some a)
    not_some = cc

    lower :
        va < va_max
        → (t1 : ℕ) → LeadsTo mem root va 2 t1
        → (o : Option ℕ) → next_table (load64 mem (entry_at t1 va 1)) ≡ o
        → on_some o none (λ t0. some (entry_at t0 va 0)) ≡ some a
        → (t1 : ℕ) × (t0 : ℕ) × Path3 mem root va t1 t0 × (a ≡ entry_at t0 va 0)
    lower lt t1 first none e h = absurd (not_some h)
    lower lt t1 first (some t0) e h = (
      t1,
      t0,
      record { below = lt; first = first; second = next_table-LeadsTo mem t1 va 1 t0 e },
      ground arith,
    )

    upper :
        va < va_max
        → (o : Option ℕ) → next_table (load64 mem (entry_at root va 2)) ≡ o
        → on_some o none (λ t1. lookup_from mem 1 t1 va) ≡ some a
        → (t1 : ℕ) × (t0 : ℕ) × Path3 mem root va t1 t0 × (a ≡ entry_at t0 va 0)
    upper lt none e h = absurd (not_some h)
    upper lt (some t1) e h = lower lt t1 (next_table-LeadsTo mem root va 2 t1 e) _ refl h

-- Whatever `vm_getpte` finds without allocating is the entry at the end of a path of valid inner
-- entries, for an address below VA_MAX.
pub vm_getpte_sound :
    (m m' : Machine) (root va a : ℕ)
    → vm_getpte root va false m ≡ ok (some a, m')
    → (t1 : ℕ) × (t0 : ℕ) × Path3 m.mem root va t1 t0 × (a ≡ entry_at t0 va 0)
vm_getpte_sound m m' root va a h =
    lookup-eq-some m.mem root va a (ground (arith, vm_getpte-lookup m root va))
