-- ===== src/Kvm/Map.antt =====
-- `vm_mappages` on every branch, where the tables for its pages exist.
use biglab.Base.{
  ℕ, zero, suc, ◌+◌, ◌*◌, ◌/◌, ◌%◌, ◌^◌, ◌≤◌, ◌<◌, ◌≡◌, refl, ◌≢◌, ◌⊎◌, ◌∙◌, true, arith, ltb,
  lt→ltb, le→ltb, le→leb, eq→==,
}
use mathlib.Core.Path.{subst₂}
use native.Mathlib.Decide.{dec_lt}
use biglab.Base.Word.{va_max, pgsize, add64}
use biglab.Base.Outcome.{ok, panic}
use biglab.Memory.{Mem, load64, store64}
use biglab.Memory.Words.{load64-store64_self, load64-store64_ne}
use biglab.Machine.{Machine}
use biglab.Kvm.{make_pte, map_page, map_loop, vm_mappages, whole_pages}
use biglab.Kvm.Entry.{make_pte_fields}
use biglab.Kvm.Walk.{entry_at, Path3, vm_getpte-found}
use biglab.Kvm.Apart.{Apart, leaf, Tables, Tables-store64}

abbrev pub with_mem : Machine → Mem → Machine
with_mem m mem = record m { mem = mem }

pub map_page-found :
    (m : Machine) (root va t1 t0 pa perm : ℕ)
    → Path3 m.mem root va t1 t0
    → map_page root va pa perm m
      ≡ ok (tt, with_mem m (store64 m.mem (entry_at t0 va 0) (make_pte pa perm)))
unfolding map_page
map_page-found m root va t1 t0 pa perm p = rw (vm_getpte-found m root va t1 t0 true p)

module _ (root va pa perm : ℕ) (t1 t0 : ℕ → ℕ) where
  abbrev entry_of : ℕ → ℕ
  entry_of i = make_pte (pa + i * 4096) perm

  -- Memory after the entries of the pages from `i` on, `n` of them, have been written.
  written : Mem → ℕ → ℕ → Mem
  written mem zero i = mem
  written mem (suc n) i = written (store64 mem (leaf root va t1 t0 i) (entry_of i)) n (suc i)

  map_loop-written :
      (k n i total : ℕ) (m : Machine)
      → i + n ≡ total
      → n < k
      → va + total * 4096 ≤ va_max
      → pa + total * 4096 < 2 ^ 56
      → Tables root va t1 t0 m.mem total
      → map_loop k root (va + total * 4096) (va + i * 4096) (pa + i * 4096) perm m
        ≡ ok (tt, with_mem m (written m.mem n i))
  unfolding map_loop written
  map_loop-written zero n i total m e fuel fits phys t = absurd (omega arith)
  map_loop-written (suc k) zero i total m e fuel fits phys t =
      rw (le→ltb (va + i * 4096) (va + total * 4096) (omega arith))
  map_loop-written (suc k) (suc n) i total m e fuel fits phys t =
      let test : ltb (va + i * 4096) (va + total * 4096) ≡ true = lt→ltb _ _ (omega arith) in
      let to_va : add64 (va + i * 4096) pgsize ≡ va + suc i * 4096 = omega arith in
      let to_pa : add64 (pa + i * 4096) pgsize ≡ pa + suc i * 4096 = omega arith in
      rw
        (
          test,
          map_page-found m root (va + i * 4096) (t1 i) (t0 i) (pa + i * 4096) perm
              (t.path i (omega arith)),
          to_va,
          to_pa,
        )
        (map_loop-written k n (suc i) total _ (omega arith) (omega arith) fits phys
          (Tables-store64 root va t1 t0 m.mem total i (entry_of i) (omega arith) t))

  -- A word apart from the entries written is as before.
  written_out :
      (n i b : ℕ) (mem : Mem)
      → ((j : ℕ) → i ≤ j → j < i + n → Apart (leaf root va t1 t0 j) b)
      → load64 (written mem n i) b ≡ load64 mem b
  unfolding written
  written_out zero i b mem h = refl
  written_out (suc n) i b mem h =
      written_out n (suc i) b _ (λ j le lt. h j (omega arith) (omega arith))
      ∙ load64-store64_ne mem (leaf root va t1 t0 i) b (entry_of i)
          (let a = h i (omega arith) (omega arith) in omega arith)

  written_in :
      (n i j total : ℕ) (mem : Mem)
      → i + n ≡ total
      → i ≤ j
      → j < total
      → pa + total * 4096 < 2 ^ 56
      → pa % 4096 ≡ 0
      → perm < 1024
      → ((a b : ℕ)
          → a < total
          → b < total
          → a ≢ b
          → Apart (leaf root va t1 t0 a) (leaf root va t1 t0 b))
      → load64 (written mem n i) (leaf root va t1 t0 j) ≡ entry_of j
  unfolding written
  written_in zero i j total mem e le lt phys al small h = absurd (omega arith)
  written_in (suc n) i j total mem e le lt phys al small h = elim (dec_lt i j) [
    | yes later ↦ written_in n (suc i) j total _ (omega arith) later lt phys al small h
    | no now ↦
        let here : j ≡ i = omega arith in
        rw here (
          written_out n (suc i) (leaf root va t1 t0 i) _
            (λ a lo hi. h a i (omega arith) (omega arith) (omega arith))
          ∙ load64-store64_self mem (leaf root va t1 t0 i) (entry_of i)
              (make_pte_fields (pa + i * 4096) perm (omega arith) (omega arith) small).3)
  ]

  Tables-written :
      (n i total : ℕ) (mem : Mem)
      → i + n ≡ total
      → Tables root va t1 t0 mem total
      → Tables root va t1 t0 (written mem n i) total
  unfolding written
  Tables-written zero i total mem e t = t
  Tables-written (suc n) i total mem e t =
      Tables-written n (suc i) total _ (omega arith)
        (Tables-store64 root va t1 t0 mem total i (entry_of i) (omega arith) t)

  -- What a call that maps `n` pages leaves: every page is found at its entry, which holds its
  -- physical page and its flags, and words apart from these entries are as before.
  pub record Mapped (m : Machine) (n : ℕ) (mem' : Mem) : Type 0 where
    pub entry : (i : ℕ) → i < n → load64 mem' (leaf root va t1 t0 i) ≡ make_pte (pa + i * 4096) perm
    pub path : (i : ℕ) → i < n → Path3 mem' root (va + i * 4096) (t1 i) (t0 i)
    pub same :
        (b : ℕ)
        → ((i : ℕ) → i < n → Apart (leaf root va t1 t0 i) b)
        → load64 mem' b ≡ load64 m.mem b

  -- For an aligned, not empty range below VA_MAX whose tables exist, with entries apart from
  -- each other and from the inner entries, aligned physical pages below 2^55 and flags below
  -- bit 10: `vm_mappages` ends, maps every page of the range to its physical page with the
  -- flags asked for, and changes no other word of memory and nothing else of the state.
  pub vm_mappages-maps :
      (m : Machine) (len : ℕ)
      → va % 4096 ≡ 0
      → pa % 4096 ≡ 0
      → perm < 1024
      → 0 < len
      → va + len ≤ va_max
      → pa + len < 2 ^ 55
      → Tables root va t1 t0 m.mem ((len + 4095) / 4096)
      → (mem' : Mem) × (vm_mappages root va pa len perm m ≡ ok (tt, with_mem m mem'))
        × Mapped m ((len + 4095) / 4096) mem'
  unfolding vm_mappages
  vm_mappages-maps m len al pal small pos fits phys t = (
    written m.mem n 0,
    rw
        (
          eq→== (va % pgsize) 0 al,
          eq→== (pa % pgsize) 0 pal,
          lt→ltb 0 len pos,
          le→leb (add64 va len) va_max (omega arith),
          last,
        )
        loop,
    record {
      entry = λ i lt.
          written_in n 0 i n m.mem (omega arith) (omega arith) lt (omega arith) pal small t.apart;
      path = (Tables-written n 0 n m.mem (omega arith) t).path;
      same = λ b h. written_out n 0 b m.mem (λ j lo hi. h j (omega arith));
    },
  )
    where
      n : ℕ
      n = (len + 4095) / 4096

      last : add64 va (whole_pages len) ≡ va + n * 4096
      last = omega arith

      va_first : va + 0 * 4096 ≡ va
      va_first = omega arith

      pa_first : pa + 0 * 4096 ≡ pa
      pa_first = omega arith

      loop :
          map_loop (len / pgsize + 2) root (va + n * 4096) va pa perm m
          ≡ ok (tt, with_mem m (written m.mem n 0))
      loop =
          subst₂
            (λ v p.
              map_loop (len / pgsize + 2) root (va + n * 4096) v p perm m
              ≡ ok (tt, with_mem m (written m.mem n 0)))
            va_first pa_first
            (map_loop-written (len / 4096 + 2) n 0 n m (omega arith) (omega arith) (omega arith)
              (omega arith) t)

-- An address that is not aligned, an empty range and one that passes VA_MAX make `vm_mappages`
-- panic before it changes anything.
pub vm_mappages-refused :
    (m : Machine) (root va pa len perm : ℕ)
    → ((va % 4096 ≢ 0) ⊎ (pa % 4096 ≢ 0)) ⊎ ((len ≡ 0) ⊎ (va_max < add64 va len))
    → vm_mappages root va pa len perm m ≡ panic
unfolding vm_mappages
vm_mappages-refused m root va pa len perm h = ground arith
