-- ===== src/Heap/Growing.antt =====
-- The heap calls where they map pages and unmap them again.
use biglab.Base.{
  ℕ, zero, suc, ◌+◌, ◌*◌, ◌/◌, ◌%◌, ◌^◌, ◌≤◌, ◌<◌, ◌≡◌, refl, sym, ◌∙◌, ap, ◌≢◌, true, false, List,
  [], ◌∷◌, ◌++◌, arith, lt→ltb, le→ltb, lt→leb, ne→==, length,
}
use mathlib.Core.Path.{subst}
use biglab.Base.Word.{va_max, pgsize, add64, sub64, pg_round_up, mmap_begin}
use biglab.Base.Outcome.{ok}
use biglab.Machine.{Machine}
use biglab.Pmem.{pmem_alloc}
use biglab.Kvm.{is_v, vm_mappages, vm_unmappages}
use biglab.Kvm.Backed.{entry, Backed, Frees, vm_unmappages-Frees}
use biglab.Kvm.AddPage.{add_page}
use biglab.Kvm.Filled.{Fills, Fills-nil, Fills-cons}
use biglab.Heap.{user_data, grow_loop, uvm_heap_grow, uvm_heap_ungrow}
use biglab.Heap.Bounds.{with_top}

pub data_small : user_data < 1024
data_small = omega arith

module _ (root base : ℕ) (t1 t0 : ℕ → ℕ) (n : ℕ) (al : base % 4096 ≡ 0)
    (fits : base + n * 4096 ≤ va_max) where
  abbrev HeapFills : Machine → ℕ → List ℕ → List ℕ → Machine → Type 0
  HeapFills = Fills root base t1 t0 n al fits user_data data_small

  grow_round :
      (k old_pg new_pg va pa : ℕ) (m m1 m2 : Machine)
      → va < new_pg
      → pa ≢ 0
      → pmem_alloc false m ≡ ok (pa, m1)
      → vm_mappages m1.proc.pgtbl va pa pgsize user_data m1 ≡ ok (tt, m2)
      → grow_loop (suc k) old_pg new_pg va m ≡ grow_loop k old_pg new_pg (add64 va pgsize) m2
  unfolding grow_loop
  grow_round k old_pg new_pg va pa m m1 m2 lt nz runs maps =
      rw (lt→ltb va new_pg lt, runs, ne→== pa 0 nz, maps)

  grow_loop-Fills :
      (k i old_pg : ℕ) (ys zs : List ℕ) (m : Machine)
      → length ys < k
      → i + length ys ≤ n
      → m.user.end ≤ 2 ^ 56
      → m.proc.pgtbl ≡ root
      → Backed root base t1 t0 n m.mem m.user (ys ++ zs)
      → ((j : ℕ) → i ≤ j → j < i + length ys → is_v (entry root base t1 t0 n m.mem j) ≡ false)
      → (m' : Machine) × (grow_loop k old_pg (base + (i + length ys) * 4096) (base + i * 4096) m
          ≡ ok (0, m'))
        × HeapFills m i ys zs m'
  unfolding grow_loop
  grow_loop-Fills zero i old_pg ys zs m fuel le low table b none = absurd (omega arith)
  grow_loop-Fills (suc k) i old_pg [] zs m fuel le low table b none = (
    m,
    rw (le→ltb (base + i * 4096) (base + (i + 0) * 4096) (omega arith)),
    Fills-nil root base t1 t0 n al fits user_data data_small m i zs b,
  )
  grow_loop-Fills (suc k) i old_pg (pa ∷ ys) zs m fuel le low table b none =
      let (m1, m2, runs, proc1, maps, f) =
        add_page root base t1 t0 n al fits user_data data_small m i pa (ys ++ zs) (omega arith) low
          b (none i (omega arith) (omega arith)) in
      let (m3, rest, g) =
        grow_loop-Fills k (suc i) old_pg ys zs m2 (omega arith) (omega arith) (omega (arith, f.end))
          (ap (λ p. p.pgtbl) f.proc ∙ table) f.backed
          (λ j lo hi.
            ap is_v (f.stay j (omega arith) (λ e. absurd (omega arith)))
            ∙ none j (omega arith) (omega arith)) in
      let next : add64 (base + i * 4096) pgsize ≡ base + suc i * 4096 = omega arith in
      let to_end : base + (i + suc (length ys)) * 4096 ≡ base + (suc i + length ys) * 4096 =
        omega arith in
      let at_table : vm_mappages m1.proc.pgtbl (base + i * 4096) pa pgsize user_data m1
          ≡ ok (tt, m2) =
        subst (λ r. vm_mappages r (base + i * 4096) pa pgsize user_data m1 ≡ ok (tt, m2))
          (sym (ap (λ p. p.pgtbl) proc1 ∙ table)) maps in
      let nz : pa ≢ 0 = let k = b.kept in let p = b.free.pages.0.above in omega arith in
      (
        m3,
        grow_round k old_pg (base + (i + suc (length ys)) * 4096) (base + i * 4096) pa m m1 m2
              (omega arith) nz runs at_table
            ∙ rw (to_end, next) rest,
        Fills-cons root base t1 t0 n al fits user_data data_small m m2 m3 i pa ys zs (omega arith) b
            f g,
      )

  grow-runs :
      (m m1 : Machine) (new_top old_pg new_pg : ℕ)
      → pg_round_up m.proc.heap_top ≡ old_pg
      → pg_round_up new_top ≡ new_pg
      → old_pg < new_pg
      → new_pg ≤ mmap_begin
      → grow_loop (sub64 new_pg old_pg / 4096 + 1) old_pg new_pg old_pg m ≡ ok (0, m1)
      → uvm_heap_grow new_top m ≡ ok (0, with_top m1 new_top)
  unfolding uvm_heap_grow
  grow-runs m m1 new_top old_pg new_pg o e lt le runs =
      rw (o, e, lt→leb new_pg old_pg lt, le→ltb mmap_begin new_pg le, runs)

  ungrow-runs :
      (m m1 : Machine) (new_top old_pg new_pg : ℕ)
      → pg_round_up m.proc.heap_top ≡ old_pg
      → pg_round_up new_top ≡ new_pg
      → new_pg < old_pg
      → vm_unmappages m.proc.pgtbl new_pg (sub64 old_pg new_pg) true m ≡ ok (tt, m1)
      → uvm_heap_ungrow new_top m ≡ ok (0, with_top m1 new_top)
  unfolding uvm_heap_ungrow
  ungrow-runs m m1 new_top old_pg new_pg o e lt runs = rw (o, e, lt→ltb new_pg old_pg lt, runs)

  -- For a process with page tables for a run of pages below VA_MAX, in which every page that is
  -- mapped has a page of the user region of its own, in use, and tables and entries lie outside that
  -- region, which ends below 2^56, and apart; where the pages that growing to `new_top` adds lie in
  -- the run and below MMAP_BEGIN, at least one, are not mapped, and as many user pages are free:
  -- `uvm_heap_grow` returns 0 with the new top, and has mapped each new page with R, W and U to a
  -- zeroed page of its own, in the order of the free list, and changed no other entry of the run.
  -- `uvm_heap_ungrow` back to the old top then returns 0 with that top, and none of these pages is
  -- mapped any more.
  pub uvm_heap_ungrow-uvm_heap_grow :
      (m : Machine) (new_top i : ℕ) (ys zs : List ℕ)
      → m.proc.pgtbl ≡ root
      → m.user.end ≤ 2 ^ 56
      → Backed root base t1 t0 n m.mem m.user (ys ++ zs)
      → 0 < length ys
      → i + length ys ≤ n
      → pg_round_up m.proc.heap_top ≡ base + i * 4096
      → pg_round_up new_top ≡ base + (i + length ys) * 4096
      → base + (i + length ys) * 4096 ≤ mmap_begin
      → ((j : ℕ) → i ≤ j → j < i + length ys → is_v (entry root base t1 t0 n m.mem j) ≡ false)
      → (m1 : Machine) × (m2 : Machine) × (uvm_heap_grow new_top m ≡ ok (0, with_top m1 new_top))
        × HeapFills m i ys zs m1
        × (uvm_heap_ungrow m.proc.heap_top (with_top m1 new_top)
            ≡ ok (0, with_top m2 m.proc.heap_top))
        × Frees root base t1 t0 n (with_top m1 new_top) m2 i (length ys)
  uvm_heap_ungrow-uvm_heap_grow m new_top i ys zs table low b some_page le old new below none =
      let c = length ys in
      let old_pg = base + i * 4096 in
      let new_pg = base + (i + c) * 4096 in
      let (m1, grows, f) =
        grow_loop-Fills (sub64 new_pg old_pg / 4096 + 1) i old_pg ys zs m (omega arith) le low table
          b none in
      let up = with_top m1 new_top in
      let (m2, unmaps, g) =
        vm_unmappages-Frees root base t1 t0 n up i c old_pg (sub64 new_pg old_pg) zs al refl
          (omega arith) some_page le fits f.backed in
      (
        m1,
        m2,
        grow-runs m m1 new_top old_pg new_pg old new (omega arith) below grows,
        f,
        ungrow-runs up m2 m.proc.heap_top new_pg old_pg new old (omega arith) (
            subst (λ r. vm_unmappages r old_pg (sub64 new_pg old_pg) true up ≡ ok (tt, m2))
              (sym (ap (λ p. p.pgtbl) f.proc ∙ table)) unmaps),
        g,
      )
