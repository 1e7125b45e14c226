-- ===== src/Stack/Grow.antt =====
-- `uvm_ustack_grow` for a fault on the page below the stack.
use biglab.Base.{
  ℕ, ◌+◌, ◌-◌, ◌*◌, ◌/◌, ◌%◌, ◌^◌, ◌≤◌, ◌<◌, ◌≡◌, refl, ap, sym, ◌≢◌, ◌∙◌, false, List, ◌∷◌, arith,
  lt→leb, le→ltb, ne→==,
}
use mathlib.Core.Path.{subst}
use biglab.Base.Word.{sub64, pgsize, pg_round_down, mmap_end, va_max}
use biglab.Base.Outcome.{ok}
use biglab.Memory.{Mem, load64}
use biglab.Memory.Words.{load64-congr}
use biglab.Machine.{Machine}
use biglab.Pmem.{pmem_alloc}
use biglab.Pmem.Pages.{IsPage, IsPage-bounds, IsRegion, FreePages}
use biglab.Pmem.Alloc.{pmem_alloc-cons, Allocated}
use biglab.Kvm.{make_pte, vm_mappages}
use biglab.Kvm.Walk.{entry_at, Path3}
use biglab.Kvm.Apart.{leaf, Tables, Path3-congr}
use biglab.Kvm.Map.{Mapped, vm_mappages-maps, with_mem}
use biglab.Kvm.Unmap.{Outside}
use biglab.Stack.{ustack_top, stack_page, uvm_ustack_grow}

module _ (root va t1 t0 : ℕ) where
  abbrev one : ℕ → ℕ
  one i = t1

  abbrev zeroth : ℕ → ℕ
  zeroth i = t0

  -- The tables of the page outlast the clearing of a page of the region that they lie outside of.
  Tables-Allocated :
      (m m1 : Machine) (x : ℕ) (xs : List ℕ)
      → IsRegion m.user
      → IsPage m.user x
      → Allocated false m x xs m1
      → ((i : ℕ) → i < 1 → Outside m.user (entry_at root (va + i * 4096) 2))
      → ((i : ℕ) → i < 1 → Outside m.user (entry_at t1 (va + i * 4096) 1))
      → Tables root va one zeroth m.mem 1
      → Tables root va one zeroth m1.mem 1
  Tables-Allocated m m1 x xs ir ip a out2 out1 t = record {
    path = λ i lt.
        let b = IsPage-bounds m.user x ir ip in
        let o2 = out2 i lt in
        let o1 = out1 i lt in
        Path3-congr m.mem m1.mem root (va + i * 4096) t1 t0
          (load64-congr m1.mem m.mem _ (λ j h. a.same _ (omega arith)))
          (load64-congr m1.mem m.mem _ (λ j h. a.same _ (omega arith))) (t.path i lt);
    apart = t.apart;
    apart_first = t.apart_first;
    apart_second = t.apart_second;
  }

  -- What the growth by one page leaves: the entry of the page at `va` holds the physical page `x`
  -- with the flags U, R and W, and the stack has one page more.
  pub record Grown (m : Machine) (x : ℕ) (m' : Machine) : Type 0 where
    pub path : Path3 m'.mem root (va + 0 * 4096) t1 t0
    pub entry : load64 m'.mem (leaf root va one zeroth 0) ≡ make_pte (x + 0 * 4096) 22
    pub npages : m'.proc.ustack_npage ≡ m.proc.ustack_npage + 1
    pub heap : m'.proc.heap_top ≡ m.proc.heap_top
    pub regions : m'.proc.mmap ≡ m.proc.mmap

  stack_page-runs :
      (m m1 : Machine) (x : ℕ) (mem' : Mem)
      → pmem_alloc false m ≡ ok (x, m1)
      → x ≢ 0
      → vm_mappages m1.proc.pgtbl va x 4096 22 m1 ≡ ok (tt, with_mem m1 mem')
      → stack_page va m ≡ ok (0, with_mem m1 mem')
  unfolding stack_page
  stack_page-runs m m1 x mem' runs ne maps = rw (runs, ne→== x 0 ne, maps)

  -- The machine once the stack's pages have been counted again.
  abbrev counted : Machine → ℕ → Machine
  counted m n = record m { proc = record m.proc { ustack_npage = n } }

  uvm_ustack_grow-runs :
      (m m2 : Machine) (fault_va : ℕ)
      → m.proc.ustack_npage < 2 ^ 20
      → va + 4096 ≡ ustack_top m.proc.ustack_npage
      → va ≤ fault_va
      → fault_va < va + 4096
      → mmap_end ≤ fault_va
      → stack_page va m ≡ ok (0, m2)
      → uvm_ustack_grow fault_va m ≡ ok (0, counted m2 (m.proc.ustack_npage + 1))
  unfolding uvm_ustack_grow
  uvm_ustack_grow-runs m m2 fault_va small top h1 h2 h3 runs =
      let page : pg_round_down fault_va ≡ va = omega arith in
      let pages : sub64 (va_max - 2 * 4096) va / 4096 ≡ m.proc.ustack_npage + 1 = omega arith in
      rw (
        lt→leb (ustack_top m.proc.ustack_npage) fault_va (omega arith),
        le→ltb fault_va mmap_end h3,
        page,
        le→ltb va (sub64 (ustack_top m.proc.ustack_npage) pgsize) (omega arith),
        runs,
        pages,
      )

  stack_page-maps :
      (m : Machine) (x : ℕ) (xs : List ℕ)
      → m.proc.pgtbl ≡ root
      → IsRegion m.user
      → FreePages m.mem m.user (x ∷ xs)
      → m.user.end < 2 ^ 55
      → va % 4096 ≡ 0
      → va + 4096 ≤ va_max
      → ((i : ℕ) → i < 1 → Outside m.user (entry_at root (va + i * 4096) 2))
      → ((i : ℕ) → i < 1 → Outside m.user (entry_at t1 (va + i * 4096) 1))
      → Tables root va one zeroth m.mem 1
      → (m1 : Machine) × (mem' : Mem) × (stack_page va m ≡ ok (0, with_mem m1 mem'))
        × (m1.proc ≡ m.proc)
        × Mapped root va x 22 one zeroth m1 1 mem'
  stack_page-maps m x xs r ir f phys al fits out2 out1 t =
      let (ip, _) = f.pages in
      let b = IsPage-bounds m.user x ir ip in
      let (m1, runs, a) = pmem_alloc-cons false m x xs ir f in
      let root1 : m1.proc.pgtbl ≡ root = ap (λ p. p.pgtbl) a.proc ∙ r in
      let (mem', maps, mapped) =
        vm_mappages-maps root va x 22 one zeroth m1 4096 al (let h = ip.aligned in h) (omega arith)
          (omega arith) fits (omega arith) (Tables-Allocated m m1 x xs ir ip a out2 out1 t) in
      let maps' : vm_mappages m1.proc.pgtbl va x 4096 22 m1 ≡ ok (tt, with_mem m1 mem') =
        subst (λ q. vm_mappages q va x 4096 22 m1 ≡ ok (tt, with_mem m1 mem')) (sym root1) maps in
      (m1, mem', stack_page-runs m m1 x mem' runs (omega arith) maps', a.proc, mapped)

  -- For a fault on the page below a stack of fewer than 2^20 pages, above MMAP_END, with a
  -- free lock, a list of different free pages of the user region below 2^55, of which `x` is
  -- the first, and tables for the page whose inner entries lie outside that region:
  -- `uvm_ustack_grow` returns 0, maps `x` at that page with the flags U, R and W, counts the
  -- page, and leaves the top of the heap and the list of mmap regions.
  pub uvm_ustack_grow-maps :
      (m : Machine) (fault_va x : ℕ) (xs : List ℕ)
      → m.proc.pgtbl ≡ root
      → m.proc.ustack_npage < 2 ^ 20
      → va + 4096 ≡ ustack_top m.proc.ustack_npage
      → va ≤ fault_va
      → fault_va < va + 4096
      → mmap_end ≤ fault_va
      → IsRegion m.user
      → FreePages m.mem m.user (x ∷ xs)
      → m.user.end < 2 ^ 55
      → ((i : ℕ) → i < 1 → Outside m.user (entry_at root (va + i * 4096) 2))
      → ((i : ℕ) → i < 1 → Outside m.user (entry_at t1 (va + i * 4096) 1))
      → Tables root va one zeroth m.mem 1
      → (m' : Machine) × (uvm_ustack_grow fault_va m ≡ ok (0, m')) × Grown m x m'
  uvm_ustack_grow-maps m fault_va x xs r small top h1 h2 h3 ir f phys out2 out1 t =
      let al : va % 4096 ≡ 0 = omega arith in
      let (m1, mem', runs, p, mapped) =
        stack_page-maps m x xs r ir f phys al (omega arith) out2 out1 t in
      (
        counted (with_mem m1 mem') (m.proc.ustack_npage + 1),
        uvm_ustack_grow-runs m (with_mem m1 mem') fault_va small top h1 h2 h3 runs,
        record {
          path = mapped.path 0 (omega arith);
          entry = mapped.entry 0 (omega arith);
          npages = refl;
          heap = ap (λ q. q.heap_top) p;
          regions = ap (λ q. q.mmap) p;
        },
      )
