-- ===== src/Kvm/Build.antt =====
-- `vm_getpte` with leave to allocate, where the tables for the address are missing.
use biglab.Base.{
  ℕ, ◌+◌, ◌-◌, ◌%◌, ◌^◌, ◌≤◌, ◌<◌, ◌≡◌, refl, ◌∙◌, ap, ◌≢◌, ◌⊎◌, true, false, List, ◌∷◌, some,
  bit_or, arith, lt→leb, ne→==, All,
}
use biglab.Base.Word.{va_max}
use biglab.Base.Outcome.{ok}
use biglab.Memory.{Mem, load64, store64}
use biglab.Memory.Words.{load64-store64_self, load64-congr, load64-zero, store64_out}
use biglab.Machine.{Machine}
use biglab.Pmem.{pmem_alloc}
use biglab.Pmem.Pages.{Chain-congr, IsPage-bounds, IsRegion, FreePages, All-apart, All-map}
use biglab.Pmem.Alloc.{pmem_alloc-cons}
use biglab.Kvm.{is_v, descend, walk_from, vm_getpte, pa_to_pte}
use biglab.Kvm.Entry.{table_pte}
use biglab.Kvm.Walk.{entry_at, LeadsTo, Path3}
use biglab.Kvm.Apart.{LeadsTo-congr}

-- None of the pages meets the page of the table.
abbrev pub Clear : ℕ → List ℕ → Type 0
Clear table ys = All (λ y. (y + 4096 ≤ table) ⊎ (table + 4096 ≤ y)) ys

pub FreePages-write :
    (m : Machine) (table a v : ℕ) (xs : List ℕ)
    → table ≤ a
    → a + 8 ≤ table + 4096
    → Clear table xs
    → FreePages m.mem m.kern xs
    → FreePages (store64 m.mem a v) m.kern xs
FreePages-write m table a v xs lo hi clear f = record {
  chain =
      Chain-congr m.mem _ m.kern.head xs
        (All-map xs (λ y away i lt. store64_out m.mem a v (y + i) (omega arith)) clear) f.chain;
  pages = f.pages;
  distinct = f.distinct;
  count = f.count;
  lk_free = f.lk_free;
}

-- A new table `x`, empty, in the entry for `va` of `table`; all other bytes are as before and the
-- pages `xs` are still free.
pub record Linked (m : Machine) (table va level x : ℕ) (xs : List ℕ) (m' : Machine) : Type 0 where
  pub leads : LeadsTo m'.mem table va level x
  pub empty : (i : ℕ) → i < 4096 → m'.mem (x + i) ≡ 0
  pub same :
      (b : ℕ)
      → (b < x) ⊎ (x + 4096 ≤ b)
      → (b < entry_at table va level) ⊎ (entry_at table va level + 8 ≤ b)
      → m'.mem b ≡ m.mem b
  pub free : FreePages m'.mem m'.kern xs
  pub region : IsRegion m'.kern
  pub begin : m'.kern.begin ≡ m.kern.begin
  pub end : m'.kern.end ≡ m.kern.end
  pub user : m'.user ≡ m.user
  pub proc : m'.proc ≡ m.proc

pub entry_at_bounds :
    (table va level : ℕ)
    → (table ≤ entry_at table va level) × (entry_at table va level + 8 ≤ table + 4096)
entry_at_bounds table va level = omega arith

descend-runs :
    (m m1 : Machine) (a x v : ℕ)
    → is_v (load64 m.mem a) ≡ false
    → pmem_alloc true m ≡ ok (x, m1)
    → x ≢ 0
    → v ≡ bit_or (pa_to_pte x) 1
    → x < 2 ^ 56
    → x % 4096 ≡ 0
    → descend a true m ≡ ok (some x, record m1 { mem = store64 m1.mem a v })
unfolding descend
descend-runs m m1 a x v inv runs ne e lt al =
    let (pa, _, inner, fits) = table_pte x lt al in
    rw (
      inv,
      runs,
      ne→== x 0 ne,
      e,
      load64-store64_self m1.mem a (bit_or (pa_to_pte x) 1) fits,
      inner,
      pa,
    )

descend-Linked :
    (m : Machine) (table va level x : ℕ) (xs : List ℕ)
    → is_v (load64 m.mem (entry_at table va level)) ≡ false
    → IsRegion m.kern
    → m.kern.end ≤ 2 ^ 56
    → FreePages m.mem m.kern (x ∷ xs)
    → Clear table (x ∷ xs)
    → (m' : Machine) × (descend (entry_at table va level) true m ≡ ok (some x, m'))
      × Linked m table va level x xs m'
descend-Linked m table va level x xs inv ir low f clear =
    let (ip, _) = f.pages in
    let (away, aways) = clear in
    let (above, below) = entry_at_bounds table va level in
    let bounds = IsPage-bounds m.kern x ir ip in
    let lt : x < 2 ^ 56 = omega arith in
    let (m1, runs, al) = pmem_alloc-cons true m x xs ir f in
    let a = entry_at table va level in
    let v = bit_or (pa_to_pte x) 1 in
    let (pa, valid, inner, fits) = table_pte x lt ip.aligned in
    let self = load64-store64_self m1.mem a v fits in
    (
      record m1 { mem = store64 m1.mem a v },
      descend-runs m m1 a x v inv runs (omega arith) refl lt ip.aligned,
      record {
        leads = record { valid = rw self valid; inner = rw self inner; target = rw self pa };
        empty = λ i h. store64_out m1.mem a v (x + i) (omega arith) ∙ al.zeroed i h;
        same = λ b out apart. store64_out m1.mem a v b apart ∙ al.same b out;
        free = FreePages-write m1 table a v xs above below aways al.free;
        region = al.kept;
        begin = al.begin;
        end = al.end;
        user = al.other;
        proc = al.proc;
      },
    )

-- The entries of a table of zeros are 0.
pub zeros-entry :
    (mem : Mem) (x va level : ℕ)
    → ((i : ℕ) → i < 4096 → mem (x + i) ≡ 0)
    → load64 mem (entry_at x va level) ≡ 0
zeros-entry mem x va level z =
    let (lo, hi) = entry_at_bounds x va level in
    load64-zero mem (entry_at x va level) λ i lt.
      let e : entry_at x va level + i ≡ x + (entry_at x va level + i - x) = omega arith in
      ap mem e ∙ z _ (omega arith)

-- What `vm_getpte` leaves where it has to make both tables, `x` and below it `y`: the path, zeros in
-- the rest of both tables, and the pages `xs`, still free; outside of the new tables and the one
-- entry of the root no byte has changed, nor has the user region or the process.
pub record Built (m : Machine) (root va x y : ℕ) (xs : List ℕ) (m' : Machine) : Type 0 where
  pub path : Path3 m'.mem root va x y
  pub empty : (i : ℕ) → i < 4096 → m'.mem (y + i) ≡ 0
  pub rest :
      (i : ℕ)
      → i < 4096
      → (x + i < entry_at x va 1) ⊎ (entry_at x va 1 + 8 ≤ x + i)
      → m'.mem (x + i) ≡ 0
  pub same :
      (b : ℕ)
      → (b < x) ⊎ (x + 4096 ≤ b)
      → (b < y) ⊎ (y + 4096 ≤ b)
      → (b < entry_at root va 2) ⊎ (entry_at root va 2 + 8 ≤ b)
      → m'.mem b ≡ m.mem b
  pub free : FreePages m'.mem m'.kern xs
  pub region : IsRegion m'.kern
  pub begin : m'.kern.begin ≡ m.kern.begin
  pub end : m'.kern.end ≡ m.kern.end
  pub user : m'.user ≡ m.user
  pub proc : m'.proc ≡ m.proc

Linked-Built :
    (m m1 m2 : Machine) (root va x y : ℕ) (xs : List ℕ)
    → va < va_max
    → (x + 4096 ≤ root) ⊎ (root + 4096 ≤ x)
    → (y + 4096 ≤ root) ⊎ (root + 4096 ≤ y)
    → (y + 4096 ≤ x) ⊎ (x + 4096 ≤ y)
    → Linked m root va 2 x (y ∷ xs) m1
    → Linked m1 x va 1 y xs m2
    → Built m root va x y xs m2
Linked-Built m m1 m2 root va x y xs lt away away' two l1 l2 =
    let (rlo, rhi) = entry_at_bounds root va 2 in
    let (xlo, xhi) = entry_at_bounds x va 1 in
    record {
      path = record {
        below = lt;
        first =
            LeadsTo-congr m1.mem m2.mem root va 2 x
              (load64-congr m2.mem m1.mem _ λ i h. l2.same _ (omega arith) (omega arith)) l1.leads;
        second = l2.leads;
      };
      empty = l2.empty;
      rest = λ i h out. l2.same (x + i) (omega arith) out ∙ l1.empty i h;
      same = λ b ox oy oe. l2.same b oy (omega arith) ∙ l1.same b ox oe;
      free = l2.free;
      region = l2.region;
      begin = l2.begin ∙ l1.begin;
      end = l2.end ∙ l1.end;
      user = l2.user ∙ l1.user;
      proc = l2.proc ∙ l1.proc;
    }

vm_getpte-descends :
    (m m1 m2 : Machine) (root va x y : ℕ)
    → va < va_max
    → descend (entry_at root va 2) true m ≡ ok (some x, m1)
    → descend (entry_at x va 1) true m1 ≡ ok (some y, m2)
    → vm_getpte root va true m ≡ ok (some (entry_at y va 0), m2)
unfolding vm_getpte walk_from
vm_getpte-descends m m1 m2 root va x y lt first second = rw (lt→leb va_max va lt, first, second)

-- For an address below VA_MAX whose entry in the root table is not valid, with at least two free
-- kernel pages, `x` and `y` the first of them, all free pages outside the root table, and the
-- kernel region in the address space and up to 2^56: `vm_getpte` with `alloc` builds the path
-- over `x` to `y` and returns the entry for the address in `y`. The new tables are zero but for
-- the entry that leads from `x` to `y`, the two pages leave the free list, outside of them and
-- of the one entry of the root table no byte changes, and the user region and the process are as
-- before.
pub vm_getpte-builds :
    (m : Machine) (root va x y : ℕ) (xs : List ℕ)
    → va < va_max
    → is_v (load64 m.mem (entry_at root va 2)) ≡ false
    → IsRegion m.kern
    → m.kern.end ≤ 2 ^ 56
    → FreePages m.mem m.kern (x ∷ y ∷ xs)
    → Clear root (x ∷ y ∷ xs)
    → (m' : Machine) × (vm_getpte root va true m ≡ ok (some (entry_at y va 0), m'))
      × Built m root va x y xs m'
vm_getpte-builds m root va x y xs lt inv ir low f clear =
    let (m1, first, l1) = descend-Linked m root va 2 x (y ∷ xs) inv ir low f clear in
    let apart = All-apart m.kern x (y ∷ xs) f.pages.0 f.pages.1 f.distinct.0 in
    let zero_entry = zeros-entry m1.mem x va 1 l1.empty in
    let (m2, second, l2) =
      descend-Linked m1 x va 1 y xs (ap is_v zero_entry ∙ refl) l1.region (omega (arith, l1.end))
        l1.free apart in
    (
      m2,
      vm_getpte-descends m m1 m2 root va x y lt first second,
      Linked-Built m m1 m2 root va x y xs lt clear.0 clear.1.0 apart.0 l1 l2,
    )
