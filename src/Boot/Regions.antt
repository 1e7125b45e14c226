-- ===== src/Boot/Regions.antt =====
-- The two regions that `pmem_init` leaves.
use biglab.Base.{ℕ, ◌+◌, ◌-◌, ◌/◌, ◌%◌, ◌^◌, ◌<◌, ◌≡◌, inl, List, arith, lt→ltb, le→leb, eq→==}
use mathlib.Core.Path.{subst}
use biglab.Base.Word.{add64, pgsize}
use biglab.Base.Outcome.{ok}
use biglab.Memory.{Mem}
use biglab.Machine.{Region, Machine}
use biglab.Pmem.{region_setup}
use biglab.Pmem.Pages.{Chain-congr, All-map, IsPage-bounds, IsRegion, FreePages}
use biglab.Pmem.Setup.{pages_down, region_setup-FreePages, SameOutside}
use biglab.Boot.{Layout, kern_bytes, pmem_init}

-- A linker layout with room for the kernel's pages.
pub record IsLayout (l : Layout) : Type 0 where
  pub begin_aligned : l.alloc_begin % 4096 ≡ 0
  pub end_aligned : l.alloc_end % 4096 ≡ 0
  pub not_null : 0 < l.alloc_begin
  pub kernel_fits : l.alloc_begin + kern_bytes < l.alloc_end
  pub fits : l.alloc_end + 4096 < 2 ^ 64

-- Setting up a range behind a region leaves the region's list.
FreePages-below :
    (mem mem' : Mem) (r : Region) (end : ℕ) (xs : List ℕ)
    → IsRegion r
    → SameOutside r.end end mem mem'
    → FreePages mem r xs
    → FreePages mem' r xs
FreePages-below mem mem' r end xs ir same f = record {
  chain =
      Chain-congr mem mem' r.head xs
        (All-map xs (λ y p i lt. let b = IsPage-bounds r y ir p in same (y + i) (inl (omega arith)))
          f.pages)
        f.chain;
  pages = f.pages;
  distinct = f.distinct;
  count = f.count;
  lk_free = f.lk_free;
}

pmem_init-runs :
    (l : Layout) (m : Machine) (mem1 mem2 : Mem) (r1 r2 : Region)
    → IsLayout l
    → region_setup
        ((l.alloc_begin + kern_bytes - l.alloc_begin) / 4096 + 1)
        m.mem
        l.alloc_begin
        (l.alloc_begin + kern_bytes)
      ≡ ok (mem1, r1)
    → region_setup
        ((l.alloc_end - (l.alloc_begin + kern_bytes)) / 4096 + 1)
        mem1
        (l.alloc_begin + kern_bytes)
        l.alloc_end
      ≡ ok (mem2, r2)
    → pmem_init l m ≡ ok (tt, record m { mem = mem2; kern = r1; user = r2 })
unfolding pmem_init
pmem_init-runs l m mem1 mem2 r1 r2 il runs1 runs2 =
    let at_end : add64 l.alloc_begin kern_bytes ≡ l.alloc_begin + kern_bytes = omega arith in
    rw (
      eq→== (l.alloc_begin % pgsize) 0 (omega arith),
      eq→== (l.alloc_end % pgsize) 0 (omega arith),
      lt→ltb l.alloc_begin l.alloc_end (omega arith),
      at_end,
      le→leb (l.alloc_begin + kern_bytes) l.alloc_end (omega arith),
      runs1,
      runs2,
    )

-- For aligned bounds in the address space, not at 0, with room for more than the kernel's 1024
-- pages: after `pmem_init` each of these 1024 pages is on the kernel's free list once, and each
-- page behind them on the user's.
pub pmem_init-FreePages :
    (l : Layout) (m : Machine)
    → IsLayout l
    → (m' : Machine) × (pmem_init l m ≡ ok (tt, m'))
      × FreePages m'.mem m'.kern (pages_down l.alloc_begin 1024)
      × FreePages m'.mem m'.user (
          pages_down
            (l.alloc_begin + kern_bytes)
            ((l.alloc_end - (l.alloc_begin + kern_bytes)) / 4096))
pmem_init-FreePages l m il =
    let a = l.alloc_begin in
    let b = a + kern_bytes in
    let pages : (b - a) / 4096 ≡ 1024 = omega arith in
    let (mem1, r1, runs1, begin1, end1, f1, _) =
      region_setup-FreePages m.mem a b (omega arith) (omega arith) in
    let (mem2, r2, runs2, begin2, end2, f2, same) =
      region_setup-FreePages mem1 b l.alloc_end (omega arith) (omega arith) in
    (
      record m { mem = mem2; kern = r1; user = r2 },
      pmem_init-runs l m mem1 mem2 r1 r2 il runs1 runs2,
      FreePages-below mem1 mem2 r1 l.alloc_end (pages_down a 1024) (omega arith)
          (λ q out. same q (omega arith))
          (subst (λ n. FreePages mem1 r1 (pages_down a n)) pages f1),
      f2,
    )
