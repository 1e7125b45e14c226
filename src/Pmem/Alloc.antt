-- ===== src/Pmem/Alloc.antt =====
-- What `pmem_alloc` does on every branch.
use biglab.Base.{
  ℕ, ◌+◌, ◌-◌, ◌^◌, ◌≤◌, ◌<◌, ◌≡◌, refl, ◌≢◌, ◌⊎◌, Bool, true, false, not, List, [], ◌∷◌, arith,
  ne→==, eq→==, All, Fresh,
}
use mathlib.Core.Path.{subst}
use biglab.Base.Word.{pgsize, u32}
use biglab.Base.Outcome.{ok, panic}
use biglab.Lock.{spinlock_init}
use biglab.Lock.Sequential.{settle, acquire-ok, release-ok}
use biglab.Memory.{Mem, load64, memset}
use biglab.Memory.Blocks.{memset_in, memset_out}
use biglab.Machine.{Region, Machine}
use biglab.Pmem.{select_region, put_region, pmem_alloc}
use biglab.Pmem.Pages.{Chain, Chain-congr, IsPage, IsRegion, FreePages, All-apart, All-map}

-- The machine once the page `x` has been given out.
abbrev after : Bool → ℕ → Machine → Machine
after k x m =
    let r = select_region k m in
    put_region k
      (record r {
        head = load64 m.mem x;
        allocable = u32 (r.allocable + 2 ^ 32 - 1);
        lk = spinlock_init;
      })
      (record m { cpu = settle m.cpu; mem = memset m.mem x 0 pgsize })

pmem_alloc-after :
    (k : Bool) (m : Machine)
    → (select_region k m).lk.locked ≡ false
    → (select_region k m).head ≢ 0
    → pmem_alloc k m ≡ ok ((select_region k m).head, after k (select_region k m).head m)
unfolding pmem_alloc
pmem_alloc-after true m free ne =
    rw (acquire-ok m.cpu m.kern.lk free, ne→== m.kern.head 0 ne, release-ok m.cpu)
pmem_alloc-after false m free ne =
    rw (acquire-ok m.cpu m.user.lk free, ne→== m.user.head 0 ne, release-ok m.cpu)

pmem_alloc-empty :
    (k : Bool) (m : Machine)
    → (select_region k m).lk.locked ≡ false
    → (select_region k m).head ≡ 0
    → pmem_alloc k m ≡ panic
unfolding pmem_alloc
pmem_alloc-empty true m free e =
    rw (acquire-ok m.cpu m.kern.lk free, eq→== m.kern.head 0 e, release-ok m.cpu)
pmem_alloc-empty false m free e =
    rw (acquire-ok m.cpu m.user.lk free, eq→== m.user.head 0 e, release-ok m.cpu)

-- What a call that has given out the page `x` leaves: the page is zeroed, every other byte, the
-- other region, the mmap nodes and the process are as before, and the other pages stay free.
pub record Allocated (k : Bool) (m : Machine) (x : ℕ) (xs : List ℕ) (m' : Machine) : Type 0 where
  pub zeroed : (i : ℕ) → i < 4096 → m'.mem (x + i) ≡ 0
  pub same : (a : ℕ) → (a < x) ⊎ (x + 4096 ≤ a) → m'.mem a ≡ m.mem a
  pub free : FreePages m'.mem (select_region k m') xs
  pub kept : IsRegion (select_region k m')
  pub begin : (select_region k m').begin ≡ (select_region k m).begin
  pub end : (select_region k m').end ≡ (select_region k m).end
  pub other : select_region (not k) m' ≡ select_region (not k) m
  pub pool : m'.pool ≡ m.pool
  pub proc : m'.proc ≡ m.proc

-- The chain of the pages that stay free survives the clearing of the page given out.
Chain-memset :
    (mem : Mem) (r : Region) (x : ℕ) (xs : List ℕ)
    → IsPage r x
    → All (IsPage r) xs
    → Fresh x xs
    → (p : ℕ) → Chain mem p xs
    → Chain (memset mem x 0 4096) p xs
Chain-memset mem r x xs ip ips f p c =
    Chain-congr mem _ p xs
      (All-map xs (λ y apart i lt. memset_out mem x 0 4096 (y + i) (omega arith))
        (All-apart r x xs ip ips f))
      c

FreePages-memset :
    (mem : Mem) (r : Region) (x : ℕ) (xs : List ℕ)
    → FreePages mem r (x ∷ xs)
    → FreePages
        (memset mem x 0 4096)
        (record r {
          head = load64 mem x;
          allocable = u32 (r.allocable + 2 ^ 32 - 1);
          lk = spinlock_init;
        })
        xs
FreePages-memset mem r x xs f = record {
  chain = Chain-memset mem r x xs f.pages.0 f.pages.1 f.distinct.0 (load64 mem x) f.chain.1;
  pages =
      All-map xs (λ y p. record { aligned = p.aligned; above = p.above; below = p.below })
        f.pages.1;
  distinct = f.distinct.1;
  count = let c = f.count in omega arith;
  lk_free = refl;
}

after-Allocated :
    (k : Bool) (m : Machine) (x : ℕ) (xs : List ℕ)
    → IsRegion (select_region k m)
    → FreePages m.mem (select_region k m) (x ∷ xs)
    → Allocated k m x xs (after k x m)
after-Allocated true m x xs ir f = record {
  zeroed = λ i lt. memset_in m.mem x 0 4096 (x + i) (omega arith) (omega arith);
  same = λ a out. memset_out m.mem x 0 4096 a out;
  free = FreePages-memset m.mem m.kern x xs f;
  kept = omega arith;
  begin = refl;
  end = refl;
  other = refl;
  pool = refl;
  proc = refl;
}
after-Allocated false m x xs ir f = record {
  zeroed = λ i lt. memset_in m.mem x 0 4096 (x + i) (omega arith) (omega arith);
  same = λ a out. memset_out m.mem x 0 4096 a out;
  free = FreePages-memset m.mem m.user x xs f;
  kept = omega arith;
  begin = refl;
  end = refl;
  other = refl;
  pool = refl;
  proc = refl;
}

-- With a free lock and a list of different pages of the region, of which `x` is the first:
-- `pmem_alloc` returns `x`, zeroed, and takes it off the list; nothing else in memory changes,
-- nor do the other region, the mmap nodes and the process.
pub pmem_alloc-cons :
    (k : Bool) (m : Machine) (x : ℕ) (xs : List ℕ)
    → IsRegion (select_region k m)
    → FreePages m.mem (select_region k m) (x ∷ xs)
    → (m' : Machine) × (pmem_alloc k m ≡ ok (x, m')) × Allocated k m x xs m'
pmem_alloc-cons k m x xs ir f = (
  after k x m,
  subst (λ y. pmem_alloc k m ≡ ok (y, after k y m)) f.chain.0
      (pmem_alloc-after k m f.lk_free not_null),
  after-Allocated k m x xs ir f,
)
  where
    not_null : (select_region k m).head ≢ 0
    not_null = let p = f.pages.0 in let c = f.chain.0 in omega arith

-- With a free lock and no free page in the region `pmem_alloc` panics.
pub pmem_alloc-nil :
    (k : Bool) (m : Machine) → FreePages m.mem (select_region k m) [] → pmem_alloc k m ≡ panic
pmem_alloc-nil k m f = pmem_alloc-empty k m f.lk_free f.chain
