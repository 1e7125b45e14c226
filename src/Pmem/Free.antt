-- ===== src/Pmem/Free.antt =====
-- What `pmem_free` does on every branch.
use biglab.Base.{
  ℕ, ◌+◌, ◌%◌, ◌≤◌, ◌<◌, ◌≡◌, refl, ◌⊎◌, Bool, true, false, not, ◌&&◌, List, ◌∷◌, arith, ◌==◌, ltb,
  leb, All, Fresh,
}
use biglab.Base.Word.{pgsize, u32}
use biglab.Base.Outcome.{ok, panic}
use biglab.Lock.{spinlock_init}
use biglab.Lock.Sequential.{settle, acquire-ok, release-ok}
use biglab.Memory.{Mem, store64}
use biglab.Memory.Words.{load64-store64_self, store64_out}
use biglab.Machine.{Region, Machine}
use biglab.Pmem.{select_region, put_region, pmem_free}
use biglab.Pmem.Pages.{Chain, Chain-congr, IsPage, IsRegion, FreePages, All-apart, All-map, head-lt}

-- The machine once the page `x` has been given back.
abbrev after : Bool → ℕ → Machine → Machine
after k x m =
    let r = select_region k m in
    put_region k (record r { head = x; allocable = u32 (r.allocable + 1); lk = spinlock_init })
      (record m { cpu = settle m.cpu; mem = store64 m.mem x r.head })

-- The two assertions of `pmem_free`.
abbrev pub accepts : Region → ℕ → Bool
accepts r x = (x % pgsize == 0) && (leb r.begin x && ltb x r.end)

-- A page that is not aligned, or not of the region, makes `pmem_free` panic.
pub pmem_free-refused :
    (k : Bool) (m : Machine) (x : ℕ)
    → accepts (select_region k m) x ≡ false
    → pmem_free x k m ≡ panic
unfolding pmem_free
pmem_free-refused k m x h = ground arith

pmem_free-after :
    (k : Bool) (m : Machine) (x : ℕ)
    → (select_region k m).lk.locked ≡ false
    → (x % pgsize == 0) ≡ true
    → (leb (select_region k m).begin x && ltb x (select_region k m).end) ≡ true
    → pmem_free x k m ≡ ok (tt, after k x m)
unfolding pmem_free
pmem_free-after true m x free al ins =
    rw (al, ins, acquire-ok m.cpu m.kern.lk free, release-ok m.cpu)
pmem_free-after false m x free al ins =
    rw (al, ins, acquire-ok m.cpu m.user.lk free, release-ok m.cpu)

-- What a call that has taken the page `x` back leaves: `x` heads the free list, only the link in
-- its first eight bytes is written, and nothing else has changed.
pub record Freed (k : Bool) (m : Machine) (x : ℕ) (xs : List ℕ) (m' : Machine) : Type 0 where
  pub free : FreePages m'.mem (select_region k m') (x ∷ xs)
  pub same : (a : ℕ) → (a < x) ⊎ (x + 8 ≤ a) → m'.mem a ≡ m.mem a
  pub kept : IsRegion (select_region k m')
  pub begin : (select_region k m').begin ≡ (select_region k m).begin
  pub end : (select_region k m').end ≡ (select_region k m).end
  pub other : select_region (not k) m' ≡ select_region (not k) m
  pub pool : m'.pool ≡ m.pool
  pub proc : m'.proc ≡ m.proc

Chain-store64 :
    (mem : Mem) (r : Region) (x v : ℕ) (xs : List ℕ)
    → IsPage r x
    → All (IsPage r) xs
    → Fresh x xs
    → (p : ℕ) → Chain mem p xs
    → Chain (store64 mem x v) p xs
Chain-store64 mem r x v xs ip ips f p c =
    Chain-congr mem _ p xs
      (All-map xs (λ y apart i lt. store64_out mem x v (y + i) (omega arith))
        (All-apart r x xs ip ips f))
      c

pub FreePages-store64 :
    (mem : Mem) (r : Region) (x : ℕ) (xs : List ℕ)
    → IsRegion r
    → FreePages mem r xs
    → IsPage r x
    → Fresh x xs
    → FreePages
        (store64 mem x r.head)
        (record r { head = x; allocable = u32 (r.allocable + 1); lk = spinlock_init })
        (x ∷ xs)
FreePages-store64 mem r x xs ir f ip fresh = record {
  chain = (
    refl,
    rw (load64-store64_self mem x r.head (head-lt mem r xs ir f))
        (Chain-store64 mem r x r.head xs ip f.pages fresh r.head f.chain),
  );
  pages = (
    record { aligned = ip.aligned; above = ip.above; below = ip.below },
    All-map xs (λ y p. record { aligned = p.aligned; above = p.above; below = p.below }) f.pages,
  );
  distinct = (fresh, f.distinct);
  count = let c = f.count in omega arith;
  lk_free = refl;
}

after-Freed :
    (k : Bool) (m : Machine) (x : ℕ) (xs : List ℕ)
    → IsRegion (select_region k m)
    → FreePages m.mem (select_region k m) xs
    → IsPage (select_region k m) x
    → Fresh x xs
    → Freed k m x xs (after k x m)
after-Freed true m x xs ir f ip fresh = record {
  free = FreePages-store64 m.mem m.kern x xs ir f ip fresh;
  same = λ a out. store64_out m.mem x m.kern.head a out;
  kept = omega arith;
  begin = refl;
  end = refl;
  other = refl;
  pool = refl;
  proc = refl;
}
after-Freed false m x xs ir f ip fresh = record {
  free = FreePages-store64 m.mem m.user x xs ir f ip fresh;
  same = λ a out. store64_out m.mem x m.user.head a out;
  kept = omega arith;
  begin = refl;
  end = refl;
  other = refl;
  pool = refl;
  proc = refl;
}

-- With a free lock and a list of different pages of the region: `pmem_free` of an aligned page
-- of the region that is not on the list puts it at the head of the list and changes no more of
-- memory than the link in that page.
pub pmem_free-cons :
    (k : Bool) (m : Machine) (x : ℕ) (xs : List ℕ)
    → IsRegion (select_region k m)
    → FreePages m.mem (select_region k m) xs
    → IsPage (select_region k m) x
    → Fresh x xs
    → (m' : Machine) × (pmem_free x k m ≡ ok (tt, m')) × Freed k m x xs m'
pmem_free-cons k m x xs ir f ip fresh = (
  after k x m,
  pmem_free-after k m x f.lk_free (ground arith) (ground arith),
  after-Freed k m x xs ir f ip fresh,
)
