-- ===== src/Pmem/Holds.antt =====
-- The state of the allocator against the abstract state of `Pmem/Spec`.
use biglab.Base.{
  ℕ, ◌+◌, ◌≤◌, ◌<◌, ◌≡◌, sym, ◌⊎◌, inl, inr, ap, Bool, true, false, not, List, ◌++◌, arith, All,
  Fresh, Distinct,
}
use mathlib.Core.Path.{subst}
use biglab.Memory.{Mem}
use biglab.Machine.{Region, Machine}
use biglab.Pmem.{select_region}
use biglab.Pmem.Pages.{Chain-congr, IsPage, IsPage-bounds, IsRegion, FreePages, All-apart, All-map}
use biglab.Pmem.Spec.{Pages, Spec, region_pages, with_pages}

-- A region and its free list are as the lists say, and all pages of both lists are different.
pub record Holds (mem : Mem) (r : Region) (p : Pages) : Type 0 where
  pub region : IsRegion r
  pub free : FreePages mem r p.free
  pub used : All (IsPage r) p.used
  pub distinct : Distinct (p.used ++ p.free)

-- The state of the kernel shows the abstract state; the kernel's region lies below the user's.
pub record Shows (m : Machine) (s : Spec) : Type 0 where
  pub holds : (k : Bool) → Holds m.mem (select_region k m) (region_pages k s)
  pub apart : m.kern.end ≤ m.user.begin

-- The links of all free pages are as before.
unfoldable pub Links : Mem → Mem → List ℕ → Type 0
Links mem mem' xs = All (λ y. (i : ℕ) → i < 8 → mem' (y + i) ≡ mem (y + i)) xs

pub Holds-Links :
    (mem mem' : Mem) (r : Region) (p : Pages)
    → Links mem mem' p.free
    → Holds mem r p
    → Holds mem' r p
unfolding Links
Holds-Links mem mem' r p same h = record {
  region = h.region;
  free = record {
    chain = Chain-congr mem mem' r.head p.free same h.free.chain;
    pages = h.free.pages;
    distinct = h.free.distinct;
    count = h.free.count;
    lk_free = h.free.lk_free;
  };
  used = h.used;
  distinct = h.distinct;
}

-- Bytes of another region are not those of a page.
pub Links-apart :
    (mem mem' : Mem) (r q : Region) (x : ℕ) (xs : List ℕ)
    → IsRegion r
    → IsRegion q
    → (r.end ≤ q.begin) ⊎ (q.end ≤ r.begin)
    → IsPage r x
    → ((a : ℕ) → (a < x) ⊎ (x + 4096 ≤ a) → mem' a ≡ mem a)
    → All (IsPage q) xs
    → Links mem mem' xs
unfolding Links
Links-apart mem mem' r q x xs ir iq far ip same ps =
    All-map xs
      (λ y jp i lt.
        let b = IsPage-bounds r x ir ip in
        let c = IsPage-bounds q y iq jp in same (y + i) (omega arith))
      ps

-- Bytes of another page of the same region are not those of a page in use.
pub Links-Fresh :
    (mem mem' : Mem) (r : Region) (x : ℕ) (xs : List ℕ)
    → IsPage r x
    → ((a : ℕ) → (a < x) ⊎ (x + 4096 ≤ a) → mem' a ≡ mem a)
    → All (IsPage r) xs
    → Fresh x xs
    → Links mem mem' xs
unfolding Links
Links-Fresh mem mem' r x xs ip same ps f =
    All-map xs (λ y away i lt. same (y + i) (omega arith)) (All-apart r x xs ip ps f)

-- The two regions, in either order.
pub two_regions :
    (k : Bool) (m : Machine)
    → m.kern.end ≤ m.user.begin
    → ((select_region k m).end ≤ (select_region (not k) m).begin)
      ⊎ ((select_region (not k) m).end ≤ (select_region k m).begin)
two_regions true m h = inl h
two_regions false m h = inr h

pub All-IsPage :
    (r q : Region) (xs : List ℕ)
    → q.begin ≡ r.begin
    → q.end ≡ r.end
    → All (IsPage r) xs
    → All (IsPage q) xs
All-IsPage r q xs b e ps =
    All-map xs (λ y p. record { aligned = p.aligned; above = omega arith; below = omega arith }) ps

both :
    (m : Machine) (t : Spec)
    → Holds m.mem m.kern t.kern
    → Holds m.mem m.user t.user
    → (j : Bool) → Holds m.mem (select_region j m) (region_pages j t)
both m t a b true = a
both m t a b false = b

pub Shows-both :
    (k : Bool) (m m' : Machine) (s : Spec) (p : Pages)
    → m.kern.end ≤ m.user.begin
    → select_region (not k) m' ≡ select_region (not k) m
    → (select_region k m').begin ≡ (select_region k m).begin
    → (select_region k m').end ≡ (select_region k m).end
    → Holds m'.mem (select_region k m') p
    → Holds m'.mem (select_region (not k) m') (region_pages (not k) s)
    → Shows m' (with_pages k p s)
Shows-both true m m' s p low other b e new kept =
    let o : m'.user.begin ≡ m.user.begin = ap (λ r. r.begin) other in
    record { holds = both m' (record s { kern = p }) new kept; apart = omega arith }
Shows-both false m m' s p low other b e new kept =
    let o : m'.kern.end ≡ m.kern.end = ap (λ r. r.end) other in
    record { holds = both m' (record s { user = p }) kept new; apart = omega arith }

-- What both calls share: the region `k` shows its new lists, and the other one is untouched.
pub Shows-call :
    (k : Bool) (m m' : Machine) (s : Spec) (p : Pages) (x : ℕ)
    → Shows m s
    → IsPage (select_region k m) x
    → ((a : ℕ) → (a < x) ⊎ (x + 4096 ≤ a) → m'.mem a ≡ m.mem a)
    → select_region (not k) m' ≡ select_region (not k) m
    → (select_region k m').begin ≡ (select_region k m).begin
    → (select_region k m').end ≡ (select_region k m).end
    → Holds m'.mem (select_region k m') p
    → Shows m' (with_pages k p s)
Shows-call k m m' s p x h ip same other b e new =
    let h' = h.holds (not k) in
    let old =
      Holds-Links m.mem m'.mem (select_region (not k) m) (region_pages (not k) s)
        (Links-apart m.mem m'.mem (select_region k m) (select_region (not k) m) x
          (region_pages (not k) s).free (h.holds k).region h'.region (two_regions k m h.apart) ip
          same h'.free.pages)
        h' in
    let kept : Holds m'.mem (select_region (not k) m') (region_pages (not k) s) =
      subst (λ r. Holds m'.mem r (region_pages (not k) s)) (sym other) old in
    Shows-both k m m' s p h.apart other b e new kept
