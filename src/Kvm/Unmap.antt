-- ===== src/Kvm/Unmap.antt =====
-- `vm_unmappages` on every branch: pages that are mapped go back to the user region.
use biglab.Base.{
  ℕ, ◌+◌, ◌≤◌, ◌≡◌, ◌⊎◌, inl, inr, ◌∙◌, Bool, true, false, none, some, List, ◌∷◌, arith, Fresh,
}
use biglab.Base.Outcome.{ok}
use biglab.Memory.{Mem, load64, store64}
use biglab.Memory.Words.{load64-store64_self, load64-store64_ne, load64-congr, store64_out}
use biglab.Machine.{Region, Machine}
use biglab.Pmem.Pages.{Chain-congr, All-map, IsPage, IsRegion, FreePages, IsPage-bounds}
use biglab.Pmem.Free.{pmem_free-cons}
use biglab.Kvm.{pte_to_pa, is_v, unmap_page}
use biglab.Kvm.Walk.{entry_at, Path3, vm_getpte-found, vm_getpte-lookup, lookup}
use biglab.Kvm.Apart.{Apart}

-- The word at `b` lies outside the pages of the region.
abbrev pub Outside : Region → ℕ → Type 0
Outside r b = (b + 8 ≤ r.begin) ⊎ (r.end ≤ b)

-- A word outside the region that is written leaves the region's list.
pub FreePages-Outside :
    (mem : Mem) (r : Region) (a v : ℕ) (xs : List ℕ)
    → IsRegion r
    → Outside r a
    → FreePages mem r xs
    → FreePages (store64 mem a v) r xs
FreePages-Outside mem r a v xs ir out f = record {
  chain =
      Chain-congr mem _ r.head xs
        (All-map xs
          (λ y p i lt. let b = IsPage-bounds r y ir p in store64_out mem a v (y + i) (omega arith))
          f.pages)
        f.chain;
  pages = f.pages;
  distinct = f.distinct;
  count = f.count;
  lk_free = f.lk_free;
}

-- What unmapping a page that maps `x` leaves: its entry is 0, `x` heads the user free list, and a
-- word outside the user region and apart from the entry is as before.
pub record Unmapped (m : Machine) (a x : ℕ) (xs : List ℕ) (m' : Machine) : Type 0 where
  pub cleared : load64 m'.mem a ≡ 0
  pub free : FreePages m'.mem m'.user (x ∷ xs)
  pub kept : IsRegion m'.user
  pub begin : m'.user.begin ≡ m.user.begin
  pub end : m'.user.end ≡ m.user.end
  pub same : (b : ℕ) → Outside m.user b → Apart a b → load64 m'.mem b ≡ load64 m.mem b
  pub kern : m'.kern ≡ m.kern
  pub pool : m'.pool ≡ m.pool
  pub proc : m'.proc ≡ m.proc

pub unmap_page-frees :
    (m : Machine) (root va t1 t0 x : ℕ) (xs : List ℕ)
    → Path3 m.mem root va t1 t0
    → is_v (load64 m.mem (entry_at t0 va 0)) ≡ true
    → pte_to_pa (load64 m.mem (entry_at t0 va 0)) ≡ x
    → IsRegion m.user
    → FreePages m.mem m.user xs
    → IsPage m.user x
    → Fresh x xs
    → Outside m.user (entry_at t0 va 0)
    → (m' : Machine) × (unmap_page root va true m ≡ ok (tt, m'))
      × Unmapped m (entry_at t0 va 0) x xs m'
unfolding unmap_page
unmap_page-frees m root va t1 t0 x xs p valid maps ir f ip fresh out =
    let (m1, runs, g) = pmem_free-cons false m x xs ir f ip fresh in
    let b = IsPage-bounds m.user x ir ip in
    let a = entry_at t0 va 0 in
    let lo = g.begin in
    let hi = g.end in
    let out' : Outside m1.user a = omega arith in
    (
      record m1 { mem = store64 m1.mem a 0 },
      rw (vm_getpte-found m root va t1 t0 false p, valid, maps, runs),
      record {
        cleared = load64-store64_self m1.mem a 0 (omega arith);
        free = FreePages-Outside m1.mem m1.user a 0 (x ∷ xs) g.kept out' g.free;
        kept = g.kept;
        begin = g.begin;
        end = g.end;
        same = λ c away apart.
            load64-store64_ne m1.mem a c 0 (omega arith)
            ∙ load64-congr m1.mem m.mem c (λ i lt. g.same (c + i) (omega arith));
        kern = g.other;
        pool = g.pool;
        proc = g.proc;
      },
    )

-- A page that is not mapped is passed over.
pub unmap_page-skips :
    (m : Machine) (root va : ℕ) (freeit : Bool)
    → (lookup m.mem root va ≡ none)
      ⊎ ((a : ℕ) × (lookup m.mem root va ≡ some a) × (is_v (load64 m.mem a) ≡ false))
    → unmap_page root va freeit m ≡ ok (tt, m)
unfolding unmap_page
unmap_page-skips m root va freeit (inl e) = rw (vm_getpte-lookup m root va, e)
unmap_page-skips m root va freeit (inr (a, e, v)) = rw (vm_getpte-lookup m root va, e, v)
