-- ===== src/Munmap/Goes.antt =====
-- What the loop of `uvm_munmap` does to the rest of the list of regions.
use biglab.Base.{
  ℕ, ◌+◌, ◌%◌, ◌≤◌, ◌<◌, ◌≡◌, refl, ◌∙◌, ap, ◌≢◌, ◌⊎◌, inl, inr, ◌↔◌, true, List, ◌∷◌, ◌++◌, arith,
  Fresh, Distinct, length,
}
use biglab.Base.Word.{mmap_begin, mmap_end}
use biglab.Base.Outcome.{ok}
use biglab.Machine.{Machine}
use biglab.Kvm.{vm_unmappages}
use biglab.Pool.Nodes.{Chain, nexts}
use biglab.Pool.Ops.{FreeNodes}
use biglab.Mmap.Areas.{stop, Sorted}
use biglab.Munmap.Rounds.{IsArea, Covers}
use biglab.Munmap.Regions.{Covered, Areas, Covered-above, Sorted-lower, Out}

-- Every address from `lo` to `hi` is gone in `m'`, and what was gone stays so.
abbrev pub Clears : (Machine → ℕ → Type 0) → Machine → Machine → ℕ → ℕ → Type 0
Clears Gone m m' lo hi = ((v : ℕ) → lo ≤ v → v < hi → Gone m' v) × ((v : ℕ) → Gone m v → Gone m' v)

-- What the loop relies on of the page tables: in a state that satisfies `I`, whole pages between
-- MMAP_BEGIN and MMAP_END whose addresses satisfy `Has` can be unmapped, which leaves the regions and the process as they are and
-- keeps `I`; and `I` speaks of memory, the user region and the page table only.
pub record Unmapping (I : Machine → Type 0) (Has : ℕ → Type 0) (Gone : Machine → ℕ → Type 0)
    : Type 0 where
  pub unmaps :
      (m : Machine) (va len : ℕ)
      → I m
      → va % 4096 ≡ 0
      → len % 4096 ≡ 0
      → 0 < len
      → mmap_begin ≤ va
      → va + len ≤ mmap_end
      → ((v : ℕ) → va ≤ v → v < va + len → Has v)
      → (m' : Machine) × (vm_unmappages m.proc.pgtbl va len true m ≡ ok (tt, m'))
        × (m'.pool ≡ m.pool)
        × (m'.proc ≡ m.proc)
        × I m'
        × Clears Gone m m' va (va + len)
  pub local_gone :
      (m m' : Machine)
      → m'.mem ≡ m.mem
      → m'.proc.pgtbl ≡ m.proc.pgtbl
      → (v : ℕ) → Gone m v
      → Gone m' v
  pub local :
      (m m' : Machine)
      → I m
      → m'.mem ≡ m.mem
      → m'.user ≡ m.user
      → m'.proc.pgtbl ≡ m.proc.pgtbl
      → I m'

module _ (I : Machine → Type 0) (Has : ℕ → Type 0) (Gone : Machine → ℕ → Type 0)
    (begin end : ℕ) where
  -- The loop stands at `cur`, behind `pre`; `xs` are the regions from `cur` on, from the address
  -- `lo` on, and `fs` the free nodes, of which there is one if a region may have to be split.
  pub record At (m : Machine) (pre cur : ℕ) (xs fs : List ℕ) (lo : ℕ) : Type 0 where
    pub inv : I m
    pub linked : (m.pool.node pre).next ≡ cur
    pub chain : Chain (nexts m.pool.node) cur xs
    pub areas : Areas m.pool.node xs
    pub sorted : Sorted m.pool.node lo xs
    pub free : FreeNodes m.pool fs
    pub distinct : Distinct (pre ∷ (xs ++ fs))
    pub backed : (v : ℕ) → Covered m.pool.node xs v → Has v
    pub room : (0 < length fs) ⊎ (begin ≤ lo)

  -- The state at the end: the list behind `pre` covers what it covered, less the range.
  pub record Goes (m m' : Machine) (pre : ℕ) (xs fs : List ℕ) (lo : ℕ) : Type 0 where
    pub ys : List ℕ
    pub gs : List ℕ
    pub inv : I m'
    pub chain : Chain (nexts m'.pool.node) (m'.pool.node pre).next ys
    pub areas : Areas m'.pool.node ys
    pub sorted : Sorted m'.pool.node lo ys
    pub free : FreeNodes m'.pool gs
    pub distinct : Distinct (pre ∷ (ys ++ gs))
    pub within : (q : ℕ) → Fresh q (xs ++ fs) → Fresh q (ys ++ gs)
    pub begin_kept : (m'.pool.node pre).begin ≡ (m.pool.node pre).begin
    pub npages_kept : (m'.pool.node pre).npages ≡ (m.pool.node pre).npages
    pub others : (q : ℕ) → q ≢ pre → Fresh q (xs ++ fs) → m'.pool.node q ≡ m.pool.node q
    pub left : (v : ℕ) → Covered m'.pool.node ys v ↔ (Covered m.pool.node xs v × Out begin end v)
    pub gone : (v : ℕ) → Covered m.pool.node xs v → begin ≤ v → v < end → Gone m' v
    pub stay : (v : ℕ) → Gone m v → Gone m' v
    pub proc : m'.proc ≡ m.proc
    pub count : length (ys ++ gs) ≤ length (xs ++ fs)

  -- No region is left from `lo` on that meets the range.
  pub Goes-stop :
      (m : Machine) (pre cur : ℕ) (xs fs : List ℕ) (lo lo' : ℕ)
      → At m pre cur xs fs lo
      → Sorted m.pool.node lo' xs
      → end ≤ lo'
      → Goes m m pre xs fs lo
  Goes-stop m pre cur xs fs lo lo' a s h = record {
    ys = xs;
    gs = fs;
    inv = a.inv;
    chain = rw a.linked a.chain;
    areas = a.areas;
    sorted = a.sorted;
    free = a.free;
    distinct = a.distinct;
    within = λ q f. f;
    begin_kept = refl;
    npages_kept = refl;
    others = λ q ne f. refl;
    left =
        λ v. (λ c. (c, inr (omega (arith, Covered-above m.pool.node lo' xs v s c))), λ (c, out). c);
    gone = λ v c l h'. absurd (omega (arith, Covered-above m.pool.node lo' xs v s c));
    stay = λ v g. g;
    proc = refl;
    count = omega arith;
  }

  -- A region that lies outside of the range is passed over.
  pub Goes-keep :
      (m m' : Machine) (pre x : ℕ) (xs fs : List ℕ) (lo lo' : ℕ)
      → x ≢ 0
      → (m.pool.node pre).next ≡ x
      → IsArea (m.pool.node x)
      → lo ≤ (m.pool.node x).begin
      → stop (m.pool.node x) ≤ lo'
      → ((v : ℕ) → Covers (m.pool.node x) v → Out begin end v)
      → Distinct (pre ∷ (x ∷ (xs ++ fs)))
      → Goes m m' x xs fs lo'
      → Goes m m' pre (x ∷ xs) fs lo
  Goes-keep m m' pre x xs fs lo lo' nz link area low hi out ((ne, fresh), d) g =
      let same = g.others pre ne fresh in
      let b = g.begin_kept in
      let n = g.npages_kept in
      let cover : (v : ℕ) → Covers (m'.pool.node x) v ↔ Covers (m.pool.node x) v =
        λ v. ((λ c. omega arith), (λ c. omega arith)) in
      record {
        ys = x ∷ g.ys;
        gs = g.gs;
        inv = g.inv;
        chain = (ap (λ y. y.next) same ∙ link, nz, g.chain);
        areas = (omega arith, g.areas);
        sorted = (
          omega arith,
          omega arith,
          omega arith,
          Sorted-lower m'.pool.node lo' _ g.ys (omega arith) g.sorted,
        );
        free = g.free;
        distinct = ((ne, g.within pre fresh), g.distinct);
        within = λ q (qx, qf). (qx, g.within q qf);
        begin_kept = ap (λ y. y.begin) same;
        npages_kept = ap (λ y. y.npages) same;
        others = λ q qn (qx, qf). g.others q qx qf;
        left = λ v. (
          λ c. elim c [
            | inl d ↦ let e = (cover v).0 d in (inl e, out v e)
            | inr d ↦ let (e, o) = (g.left v).0 d in (inr e, o)
          ],
          λ (c, o). elim c [ inl d ↦ inl ((cover v).1 d) | inr d ↦ inr ((g.left v).1 (d, o)) ],
        );
        gone = λ v c l h'. elim c [
          | inl d ↦ let o = out v d in absurd (omega arith)
          | inr d ↦ g.gone v d l h'
        ];
        stay = g.stay;
        proc = g.proc;
        count = omega (arith, g.count);
      }

  -- A step that changes some of the nodes at hand, where the rest of the loop starts from the
  -- regions `zs` and the free nodes `hs`.
  pub Goes-change :
      (m m1 m' : Machine) (pre : ℕ) (xs fs zs hs : List ℕ) (lo : ℕ)
      → ((q : ℕ) → Fresh q (xs ++ fs) → Fresh q (zs ++ hs))
      → ((q : ℕ) → q ≢ pre → Fresh q (xs ++ fs) → m1.pool.node q ≡ m.pool.node q)
      → (m1.pool.node pre).begin ≡ (m.pool.node pre).begin
      → (m1.pool.node pre).npages ≡ (m.pool.node pre).npages
      → ((v : ℕ)
          → (Covered m1.pool.node zs v × Out begin end v)
            ↔ (Covered m.pool.node xs v × Out begin end v))
      → m1.proc ≡ m.proc
      → length (zs ++ hs) ≤ length (xs ++ fs)
      → ((v : ℕ)
          → Covered m.pool.node xs v
          → begin ≤ v
          → v < end
          → Gone m1 v ⊎ Covered m1.pool.node zs v)
      → ((v : ℕ) → Gone m v → Gone m1 v)
      → Goes m1 m' pre zs hs lo
      → Goes m m' pre xs fs lo
  Goes-change m m1 m' pre xs fs zs hs lo less same b n cover p size hit stay g = record {
    ys = g.ys;
    gs = g.gs;
    inv = g.inv;
    chain = g.chain;
    areas = g.areas;
    sorted = g.sorted;
    free = g.free;
    distinct = g.distinct;
    within = λ q f. g.within q (less q f);
    begin_kept = g.begin_kept ∙ b;
    npages_kept = g.npages_kept ∙ n;
    others = λ q ne f. g.others q ne (less q f) ∙ same q ne f;
    left = λ v. (λ c. (cover v).0 ((g.left v).0 c), λ co. (g.left v).1 ((cover v).1 co));
    gone = λ v c l h. elim (hit v c l h) [ inl d ↦ g.stay v d | inr d ↦ g.gone v d l h ];
    stay = λ v d. g.stay v (stay v d);
    proc = g.proc ∙ p;
    count = omega (arith, g.count);
  }
