-- ===== src/Kvm/UnmapRange.antt =====
-- `vm_unmappages` over a whole range of mapped pages.
use biglab.Base.{
  ℕ, zero, suc, ◌+◌, ◌*◌, ◌/◌, ◌%◌, ◌≤◌, ◌<◌, ◌≡◌, refl, ◌≢◌, ◌⊎◌, ◌∙◌, Bool, true, List, ◌∷◌,
  arith, ltb, lt→ltb, le→ltb, le→leb, eq→==, Fresh,
}
use mathlib.Core.Path.{subst}
use native.Mathlib.Decide.{dec_lt}
use biglab.Base.Word.{va_max, pgsize, add64}
use biglab.Base.Outcome.{ok, panic}
use biglab.Memory.{load64}
use biglab.Machine.{Machine}
use biglab.Pmem.Pages.{IsPage, IsRegion, FreePages}
use biglab.Kvm.{pte_to_pa, is_v, unmap_loop, vm_unmappages, whole_pages}
use biglab.Kvm.Walk.{entry_at}
use biglab.Kvm.Apart.{Apart, page_va, leaf, Tables, Path3-congr}
use biglab.Kvm.Unmap.{Outside, Unmapped, unmap_page-frees}

-- `n` pages from number `i` on map the physical pages `x i`, which are pages of the user region in
-- use, all different; their tables and entries lie outside that region.
module _ (root va : ℕ) (t1 t0 x : ℕ → ℕ) where
  -- The pages given back, the last one first, before those that were free.
  pub returned : ℕ → ℕ → List ℕ → List ℕ
  returned zero i xs = xs
  returned (suc n) i xs = returned n (suc i) (x i ∷ xs)

  pub record InUse (m : Machine) (i total : ℕ) (xs : List ℕ) : Type 0 where
    pub tables : Tables root va t1 t0 m.mem total
    pub valid : (j : ℕ) → i ≤ j → j < total → is_v (load64 m.mem (leaf root va t1 t0 j)) ≡ true
    pub maps : (j : ℕ) → i ≤ j → j < total → pte_to_pa (load64 m.mem (leaf root va t1 t0 j)) ≡ x j
    pub kept : IsRegion m.user
    pub free : FreePages m.mem m.user xs
    pub page : (j : ℕ) → i ≤ j → j < total → IsPage m.user (x j)
    pub fresh : (j : ℕ) → i ≤ j → j < total → Fresh (x j) xs
    pub distinct : (j k : ℕ) → i ≤ j → j < total → i ≤ k → k < total → j ≢ k → x j ≢ x k
    pub leaf_out : (j : ℕ) → j < total → Outside m.user (leaf root va t1 t0 j)
    pub first_out : (j : ℕ) → j < total → Outside m.user (entry_at root (page_va root va t1 t0 j) 2)
    pub second_out :
        (j : ℕ) → j < total → Outside m.user (entry_at (t1 j) (page_va root va t1 t0 j) 1)

  InUse-next :
      (m m' : Machine) (i total : ℕ) (xs : List ℕ)
      → i < total
      → InUse m i total xs
      → Unmapped m (leaf root va t1 t0 i) (x i) xs m'
      → InUse m' (suc i) total (x i ∷ xs)
  InUse-next m m' i total xs lt u d = record {
    tables = record {
      path = λ j h.
          Path3-congr m.mem m'.mem root (va + j * 4096) (t1 j) (t0 j)
            (d.same _ (u.first_out j h) (u.tables.apart_first i j lt h))
            (d.same _ (u.second_out j h) (u.tables.apart_second i j lt h)) (u.tables.path j h);
      apart = u.tables.apart;
      apart_first = u.tables.apart_first;
      apart_second = u.tables.apart_second;
    };
    valid = λ j lo hi.
        rw (d.same _ (u.leaf_out j hi) (u.tables.apart i j lt hi (omega arith)))
          (u.valid j (omega arith) hi);
    maps = λ j lo hi.
        rw (d.same _ (u.leaf_out j hi) (u.tables.apart i j lt hi (omega arith)))
          (u.maps j (omega arith) hi);
    kept = d.kept;
    free = d.free;
    page = λ j lo hi.
        let p = u.page j (omega arith) hi in
        record {
          aligned = p.aligned;
          above = omega (arith, d.begin);
          below = omega (arith, d.end);
        };
    fresh = λ j lo hi. (
      u.distinct j i (omega arith) hi (omega arith) lt (omega arith),
      u.fresh j (omega arith) hi,
    );
    distinct = λ j k lo hi lo' hi'. u.distinct j k (omega arith) hi (omega arith) hi';
    leaf_out = λ j h. let o = u.leaf_out j h in omega (arith, d.begin, d.end);
    first_out = λ j h. let o = u.first_out j h in omega (arith, d.begin, d.end);
    second_out = λ j h. let o = u.second_out j h in omega (arith, d.begin, d.end);
  }

  -- What a run that unmaps the pages from `i` on leaves.
  pub record Emptied (m : Machine) (i total : ℕ) (ys : List ℕ) (m' : Machine) : Type 0 where
    pub cleared : (j : ℕ) → i ≤ j → j < total → load64 m'.mem (leaf root va t1 t0 j) ≡ 0
    pub free : FreePages m'.mem m'.user ys
    pub same :
        (b : ℕ)
        → Outside m.user b
        → ((j : ℕ) → i ≤ j → j < total → Apart (leaf root va t1 t0 j) b)
        → load64 m'.mem b ≡ load64 m.mem b
    pub kern : m'.kern ≡ m.kern
    pub pool : m'.pool ≡ m.pool
    pub proc : m'.proc ≡ m.proc

  Emptied-next :
      (m m1 m2 : Machine) (i total : ℕ) (xs ys : List ℕ)
      → i < total
      → InUse m i total xs
      → Unmapped m (leaf root va t1 t0 i) (x i) xs m1
      → Emptied m1 (suc i) total ys m2
      → Emptied m i total ys m2
  Emptied-next m m1 m2 i total xs ys lt u d r = record {
    cleared = λ j lo hi. elim (dec_lt i j) [
      | yes later ↦ r.cleared j later hi
      | no now ↦
          let here : j ≡ i = omega arith in
          rw here (
            r.same (leaf root va t1 t0 i) (around _ (u.leaf_out i lt))
              (λ k lo' hi'. u.tables.apart k i hi' lt (omega arith))
            ∙ d.cleared)
    ];
    free = r.free;
    same = λ b out apart.
        r.same b (around b out) (λ j lo hi. apart j (omega arith) hi)
        ∙ d.same b out (apart i (omega arith) lt);
    kern = r.kern ∙ d.kern;
    pool = r.pool ∙ d.pool;
    proc = r.proc ∙ d.proc;
  }
    where
      around : (b : ℕ) → Outside m.user b → Outside m1.user b
      around b out = omega (arith, d.begin, d.end)

  unmap_loop-Emptied :
      (k n i total : ℕ) (m : Machine) (xs : List ℕ)
      → i + n ≡ total
      → n < k
      → va + total * 4096 ≤ va_max
      → InUse m i total xs
      → (m' : Machine) × (unmap_loop k root (va + total * 4096) (va + i * 4096) true m
          ≡ ok (tt, m'))
        × Emptied m i total (returned n i xs) m'
  unfolding unmap_loop returned
  unmap_loop-Emptied zero n i total m xs e fuel fits u = absurd (omega arith)
  unmap_loop-Emptied (suc k) zero i total m xs e fuel fits u = (
    m,
    rw (le→ltb (va + i * 4096) (va + total * 4096) (omega arith)),
    record {
      cleared = λ j lo hi. absurd (omega arith);
      free = u.free;
      same = λ b out h. refl;
      kern = refl;
      pool = refl;
      proc = refl;
    },
  )
  unmap_loop-Emptied (suc k) (suc n) i total m xs e fuel fits u =
      let lt : i < total = omega arith in
      let (m1, runs, d) =
        unmap_page-frees m root (va + i * 4096) (t1 i) (t0 i) (x i) xs (u.tables.path i lt)
          (u.valid i (omega arith) lt) (u.maps i (omega arith) lt) u.kept u.free
          (u.page i (omega arith) lt) (u.fresh i (omega arith) lt) (u.leaf_out i lt) in
      let (m2, rest, r) =
        unmap_loop-Emptied k n (suc i) total m1 (x i ∷ xs) (omega arith) (omega arith) fits
          (InUse-next m m1 i total xs lt u d) in
      let test : ltb (va + i * 4096) (va + total * 4096) ≡ true = lt→ltb _ _ (omega arith) in
      let to_va : add64 (va + i * 4096) pgsize ≡ va + suc i * 4096 = omega arith in
      (m2, rw (test, runs, to_va) rest, Emptied-next m m1 m2 i total xs _ lt u d r)

  -- For an aligned range of `n` whole pages below VA_MAX, all of them mapped to different
  -- pages of the user region in use, where the entries lie outside that region and apart from
  -- each other and from the inner entries: `vm_unmappages` with `freeit` ends, clears every
  -- entry, and gives every physical page back to the user region exactly once; words outside
  -- that region and apart from the entries are as before.
  pub vm_unmappages-empties :
      (m : Machine) (n : ℕ) (xs : List ℕ)
      → va % 4096 ≡ 0
      → 0 < n
      → va + n * 4096 ≤ va_max
      → InUse m 0 n xs
      → (m' : Machine) × (vm_unmappages root va (n * 4096) true m ≡ ok (tt, m'))
        × Emptied m 0 n (returned n 0 xs) m'
  unfolding vm_unmappages
  vm_unmappages-empties m n xs al pos fits u =
      let (m', runs, d) =
        unmap_loop-Emptied (n * 4096 / 4096 + 2) n 0 n m xs (omega arith) (omega arith) fits u in
      let first : va + 0 * 4096 ≡ va = omega arith in
      (
        m',
        rw
            (
              eq→== (va % pgsize) 0 al,
              lt→ltb 0 (n * 4096) (omega arith),
              le→leb (add64 va (n * 4096)) va_max (omega arith),
              last,
            )
            (subst
              (λ v. unmap_loop (n * 4096 / 4096 + 2) root (va + n * 4096) v true m ≡ ok (tt, m'))
              first runs),
        d,
      )
    where
      last : add64 va (whole_pages (n * 4096)) ≡ va + n * 4096
      last = omega arith

-- An address that is not aligned, an empty range and one that passes VA_MAX make `vm_unmappages`
-- panic before it changes anything.
pub vm_unmappages-refused :
    (m : Machine) (root va len : ℕ) (freeit : Bool)
    → (va % 4096 ≢ 0) ⊎ ((len ≡ 0) ⊎ (va_max < add64 va len))
    → vm_unmappages root va len freeit m ≡ panic
unfolding vm_unmappages
vm_unmappages-refused m root va len freeit h = ground arith
