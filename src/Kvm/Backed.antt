-- ===== src/Kvm/Backed.antt =====
-- A run of pages whose tables exist, some of them mapped to pages of the user region.
use biglab.Base.{
  ℕ, zero, suc, ◌+◌, ◌*◌, ◌/◌, ◌%◌, ◌≤◌, ◌<◌, ◌≡◌, refl, ◌≢◌, inl, inr, sym, ◌∙◌, ap, true,
  Bool-cases, List, ◌∷◌, arith, ltb, lt→ltb, le→ltb, le→leb, eq→==, Fresh, false, ◌⊎◌,
}
use mathlib.Core.Path.{subst}
use native.Mathlib.Decide.{dec_lt}
use biglab.Base.Word.{va_max, pgsize, add64}
use biglab.Base.Outcome.{ok}
use biglab.Memory.{Mem, load64}
use biglab.Machine.{Region, Machine}
use biglab.Pmem.Pages.{IsPage, IsRegion, FreePages}
use biglab.Kvm.{pte_to_pa, is_v, unmap_page, unmap_loop, vm_unmappages, whole_pages}
use biglab.Kvm.Walk.{entry_at, lookup-Path3}
use biglab.Kvm.Apart.{page_va, leaf, Tables, Path3-congr}
use biglab.Kvm.Unmap.{Outside, Unmapped, unmap_page-frees, unmap_page-skips}

module _ (root va : ℕ) (t1 t0 : ℕ → ℕ) (n : ℕ) where
  -- The entry of a page, and the physical page in it.
  abbrev pub entry : Mem → ℕ → ℕ
  entry mem j = load64 mem (leaf root va t1 t0 j)

  abbrev pub frame : Mem → ℕ → ℕ
  frame mem j = pte_to_pa (entry mem j)

  -- Every page that is mapped has a page of the user region of its own, which is in use; the
  -- tables and entries lie outside that region, and `xs` are its free pages.
  pub record Backed (mem : Mem) (user : Region) (xs : List ℕ) : Type 0 where
    pub tables : Tables root va t1 t0 mem n
    pub kept : IsRegion user
    pub free : FreePages mem user xs
    pub page : (j : ℕ) → j < n → is_v (entry mem j) ≡ true → IsPage user (frame mem j)
    pub fresh : (j : ℕ) → j < n → is_v (entry mem j) ≡ true → Fresh (frame mem j) xs
    pub own :
        (j k : ℕ)
        → j < n
        → k < n
        → j ≢ k
        → is_v (entry mem j) ≡ true
        → is_v (entry mem k) ≡ true
        → frame mem j ≢ frame mem k
    pub leaf_out : (j : ℕ) → j < n → Outside user (leaf root va t1 t0 j)
    pub first_out : (j : ℕ) → j < n → Outside user (entry_at root (page_va root va t1 t0 j) 2)
    pub second_out : (j : ℕ) → j < n → Outside user (entry_at (t1 j) (page_va root va t1 t0 j) 1)

  -- The entries of other pages are as before, and that of page `i` is 0.
  entry_same :
      (m m' : Machine) (i x : ℕ) (xs : List ℕ)
      → i < n
      → Backed m.mem m.user xs
      → Unmapped m (leaf root va t1 t0 i) x xs m'
      → (j : ℕ) → j < n
      → j ≢ i
      → entry m'.mem j ≡ entry m.mem j
  entry_same m m' i x xs lt b u j h ne =
      u.same (leaf root va t1 t0 j) (b.leaf_out j h)
        (b.tables.apart i j lt h (λ e. ne (omega arith)))

  -- A page that is still mapped is another one, and was mapped to the same page.
  still_mapped :
      (m m' : Machine) (i x : ℕ) (xs : List ℕ)
      → i < n
      → Backed m.mem m.user xs
      → Unmapped m (leaf root va t1 t0 i) x xs m'
      → (j : ℕ) → j < n
      → is_v (entry m'.mem j) ≡ true
      → (j ≢ i) × (frame m'.mem j ≡ frame m.mem j) × (is_v (entry m.mem j) ≡ true)
  still_mapped m m' i x xs lt b u j h v =
      let ne : j ≢ i = λ e.
        cleared_not (entry m'.mem i) u.cleared (subst (λ k. is_v (entry m'.mem k) ≡ true) e v) in
      let same = entry_same m m' i x xs lt b u j h ne in
      (ne, ap pte_to_pa same, subst (λ e. is_v e ≡ true) same v)
    where
      cleared_not : (e : ℕ) → e ≡ 0 → is_v e ≢ true
      cleared_not e z v = absurd (ground arith)

  Backed-next :
      (m m' : Machine) (i : ℕ) (xs : List ℕ)
      → i < n
      → Backed m.mem m.user xs
      → is_v (entry m.mem i) ≡ true
      → Unmapped m (leaf root va t1 t0 i) (frame m.mem i) xs m'
      → Backed m'.mem m'.user (frame m.mem i ∷ xs)
  Backed-next m m' i xs lt b valid u =
      let still = still_mapped m m' i (frame m.mem i) xs lt b u in
      record {
        tables = record {
          path = λ j h.
              Path3-congr m.mem m'.mem root (va + j * 4096) (t1 j) (t0 j)
                (u.same _ (b.first_out j h) (b.tables.apart_first i j lt h))
                (u.same _ (b.second_out j h) (b.tables.apart_second i j lt h)) (b.tables.path j h);
          apart = b.tables.apart;
          apart_first = b.tables.apart_first;
          apart_second = b.tables.apart_second;
        };
        kept = u.kept;
        free = u.free;
        page = λ j h v.
            let (ne, same, was) = still j h v in
            let p = b.page j h was in
            rw same (record {
              aligned = p.aligned;
              above = omega (arith, u.begin, p.above);
              below = omega (arith, u.end, p.below);
            });
        fresh = λ j h v.
            let (ne, same, was) = still j h v in
            subst (λ y. Fresh y (frame m.mem i ∷ xs)) (sym same)
              (b.own j i h lt ne was valid, b.fresh j h was);
        own = λ j k h h' ne v v'.
            let (_, same, was) = still j h v in
            let (_, same', was') = still k h' v' in rw (same, same') (b.own j k h h' ne was was');
        leaf_out = λ j h. let o = b.leaf_out j h in omega (arith, u.begin, u.end);
        first_out = λ j h. let o = b.first_out j h in omega (arith, u.begin, u.end);
        second_out = λ j h. let o = b.second_out j h in omega (arith, u.begin, u.end);
      }

  -- The page that was unmapped, and those that were not mapped before.
  not_mapped :
      (m m' : Machine) (i : ℕ) (xs : List ℕ)
      → i < n
      → Backed m.mem m.user xs
      → Unmapped m (leaf root va t1 t0 i) (frame m.mem i) xs m'
      → (j : ℕ) → j < n
      → (j ≡ i) ⊎ (is_v (entry m.mem j) ≡ false)
      → is_v (entry m'.mem j) ≡ false
  not_mapped m m' i xs lt b u j h which = elim (Bool-cases (is_v (entry m'.mem j))) [
    | inr w ↦ w
    | inl v ↦
        let (ne, same, was) = still_mapped m m' i (frame m.mem i) xs lt b u j h v in
        elim which [ inl e ↦ absurd (ne e) | inr w ↦ absurd (ground arith) ]
  ]

  -- What unmapping the `c` pages from page `i` on leaves.
  pub record Frees (m m' : Machine) (i c : ℕ) : Type 0 where
    pub xs : List ℕ
    pub backed : Backed m'.mem m'.user xs
    pub gone : (j : ℕ) → i ≤ j → j < i + c → is_v (entry m'.mem j) ≡ false
    pub stay : (j : ℕ) → j < n → is_v (entry m.mem j) ≡ false → is_v (entry m'.mem j) ≡ false
    pub kern : m'.kern ≡ m.kern
    pub pool : m'.pool ≡ m.pool
    pub proc : m'.proc ≡ m.proc

  unmap_page-Frees :
      (m : Machine) (i : ℕ) (xs : List ℕ)
      → i < n
      → Backed m.mem m.user xs
      → (m' : Machine) × (unmap_page root (va + i * 4096) true m ≡ ok (tt, m')) × Frees m m' i 1
  unmap_page-Frees m i xs lt b = elim (Bool-cases (is_v (entry m.mem i))) [
    | inl v ↦
        let (m', runs, u) =
          unmap_page-frees m root (va + i * 4096) (t1 i) (t0 i) (frame m.mem i) xs
            (b.tables.path i lt) v refl b.kept b.free (b.page i lt v) (b.fresh i lt v)
            (b.leaf_out i lt) in
        (
          m',
          runs,
          record {
            xs = frame m.mem i ∷ xs;
            backed = Backed-next m m' i xs lt b v u;
            gone = λ j lo hi. not_mapped m m' i xs lt b u j (omega arith) (inl (omega arith));
            stay = λ j h w. not_mapped m m' i xs lt b u j h (inr w);
            kern = u.kern;
            pool = u.pool;
            proc = u.proc;
          },
        )
    | inr v ↦ (
      m,
      unmap_page-skips m root (va + i * 4096) true
          (inr (leaf root va t1 t0 i, lookup-Path3 m.mem root _ _ _ (b.tables.path i lt), v)),
      record {
        xs = xs;
        backed = b;
        gone =
            λ j lo hi. let e : i ≡ j = omega arith in subst (λ k. is_v (entry m.mem k) ≡ false) e v;
        stay = λ j h w. w;
        kern = refl;
        pool = refl;
        proc = refl;
      },
    )
  ]

  unmap_loop-Frees :
      (k c i : ℕ) (m : Machine) (xs : List ℕ)
      → c < k
      → i + c ≤ n
      → va + n * 4096 ≤ va_max
      → Backed m.mem m.user xs
      → (m' : Machine) × (unmap_loop k root (va + (i + c) * 4096) (va + i * 4096) true m
          ≡ ok (tt, m'))
        × Frees m m' i c
  unfolding unmap_loop
  unmap_loop-Frees zero c i m xs fuel le fits b = absurd (omega arith)
  unmap_loop-Frees (suc k) zero i m xs fuel le fits b = (
    m,
    rw (le→ltb (va + i * 4096) (va + (i + 0) * 4096) (omega arith)),
    record {
      xs = xs;
      backed = b;
      gone = λ j lo hi. absurd (omega arith);
      stay = λ j h w. w;
      kern = refl;
      pool = refl;
      proc = refl;
    },
  )
  unmap_loop-Frees (suc k) (suc c) i m xs fuel le fits b =
      let (m1, runs, f) = unmap_page-Frees m i xs (omega arith) b in
      let (m2, rest, g) =
        unmap_loop-Frees k c (suc i) m1 f.xs (omega arith) (omega arith) fits f.backed in
      let test : ltb (va + i * 4096) (va + (i + suc c) * 4096) ≡ true = lt→ltb _ _ (omega arith) in
      let to_va : add64 (va + i * 4096) pgsize ≡ va + suc i * 4096 = omega arith in
      let to_end : va + (i + suc c) * 4096 ≡ va + (suc i + c) * 4096 = omega arith in
      (
        m2,
        rw (test, runs, to_va, to_end) rest,
        record {
          xs = g.xs;
          backed = g.backed;
          gone = λ j lo hi. elim (dec_lt i j) [
            | yes later ↦ g.gone j (omega arith) (omega arith)
            | no now ↦ g.stay j (omega arith) (f.gone j lo (omega arith))
          ];
          stay = λ j h w. g.stay j h (f.stay j h w);
          kern = g.kern ∙ f.kern;
          pool = g.pool ∙ f.pool;
          proc = g.proc ∙ f.proc;
        },
      )

  vm_unmappages-loop :
      (m m' : Machine) (w len end : ℕ)
      → w % 4096 ≡ 0
      → 0 < len
      → w + len ≤ va_max
      → add64 w (whole_pages len) ≡ end
      → unmap_loop (len / 4096 + 2) root end w true m ≡ ok (tt, m')
      → vm_unmappages root w len true m ≡ ok (tt, m')
  unfolding vm_unmappages
  vm_unmappages-loop m m' w len end al pos fits last loop =
      rw
        (eq→== (w % pgsize) 0 al, lt→ltb 0 len pos, le→leb (add64 w len) va_max (omega arith), last)
        loop

  -- Whole pages of the run are unmapped, whichever of them are mapped.
  pub vm_unmappages-Frees :
      (m : Machine) (i c : ℕ) (w len : ℕ) (xs : List ℕ)
      → va % 4096 ≡ 0
      → w ≡ va + i * 4096
      → len ≡ c * 4096
      → 0 < c
      → i + c ≤ n
      → va + n * 4096 ≤ va_max
      → Backed m.mem m.user xs
      → (m' : Machine) × (vm_unmappages root w len true m ≡ ok (tt, m')) × Frees m m' i c
  vm_unmappages-Frees m i c w len xs al at size pos le fits b =
      let (m', runs, f) = unmap_loop-Frees (len / 4096 + 2) c i m xs (omega arith) le fits b in
      (
        m',
        vm_unmappages-loop m m' w len (va + (i + c) * 4096) (omega arith) (omega arith)
            (omega arith) (omega arith)
            (subst
              (λ v. unmap_loop (len / 4096 + 2) root (va + (i + c) * 4096) v true m ≡ ok (tt, m'))
              (sym at) runs),
        f,
      )
