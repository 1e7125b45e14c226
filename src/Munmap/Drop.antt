-- ===== src/Munmap/Drop.antt =====
-- The round of `uvm_munmap` at a region that the range covers.
use biglab.Base.{
  ℕ, ◌*◌, ◌%◌, ◌≤◌, ◌<◌, ◌≡◌, refl, sym, ◌∙◌, ap, ◌≢◌, inl, inr, ◌↔◌, List, [], ◌∷◌, ◌++◌, true,
  arith, Fresh, length-append, update, eq→==, ne→==, le→leb, lt→leb,
}
use mathlib.Core.Path.{subst}
use biglab.Base.Disjoint.{Fresh-insert, Distinct-insert}
use biglab.Base.Outcome.{ok}
use biglab.Machine.{Node, Machine}
use biglab.Kvm.{vm_unmappages}
use biglab.Pool.{mmap_region_free}
use biglab.Pool.Ops.{FreeNodes, free-cons}
use biglab.Mmap.Areas.{stop}
use biglab.Munmap.{move, munmap_round, drop_node, bytes_of, end_of}
use biglab.Munmap.Rounds.{Covers}
use biglab.Munmap.Regions.{
  FreeNodes-write, Out, Covered, Same, Same-sym, Covered-congr, Fresh-right,
}
use biglab.Munmap.Goes.{Unmapping, At, Goes-change}
use biglab.Munmap.Cases.{Round, moves, At-rest}

module _ (I : Machine → Type 0) (Has : ℕ → Type 0) (Gone : Machine → ℕ → Type 0)
    (u : Unmapping I Has Gone) (begin end npages : ℕ) (al_begin : begin % 4096 ≡ 0)
    (al_end : end % 4096 ≡ 0) (lo_hi : begin < end) (m : Machine) (pre x : ℕ) (xs fs : List ℕ)
    (lo : ℕ) (a : At I Has Gone begin end m pre x (x ∷ xs) fs lo) where
  abbrev c : Node
  c = m.pool.node x

  -- `pre->next = cur->next`
  abbrev relink : Machine → Machine
  relink m1 = record m1 {
    pool = record m1.pool {
      node = update m1.pool.node pre (record (m1.pool.node pre) { next = (m1.pool.node x).next });
    };
  }

  drop_runs :
      (m1 m3 : Machine)
      → begin ≤ c.begin
      → stop c ≤ end
      → vm_unmappages m.proc.pgtbl c.begin (c.npages * 4096) true m ≡ ok (tt, m1)
      → mmap_region_free x (relink m1) ≡ ok (tt, m3)
      → munmap_round begin end npages pre x m ≡ ok (move pre (m3.pool.node pre).next, m3)
  unfolding munmap_round drop_node
  drop_runs m1 m3 h1 h2 runs frees =
      let r = a.areas.0 in
      let len : bytes_of c.npages ≡ c.npages * 4096 = omega arith in
      rw (
        lt→leb (end_of c) begin (omega arith),
        lt→leb end c.begin (omega arith),
        le→leb begin c.begin h1,
        le→leb (end_of c) end (omega arith),
        len,
        runs,
        frees,
      )

  -- Nothing of the region lies outside the range.
  drop_covers :
      (g : ℕ → Node)
      → begin ≤ c.begin
      → stop c ≤ end
      → Same m.pool.node g xs
      → (v : ℕ)
      → (Covered g xs v × Out begin end v) ↔ (Covered m.pool.node (x ∷ xs) v × Out begin end v)
  drop_covers g h1 h2 s v = (
    λ (d, o). (inr (Covered-congr g m.pool.node xs v (Same-sym m.pool.node g xs s) d), o),
    λ (d, o). elim d [
      | inl (p, q) ↦ absurd (omega arith)
      | inr e ↦ (Covered-congr m.pool.node g xs v s e, o)
    ],
  )

  drop_from :
      (m1 m3 : Machine)
      → begin ≤ c.begin
      → stop c ≤ end
      → m1.pool ≡ m.pool
      → m3.proc ≡ m.proc
      → I m3
      → ((v : ℕ) → Covers c v → Gone m3 v)
      → ((v : ℕ) → Gone m v → Gone m3 v)
      → munmap_round begin end npages pre x m ≡ ok (move pre (m3.pool.node pre).next, m3)
      → FreeNodes m3.pool (x ∷ fs)
      → ((q : ℕ) → q ≢ x → m3.pool.node q ≡ (relink m1).pool.node q)
      → Round I Has Gone u begin end npages al_begin al_end lo_hi m pre x xs fs lo
  drop_from m1 m3 h1 h2 pool proc inv hit stay runs free others =
      let r = a.areas.0 in
      let ((ne, fresh_pre), (fresh, dis)) = a.distinct in
      let other : (q : ℕ) → q ≢ pre → q ≢ x → m3.pool.node q ≡ m.pool.node q =
        λ q np nx. others q nx ∙ rw (ne→== pre q (λ f. np (sym f))) (ap (λ p. p.node q) pool) in
      let at_pre : m3.pool.node pre ≡ record (m1.pool.node pre) { next = (m1.pool.node x).next } =
        others pre ne ∙ rw (eq→== pre pre refl) in
      let next : (m3.pool.node pre).next ≡ c.next =
        ap (λ y. y.next) at_pre ∙ ap (λ p. (p.node x).next) pool in
      let same : Same m.pool.node m3.pool.node xs = Same-rest xs fs (other) fresh_pre fresh in
      let same_begin : (m3.pool.node pre).begin ≡ (m.pool.node pre).begin =
        ap (λ y. y.begin) at_pre ∙ ap (λ p. (p.node pre).begin) pool in
      let same_npages : (m3.pool.node pre).npages ≡ (m.pool.node pre).npages =
        ap (λ y. y.npages) at_pre ∙ ap (λ p. (p.node pre).npages) pool in
      moves m3 pre c.next lo (x ∷ fs) (runs ∙ ap (λ q. ok (move pre q, m3)) next)
        (At-rest I Has Gone u begin end npages al_begin al_end lo_hi m pre x xs fs lo a m3 pre
          (x ∷ fs) lo inv next same free
          (Fresh-insert pre x xs fs ne fresh_pre, Distinct-insert x xs fs fresh dis)
          (omega (arith, a.sorted.0)) (inl (omega arith)))
        (λ m' g.
          Goes-change I Has Gone begin end m m3 m' pre (x ∷ xs) fs xs (x ∷ fs) lo
            (λ q (qx, f). Fresh-insert q x xs fs qx f) (λ q np (qx, f). other q np qx) same_begin
            same_npages (drop_covers m3.pool.node h1 h2 same) proc
            (omega (arith, length-append xs fs, length-append xs (x ∷ fs)))
            (λ v d l h. elim d [
              | inl q ↦ inl (hit v q)
              | inr q ↦ inr (Covered-congr m.pool.node m3.pool.node xs v same q)
            ])
            stay g)
    where
      Same-rest :
          (ys gs : List ℕ)
          → {f : ℕ → Node} → ((q : ℕ) → q ≢ pre → q ≢ x → f q ≡ m.pool.node q)
          → Fresh pre (ys ++ gs)
          → Fresh x (ys ++ gs)
          → Same m.pool.node f ys
      Same-rest [] gs h p n = tt
      Same-rest (y ∷ ys) gs h (np, p) (nx, n) =
          (h y (λ e. np (sym e)) (λ e. nx (sym e)), Same-rest ys gs h p n)

  pub Round-covered :
      begin ≤ c.begin
      → stop c ≤ end
      → Round I Has Gone u begin end npages al_begin al_end lo_hi m pre x xs fs lo
  Round-covered h1 h2 =
      let r = a.areas.0 in
      let (m1, runs, pool, proc, inv, gone) =
        u.unmaps m c.begin (c.npages * 4096) a.inv r.aligned (omega arith) (omega arith) r.above
          (omega arith) (λ v h h'. a.backed v (inl (omega arith, omega arith))) in
      let old : FreeNodes m1.pool fs = subst (λ p. FreeNodes p fs) (sym pool) a.free in
      let (m3, frees, free, others, here, mem, proc', user) =
        free-cons (relink m1) x fs
          (FreeNodes-write m1.pool pre _ fs (Fresh-right pre xs fs a.distinct.0.1) old) a.chain.1
          (Fresh-right x xs fs a.distinct.1.0) in
      drop_from m1 m3 h1 h2 pool (proc' ∙ proc)
        (u.local m1 m3 inv mem user (ap (λ p. p.pgtbl) proc'))
        (λ v d.
          u.local_gone m1 m3 mem (ap (λ p. p.pgtbl) proc') v (gone.0 v (omega arith) (omega arith)))
        (λ v d. u.local_gone m1 m3 mem (ap (λ p. p.pgtbl) proc') v (gone.1 v d))
        (drop_runs m1 m3 h1 h2 runs frees) free others
