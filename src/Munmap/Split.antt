-- ===== src/Munmap/Split.antt =====
-- The round of `uvm_munmap` at a region that the range lies inside of.
use biglab.Base.{
  ◌≤◌, ℕ, ◌+◌, ◌-◌, ◌*◌, ◌/◌, ◌%◌, ◌<◌, ◌≡◌, refl, sym, ◌∙◌, ap, ◌≢◌, inl, inr, ◌↔◌, List, [], ◌∷◌,
  true, arith, Fresh, length-append, update, eq→==, ne→==, lt→leb, lt→ltb,
}
use mathlib.Core.Path.{subst}
use biglab.Base.Disjoint.{Fresh-middle, Distinct-gives}
use biglab.Base.Word.{u32, sub64}
use biglab.Base.Outcome.{ok}
use biglab.Machine.{Node, Machine}
use biglab.Kvm.{vm_unmappages}
use biglab.Pool.{mmap_region_alloc}
use biglab.Pool.Ops.{FreeNodes, alloc-cons}
use biglab.Mmap.Areas.{stop}
use biglab.Munmap.{move, munmap_round, split_node, bytes_of, end_of}
use biglab.Munmap.Rounds.{IsArea}
use biglab.Munmap.Regions.{
  FreeNodes-write, Out, Covered, Same, Same-sym, Covered-congr, Fresh-left, Fresh-right,
}
use biglab.Munmap.Goes.{Unmapping, At, Goes-keep, Goes-change}
use biglab.Munmap.Cases.{Round, moves, At-rest}

module _ (I : Machine → Type 0) (Has : ℕ → Type 0) (Gone : Machine → ℕ → Type 0)
    (u : Unmapping I Has Gone) (begin end npages : ℕ) (al_begin : begin % 4096 ≡ 0)
    (al_end : end % 4096 ≡ 0) (lo_hi : begin < end) (m : Machine) (pre x : ℕ) (xs : List ℕ) (f : ℕ)
    (fs : List ℕ) (lo : ℕ) (a : At I Has Gone begin end m pre x (x ∷ xs) (f ∷ fs) lo) where
  abbrev c : Node
  c = m.pool.node x

  -- The left part.
  abbrev short : Node
  short = record c { npages = u32 (sub64 begin c.begin / 4096) }

  abbrev shortened : Machine
  shortened = record m { pool = record m.pool { node = update m.pool.node x short } }

  -- The right part, in the new node.
  abbrev fresh_node : Machine → Node
  fresh_node m2 = record (m2.pool.node f) {
    begin = end;
    npages = u32 (sub64 (end_of c) end / 4096);
    next = (m2.pool.node x).next;
  }

  abbrev right_written : Machine → Machine
  right_written m2 = record m2 {
    pool = record m2.pool { node = update m2.pool.node f (fresh_node m2) };
  }

  abbrev both_written : Machine → Machine
  both_written m2 = record m2 {
    pool = record m2.pool {
      node = update (right_written m2).pool.node x (record (m2.pool.node x) { next = f });
    };
  }

  split_runs :
      (m2 m5 : Machine)
      → c.begin < begin
      → end < stop c
      → bytes_of npages ≡ end - begin
      → f ≢ 0
      → mmap_region_alloc shortened ≡ ok (f, m2)
      → vm_unmappages m2.proc.pgtbl begin (end - begin) true (both_written m2) ≡ ok (tt, m5)
      → munmap_round begin end npages pre x m ≡ ok (move f (m2.pool.node x).next, m5)
  unfolding munmap_round split_node
  split_runs m2 m5 h1 h2 len nf allocs runs =
      let r = a.areas.0 in
      rw (
        lt→leb (end_of c) begin (omega arith),
        lt→leb end c.begin (omega arith),
        lt→leb begin c.begin h1,
        lt→ltb c.begin begin h1,
        lt→ltb end (end_of c) (omega arith),
        allocs,
        ne→== f 0 nf,
        len,
        runs,
      )

  -- The nodes once the region is split.
  record Halves (m5 : Machine) : Type 0 where
    left_begin : (m5.pool.node x).begin ≡ c.begin
    left_npages : (m5.pool.node x).npages * 4096 + c.begin ≡ begin
    left_next : (m5.pool.node x).next ≡ f
    right_begin : (m5.pool.node f).begin ≡ end
    right_npages : (m5.pool.node f).npages * 4096 + end ≡ stop c
    right_next : (m5.pool.node f).next ≡ c.next
    others : (q : ℕ) → q ≢ x → q ≢ f → m5.pool.node q ≡ m.pool.node q
    free : FreeNodes m5.pool fs

  -- Neither half meets the range, and together they are the region without it.
  split_covers :
      (m5 : Machine)
      → c.begin < begin
      → end < stop c
      → Halves m5
      → Same m.pool.node m5.pool.node xs
      → (v : ℕ)
      → (Covered m5.pool.node (x ∷ f ∷ xs) v × Out begin end v)
        ↔ (Covered m.pool.node (x ∷ xs) v × Out begin end v)
  split_covers m5 h1 h2 h s v =
      let b = h.left_begin in
      let n = h.left_npages in
      let b' = h.right_begin in
      let n' = h.right_npages in
      (
        λ (d, o). elim d [
          | inl (p, q) ↦ (inl (omega arith, omega arith), o)
          | inr (inl (p, q)) ↦ (inl (omega arith, omega arith), o)
          | inr (inr e) ↦
              (inr (Covered-congr m5.pool.node m.pool.node xs v (Same-sym _ _ xs s) e), o)
        ],
        λ (d, o). elim d [
          | inl (p, q) ↦ elim o [
            | inl low ↦ (inl (omega arith, omega arith), inl low)
            | inr high ↦ (inr (inl (omega arith, omega arith)), inr high)
          ]
          | inr e ↦ (inr (inr (Covered-congr m.pool.node m5.pool.node xs v s e)), o)
        ],
      )

  Same-rest :
      (g : ℕ → Node) (ys : List ℕ)
      → ((q : ℕ) → q ≢ x → q ≢ f → g q ≡ m.pool.node q)
      → Fresh x ys
      → Fresh f ys
      → Same m.pool.node g ys
  Same-rest g [] h p n = tt
  Same-rest g (y ∷ ys) h (np, p) (nx, n) =
      (h y (λ e. np (sym e)) (λ e. nx (sym e)), Same-rest g ys h p n)

  split_from :
      (m5 : Machine)
      → c.begin < begin
      → end < stop c
      → m5.proc ≡ m.proc
      → I m5
      → ((v : ℕ) → begin ≤ v → v < end → Gone m5 v)
      → ((v : ℕ) → Gone m v → Gone m5 v)
      → f ≢ 0
      → munmap_round begin end npages pre x m ≡ ok (move f c.next, m5)
      → Halves m5
      → Round I Has Gone u begin end npages al_begin al_end lo_hi m pre x xs (f ∷ fs) lo
  split_from m5 h1 h2 proc inv hit stay nf runs h =
      let r = a.areas.0 in
      let low = a.sorted.0 in
      let ((px, fresh_pre), (fresh_x, dis)) = a.distinct in
      let (nodes_f, ds) = Distinct-gives f xs fs dis in
      let (xf, fresh_x') = Fresh-middle x f xs fs fresh_x in
      let (pf, fresh_pre') = Fresh-middle pre f xs fs fresh_pre in
      let same =
        Same-rest m5.pool.node xs h.others (Fresh-left x xs fs fresh_x')
          (Fresh-left f xs fs nodes_f) in
      let at_pre = h.others pre px pf in
      let b = h.left_begin in
      let n = h.left_npages in
      let b' = h.right_begin in
      let n' = h.right_npages in
      let area_x : IsArea (m5.pool.node x) = omega arith in
      let area_f : IsArea (m5.pool.node f) = omega arith in
      moves m5 f c.next (stop c) fs runs
        (At-rest I Has Gone u begin end npages al_begin al_end lo_hi m pre x xs (f ∷ fs) lo a m5 f
          fs (stop c) inv h.right_next same h.free (nodes_f, ds) (omega arith) (inr (omega arith)))
        (λ m' g.
          Goes-change I Has Gone begin end m m5 m' pre (x ∷ xs) (f ∷ fs) (x ∷ f ∷ xs) fs lo
            (λ q (qx, qf). (qx, Fresh-middle q f xs fs qf))
            (λ q np (qx, qf). h.others q qx (Fresh-middle q f xs fs qf).0)
            (ap (λ y. y.begin) at_pre) (ap (λ y. y.npages) at_pre) (split_covers m5 h1 h2 h same)
            proc (omega (arith, length-append xs fs, length-append xs (f ∷ fs)))
            (λ v d l h'. inl (hit v l h')) stay
            (Goes-keep I Has Gone begin end m5 m' pre x (f ∷ xs) fs lo begin a.chain.1
              (ap (λ y. y.next) at_pre ∙ a.linked) area_x (omega arith) (omega arith)
              (λ v (p, q). inl (omega arith))
              ((px, (pf, fresh_pre')), ((xf, fresh_x'), (nodes_f, ds)))
              (Goes-keep I Has Gone begin end m5 m' x f xs fs begin (stop c) nf h.left_next area_f
                (omega arith) (omega arith) (λ v (p, q). inr (omega arith))
                ((xf, fresh_x'), (nodes_f, ds)) g)))

  abbrev before_new : Node → Node
  before_new y = record y { next = f }

  here_x : (m2 : Machine) → (both_written m2).pool.node x ≡ record (m2.pool.node x) { next = f }
  here_x m2 = rw (eq→== x x refl)

  away : (m2 : Machine) (q : ℕ) → q ≢ x → q ≢ f → (both_written m2).pool.node q ≡ m2.pool.node q
  away m2 q nx nf = rw (ne→== x q (λ e. nx (sym e)), ne→== f q (λ e. nf (sym e)))

  halves :
      (m2 m5 : Machine)
      → c.begin < begin
      → end < stop c
      → x ≢ f
      → m2.pool.node x ≡ short
      → ((q : ℕ) → q ≢ x → q ≢ f → m2.pool.node q ≡ m.pool.node q)
      → m5.pool ≡ (both_written m2).pool
      → FreeNodes m5.pool fs
      → Halves m5
  halves m2 m5 h1 h2 xf at_x others pool free =
      let r = a.areas.0 in
      let left : m5.pool.node x ≡ record short { next = f } =
        ap (λ p. p.node x) pool ∙ here_x m2 ∙ ap before_new at_x in
      let right : m5.pool.node f ≡ fresh_node m2 =
        ap (λ p. p.node f) pool ∙ rw (ne→== x f xf, eq→== f f refl) in
      let size : (m5.pool.node x).npages ≡ u32 (sub64 begin c.begin / 4096) =
        ap (λ y. y.npages) left in
      let size' : (m5.pool.node f).npages ≡ u32 (sub64 (end_of c) end / 4096) =
        ap (λ y. y.npages) right in
      record {
        left_begin = ap (λ y. y.begin) left;
        left_npages = omega arith;
        left_next = ap (λ y. y.next) left;
        right_begin = ap (λ y. y.begin) right;
        right_npages = omega arith;
        right_next = ap (λ y. y.next) right ∙ ap (λ y. y.next) at_x;
        others = λ q nx nf. ap (λ p. p.node q) pool ∙ away m2 q nx nf ∙ others q nx nf;
        free = free;
      }

  pub Round-inside :
      c.begin < begin
      → end < stop c
      → begin + npages * 4096 ≡ end
      → Round I Has Gone u begin end npages al_begin al_end lo_hi m pre x xs (f ∷ fs) lo
  Round-inside h1 h2 size =
      let r = a.areas.0 in
      let len : bytes_of npages ≡ end - begin = omega arith in
      let xf : x ≢ f = (Fresh-middle x f xs fs a.distinct.1.0).0 in
      let fresh_x = Fresh-right x xs (f ∷ fs) a.distinct.1.0 in
      let nf : f ≢ 0 = a.free.chain.1 in
      let (m2, allocs, free, here, other, mem, proc, user) =
        alloc-cons shortened f fs (FreeNodes-write m.pool x short (f ∷ fs) fresh_x a.free) in
      let (m5, runs, pool, proc', inv, gone) =
        u.unmaps (both_written m2) begin (end - begin)
          (u.local m (both_written m2) a.inv mem user (ap (λ p. p.pgtbl) proc)) al_begin
          (omega arith) (omega arith) (omega arith) (omega arith)
          (λ v h h'. a.backed v (inl (omega arith, omega arith))) in
      let at_x : m2.pool.node x ≡ short = other x xf ∙ rw (eq→== x x refl) in
      let fresh_f = a.free.distinct.0 in
      let free5 : FreeNodes m5.pool fs =
        subst (λ p. FreeNodes p fs) (sym pool)
          (FreeNodes-write (right_written m2).pool x (record (m2.pool.node x) { next = f }) fs
            fresh_x.1 (FreeNodes-write m2.pool f (fresh_node m2) fs fresh_f free)) in
      split_from m5 h1 h2 (proc' ∙ proc) inv (λ v l h. gone.0 v l (omega arith))
        (λ v d. gone.1 v (u.local_gone m (both_written m2) mem (ap (λ p. p.pgtbl) proc) v d)) nf
        (split_runs m2 m5 h1 h2 len nf allocs runs ∙ ap (λ y. ok (move f y.next, m5)) at_x)
        (halves m2 m5 h1 h2 xf at_x (λ q nx nf'. other q nf' ∙ rw (ne→== x q (λ e. nx (sym e))))
          pool free5)
