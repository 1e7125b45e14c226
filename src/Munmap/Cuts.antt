-- ===== src/Munmap/Cuts.antt =====
-- The rounds of `uvm_munmap` that cut a part of a region off.
use biglab.Base.{
  ℕ, ◌+◌, ◌-◌, ◌*◌, ◌%◌, ◌≤◌, ◌<◌, ◌≡◌, refl, sym, ◌∙◌, ap, ◌≢◌, inl, inr, ◌↔◌, List, ◌∷◌, true,
  arith, Fresh, update, eq→==, ne→==, le→leb, lt→leb,
}
use mathlib.Core.Path.{subst}
use biglab.Base.Outcome.{ok}
use biglab.Machine.{Node, Machine}
use biglab.Kvm.{vm_unmappages}
use biglab.Pool.Nodes.{Chain, nexts, All-Fresh}
use biglab.Pool.Ops.{FreeNodes}
use biglab.Mmap.Areas.{stop, Sorted}
use biglab.Munmap.{stop as leave, move, munmap_round, end_of}
use biglab.Munmap.Rounds.{
  IsArea, Covers, LeftOver, wrote, left_node, right_node, munmap_round-left, munmap_round-right,
  keeps_left, keeps_right,
}
use biglab.Munmap.Regions.{
  Covered-congr, FreeNodes-write, Covered-head, Out, Same, Sorted-lower, Fresh-left, Fresh-right,
}
use biglab.Munmap.Goes.{Clears, Unmapping, At, Goes, Goes-stop, Goes-keep, Goes-change}
use biglab.Munmap.Cases.{Round, moves, again, At-rest}

module _ (I : Machine → Type 0) (Has : ℕ → Type 0) (Gone : Machine → ℕ → Type 0)
    (u : Unmapping I Has Gone) (begin end npages : ℕ) (al_begin : begin % 4096 ≡ 0)
    (al_end : end % 4096 ≡ 0) (lo_hi : begin < end) where
  module _ (m : Machine) (pre x : ℕ) (xs fs : List ℕ) (lo : ℕ)
      (a : At I Has Gone begin end m pre x (x ∷ xs) fs lo) where
    abbrev c : Node
    c = m.pool.node x

    Fresh-xs : Fresh x xs
    Fresh-xs = Fresh-left x xs fs a.distinct.1.0

    Fresh-fs : Fresh x fs
    Fresh-fs = Fresh-right x xs fs a.distinct.1.0

    -- The machine `m1` after the unmapping, with the region written anew.
    abbrev cut : Machine → Node → Machine
    cut m1 n = wrote m m1 begin end npages pre x a.areas.0 al_begin al_end lo_hi n

    cut_other :
        (m1 : Machine) (n : Node)
        → m1.pool ≡ m.pool
        → (q : ℕ) → q ≢ x
        → (cut m1 n).pool.node q ≡ m.pool.node q
    cut_other m1 n e q ne = rw (ne→== x q (λ f. ne (sym f))) (ap (λ p. p.node q) e)

    cut-Same :
        (m1 : Machine) (n : Node) → m1.pool ≡ m.pool → Same m.pool.node (cut m1 n).pool.node xs
    cut-Same m1 n e =
        subst (λ p. Same m.pool.node (update p.node x n) xs) (sym e)
          (All-Fresh m.pool.node x n xs Fresh-xs)

    cut_free : (m1 : Machine) (n : Node) → m1.pool ≡ m.pool → FreeNodes (cut m1 n).pool fs
    cut_free m1 n e =
        FreeNodes-write m1.pool x n fs Fresh-fs (subst (λ p. FreeNodes p fs) (sym e) a.free)

    cut_here : (m1 : Machine) (n : Node) → (cut m1 n).pool.node x ≡ n
    cut_here m1 n = rw (eq→== x x refl)

    cut_pre :
        (m1 : Machine) (n : Node) → m1.pool ≡ m.pool → (cut m1 n).pool.node pre ≡ m.pool.node pre
    cut_pre m1 n e = cut_other m1 n e pre a.distinct.0.0

    -- What is left of the list once only `x` has changed, and has lost what the range covers.
    cut-Goes :
        (m1 m' : Machine) (n : Node)
        → m1.pool ≡ m.pool
        → m1.proc ≡ m.proc
        → ((v : ℕ) → Covers n v ↔ (Covers c v × Out begin end v))
        → ((v : ℕ) → Covers c v → begin ≤ v → v < end → Gone m1 v)
        → ((v : ℕ) → Gone m v → Gone m1 v)
        → Goes I Has Gone begin end (cut m1 n) m' pre (x ∷ xs) fs lo
        → Goes I Has Gone begin end m m' pre (x ∷ xs) fs lo
    cut-Goes m1 m' n e p covers hit stay g =
        Goes-change I Has Gone begin end m (cut m1 n) m' pre (x ∷ xs) fs (x ∷ xs) fs lo (λ q f. f)
          (λ q ne (qx, f). cut_other m1 n e q qx) (ap (λ y. y.begin) (cut_pre m1 n e))
          (ap (λ y. y.npages) (cut_pre m1 n e))
          (Covered-head begin end m.pool.node (cut m1 n).pool.node x xs
            (λ v.
              subst (λ y. Covers y v ↔ (Covers c v × Out begin end v)) (sym (cut_here m1 n))
                (covers v))
            (cut-Same m1 n e))
          p (omega arith)
          (λ v d l h. elim d [
            | inl q ↦ inl (u.local_gone m1 (cut m1 n) refl refl v (hit v q l h))
            | inr q ↦
                inr (inr (Covered-congr m.pool.node (cut m1 n).pool.node xs v (cut-Same m1 n e) q))
          ])
          (λ v d. u.local_gone m1 (cut m1 n) refl refl v (stay v d)) g

    right_from :
        (m1 : Machine) (n : Node)
        → m1.pool ≡ m.pool
        → m1.proc ≡ m.proc
        → I m1
        → munmap_round begin end npages pre x m ≡ ok (move x c.next, cut m1 n)
        → n.begin ≡ c.begin
        → n.next ≡ c.next
        → n.npages * 4096 + c.begin ≡ begin
        → ((v : ℕ) → Covers n v ↔ (Covers c v × Out begin end v))
        → ((v : ℕ) → Covers c v → begin ≤ v → v < end → Gone m1 v)
        → ((v : ℕ) → Gone m v → Gone m1 v)
        → c.begin < begin
        → begin < stop c
        → Round I Has Gone u begin end npages al_begin al_end lo_hi m pre x xs fs lo
    right_from m1 n pool proc inv runs first next size left hit stay h1 h2 =
        let r = a.areas.0 in
        let low = a.sorted.0 in
        let here = cut_here m1 n in
        let y = (cut m1 n).pool.node x in
        let at : y.begin ≡ c.begin = ap (λ z. z.begin) here ∙ first in
        let long : y.npages ≡ n.npages = ap (λ z. z.npages) here in
        moves (cut m1 n) x c.next (stop c) fs runs
          (At-rest I Has Gone u begin end npages al_begin al_end lo_hi m pre x xs fs lo a (cut m1 n)
            x fs (stop c) (u.local m1 (cut m1 n) inv refl refl refl) (ap (λ z. z.next) here ∙ next)
            (cut-Same m1 n pool) (cut_free m1 n pool) a.distinct.1 (omega arith)
            (inr (omega arith)))
          (λ m' g. cut-Goes m1 m' n pool proc left hit stay (
            Goes-keep I Has Gone begin end (cut m1 n) m' pre x xs fs lo (stop c) a.chain.1
              (ap (λ z. z.next) (cut_pre m1 n pool) ∙ a.linked) (omega arith) (omega arith)
              (omega arith) (λ v d. inl (omega arith)) a.distinct g))

    -- The range covers the right part of the region.
    pub Round-right :
        c.begin < begin
        → begin < stop c
        → stop c ≤ end
        → Round I Has Gone u begin end npages al_begin al_end lo_hi m pre x xs fs lo
    unfolding LeftOver
    Round-right h1 h2 h3 =
        let r = a.areas.0 in
        let (m1, runs, pool, proc, inv, gone) =
          u.unmaps m begin (stop c - begin) a.inv al_begin (omega arith) (omega arith) (omega arith)
            (omega arith) (λ v h h'. a.backed v (inl (omega arith, omega arith))) in
        right_at m1 runs pool proc inv gone
      where
        right_at :
            (m1 : Machine)
            → vm_unmappages m.proc.pgtbl begin (stop c - begin) true m ≡ ok (tt, m1)
            → m1.pool ≡ m.pool
            → m1.proc ≡ m.proc
            → I m1
            → Clears Gone m m1 begin (begin + (stop c - begin))
            → Round I Has Gone u begin end npages al_begin al_end lo_hi m pre x xs fs lo
        right_at m1 runs pool proc inv gone =
            let r = a.areas.0 in
            let n = right_node m m1 begin end npages pre x r al_begin al_end lo_hi in
            let first : (m1.pool.node x).begin ≡ c.begin = ap (λ p. (p.node x).begin) pool in
            let size : n.npages * 4096 + c.begin ≡ begin = omega arith in
            right_from m1 n pool proc inv
              (munmap_round-right m m1 begin end npages pre x r al_begin al_end lo_hi h1 h2 h3
                (record { runs = runs; nodes = ap (λ p. p.node) pool }))
              first (ap (λ p. (p.node x).next) pool) size
              (keeps_left m m1 begin end npages pre x r al_begin al_end lo_hi n first size h1 h2 h3)
              (λ v d l h. gone.0 v (omega arith) (omega arith)) gone.1 h1 h2

    -- A region that begins where the range ends makes the next round end the loop.
    ends_at :
        (m2 : Machine)
        → IsArea (m2.pool.node x)
        → end ≤ (m2.pool.node x).begin
        → munmap_round begin end npages pre x m2 ≡ ok (leave 0, m2)
    unfolding munmap_round
    ends_at m2 r h =
        rw (
          lt→leb (end_of (m2.pool.node x)) begin (omega arith),
          le→leb end (m2.pool.node x).begin h,
        )

    left_from :
        (m1 : Machine) (n : Node)
        → m1.pool ≡ m.pool
        → m1.proc ≡ m.proc
        → I m1
        → munmap_round begin end npages pre x m ≡ ok (move pre x, cut m1 n)
        → n.begin ≡ end
        → n.next ≡ c.next
        → n.npages * 4096 + end ≡ stop c
        → ((v : ℕ) → Covers n v ↔ (Covers c v × Out begin end v))
        → ((v : ℕ) → Covers c v → begin ≤ v → v < end → Gone m1 v)
        → ((v : ℕ) → Gone m v → Gone m1 v)
        → c.begin < end
        → end < stop c
        → Round I Has Gone u begin end npages al_begin al_end lo_hi m pre x xs fs lo
    left_from m1 n pool proc inv runs first next size left hit stay h2 h3 =
        let r = a.areas.0 in
        let low = a.sorted.0 in
        let here = cut_here m1 n in
        let m2 = cut m1 n in
        let y = m2.pool.node x in
        let at : y.begin ≡ end = ap (λ z. z.begin) here ∙ first in
        let long : y.npages ≡ n.npages = ap (λ z. z.npages) here in
        let area : IsArea y = omega arith in
        let link : (m2.pool.node pre).next ≡ x = ap (λ z. z.next) (cut_pre m1 n pool) ∙ a.linked in
        let rest : At I Has Gone begin end m2 x c.next xs fs (stop c) =
          At-rest I Has Gone u begin end npages al_begin al_end lo_hi m pre x xs fs lo a m2 x fs
            (stop c) (u.local m1 m2 inv refl refl refl) (ap (λ z. z.next) here ∙ next)
            (cut-Same m1 n pool) (cut_free m1 n pool) a.distinct.1 (omega arith)
            (inr (omega arith)) in
        let sorted : Sorted m2.pool.node (stop y) xs =
          Sorted-lower m2.pool.node (stop c) (stop y) xs (omega arith) rest.sorted in
        let at_least : (v : ℕ) → Covers y v → Covers c v = λ v e. (omega arith, omega arith) in
        again m2 runs (ends_at m2 area (omega arith)) (
          cut-Goes m1 m2 n pool proc left hit stay (
            Goes-stop I Has Gone begin end m2 pre x (x ∷ xs) fs lo end
              (record {
                inv = rest.inv;
                linked = link;
                chain = (
                  refl,
                  a.chain.1,
                  subst (λ q. Chain (nexts m2.pool.node) q xs) (sym rest.linked) rest.chain,
                );
                areas = (area, rest.areas);
                sorted = (omega arith, omega arith, omega arith, sorted);
                free = rest.free;
                distinct = a.distinct;
                backed = λ v d. elim d [
                  | inl e ↦ a.backed v (inl (at_least v e))
                  | inr e ↦ rest.backed v e
                ];
                room = a.room;
              })
              (omega arith, omega arith, omega arith, sorted) (omega arith)))

    -- The range covers the left part of the region.
    pub Round-left :
        begin ≤ c.begin
        → c.begin < end
        → end < stop c
        → Round I Has Gone u begin end npages al_begin al_end lo_hi m pre x xs fs lo
    unfolding LeftOver
    Round-left h1 h2 h3 =
        let r = a.areas.0 in
        let (m1, runs, pool, proc, inv, gone) =
          u.unmaps m c.begin (end - c.begin) a.inv r.aligned (omega arith) (omega arith) r.above
            (omega arith) (λ v h h'. a.backed v (inl (omega arith, omega arith))) in
        left_at m1 runs pool proc inv gone
      where
        left_at :
            (m1 : Machine)
            → vm_unmappages m.proc.pgtbl c.begin (end - c.begin) true m ≡ ok (tt, m1)
            → m1.pool ≡ m.pool
            → m1.proc ≡ m.proc
            → I m1
            → Clears Gone m m1 c.begin (c.begin + (end - c.begin))
            → Round I Has Gone u begin end npages al_begin al_end lo_hi m pre x xs fs lo
        left_at m1 runs pool proc inv gone =
            let r = a.areas.0 in
            let n = left_node m m1 begin end npages pre x r al_begin al_end lo_hi in
            let size : n.npages * 4096 + end ≡ stop c = omega arith in
            left_from m1 n pool proc inv
              (munmap_round-left m m1 begin end npages pre x r al_begin al_end lo_hi h1 h2 h3
                (record { runs = runs; nodes = ap (λ p. p.node) pool }))
              refl (ap (λ p. (p.node x).next) pool) size
              (keeps_right m m1 begin end npages pre x r al_begin al_end lo_hi n refl size h1 h2 h3)
              (λ v d l h. gone.0 v (omega arith) (omega arith)) gone.1 h2 h3
