-- ===== src/Mmap/Slots.antt =====
-- The place of a new region in the list of `uvm_mmap`, and the walk of `position_loop` to it.
use biglab.Base.{
  ℕ, suc, ◌*◌, ◌^◌, ◌≤◌, ◌<◌, ◌≡◌, sym, ◌∙◌, ap, ◌≢◌, ◌⊎◌, inl, inr, ◌↔◌, List, [], ◌∷◌, ◌++◌,
  arith, All, Fresh, Distinct, length, eq→==, ne→==, lt→ltb, le→ltb,
}
use mathlib.Core.Path.{subst}
use biglab.Base.Word.{mmap_end}
use biglab.Base.Outcome.{ok}
use biglab.Machine.{Node, Machine}
use biglab.Pool.Nodes.{Chain, nexts}
use biglab.Pool.Ops.{FreeNodes}
use biglab.Munmap.Rounds.{IsArea, Covers}
use biglab.Munmap.Regions.{Covered, Areas}
use biglab.Mmap.{position_loop}
use biglab.Mmap.Areas.{stop, Sorted, Free}

module _ (m : Machine) (cur : ℕ) (fs : List ℕ) where
  abbrev node : ℕ → Node
  node = m.pool.node

  abbrev c : Node
  c = m.pool.node cur

  -- Behind `pre` stand the regions `xs`, and the new region `cur`, whose addresses are free, is to
  -- go among them; none of them begins where the new one ends.
  pub record Slot (pre : ℕ) (xs : List ℕ) : Type 0 where
    pub new : IsArea c
    pub nz : cur ≢ 0
    pub pre_nz : pre ≢ 0
    pub chain : Chain (nexts node) (node pre).next xs
    pub areas : Areas node xs
    pub sorted : Sorted node (stop (node pre)) xs
    pub before : stop (node pre) ≤ c.begin
    pub small : (node pre).npages * 4096 < 2 ^ 31
    pub room : Free node c.begin (c.npages * 4096) xs
    pub apart : All (λ x. (node x).begin ≢ stop c) xs
    pub free : FreeNodes m.pool fs
    pub distinct : Distinct (pre ∷ (xs ++ (cur ∷ fs)))

  -- The list behind `pre` covers the new region too; `pre` itself may have grown by it.
  pub record Inserted (pre : ℕ) (xs : List ℕ) (m' : Machine) : Type 0 where
    pub ys : List ℕ
    pub gs : List ℕ
    pub chain : Chain (nexts m'.pool.node) (m'.pool.node pre).next ys
    pub areas : Areas m'.pool.node ys
    pub sorted : Sorted m'.pool.node (stop (m'.pool.node pre)) ys
    pub free : FreeNodes m'.pool gs
    pub distinct : Distinct (pre ∷ (ys ++ gs))
    pub within : (q : ℕ) → Fresh q (xs ++ (cur ∷ fs)) → Fresh q (ys ++ gs)
    pub begin_kept : (m'.pool.node pre).begin ≡ (node pre).begin
    pub grows : (node pre).npages ≤ (m'.pool.node pre).npages
    pub below : stop (m'.pool.node pre) ≤ mmap_end
    pub others : (q : ℕ) → q ≢ pre → Fresh q (xs ++ (cur ∷ fs)) → m'.pool.node q ≡ node q
    pub covers :
        (v : ℕ)
        → (Covers (m'.pool.node pre) v ⊎ Covered m'.pool.node ys v)
          ↔ ((Covers (node pre) v ⊎ Covered node xs v) ⊎ Covers c v)
    pub count : length (ys ++ gs) ≤ length (xs ++ (cur ∷ fs))
    pub freed : length fs ≤ length gs
    pub proc : m'.proc ≡ m.proc
    pub user : m'.user ≡ m.user
    pub mem : m'.mem ≡ m.mem

  pub position_here :
      (k pre : ℕ) (xs : List ℕ)
      → Slot pre xs
      → Sorted node c.begin xs
      → position_loop (suc k) node c.begin pre ≡ ok pre
  unfolding position_loop
  position_here k pre [] s h = rw (eq→== (node pre).next 0 s.chain)
  position_here k pre (x ∷ xs) s (le, _, _, _) =
      let (e, nz, _) = s.chain in rw (e, ne→== x 0 nz, le→ltb (node x).begin c.begin le)

  pub position_on :
      (k pre x : ℕ) (xs : List ℕ)
      → Slot pre (x ∷ xs)
      → (node x).begin < c.begin
      → position_loop (suc k) node c.begin pre ≡ position_loop k node c.begin x
  unfolding position_loop
  position_on k pre x xs s lt =
      let (e, nz, _) = s.chain in rw (e, ne→== x 0 nz, lt→ltb (node x).begin c.begin lt)

  -- A region that begins before the new one is passed.
  pub Slot-rest :
      (pre x : ℕ) (xs : List ℕ) → Slot pre (x ∷ xs) → (node x).begin < c.begin → Slot x xs
  Slot-rest pre x xs s lt =
      let r = s.areas.0 in
      let n = s.new in
      let far = s.room.0 in
      record {
        new = s.new;
        nz = s.nz;
        pre_nz = s.chain.1;
        chain = s.chain.2;
        areas = s.areas.1;
        sorted = s.sorted.3;
        before = omega arith;
        small = omega arith;
        room = s.room.1;
        apart = s.apart.1;
        free = s.free;
        distinct = s.distinct.1;
      }

  pub Inserted-keep :
      (pre x : ℕ) (xs : List ℕ) (m' : Machine)
      → Slot pre (x ∷ xs)
      → Inserted x xs m'
      → Inserted pre (x ∷ xs) m'
  Inserted-keep pre x xs m' s g =
      let ((ne, fresh), d) = s.distinct in
      let r = s.areas.0 in
      let low = s.sorted.0 in
      let n = s.new in
      let same = g.others pre ne fresh in
      let b = g.begin_kept in
      let up = g.grows in
      let below = g.below in
      let at : stop (m'.pool.node pre) ≡ stop (node pre) = ap stop same in
      let long : (m'.pool.node pre).npages ≡ (node pre).npages = ap (λ y. y.npages) same in
      record {
        ys = x ∷ g.ys;
        gs = g.gs;
        chain = (ap (λ y. y.next) same ∙ s.chain.0, s.chain.1, g.chain);
        areas = (omega arith, g.areas);
        sorted = (omega arith, omega arith, below, g.sorted);
        free = g.free;
        distinct = ((ne, g.within pre fresh), g.distinct);
        within = λ q (qx, qf). (qx, g.within q qf);
        begin_kept = ap (λ y. y.begin) same;
        grows = omega arith;
        below = let e = s.before in omega arith;
        others = λ q qn (qx, qf). g.others q qx qf;
        covers = λ v. (
          λ d. elim d [
            | inl e ↦ inl (inl (subst (λ y. Covers y v) same e))
            | inr e ↦ elim ((g.covers v).0 e) [ inl q ↦ inl (inr q) | inr q ↦ inr q ]
          ],
          λ d. elim d [
            | inl (inl e) ↦ inl (subst (λ y. Covers y v) (sym same) e)
            | inl (inr e) ↦ inr ((g.covers v).1 (inl e))
            | inr e ↦ inr ((g.covers v).1 (inr e))
          ],
        );
        count = omega (arith, g.count);
        freed = g.freed;
        proc = g.proc;
        user = g.user;
        mem = g.mem;
      }
