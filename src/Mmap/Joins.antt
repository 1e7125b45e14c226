-- ===== src/Mmap/Joins.antt =====
-- What `mmap_merge` leaves at the place of a new region, linked or joined to the one before.
use biglab.Base.{
  ℕ, ◌+◌, ◌≤◌, ◌<◌, ◌≡◌, sym, ap, ◌≢◌, ◌⊎◌, inl, inr, List, [], ◌∷◌, arith, Fresh, length-append,
}
use mathlib.Core.Path.{subst}
use native.Mathlib.Decide.{dec_le}
use biglab.Base.Disjoint.{Fresh-middle, Distinct-gives}
use biglab.Base.Word.{u32}
use biglab.Machine.{Node, Machine}
use biglab.Pool.Nodes.{Chain, nexts}
use biglab.Pool.Ops.{FreeNodes}
use biglab.Munmap.Rounds.{Covers}
use biglab.Munmap.Regions.{
  Covered, Same, Same-sym, Areas-congr, Sorted-congr, Sorted-lower, Covered-congr, Fresh-left,
  nexts-congr,
}
use biglab.Mmap.Areas.{stop, Sorted}
use biglab.Mmap.Steps.{extended}
use biglab.Mmap.Slots.{Slot, Inserted}

module _ (m : Machine) (cur : ℕ) (fs : List ℕ) where
  abbrev node : ℕ → Node
  node = m.pool.node

  abbrev c : Node
  c = m.pool.node cur

  -- What both merges leave alone.
  Same-others :
      (pre : ℕ) (m' : Machine) (xs gs : List ℕ)
      → ((q : ℕ) → q ≢ pre → q ≢ cur → m'.pool.node q ≡ node q)
      → Fresh pre xs
      → Fresh cur xs
      → Same node m'.pool.node xs
  Same-others pre m' [] gs h a b = tt
  Same-others pre m' (x ∷ xs) gs h (na, a) (nb, b) =
      (h x (λ e. na (sym e)) (λ e. nb (sym e)), Same-others pre m' xs gs h a b)

  -- Neither neighbour touches the new region.
  pub Inserted-links :
      (pre : ℕ) (xs : List ℕ) (m' : Machine)
      → Slot m cur fs pre xs
      → Sorted node (stop c) xs
      → FreeNodes m'.pool fs
      → m'.pool.node pre ≡ record (node pre) { next = cur }
      → m'.pool.node cur ≡ record c { next = (node pre).next }
      → ((q : ℕ) → q ≢ pre → q ≢ cur → m'.pool.node q ≡ node q)
      → m'.mem ≡ m.mem
      → m'.proc ≡ m.proc
      → m'.user ≡ m.user
      → Inserted m cur fs pre xs m'
  Inserted-links pre xs m' s sorted free at_pre at_cur other mem proc user =
      let (fresh_pre, d) = s.distinct in
      let (fresh_cur, d') = Distinct-gives cur xs fs d in
      let (ne, fresh_pre') = Fresh-middle pre cur xs fs fresh_pre in
      let same =
        Same-others pre m' xs fs other (Fresh-left pre xs fs fresh_pre')
          (Fresh-left cur xs fs fresh_cur) in
      let n = s.new in
      let before = s.before in
      let b : (m'.pool.node pre).begin ≡ (node pre).begin = ap (λ y. y.begin) at_pre in
      let l : (m'.pool.node pre).npages ≡ (node pre).npages = ap (λ y. y.npages) at_pre in
      let b' : (m'.pool.node cur).begin ≡ c.begin = ap (λ y. y.begin) at_cur in
      let l' : (m'.pool.node cur).npages ≡ c.npages = ap (λ y. y.npages) at_cur in
      let rest = Sorted-congr node m'.pool.node (stop c) xs same sorted in
      record {
        ys = cur ∷ xs;
        gs = fs;
        chain = (
          ap (λ y. y.next) at_pre,
          s.nz,
          subst (λ q. Chain (nexts m'.pool.node) q xs) (sym (ap (λ y. y.next) at_cur))
              (nexts-congr node m'.pool.node (node pre).next xs same s.chain),
        );
        areas = (omega arith, Areas-congr node m'.pool.node xs same s.areas);
        sorted = (
          omega arith,
          omega arith,
          omega arith,
          Sorted-lower m'.pool.node (stop c) _ xs (omega arith) rest,
        );
        free = free;
        distinct = ((ne, fresh_pre'), (fresh_cur, d'));
        within = λ q f. let (a, e) = Fresh-middle q cur xs fs f in (a, e);
        begin_kept = b;
        grows = omega arith;
        below = omega arith;
        others = λ q np f. let (a, e) = Fresh-middle q cur xs fs f in other q np a;
        covers = λ v. (
          λ d. elim d [
            | inl (p, q) ↦ inl (inl (omega arith, omega arith))
            | inr (inl (p, q)) ↦ inr (omega arith, omega arith)
            | inr (inr e) ↦
                inl (inr (Covered-congr m'.pool.node node xs v (Same-sym _ _ xs same) e))
          ],
          λ d. elim d [
            | inl (inl (p, q)) ↦ inl (omega arith, omega arith)
            | inl (inr e) ↦ inr (inr (Covered-congr node m'.pool.node xs v same e))
            | inr (p, q) ↦ inr (inl (omega arith, omega arith))
          ],
        );
        count = omega (arith, length-append xs fs, length-append xs (cur ∷ fs));
        freed = omega arith;
        proc = proc;
        user = user;
        mem = mem;
      }

  -- The region before the new one grows by it.
  pub Inserted-joins :
      (pre : ℕ) (xs : List ℕ) (m' : Machine)
      → Slot m cur fs pre xs
      → stop (node pre) ≡ c.begin
      → Sorted node (stop c) xs
      → FreeNodes m'.pool (cur ∷ fs)
      → m'.pool.node pre ≡ extended (node pre) c
      → ((q : ℕ) → q ≢ pre → q ≢ cur → m'.pool.node q ≡ node q)
      → m'.mem ≡ m.mem
      → m'.proc ≡ m.proc
      → m'.user ≡ m.user
      → Inserted m cur fs pre xs m'
  Inserted-joins pre xs m' s touch sorted free at_pre other mem proc user =
      let (fresh_pre, d) = s.distinct in
      let (fresh_cur, d') = Distinct-gives cur xs fs d in
      let (ne, fresh_pre') = Fresh-middle pre cur xs fs fresh_pre in
      let same =
        Same-others pre m' xs fs other (Fresh-left pre xs fs fresh_pre')
          (Fresh-left cur xs fs fresh_cur) in
      let n = s.new in
      let small = s.small in
      let b : (m'.pool.node pre).begin ≡ (node pre).begin = ap (λ y. y.begin) at_pre in
      let l : (m'.pool.node pre).npages ≡ u32 ((node pre).npages + c.npages) =
        ap (λ y. y.npages) at_pre in
      let total : (m'.pool.node pre).npages ≡ (node pre).npages + c.npages = omega arith in
      let rest = Sorted-congr node m'.pool.node (stop c) xs same sorted in
      record {
        ys = xs;
        gs = cur ∷ fs;
        chain =
            subst (λ q. Chain (nexts m'.pool.node) q xs) (sym (ap (λ y. y.next) at_pre))
              (nexts-congr node m'.pool.node (node pre).next xs same s.chain);
        areas = Areas-congr node m'.pool.node xs same s.areas;
        sorted = Sorted-lower m'.pool.node (stop c) _ xs (omega arith) rest;
        free = free;
        distinct = s.distinct;
        within = λ q f. f;
        begin_kept = b;
        grows = omega arith;
        below = omega arith;
        others = λ q np f. let (a, e) = Fresh-middle q cur xs fs f in other q np a;
        covers = λ v. (
          λ d. elim d [
            | inl (p, q) ↦ grown v p (omega arith)
            | inr e ↦ inl (inr (Covered-congr m'.pool.node node xs v (Same-sym _ _ xs same) e))
          ],
          λ d. elim d [
            | inl (inl (p, q)) ↦ inl (omega arith, omega arith)
            | inl (inr e) ↦ inr (Covered-congr node m'.pool.node xs v same e)
            | inr (p, q) ↦ inl (omega arith, omega arith)
          ],
        );
        count = omega arith;
        freed = omega arith;
        proc = proc;
        user = user;
        mem = mem;
      }
    where
      grown :
          (v : ℕ)
          → (m'.pool.node pre).begin ≤ v
          → v < stop c
          → (Covers (node pre) v ⊎ Covered node xs v) ⊎ Covers c v
      grown v p q =
          let b : (m'.pool.node pre).begin ≡ (node pre).begin = ap (λ y. y.begin) at_pre in
          elim (dec_le c.begin v) [
            | yes h ↦ inr (h, q)
            | no h ↦ inl (inl (omega arith, omega arith))
          ]
