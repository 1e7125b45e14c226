-- ===== src/Mmap/Insert.antt =====
-- `uvm_mmap` puts a new region into the list: `position_loop`, then `mmap_merge`.
use biglab.Base.{
  ℕ, zero, suc, ◌<◌, ◌≡◌, sym, ◌∙◌, ap, ◌≢◌, ◌⊎◌, inl, inr, List, [], ◌∷◌, arith, Fresh, length,
}
use native.Mathlib.Decide.{dec_le}
use biglab.Base.Disjoint.{Fresh-middle, Distinct-gives}
use biglab.Base.Outcome.{ok}
use biglab.Machine.{Node, Machine}
use biglab.Pool.Nodes.{Chain, nexts}
use biglab.Munmap.{end_of}
use biglab.Munmap.Regions.{Sorted-lower, Fresh-left, Fresh-right}
use biglab.Mmap.{position_loop, mmap_merge}
use biglab.Mmap.Areas.{stop, Sorted}
use biglab.Mmap.Steps.{extended}
use biglab.Mmap.Merge.{mmap_merge-links, mmap_merge-joins_pre}
use biglab.Mmap.Slots.{Slot, Inserted, Slot-rest, Inserted-keep, position_here, position_on}
use biglab.Mmap.Joins.{Inserted-links, Inserted-joins}

module _ (m : Machine) (cur : ℕ) (fs : List ℕ) where
  abbrev node : ℕ → Node
  node = m.pool.node

  abbrev c : Node
  c = m.pool.node cur

  -- The search for the place ends at `p`, and the merge there puts the region in.
  pub record Placed (k pre : ℕ) (xs : List ℕ) : Type 0 where
    pub p : ℕ
    pub found : position_loop k node c.begin pre ≡ ok p
    pub after : Machine
    pub merged : mmap_merge p cur m ≡ ok (tt, after)
    pub inserted : Inserted m cur fs pre xs after

  -- The successor is none of the nodes that are not behind it.
  next_ne : (q p : ℕ) (xs : List ℕ) → q ≢ 0 → Fresh q xs → Chain (nexts node) p xs → p ≢ q
  next_ne q p [] nz f h e = nz (sym e ∙ h)
  next_ne q p (x ∷ xs) nz (ne, f) (h, _, _) e = ne (sym e ∙ h)

  next_apart :
      (pre : ℕ) (xs : List ℕ) (e : ℕ)
      → Slot m cur fs pre xs
      → e ≡ stop c
      → ((node pre).next ≡ 0) ⊎ (e ≢ (node (node pre).next).begin)
  next_apart pre [] e s h = inl s.chain
  next_apart pre (x ∷ xs) e s h =
      inr λ q. s.apart.0 (sym (ap (λ y. (node y).begin) s.chain.0) ∙ sym q ∙ h)

  place_here :
      (k pre : ℕ) (xs : List ℕ)
      → Slot m cur fs pre xs
      → Sorted node (stop c) xs
      → Placed (suc k) pre xs
  place_here k pre xs s sorted =
      let (fresh_pre, d) = s.distinct in
      let (fresh_cur, d') = Distinct-gives cur xs fs d in
      let (ne, fresh_pre') = Fresh-middle pre cur xs fs fresh_pre in
      let fp = Fresh-right pre xs fs fresh_pre' in
      let fc = Fresh-right cur xs fs fresh_cur in
      let n = s.new in
      let before = s.before in
      let small = s.small in
      let ends : end_of (node pre) ≡ stop (node pre) = omega arith in
      let ends_new : end_of c ≡ stop c = omega arith in
      let found =
        position_here m cur fs k pre xs s
          (Sorted-lower node (stop c) c.begin xs (omega arith) sorted) in
      let other_cur =
        next_ne cur (node pre).next xs s.nz (Fresh-left cur xs fs fresh_cur) s.chain in
      let other_pre =
        next_ne pre (node pre).next xs s.pre_nz (Fresh-left pre xs fs fresh_pre') s.chain in
      elim (dec_le c.begin (stop (node pre))) [
        | yes h ↦
            let touch : stop (node pre) ≡ c.begin = omega arith in
            let both : end_of (extended (node pre) c) ≡ stop c = omega arith in
            let (m', runs, g, other) =
              mmap_merge-joins_pre m pre cur fs (λ e. ne (sym e)) s.nz s.free fp fc (ends ∙ touch)
                other_cur other_pre (next_apart pre xs (end_of (extended (node pre) c)) s both) in
            record {
              p = pre;
              found = found;
              after = m';
              merged = runs;
              inserted =
                  Inserted-joins m cur fs pre xs m' s touch sorted g.free g.pre_node other g.mem
                    g.proc g.user;
            }
        | no h ↦
            let (m', runs, g, at_cur, other) =
              mmap_merge-links m pre cur fs (λ e. ne (sym e)) s.nz s.free fp fc (omega arith)
                (next_apart pre xs (end_of c) s ends_new) in
            record {
              p = pre;
              found = found;
              after = m';
              merged = runs;
              inserted =
                  Inserted-links m cur fs pre xs m' s sorted g.free g.pre_node at_cur other g.mem
                    g.proc g.user;
            }
      ]

  -- For a new region of whole pages between MMAP_BEGIN and MMAP_END.
  pub place-Inserted :
      (k pre : ℕ) (xs : List ℕ) → length xs < k → Slot m cur fs pre xs → Placed k pre xs
  place-Inserted zero pre xs fuel s = absurd (omega arith)
  place-Inserted (suc k) pre [] fuel s = place_here k pre [] s tt
  place-Inserted (suc k) pre (x ∷ xs) fuel s = elim (dec_le c.begin (node x).begin) [
    | yes h ↦
        let room = s.room.0 in
        let (_, pos, fits, rest) = s.sorted in
        place_here k pre (x ∷ xs) s (omega arith, pos, fits, rest)
    | no h ↦
        let g = place-Inserted k x xs (omega arith) (Slot-rest m cur fs pre x xs s (omega arith)) in
        record {
          p = g.p;
          found = position_on m cur fs k pre x xs s (omega arith) ∙ g.found;
          after = g.after;
          merged = g.merged;
          inserted = Inserted-keep m cur fs pre x xs g.after s g.inserted;
        }
  ]
