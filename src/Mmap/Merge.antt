-- ===== src/Mmap/Merge.antt =====
-- `mmap_merge` on every branch.
use biglab.Base.{ℕ, ◌≡◌, refl, sym, ◌≢◌, ◌⊎◌, List, ◌∷◌, ne→==, eq→==, Fresh}
use biglab.Base.Outcome.{ok}
use biglab.Machine.{Node, Machine}
use biglab.Pool.Ops.{FreeNodes}
use biglab.Munmap.{end_of}
use biglab.Mmap.{mmap_merge}
use biglab.Mmap.Steps.{
  wrote, gave_back, extended, FreeNodes-wrote, FreeNodes-gave_back, merge_pre-joins,
  merge_next-joins, merge_pre-apart, merge_next-apart, link_after-same, link_after-links,
}

-- The successor of `pre` is not to be merged into the node `x`.
abbrev pub NextApart : Machine → Node → ℕ → Type 0
NextApart m x next = (next ≡ 0) ⊎ (end_of x ≢ (m.pool.node next).begin)

-- The new node `cur` goes behind `pre`; `fs` are the free nodes, apart from the nodes at hand.
module _ (m : Machine) (pre cur : ℕ) (fs : List ℕ) (ne : cur ≢ pre) (nz : cur ≢ 0)
    (f : FreeNodes m.pool fs) (fresh_pre : Fresh pre fs) (fresh_cur : Fresh cur fs) where
  abbrev p : Node
  p = m.pool.node pre

  abbrev c : Node
  c = m.pool.node cur

  abbrev n : Node
  n = m.pool.node p.next

  -- What a merge leaves: `pre` and `cur` hold `vp` and `vc`, `gs` are the free nodes, and the other
  -- nodes are as before.
  pub record Merged (vp : Node) (gs : List ℕ) (m' : Machine) : Type 0 where
    pub pre_node : m'.pool.node pre ≡ vp
    pub free : FreeNodes m'.pool gs
    pub other : (y : ℕ) → y ≢ pre → y ≢ cur → y ≢ p.next → m'.pool.node y ≡ m.pool.node y
    pub mem : m'.mem ≡ m.mem
    pub proc : m'.proc ≡ m.proc
    pub user : m'.user ≡ m.user

  -- For different nodes `pre` and `cur` that are not free, where neither neighbour touches the
  -- new region: it is linked in between them, no node goes back to the store, and no other
  -- node changes.
  pub mmap_merge-links :
      end_of p ≢ c.begin
      → NextApart m c p.next
      → (m' : Machine) × (mmap_merge pre cur m ≡ ok (tt, m'))
        × Merged (record p { next = cur }) fs m'
        × (m'.pool.node cur ≡ record c { next = p.next })
        × ((y : ℕ) → y ≢ pre → y ≢ cur → m'.pool.node y ≡ m.pool.node y)
  unfolding mmap_merge
  mmap_merge-links apart apart' = (
    wrote pre (record p { next = cur }) (wrote cur (record c { next = p.next }) m),
    rw (
      merge_pre-apart m pre cur apart,
      merge_next-apart m cur p.next apart',
      link_after-links m pre cur ne,
    ),
    record {
      pre_node = rw (eq→== pre pre refl);
      free =
          FreeNodes-wrote (wrote cur (record c { next = p.next }) m) pre _ fs fresh_pre
            (FreeNodes-wrote m cur _ fs fresh_cur f);
      other = λ y np nc nn. rw (ne→== pre y (λ e. np (sym e)), ne→== cur y (λ e. nc (sym e)));
      mem = refl;
      proc = refl;
      user = refl;
    },
    rw (ne→== pre cur (λ e. ne (sym e)), eq→== cur cur refl),
    λ y np nc. rw (ne→== pre y (λ e. np (sym e)), ne→== cur y (λ e. nc (sym e))),
  )

  -- The machine once the new node's pages have gone to `pre`.
  abbrev grown : Machine
  grown = gave_back cur (wrote pre (extended p c) m)

  grown_pre : grown.pool.node pre ≡ extended p c
  grown_pre = rw (ne→== cur pre ne, eq→== pre pre refl)

  grown_other : (y : ℕ) → y ≢ pre → y ≢ cur → grown.pool.node y ≡ m.pool.node y
  grown_other y np nc = rw (ne→== cur y (λ e. nc (sym e)), ne→== pre y (λ e. np (sym e)))

  grown_free : FreeNodes grown.pool (cur ∷ fs)
  grown_free =
      FreeNodes-gave_back (wrote pre (extended p c) m) cur fs nz fresh_cur
        (FreeNodes-wrote m pre _ fs fresh_pre f)

  -- For different nodes `pre` and `cur` that are not free, where only the region before
  -- touches the new one: it grows by its pages, and the new node goes back to the store.
  pub mmap_merge-joins_pre :
      end_of p ≡ c.begin
      → p.next ≢ cur
      → p.next ≢ pre
      → NextApart m (extended p c) p.next
      → (m' : Machine) × (mmap_merge pre cur m ≡ ok (tt, m'))
        × Merged (extended p c) (cur ∷ fs) m'
        × ((y : ℕ) → y ≢ pre → y ≢ cur → m'.pool.node y ≡ m.pool.node y)
  unfolding mmap_merge
  mmap_merge-joins_pre joins nc np apart = (
    grown,
    rw (
      merge_pre-joins m f.lk_free pre cur joins,
      merge_next-apart grown pre p.next apart',
      link_after-same grown pre,
    ),
    record {
      pre_node = grown_pre;
      free = grown_free;
      other = λ y np nc nn. grown_other y np nc;
      mem = refl;
      proc = refl;
      user = refl;
    },
    grown_other,
  )
    where
      apart' : NextApart grown (grown.pool.node pre) p.next
      apart' = rw (grown_pre, grown_other p.next np nc) apart

  -- For different nodes `pre`, `cur` and a successor of `pre`, none of them on the list of
  -- free nodes: where both neighbours touch the new region, the one before takes the pages of
  -- all three and the successor of the one behind, and the two other nodes go back to the
  -- store.
  pub mmap_merge-joins_both :
      end_of p ≡ c.begin
      → p.next ≢ cur
      → p.next ≢ pre
      → p.next ≢ 0
      → Fresh p.next fs
      → end_of (extended p c) ≡ n.begin
      → (m' : Machine) × (mmap_merge pre cur m ≡ ok (tt, m'))
        × Merged (record (extended (extended p c) n) { next = n.next }) (p.next ∷ cur ∷ fs) m'
  unfolding mmap_merge
  mmap_merge-joins_both joins nc np nn fresh joins' = (
    gave_back p.next joined,
    rw (
      merge_pre-joins m f.lk_free pre cur joins,
      merge_next-joins grown refl pre p.next nn touching,
      link_after-same (gave_back p.next joined) pre,
    ),
    record {
      pre_node = rw (
        ne→== p.next pre np,
        eq→== pre pre refl,
        ne→== cur pre ne,
        ne→== cur p.next (λ e. nc (sym e)),
        ne→== pre p.next (λ e. np (sym e)),
      );
      free =
          FreeNodes-gave_back joined p.next (cur ∷ fs) nn (nc, fresh)
            (FreeNodes-wrote grown pre _ (cur ∷ fs) (λ e. ne (sym e), fresh_pre) grown_free);
      other = λ y np' nc' nn'. rw (
        ne→== p.next y (λ e. nn' (sym e)),
        ne→== pre y (λ e. np' (sym e)),
        ne→== cur y (λ e. nc' (sym e)),
      );
      mem = refl;
      proc = refl;
      user = refl;
    },
  )
    where
      joined : Machine
      joined =
          wrote pre
            (record (extended (grown.pool.node pre) (grown.pool.node p.next)) {
              next = (grown.pool.node p.next).next;
            })
            grown

      touching : end_of (grown.pool.node pre) ≡ (grown.pool.node p.next).begin
      touching = rw (grown_pre, grown_other p.next np nc) joins'

  -- For such nodes, where only the region behind touches the new one: its node goes back to
  -- the store, and the new node, which has taken its pages, is linked in before it all the
  -- same. The node behind is then on the free list and, with its old begin, the successor of
  -- the new one.
  pub mmap_merge-keeps_freed :
      end_of p ≢ c.begin
      → p.next ≢ cur
      → p.next ≢ pre
      → p.next ≢ 0
      → Fresh p.next fs
      → end_of c ≡ n.begin
      → (m' : Machine) × (mmap_merge pre cur m ≡ ok (tt, m'))
        × Merged (record p { next = cur }) (p.next ∷ fs) m'
        × (m'.pool.node cur ≡ record (extended c n) { next = p.next })
        × ((m'.pool.node p.next).begin ≡ n.begin)
  unfolding mmap_merge
  mmap_merge-keeps_freed apart nc np nn fresh joins = (
    wrote pre (record (taken.pool.node pre) { next = cur })
        (wrote cur (record (taken.pool.node cur) { next = (taken.pool.node pre).next }) taken),
    rw (
      merge_pre-apart m pre cur apart,
      merge_next-joins m f.lk_free cur p.next nn joins,
      link_after-links taken pre cur ne,
    ),
    record {
      pre_node = rw (eq→== pre pre refl, taken_pre);
      free =
          FreeNodes-wrote
            (wrote cur (record (taken.pool.node cur) { next = (taken.pool.node pre).next }) taken)
            pre _ (p.next ∷ fs) (λ e. np (sym e), fresh_pre)
            (FreeNodes-wrote taken cur _ (p.next ∷ fs) (λ e. nc (sym e), fresh_cur) taken_free);
      other = λ y np' nc' nn'. rw (
        ne→== pre y (λ e. np' (sym e)),
        ne→== cur y (λ e. nc' (sym e)),
        ne→== p.next y (λ e. nn' (sym e)),
      );
      mem = refl;
      proc = refl;
      user = refl;
    },
    rw (
      ne→== pre cur (λ e. ne (sym e)),
      eq→== cur cur refl,
      ne→== p.next cur nc,
      ne→== p.next pre np,
      ne→== cur pre ne,
    ),
    rw (
      ne→== pre p.next (λ e. np (sym e)),
      ne→== cur p.next (λ e. nc (sym e)),
      eq→== p.next p.next refl,
    ),
  )
    where
      stretched : Machine
      stretched = wrote cur (record (extended c n) { next = n.next }) m

      taken : Machine
      taken = gave_back p.next stretched

      taken_pre : taken.pool.node pre ≡ p
      taken_pre = rw (ne→== p.next pre np, ne→== cur pre ne)

      taken_free : FreeNodes taken.pool (p.next ∷ fs)
      taken_free =
          FreeNodes-gave_back stretched p.next fs nn fresh (FreeNodes-wrote m cur _ fs fresh_cur f)
