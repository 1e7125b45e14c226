-- ===== src/Mmap/Steps.antt =====
-- The three steps of `mmap_merge`, each branch by itself.
use biglab.Base.{
  ℕ, ◌+◌, ◌≡◌, refl, ◌≢◌, ◌⊎◌, inl, inr, false, arith, ◌==◌, ne→==, eq→==, update, Bool-cases, List,
  ◌∷◌, Fresh, sym,
}
use mathlib.Core.Path.{subst}
use biglab.Base.Word.{u32}
use biglab.Base.Outcome.{ok}
use biglab.Lock.{spinlock_init}
use biglab.Lock.Sequential.{settle}
use biglab.Machine.{Node, Machine}
use biglab.Pool.Nodes.{Chain, links, Chain-update}
use biglab.Pool.Ops.{FreeNodes, free-ok}
use biglab.Munmap.{end_of}
use biglab.Mmap.{merge_next, merge_pre, link_after}

-- The machine after a node has been written, and after a node has been given back.
abbrev pub wrote : ℕ → Node → Machine → Machine
wrote x n m = record m { pool = record m.pool { node = update m.pool.node x n } }

abbrev pub gave_back : ℕ → Machine → Machine
gave_back x m = record m {
  cpu = settle m.cpu;
  pool = record {
    node = update m.pool.node x (record (m.pool.node x) { link = m.pool.head });
    head = x;
    lk = spinlock_init;
  };
}

-- `a` with the pages of `b` added.
abbrev pub extended : Node → Node → Node
extended a b = record a { npages = u32 (a.npages + b.npages) }

module _ (m : Machine) (free : m.pool.lk.locked ≡ false) where
  pub merge_pre-joins :
      (pre cur : ℕ)
      → end_of (m.pool.node pre) ≡ (m.pool.node cur).begin
      → merge_pre pre cur m
        ≡ ok (pre, gave_back cur (wrote pre (extended (m.pool.node pre) (m.pool.node cur)) m))
  unfolding merge_pre
  merge_pre-joins pre cur e = rw (
    eq→== (end_of (m.pool.node pre)) (m.pool.node cur).begin e,
    free-ok (wrote pre (extended (m.pool.node pre) (m.pool.node cur)) m) cur free,
  )

  pub merge_next-joins :
      (cur next : ℕ)
      → next ≢ 0
      → end_of (m.pool.node cur) ≡ (m.pool.node next).begin
      → merge_next cur next m
        ≡ ok (
          tt,
          gave_back next (
              wrote cur
                (record (extended (m.pool.node cur) (m.pool.node next)) {
                  next = (m.pool.node next).next;
                })
                m),
        )
  unfolding merge_next
  merge_next-joins cur next nz e = rw (
    ne→== next 0 nz,
    eq→== (end_of (m.pool.node cur)) (m.pool.node next).begin e,
    free-ok
        (wrote cur
          (record (extended (m.pool.node cur) (m.pool.node next)) {
            next = (m.pool.node next).next;
          })
          m)
        next free,
  )

module _ (m : Machine) where
  pub merge_pre-apart :
      (pre cur : ℕ)
      → end_of (m.pool.node pre) ≢ (m.pool.node cur).begin
      → merge_pre pre cur m ≡ ok (cur, m)
  unfolding merge_pre
  merge_pre-apart pre cur ne = rw (ne→== (end_of (m.pool.node pre)) (m.pool.node cur).begin ne)

  pub merge_next-apart :
      (cur next : ℕ)
      → (next ≡ 0) ⊎ (end_of (m.pool.node cur) ≢ (m.pool.node next).begin)
      → merge_next cur next m ≡ ok (tt, m)
  unfolding merge_next
  merge_next-apart cur next (inl z) = rw (eq→== next 0 z)
  merge_next-apart cur next (inr ne) = elim (Bool-cases (next == 0)) [
    | inl z ↦ rw z
    | inr nz ↦ rw (nz, ne→== (end_of (m.pool.node cur)) (m.pool.node next).begin ne)
  ]

  pub link_after-same : (pre : ℕ) → link_after pre pre m ≡ ok (tt, m)
  unfolding link_after
  link_after-same pre = rw (eq→== pre pre refl)

  pub link_after-links :
      (pre cur : ℕ)
      → cur ≢ pre
      → link_after pre cur m
        ≡ ok (
          tt,
          wrote pre
              (record (m.pool.node pre) { next = cur })
              (wrote cur (record (m.pool.node cur) { next = (m.pool.node pre).next }) m),
        )
  unfolding link_after
  link_after-links pre cur ne = rw (ne→== cur pre ne, ne→== cur pre ne)

-- The free list under the two changes.
pub FreeNodes-wrote :
    (m : Machine) (x : ℕ) (v : Node) (fs : List ℕ)
    → Fresh x fs
    → FreeNodes m.pool fs
    → FreeNodes (wrote x v m).pool fs
FreeNodes-wrote m x v fs fresh f = record {
  chain = Chain-update m.pool.node (λ n. n.link) m.pool.head x v fs fresh f.chain;
  distinct = f.distinct;
  lk_free = f.lk_free;
}

pub FreeNodes-gave_back :
    (m : Machine) (x : ℕ) (fs : List ℕ)
    → x ≢ 0
    → Fresh x fs
    → FreeNodes m.pool fs
    → FreeNodes (gave_back x m).pool (x ∷ fs)
FreeNodes-gave_back m x fs nz fresh f = record {
  chain = (
    refl,
    nz,
    subst (λ q. Chain (links (gave_back x m).pool.node) q fs) (sym head_given)
        (Chain-update m.pool.node (λ n. n.link) m.pool.head x _ fs fresh f.chain),
  );
  distinct = (fresh, f.distinct);
  lk_free = refl;
}
  where
    head_given : links (gave_back x m).pool.node x ≡ m.pool.head
    head_given = ground (arith, eq→== x x refl)
