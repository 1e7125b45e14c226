-- ===== src/Munmap/Loop.antt =====
-- The whole of `uvm_munmap` on a list of regions.
use biglab.Base.{
  ℕ, zero, suc, ◌+◌, ◌*◌, ◌%◌, ◌≤◌, ◌<◌, ◌≡◌, sym, ◌∙◌, ◌≢◌, List, [], ◌∷◌, arith, length, eq→==,
  ne→==,
}
use mathlib.Core.Path.{subst}
use native.Mathlib.Decide.{dec_le}
use biglab.Base.Outcome.{ok}
use biglab.Machine.{Machine}
use biglab.Mmap.Areas.{stop}
use biglab.Munmap.{stop as leave, move, munmap_round, munmap_loop}
use biglab.Munmap.Goes.{Unmapping, At, Goes, Goes-stop}
use biglab.Munmap.Cases.{Round, stops, moves, again, Round-before, Round-behind}
use biglab.Munmap.Cuts.{Round-right, Round-left}
use biglab.Munmap.Drop.{Round-covered}
use biglab.Munmap.Split.{Round-inside}

module _ (I : Machine → Type 0) (Has : ℕ → Type 0) (Gone : Machine → ℕ → Type 0)
    (u : Unmapping I Has Gone) (begin end npages : ℕ) (al_begin : begin % 4096 ≡ 0)
    (al_end : end % 4096 ≡ 0) (lo_hi : begin < end) (size : begin + npages * 4096 ≡ end) where
  -- The end of the list.
  loop_end :
      (k cur : ℕ) (m : Machine) (pre : ℕ)
      → cur ≡ 0
      → munmap_loop (suc k) begin end npages pre cur m ≡ ok (0, m)
  unfolding munmap_loop
  loop_end k cur m pre e = rw (eq→== cur 0 e)

  loop_stop :
      (k cur : ℕ) (m m1 : Machine) (pre : ℕ)
      → cur ≢ 0
      → munmap_round begin end npages pre cur m ≡ ok (leave 0, m1)
      → munmap_loop (suc k) begin end npages pre cur m ≡ ok (0, m1)
  unfolding munmap_loop
  loop_stop k cur m m1 pre ne e = rw (ne→== cur 0 ne, e)

  loop_move :
      (k cur : ℕ) (m m1 : Machine) (pre p q : ℕ)
      → cur ≢ 0
      → munmap_round begin end npages pre cur m ≡ ok (move p q, m1)
      → munmap_loop (suc k) begin end npages pre cur m ≡ munmap_loop k begin end npages p q m1
  unfolding munmap_loop
  loop_move k cur m m1 pre p q ne e = rw (ne→== cur 0 ne, e)

  loop_twice :
      (k cur : ℕ) (m m1 : Machine) (pre : ℕ)
      → 1 ≤ k
      → cur ≢ 0
      → munmap_round begin end npages pre cur m ≡ ok (move pre cur, m1)
      → munmap_round begin end npages pre cur m1 ≡ ok (leave 0, m1)
      → munmap_loop (suc k) begin end npages pre cur m ≡ ok (0, m1)
  loop_twice zero cur m m1 pre h ne first second = absurd (omega arith)
  loop_twice (suc k) cur m m1 pre h ne first second =
      loop_move (suc k) cur m m1 pre pre cur ne first ∙ loop_stop k cur m1 m1 pre ne second

  -- The region and the range, in every position to each other.
  round :
      (m : Machine) (pre x : ℕ) (xs fs : List ℕ) (lo : ℕ)
      → At I Has Gone begin end m pre x (x ∷ xs) fs lo
      → Round I Has Gone u begin end npages al_begin al_end lo_hi m pre x xs fs lo
  round m pre x xs fs lo a =
      let c = m.pool.node x in
      elim (dec_le (stop c) begin) [
        | yes h ↦
            Round-before I Has Gone u begin end npages al_begin al_end lo_hi m pre x xs fs lo a h
        | no h1 ↦ elim (dec_le end c.begin) [
          | yes h ↦
              Round-behind I Has Gone u begin end npages al_begin al_end lo_hi m pre x xs fs lo a h
          | no h2 ↦ elim (dec_le begin c.begin) [
            | yes l ↦ elim (dec_le (stop c) end) [
              | yes h ↦
                  Round-covered I Has Gone u begin end npages al_begin al_end lo_hi m pre x xs fs lo
                    a l h
              | no h ↦
                  Round-left I Has Gone u begin end npages al_begin al_end lo_hi m pre x xs fs lo a
                    l (omega arith) (omega arith)
            ]
            | no l ↦ elim (dec_le (stop c) end) [
              | yes h ↦
                  Round-right I Has Gone u begin end npages al_begin al_end lo_hi m pre x xs fs lo a
                    (omega arith) (omega arith) h
              | no h ↦ inside fs a (omega arith) (omega arith)
            ]
          ]
        ]
      ]
    where
      inside :
          (gs : List ℕ)
          → At I Has Gone begin end m pre x (x ∷ xs) gs lo
          → (m.pool.node x).begin < begin
          → end < stop (m.pool.node x)
          → Round I Has Gone u begin end npages al_begin al_end lo_hi m pre x xs gs lo
      inside [] b h1 h2 = let low = b.sorted.0 in let room = b.room in absurd (omega arith)
      inside (f ∷ gs) b h1 h2 =
          Round-inside I Has Gone u begin end npages al_begin al_end lo_hi m pre x xs f gs lo b h1
            h2 size

  -- For regions of whole pages between MMAP_BEGIN and MMAP_END, in order and apart, in
  -- different nodes other than `pre` and the free ones, whose pages can be unmapped, and for
  -- an aligned, not empty range, with a node of the store free or no region before the range:
  -- with any number of rounds that is at least the number of regions left and two more, the
  -- loop of `uvm_munmap` returns 0, and leaves behind `pre` a list of regions that covers what
  -- it covered before, less the range, whose addresses it has unmapped where a region covered
  -- them.
  pub munmap_loop-Goes :
      (k : ℕ) (m : Machine) (pre cur : ℕ) (xs fs : List ℕ) (lo : ℕ)
      → length xs + 2 ≤ k
      → At I Has Gone begin end m pre cur xs fs lo
      → (m' : Machine) × (munmap_loop k begin end npages pre cur m ≡ ok (0, m'))
        × Goes I Has Gone begin end m m' pre xs fs lo
  munmap_loop-Goes zero m pre cur xs fs lo fuel a = absurd (omega arith)
  munmap_loop-Goes (suc k) m pre cur [] fs lo fuel a = (
    m,
    loop_end k cur m pre a.chain,
    Goes-stop I Has Gone begin end m pre cur [] fs lo end a tt (omega arith),
  )
  munmap_loop-Goes (suc k) m pre cur (x ∷ xs) fs lo fuel a =
      let (e, nz, _) = a.chain in
      let b = subst (λ q. At I Has Gone begin end m pre q (x ∷ xs) fs lo) e a in
      subst
        (λ q.
          (m' : Machine) × (munmap_loop (suc k) begin end npages pre q m ≡ ok (0, m'))
          × Goes I Has Gone begin end m m' pre (x ∷ xs) fs lo)
        (sym e)
        (elim (round m pre x xs fs lo b) [
          | stops runs g ↦ (m, loop_stop k x m m pre nz runs, g)
          | moves m1 p q lo' gs runs at back ↦
              let (m', loops, g) = munmap_loop-Goes k m1 p q xs gs lo' (omega arith) at in
              (m', loop_move k x m m1 pre p q nz runs ∙ loops, back m' g)
          | again m1 runs ends g ↦ (m1, loop_twice k x m m1 pre (omega arith) nz runs ends, g)
        ])
