-- ===== src/Munmap/Cases.antt =====
-- The rounds of `uvm_munmap` that pass a region over or end the loop.
use biglab.Base.{
  ℕ, ◌%◌, ◌≤◌, ◌<◌, ◌≡◌, refl, ◌≢◌, ◌⊎◌, inl, inr, List, ◌∷◌, ◌++◌, arith, Distinct, length, le→leb,
  lt→leb,
}
use biglab.Base.Outcome.{ok}
use biglab.Machine.{Node, Machine}
use biglab.Pool.Ops.{FreeNodes}
use biglab.Mmap.Areas.{stop}
use biglab.Munmap.{stop as leave, move, munmap_round, end_of}
use biglab.Munmap.Regions.{
  Same-refl, nexts-congr, Same, Same-sym, Areas-congr, Sorted-congr, Sorted-lower, Covered-congr,
}
use biglab.Munmap.Goes.{Unmapping, At, Goes, Goes-stop, Goes-keep}

module _ (I : Machine → Type 0) (Has : ℕ → Type 0) (Gone : Machine → ℕ → Type 0)
    (u : Unmapping I Has Gone) (begin end npages : ℕ) (al_begin : begin % 4096 ≡ 0)
    (al_end : end % 4096 ≡ 0) (lo_hi : begin < end) where
  -- What a round at the region `x` comes to, with the regions `xs` behind it: it ends the loop, or it
  -- moves on to the rest, or the round behind it ends the loop.
  pub data Round (m : Machine) (pre x : ℕ) (xs fs : List ℕ) (lo : ℕ) : Type 0 where
    stops :
        munmap_round begin end npages pre x m ≡ ok (leave 0, m)
        → Goes I Has Gone begin end m m pre (x ∷ xs) fs lo
        → Round m pre x xs fs lo
    moves :
        (m1 : Machine) (pre' cur' lo' : ℕ) (fs' : List ℕ)
        → munmap_round begin end npages pre x m ≡ ok (move pre' cur', m1)
        → At I Has Gone begin end m1 pre' cur' xs fs' lo'
        → ((m' : Machine)
            → Goes I Has Gone begin end m1 m' pre' xs fs' lo'
            → Goes I Has Gone begin end m m' pre (x ∷ xs) fs lo)
        → Round m pre x xs fs lo
    again :
        (m1 : Machine)
        → munmap_round begin end npages pre x m ≡ ok (move pre x, m1)
        → munmap_round begin end npages pre x m1 ≡ ok (leave 0, m1)
        → Goes I Has Gone begin end m m1 pre (x ∷ xs) fs lo
        → Round m pre x xs fs lo

  module _ (m : Machine) (pre x : ℕ) (xs fs : List ℕ) (lo : ℕ)
      (a : At I Has Gone begin end m pre x (x ∷ xs) fs lo) where
    abbrev c : Node
    c = m.pool.node x

    nz : x ≢ 0
    nz = a.chain.1

    -- The state for the rest of the list, where its nodes are the same.
    pub At-rest :
        (m1 : Machine) (p : ℕ) (gs : List ℕ) (lo' : ℕ)
        → I m1
        → (m1.pool.node p).next ≡ c.next
        → Same m.pool.node m1.pool.node xs
        → FreeNodes m1.pool gs
        → Distinct (p ∷ (xs ++ gs))
        → lo' ≤ stop c
        → (0 < length gs) ⊎ (begin ≤ lo')
        → At I Has Gone begin end m1 p c.next xs gs lo'
    At-rest m1 p gs lo' inv link same free d le room = record {
      inv = inv;
      linked = link;
      chain = nexts-congr m.pool.node m1.pool.node c.next xs same a.chain.2;
      areas = Areas-congr m.pool.node m1.pool.node xs same a.areas.1;
      sorted =
          Sorted-lower m1.pool.node (stop c) lo' xs le
            (Sorted-congr m.pool.node m1.pool.node (stop c) xs same a.sorted.3);
      free = free;
      distinct = d;
      backed = λ v d.
          a.backed v (inr (Covered-congr m1.pool.node m.pool.node xs v (Same-sym _ _ xs same) d));
      room = room;
    }

    end_is : end_of c ≡ stop c
    end_is = let r = a.areas.0 in omega arith

    room_from : (lo' : ℕ) → lo ≤ lo' → (0 < length fs) ⊎ (begin ≤ lo')
    room_from lo' le = elim a.room [ inl h ↦ inl h | inr h ↦ inr (omega arith) ]

    -- The region ends where the range begins, or before.
    pub Round-before : stop c ≤ begin → Round m pre x xs fs lo
    unfolding munmap_round
    Round-before h =
        let r = a.areas.0 in
        let e = end_is in
        moves m x c.next (stop c) fs (rw (le→leb (end_of c) begin (omega arith)))
          (At-rest m x fs (stop c) a.inv refl (Same-refl m.pool.node xs) a.free a.distinct.1
            (omega arith) (room_from (stop c) (omega (arith, a.sorted.0))))
          (λ m' g.
            Goes-keep I Has Gone begin end m m' pre x xs fs lo (stop c) nz a.linked r a.sorted.0
              (omega arith) (λ v d. inl (omega arith)) a.distinct g)

    -- The region begins where the range ends, or behind it.
    pub Round-behind : end ≤ c.begin → Round m pre x xs fs lo
    unfolding munmap_round
    Round-behind h =
        let r = a.areas.0 in
        let e = end_is in
        stops (rw (lt→leb (end_of c) begin (omega arith), le→leb end c.begin h)) (
          Goes-stop I Has Gone begin end m pre x (x ∷ xs) fs lo c.begin a
            (omega arith, a.sorted.1, a.sorted.2, a.sorted.3) h)
