-- ===== src/Munmap/Whole.antt =====
-- `uvm_munmap` against the addresses that the regions of the process cover.
use biglab.Base.{
  ℕ, ◌+◌, ◌*◌, ◌/◌, ◌%◌, ◌≤◌, ◌<◌, ◌≡◌, refl, ◌∙◌, ◌≢◌, inl, ◌↔◌, List, ◌∷◌, ◌++◌, arith, Distinct,
  length, length-append, update, ne→==,
}
use biglab.Base.Word.{mmap_begin, mmap_end, add64}
use biglab.Base.Outcome.{ok}
use biglab.Machine.{Machine, pure, ◌>>◌}
use biglab.Listing.{list_state, listed, list_state-listed}
use biglab.Pool.{n_mmap, dummy_head}
use biglab.Pool.Nodes.{Chain, nexts, All-Fresh}
use biglab.Pool.Ops.{FreeNodes}
use biglab.Mmap.Areas.{Sorted}
use biglab.Munmap.{uvm_munmap, munmap_loop, munmap_fuel, bytes_of, pages_of}
use biglab.Munmap.Regions.{
  FreeNodes-write, nexts-congr, Out, Covered, Same, Same-sym, Areas, Areas-congr, Sorted-congr,
  Covered-congr, Fresh-left, Fresh-right,
}
use biglab.Munmap.Goes.{Unmapping, At, Goes}
use biglab.Munmap.Loop.{munmap_loop-Goes}

-- The regions `xs` of the process and the free nodes `fs`: whole pages between MMAP_BEGIN and
-- MMAP_END, in order and apart, in nodes of the store that are all different.
pub record HasRegions (m : Machine) (xs fs : List ℕ) : Type 0 where
  pub chain : Chain (nexts m.pool.node) m.proc.mmap xs
  pub areas : Areas m.pool.node xs
  pub sorted : Sorted m.pool.node mmap_begin xs
  pub free : FreeNodes m.pool fs
  pub distinct : Distinct (dummy_head ∷ (xs ++ fs))
  pub count : length (xs ++ fs) ≤ n_mmap

-- The machine once `dummy_head` is set up, and once the list is stored again.
abbrev with_dummy : Machine → Machine
with_dummy m = record m {
  pool = record m.pool {
    node =
        update m.pool.node dummy_head
          (record { begin = 0; npages = 0; next = m.proc.mmap; link = 0 });
  };
}

abbrev with_mmap : Machine → Machine
with_mmap m = record m { proc = record m.proc { mmap = (m.pool.node dummy_head).next } }

uvm_munmap-runs :
    (m m1 : Machine) (begin len n end : ℕ)
    → pages_of len ≡ n
    → add64 begin (bytes_of n) ≡ end
    → n ≢ 0
    → munmap_loop munmap_fuel begin end n dummy_head m.proc.mmap (with_dummy m) ≡ ok (0, m1)
    → uvm_munmap begin len m ≡ (do list_state; pure 0) (with_mmap m1)
unfolding uvm_munmap
uvm_munmap-runs m m1 begin len n end pages ends ne loop = rw (pages, ne→== n 0 ne, ends, loop)

module _ (I : Machine → Type 0) (Has : ℕ → Type 0) (Gone : Machine → ℕ → Type 0)
    (u : Unmapping I Has Gone) (m : Machine) (xs fs : List ℕ) (begin len : ℕ) where
  -- The end of the range.
  abbrev pub range_end : ℕ
  range_end = begin + (len + 4095) / 4096 * 4096

  -- What a call leaves: the addresses of the regions before it, without those of the range.
  pub record Uncovers (m' : Machine) : Type 0 where
    pub ys : List ℕ
    pub gs : List ℕ
    pub regions : HasRegions m' ys gs
    pub left :
        (v : ℕ) → Covered m'.pool.node ys v ↔ (Covered m.pool.node xs v × Out begin range_end v)
    pub gone : (v : ℕ) → Covered m.pool.node xs v → begin ≤ v → v < range_end → Gone m' v
    pub stay : (v : ℕ) → Gone m v → Gone m' v
    pub inv : I m'

  At-start :
      HasRegions m xs fs
      → I m
      → ((v : ℕ) → Covered m.pool.node xs v → Has v)
      → 0 < length fs
      → At I Has Gone begin range_end (with_dummy m) dummy_head m.proc.mmap xs fs mmap_begin
  At-start h inv backed some_free =
      let (fresh, d) = h.distinct in
      let same : Same m.pool.node (with_dummy m).pool.node xs =
        All-Fresh m.pool.node dummy_head _ xs (Fresh-left dummy_head xs fs fresh) in
      record {
        inv = u.local m (with_dummy m) inv refl refl refl;
        linked = refl;
        chain = nexts-congr m.pool.node (with_dummy m).pool.node m.proc.mmap xs same h.chain;
        areas = Areas-congr m.pool.node (with_dummy m).pool.node xs same h.areas;
        sorted = Sorted-congr m.pool.node (with_dummy m).pool.node mmap_begin xs same h.sorted;
        free = FreeNodes-write m.pool dummy_head _ fs (Fresh-right dummy_head xs fs fresh) h.free;
        distinct = h.distinct;
        backed = λ v d.
            backed v
              (Covered-congr (with_dummy m).pool.node m.pool.node xs v (Same-sym _ _ xs same) d);
        room = inl some_free;
      }

  at_end :
      (m1 : Machine)
      → HasRegions m xs fs
      → Goes I Has Gone begin range_end (with_dummy m) m1 dummy_head xs fs mmap_begin
      → Uncovers (with_mmap m1)
  at_end m1 h g =
      let (fresh, d) = h.distinct in
      let same : Same m.pool.node (with_dummy m).pool.node xs =
        All-Fresh m.pool.node dummy_head _ xs (Fresh-left dummy_head xs fs fresh) in
      record {
        ys = g.ys;
        gs = g.gs;
        regions = record {
          chain = g.chain;
          areas = g.areas;
          sorted = g.sorted;
          free = g.free;
          distinct = g.distinct;
          count = omega (arith, g.count, h.count);
        };
        left = λ v. (
          λ c.
              let (d, o) = (g.left v).0 c in
              (Covered-congr (with_dummy m).pool.node m.pool.node xs v (Same-sym _ _ xs same) d, o),
          λ (c, o).
              (g.left v).1 (Covered-congr m.pool.node (with_dummy m).pool.node xs v same c, o),
        );
        gone = λ v c l h'.
            u.local_gone m1 (with_mmap m1) refl refl v
              (g.gone v (Covered-congr m.pool.node (with_dummy m).pool.node xs v same c) l h');
        stay = λ v d.
            u.local_gone m1 (with_mmap m1) refl refl v
              (g.stay v (u.local_gone m (with_dummy m) refl refl v d));
        inv = u.local m1 (with_mmap m1) g.inv refl refl refl;
      }

  -- Where the page tables can be unmapped, the process has regions as above and a node of the
  -- store is free: `uvm_munmap` of a not empty range between MMAP_BEGIN and MMAP_END that begins
  -- at a page returns 0 (the loop ends), and leaves regions as above that cover exactly the
  -- addresses covered before that lie outside the whole pages of the range.
  pub uvm_munmap-Uncovers :
      I m
      → HasRegions m xs fs
      → ((v : ℕ) → Covered m.pool.node xs v → Has v)
      → 0 < length fs
      → begin % 4096 ≡ 0
      → 0 < len
      → mmap_begin ≤ begin
      → begin + len ≤ mmap_end
      → (m' : Machine) × (uvm_munmap begin len m ≡ listed 0 m') × Uncovers m'
  uvm_munmap-Uncovers inv h backed some_free al pos lo hi =
      let n = (len + 4095) / 4096 in
      let pages : pages_of len ≡ n = omega arith in
      let ends : add64 begin (bytes_of n) ≡ range_end = omega arith in
      let (m1, loop, g) =
        munmap_loop-Goes I Has Gone u begin range_end n al (omega arith) (omega arith) refl
          munmap_fuel (with_dummy m) dummy_head m.proc.mmap xs fs mmap_begin
          (omega (arith, h.count, length-append xs fs)) (At-start h inv backed some_free) in
      let un = at_end m1 h g in
      (
        with_mmap m1,
        uvm_munmap-runs m m1 begin len n range_end pages ends (omega arith) loop
            ∙ list_state-listed 0 (with_mmap m1) un.ys un.regions.chain
                (let count = un.regions.count in omega (arith, count, length-append un.ys un.gs)),
        un,
      )
