-- ===== src/Mmap/Request.antt =====
-- `uvm_mmap` (mem/uvm.c) up to the choice of the address: a node for the new region.
use biglab.Base.{
  ℕ, ◌+◌, ◌*◌, ◌≤◌, ◌<◌, ◌≡◌, refl, sym, ap, ◌≢◌, List, [], ◌∷◌, ◌++◌, arith, Fresh, Distinct,
  length-append, update, eq→==, ne→==, some, none, false, if◌then◌else◌, ◌^◌, le→ltb,
}
use mathlib.Core.Path.{subst}
use biglab.Base.Disjoint.{Fresh-middle, Distinct-gives}
use biglab.Base.Word.{mmap_begin, mmap_end, add64}
use biglab.Base.Outcome.{ok}
use biglab.Machine.{Node, Machine}
use biglab.Pool.{dummy_head, mmap_region_alloc}
use biglab.Pool.Nodes.{Chain, nexts}
use biglab.Pool.Ops.{alloc-cons}
use biglab.Munmap.Regions.{
  Same, Areas-congr, Sorted-congr, Fresh-left, Fresh-right, FreeNodes-write, nexts-congr,
}
use biglab.Munmap.Whole.{HasRegions}
use biglab.Munmap.{bytes_of}
use biglab.Mmap.{choose_begin, check_begin}
use biglab.Mmap.Areas.{Free}
use biglab.Mmap.Search.{check_begin-Free}

-- The machine with the length of the new region in its node.
abbrev pub sized : ℕ → ℕ → Machine → Machine
sized cur npages m = record m {
  pool = record m.pool {
    node = update m.pool.node cur (record (m.pool.node cur) { npages = npages });
  };
}

-- What taking a node for the region leaves.
pub record Requested (m : Machine) (cur npages : ℕ) (xs fs : List ℕ) (m1 : Machine) : Type 0 where
  pub takes : mmap_region_alloc m ≡ ok (cur, m1)
  pub regions : HasRegions (sized cur npages m1) xs fs
  pub same : Same m.pool.node (sized cur npages m1).pool.node xs
  pub length_is : ((sized cur npages m1).pool.node cur).npages ≡ npages
  pub nz : cur ≢ 0
  pub distinct : Distinct (dummy_head ∷ (xs ++ (cur ∷ fs)))
  pub mem : m1.mem ≡ m.mem
  pub user : m1.user ≡ m.user
  pub proc : m1.proc ≡ m.proc

Same-other :
    (f g : ℕ → Node) (cur : ℕ) (xs : List ℕ)
    → ((y : ℕ) → y ≢ cur → g y ≡ f y)
    → Fresh cur xs
    → Same f g xs
Same-other f g cur [] h fresh = tt
Same-other f g cur (x ∷ xs) h (ne, fresh) = (h x (λ e. ne (sym e)), Same-other f g cur xs h fresh)

pub request :
    (m : Machine) (cur npages : ℕ) (xs fs : List ℕ)
    → HasRegions m xs (cur ∷ fs)
    → (m1 : Machine) × Requested m cur npages xs fs m1
request m cur npages xs fs h =
    let (m1, takes, free, at_cur, others, mem, proc, user) = alloc-cons m cur fs h.free in
    let (fresh, d) = h.distinct in
    let (fresh_cur, d') = Distinct-gives cur xs fs d in
    let m2 = sized cur npages m1 in
    let other : (y : ℕ) → y ≢ cur → m2.pool.node y ≡ m.pool.node y =
      λ y ne. rw (ne→== cur y (λ e. ne (sym e))) (others y ne) in
    let same = Same-other m.pool.node m2.pool.node cur xs other (Fresh-left cur xs fs fresh_cur) in
    (
      m1,
      record {
        takes = takes;
        regions = record {
          chain =
              subst (λ p. Chain (nexts m2.pool.node) p xs) (sym (ap (λ p. p.mmap) proc))
                (nexts-congr m.pool.node m2.pool.node m.proc.mmap xs same h.chain);
          areas = Areas-congr m.pool.node m2.pool.node xs same h.areas;
          sorted = Sorted-congr m.pool.node m2.pool.node mmap_begin xs same h.sorted;
          free =
              FreeNodes-write m1.pool cur (record (m1.pool.node cur) { npages = npages }) fs
                (Fresh-right cur xs fs fresh_cur) free;
          distinct = ((Fresh-middle dummy_head cur xs fs fresh).1, d');
          count = omega (arith, h.count, length-append xs (cur ∷ fs), length-append xs fs);
        };
        same = same;
        length_is = rw (eq→== cur cur refl);
        nz = h.free.chain.1;
        distinct = h.distinct;
        mem = mem;
        user = user;
        proc = proc;
      },
    )

-- A range asked for that lies between MMAP_BEGIN and MMAP_END and overlaps no region is chosen.
pub choose_begin-given :
    (m : Machine) (begin npages : ℕ) (xs fs : List ℕ)
    → HasRegions m xs fs
    → 0 < npages
    → mmap_begin ≤ begin
    → begin + npages * 4096 ≤ mmap_end
    → Free m.pool.node begin (npages * 4096) xs
    → choose_begin begin npages m ≡ ok (some begin, m)
unfolding choose_begin
choose_begin-given m begin npages xs fs h pos lo hi free =
    let (r, runs, is) =
      check_begin-Free m begin npages xs
        (record {
          chain = h.chain;
          short = omega (arith, h.count, length-append xs fs);
          sorted = h.sorted;
          pos = pos;
          small = omega arith;
        })
        (omega arith) in
    let clear : r ≡ false = is.1 free in
    let given : check_begin begin npages m ≡ ok (some begin, m) =
      subst (λ q. check_begin begin npages m ≡ ok (if q then none else some begin, m)) clear runs in
    rw (
      ne→== begin 0 (λ e. absurd (omega arith)),
      given,
      le→ltb begin mmap_begin lo,
      bytes_fit npages (omega arith),
      le→ltb mmap_end (add64 begin (npages * 4096)) (omega arith),
    )
  where
    bytes_fit : (n : ℕ) → n * 4096 < 2 ^ 32 → bytes_of n ≡ n * 4096
    bytes_fit n lt = omega arith
