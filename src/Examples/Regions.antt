-- ===== src/Examples/Regions.antt =====
-- The node store and the list of mmap regions.
use biglab.Base.{
  ℕ, ◌*◌, ◌≡◌, ◌≢◌, ◌↔◌, refl, Bool, false, Option, none, some, List, [], ◌∷◌, update, arith,
  if◌then◌else◌, Fresh,
}
use biglab.Base.Word.{mmap_begin}
use biglab.Base.Outcome.{ok}
use biglab.Lock.{spinlock_init}
use biglab.Machine.{Node, Machine}
use biglab.Pool.{mmap_init, n_mmap}
use biglab.Pool.Ops.{FreeNodes, mmap_init-FreeNodes, nodes_down}
use biglab.Mmap.{mmap_merge, search_begin, check_begin}
use biglab.Mmap.Merge.{Merged, mmap_merge-keeps_freed}
use biglab.Mmap.Areas.{Free}
use biglab.Mmap.Search.{Ready, FirstFit, search_begin-FirstFit, check_begin-Free}
use biglab.Examples.{machine, no_node}

abbrev region : ℕ → ℕ → ℕ → Node
region begin npages next = record { begin = begin; npages = npages; next = next; link = 0 }

-- Nodes 1 to 3 hold the given regions, and node 4 is the one free node.
abbrev with_regions : Node → Node → Node → Machine
with_regions a b c = record machine {
  pool = record {
    node = update (update (update (λ _. no_node) 1 a) 2 b) 3 c;
    head = 4;
    lk = spinlock_init;
  };
}

four_free : (a b c : Node) → FreeNodes (with_regions a b c).pool (4 ∷ [])
four_free a b c = record { chain = (refl, omega arith, refl); distinct = (tt, tt); lk_free = refl }

mmap_init-FreeNodes_example : FreeNodes (mmap_init machine.pool) (nodes_down n_mmap)
mmap_init-FreeNodes_example = mmap_init-FreeNodes machine.pool

-- Node 1 is the region before, 2 the new one and 3 the one behind.
abbrev behind : Machine
behind = with_regions (region 4096 1 3) (region 0x4000 1 0) (region 0x5000 1 0)

not_before : ◌≢◌ {A = ℕ} 2 1
not_before = omega arith

not_null : ◌≢◌ {A = ℕ} 2 0
not_null = omega arith

before_used : Fresh 1 (4 ∷ [])
before_used = (omega arith, tt)

new_used : Fresh 2 (4 ∷ [])
new_used = (omega arith, tt)

abbrev FreeIn : (m : Machine) → Type 0
FreeIn m = FreeNodes m.pool (4 ∷ [])

behind_free : FreeIn behind
behind_free = four_free (region 4096 1 3) (region 0x4000 1 0) (region 0x5000 1 0)

-- What the merge of node 2 leaves.
abbrev After : (m : Machine) → FreeIn m → Node → List ℕ → Machine → Type 0
After m f v gs m' = Merged m 1 2 (4 ∷ []) not_before not_null f before_used new_used v gs m'

mmap_merge-keeps_freed_example :
    (m' : Machine) × (mmap_merge 1 2 behind ≡ ok (tt, m'))
    × After behind behind_free (region 4096 1 2) (3 ∷ 4 ∷ []) m'
    × (m'.pool.node 2 ≡ region 0x4000 2 3)
    × ((m'.pool.node 3).begin ≡ 0x5000)
mmap_merge-keeps_freed_example =
    mmap_merge-keeps_freed behind 1 2 (4 ∷ []) not_before not_null behind_free before_used new_used
      (omega arith) (omega arith) (omega arith) (omega arith) (omega arith, tt) refl

-- A process with the one region of node 1, at MMAP_BEGIN.
abbrev one_region : Machine
one_region =
    let m = with_regions (region mmap_begin 2 0) no_node no_node in
    record m { proc = record m.proc { mmap = 1 } }

one_region-Ready : Ready one_region 3 (1 ∷ [])
one_region-Ready = record {
  chain = (refl, omega arith, refl);
  short = omega arith;
  sorted = (omega arith, omega arith, omega arith, tt);
  pos = omega arith;
  small = omega arith;
}

search_begin-FirstFit_example :
    (o : Option ℕ) × (search_begin 3 one_region ≡ ok (o, one_region))
    × FirstFit one_region 3 (1 ∷ []) o
search_begin-FirstFit_example = search_begin-FirstFit one_region 3 (1 ∷ []) one_region-Ready

check_begin-Free_example :
    (r : Bool) × (check_begin mmap_begin 3 one_region
      ≡ ok (if r then none else some mmap_begin, one_region))
    × ((r ≡ false) ↔ Free one_region.pool.node mmap_begin (3 * 4096) (1 ∷ []))
check_begin-Free_example =
    check_begin-Free one_region mmap_begin 3 (1 ∷ []) one_region-Ready (omega arith)
