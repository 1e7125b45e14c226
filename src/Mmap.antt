-- ===== src/Mmap.antt =====
-- `uvm_mmap` of mem/uvm.c.
pub mod Steps
pub mod Merge
pub mod Slots
pub mod Joins
pub mod Insert
pub mod Place
pub mod Filling
pub mod Request
pub mod Whole
pub mod Undone
pub mod Areas
pub mod Search
use biglab.Base.{
  ℕ, zero, suc, ◌+◌, ◌*◌, ◌/◌, ◌%◌, ◌^◌, Bool, true, false, not, ◌&&◌, ◌||◌, bit_or, List, [], ◌∷◌,
  ◌==◌, ltb, leb, if◌then◌else◌, on_some, Option, none, some,
}
use biglab.Base.Word.{u32, add64, sub64, pgsize, minus_one, mmap_begin, mmap_end}
use biglab.Base.Outcome.{Outcome, ok, out_of_fuel, and_then}
use biglab.Machine.{Node, Proc, Machine, Cmd, pure, ◌>>=◌, ◌>>◌, get}
use biglab.Pmem.{pmem_alloc}
use biglab.Kvm.{vm_mappages, pte_u}
use biglab.Listing.{list_state}
use biglab.Pool.{dummy_head, read_node, write_node, mmap_region_alloc, mmap_region_free}
use biglab.Munmap.{bytes_of, pages_of, end_of, set_mmap, put_dummy, uvm_munmap}

-- "尝试与 next 合并": the second step of `mmap_merge`.
unfoldable pub merge_next : ℕ → ℕ → Cmd (Unit {0})
merge_next cur next = if next == 0 then pure tt else do
  c ← read_node cur
  n ← read_node next
  if end_of c == n.begin
      then (do
        write_node cur (record c { npages = u32 (c.npages + n.npages); next = n.next })
        mmap_region_free next)
      else pure tt

-- "尝试与 pre 合并": the first step of `mmap_merge`, with the node that `cur` names afterwards.
unfoldable pub merge_pre : ℕ → ℕ → Cmd ℕ
merge_pre pre cur = do
  p ← read_node pre
  c ← read_node cur
  if end_of p == c.begin
      then (do
        write_node pre (record p { npages = u32 (p.npages + c.npages) })
        mmap_region_free cur
        pure pre)
      else pure cur

-- The last step of `mmap_merge`: a node that was not merged is linked behind `pre`.
unfoldable pub link_after : ℕ → ℕ → Cmd (Unit {0})
link_after pre cur = if cur == pre then pure tt else do
  p ← read_node pre
  c ← read_node cur
  write_node cur (record c { next = p.next })
  p ← read_node pre
  write_node pre (record p { next = cur })

unfoldable pub mmap_merge : ℕ → ℕ → Cmd (Unit {0})
unfolding merge_next merge_pre link_after
mmap_merge pre cur = do
  p ← read_node pre
  cur' ← merge_pre pre cur
  merge_next cur' p.next
  link_after pre cur'

-- The search for a free range (`begin == 0`): the begin found, or 0, and `search_begin`.
unfoldable pub find_loop : ℕ → (ℕ → Node) → ℕ → ℕ → ℕ → Outcome (ℕ × ℕ)
find_loop zero node npages cur search_begin = out_of_fuel
find_loop (suc k) node npages cur search_begin =
    let rest = find_loop k node npages (node cur).next (end_of (node cur)) in
    if cur == 0
    then ok (0, search_begin)
    else if leb (add64 search_begin (bytes_of npages)) (node cur).begin
    then ok (search_begin, search_begin)
    else rest

-- The check of a given range against every region.
unfoldable pub overlap_loop : ℕ → (ℕ → Node) → ℕ → ℕ → ℕ → Outcome Bool
overlap_loop zero node begin npages cur = out_of_fuel
overlap_loop (suc k) node begin npages cur =
    let rest = overlap_loop k node begin npages (node cur).next in
    if cur == 0
    then ok false
    else if ltb begin (end_of (node cur)) && ltb (node cur).begin (add64 begin (bytes_of npages))
    then ok true
    else rest

-- The walk to the node behind which the new one goes.
unfoldable pub position_loop : ℕ → (ℕ → Node) → ℕ → ℕ → Outcome ℕ
position_loop zero node begin pre = out_of_fuel
position_loop (suc k) node begin pre =
    let rest = position_loop k node begin (node pre).next in
    let next = (node pre).next in
    if not (next == 0) && ltb (node next).begin begin then rest else ok pre

-- A loop that only reads the nodes.
abbrev reading : {A : Type 0} → ((ℕ → Node) → Outcome A) → Cmd A
reading f m = and_then (f m.pool.node) (λ a. ok (a, m))

-- The store has 256 nodes, so a list without a cycle is walked in fewer rounds.
abbrev pub list_fuel : ℕ
list_fuel = 300

-- The search for a free range, with the test behind it (`begin == 0`).
unfoldable pub search_begin : ℕ → Cmd (Option ℕ)
search_begin npages = do
  m ← get
  (found, last) ← reading (λ node. find_loop list_fuel node npages m.proc.mmap mmap_begin)
  pure (
      if not (found == 0)
      then some found
      else if leb (add64 last (bytes_of npages)) mmap_end
      then some last
      else none)

-- The check of the range asked for (`begin != 0`).
unfoldable pub check_begin : ℕ → ℕ → Cmd (Option ℕ)
check_begin begin npages = do
  m ← get
  overlaps ← reading (λ node. overlap_loop list_fuel node begin npages m.proc.mmap)
  pure (if overlaps then none else some begin)

-- The check of the bounds.
abbrev pub in_bounds : ℕ → ℕ → Bool
in_bounds b npages = not (ltb b mmap_begin || ltb mmap_end (add64 b (bytes_of npages)))

-- The address of the new region, if it can be placed.
unfoldable pub choose_begin : ℕ → ℕ → Cmd (Option ℕ)
choose_begin begin npages = do
  o ← (if begin == 0 then search_begin npages else check_begin begin npages)
  pure (on_some o none (λ b. if in_bounds b npages then some b else none))

-- The loop that maps the region page by page; its result is `begin`, or -1.
unfoldable pub map_region_loop : ℕ → ℕ → ℕ → ℕ → ℕ → ℕ → Cmd ℕ
map_region_loop zero begin len va_end prot va m = out_of_fuel
map_region_loop (suc k) begin len va_end prot va m =
    let rest = map_region_loop k begin len va_end prot (add64 va pgsize) in
    let round : Cmd ℕ = do
      pa ← pmem_alloc false
      if pa == 0
          then (do uvm_munmap begin len; pure minus_one)
          else do m ← get; vm_mappages m.proc.pgtbl va pa pgsize (bit_or prot pte_u); rest
    in (if ltb va va_end then round else pure begin) m

-- The rest of `uvm_mmap`, once the address `b` is chosen.
unfoldable pub place_region : ℕ → ℕ → ℕ → ℕ → ℕ → Cmd ℕ
place_region b len npages prot new_node = do
  n ← read_node new_node
  write_node new_node (record n { begin = b })
  put_dummy
  pre ← reading (λ node. position_loop list_fuel node b dummy_head)
  mmap_merge pre new_node
  d ← read_node dummy_head
  set_mmap d.next
  map_region_loop (bytes_of npages / 4096 + 1) b len (add64 b (bytes_of npages)) prot b

unfoldable pub uvm_mmap : ℕ → ℕ → ℕ → Cmd ℕ
uvm_mmap begin len prot = do
  let npages = pages_of len
  if npages == 0 then pure minus_one else do
    new_node ← mmap_region_alloc
    if new_node == 0 then pure minus_one else do
      n ← read_node new_node
      write_node new_node (record n { npages = npages })
      o ← choose_begin begin npages
      on_some o (do mmap_region_free new_node; pure minus_one)
          λ b. do
            r ← place_region b len npages prot new_node
            if r == minus_one then pure r else (do list_state; pure r)
