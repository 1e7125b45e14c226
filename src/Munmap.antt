-- ===== src/Munmap.antt =====
-- `uvm_munmap` of mem/uvm.c.
pub mod Rounds
pub mod Regions
pub mod Goes
pub mod Cases
pub mod Cuts
pub mod Drop
pub mod Split
pub mod Loop
pub mod Whole
pub mod Process
use biglab.Base.{ℕ, zero, suc, ◌*◌, ◌/◌, true, ◌&&◌, ◌==◌, ltb, leb, if◌then◌else◌}
use biglab.Base.Word.{u32, add64, sub64, pg_round_up, minus_one}
use biglab.Base.Outcome.{out_of_fuel}
use biglab.Machine.{Node, Cmd, pure, ◌>>=◌, ◌>>◌, get}
use biglab.Kvm.{vm_unmappages}
use biglab.Listing.{list_state}
use biglab.Pool.{dummy_head, read_node, write_node, mmap_region_alloc, mmap_region_free}

-- `npages * PGSIZE`: a uint32 times an int is a uint32.
abbrev pub bytes_of : ℕ → ℕ
bytes_of npages = u32 (npages * 4096)

-- `PGROUNDUP(len) / PGSIZE` as a uint32
abbrev pub pages_of : ℕ → ℕ
pages_of len = u32 (pg_round_up len / 4096)

-- `r->begin + r->npages * PGSIZE`
abbrev pub end_of : Node → ℕ
end_of n = add64 n.begin (bytes_of n.npages)

abbrev pub set_mmap : ℕ → Cmd (Unit {0})
set_mmap p m = pure tt (record m { proc = record m.proc { mmap = p } })

-- The local variable `dummy_head` as both functions set it up.
abbrev pub put_dummy : Cmd (Unit {0})
put_dummy = do
  m ← get
  write_node dummy_head (record { begin = 0; npages = 0; next = m.proc.mmap; link = 0 })

abbrev unmap : ℕ → ℕ → Cmd (Unit {0})
unmap va len = do m ← get; vm_unmappages m.proc.pgtbl va len true

-- What one round of the loop decides: leave it with a result, or go on with `pre` and `cur`.
pub data Next : Type 0 where
  stop : ℕ → Next
  move : ℕ → ℕ → Next

-- Case 4: the range lies inside the node, which is split.
split_node : ℕ → ℕ → ℕ → ℕ → Cmd Next
split_node begin end npages cur = do
  c ← read_node cur
  let old_end = end_of c
  write_node cur (record c { npages = u32 (sub64 begin c.begin / 4096) })
  new_node ← mmap_region_alloc
  if new_node == 0 then pure (stop minus_one) else do
    c ← read_node cur
    n ← read_node new_node
    write_node new_node
        (record n { begin = end; npages = u32 (sub64 old_end end / 4096); next = c.next })
    write_node cur (record c { next = new_node })
    unmap begin (bytes_of npages)
    pure (move new_node c.next)

-- Case 3: the range covers the node.
drop_node : ℕ → ℕ → Cmd Next
drop_node pre cur = do
  c ← read_node cur
  unmap c.begin (bytes_of c.npages)
  p ← read_node pre
  c ← read_node cur
  write_node pre (record p { next = c.next })
  mmap_region_free cur
  p ← read_node pre
  pure (move pre p.next)

-- Case 5: the range covers the left part of the node.
trim_left : ℕ → ℕ → ℕ → Cmd Next
trim_left end pre cur = do
  c ← read_node cur
  let cur_end = end_of c
  unmap c.begin (bytes_of (u32 (sub64 end c.begin / 4096)))
  c ← read_node cur
  write_node cur (record c { begin = end; npages = u32 (sub64 cur_end end / 4096) })
  pure (move pre cur)

-- Case 6: the range covers the right part of the node.
trim_right : ℕ → ℕ → Cmd Next
trim_right begin cur = do
  c ← read_node cur
  unmap begin (bytes_of (u32 (sub64 (end_of c) begin / 4096)))
  c ← read_node cur
  write_node cur (record c { npages = u32 (sub64 begin c.begin / 4096) })
  pure (move cur c.next)

-- One round of the loop of `uvm_munmap` at a node `cur`.
unfoldable pub munmap_round : ℕ → ℕ → ℕ → ℕ → ℕ → Cmd Next
unfolding split_node drop_node trim_left trim_right
munmap_round begin end npages pre cur = do
  c ← read_node cur
  if leb (end_of c) begin
      then pure (move cur c.next)
      else if leb end c.begin
      then pure (stop 0)
      else if leb begin c.begin && leb (end_of c) end
      then drop_node pre cur
      else if ltb c.begin begin && ltb end (end_of c)
      then split_node begin end npages cur
      else if leb begin c.begin && ltb end (end_of c)
      then trim_left end pre cur
      else if ltb c.begin begin && leb (end_of c) end
      then trim_right begin cur
      else pure (move cur c.next)

unfoldable pub munmap_loop : ℕ → ℕ → ℕ → ℕ → ℕ → ℕ → Cmd ℕ
munmap_loop zero begin end npages pre cur m = out_of_fuel
munmap_loop (suc k) begin end npages pre cur m =
    let go : Next → Cmd ℕ =
      λ n. elim n [ stop r ↦ pure r | move pre' cur' ↦ munmap_loop k begin end npages pre' cur' ] in
    let round : Cmd ℕ = munmap_round begin end npages pre cur >>= go in
    (if cur == 0 then pure 0 else round) m

-- Each node of the store takes at most two rounds.
abbrev pub munmap_fuel : ℕ
munmap_fuel = 1024

unfoldable pub uvm_munmap : ℕ → ℕ → Cmd ℕ
uvm_munmap begin len = do
  let npages = pages_of len
  let end = add64 begin (bytes_of npages)
  if npages == 0 then pure 0 else do
    put_dummy
    m ← get
    r ← munmap_loop munmap_fuel begin end npages dummy_head m.proc.mmap
    d ← read_node dummy_head
    if r == minus_one then pure r else (do set_mmap d.next; list_state; pure r)
