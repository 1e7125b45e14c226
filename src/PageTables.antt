-- ===== src/PageTables.antt =====
-- The last part of mem/uvm.c: destroying and copying the page table of a process.
pub mod Trapframe
use biglab.Base.{
  ℕ, zero, suc, ◌+◌, ◌-◌, ◌*◌, ◌/◌, ◌%◌, ◌^◌, Bool, true, false, not, ◌&&◌, Option, none, some,
  ◌==◌, ltb, leb, if◌then◌else◌, on_some,
}
use biglab.Base.Word.{u32, add64, sub64, mul64, pgsize, pg_round_up, minus_one, va_max, uheap_start}
use biglab.Base.Outcome.{ok, out_of_fuel}
use biglab.Memory.{memset, memmove}
use biglab.Machine.{Node, Proc, Machine, Cmd, pure, ◌>>=◌, ◌>>◌, get, read64}
use biglab.Pmem.{pmem_alloc, pmem_free}
use biglab.Kvm.{
  is_v, pte_check, pte_to_pa, vm_getpte, vm_mappages, vm_unmappages, kvm_map_trampoline,
}
use biglab.Pool.{read_node, write_node, mmap_region_alloc, mmap_region_free}
use biglab.Copy.{uvm_copyin}
use biglab.Heap.{user_data}
use biglab.Stack.{ustack_top}
use biglab.Munmap.{bytes_of, end_of}
use biglab.Mmap.{list_fuel}

-- The loop of `pgtbl_free_recursive` over the entries of the table `t` from `i` on, with the call
-- for the table that an entry points to.
entries_loop : (ℕ → Cmd (Unit {0})) → ℕ → ℕ → ℕ → Cmd (Unit {0})
entries_loop free_child zero t i = pure tt
entries_loop free_child (suc k) t i = do
  pte ← read64 (t + 8 * i)
  if is_v pte && pte_check pte then free_child (pte_to_pa pte) else pure tt
  entries_loop free_child k t (i + 1)

-- `levels` is `level + 1`, so that 0 is the early return.
unfoldable pub pgtbl_free_recursive : (levels : ℕ) → ℕ → Cmd (Unit {0})
unfolding entries_loop
pgtbl_free_recursive zero pgtbl = pure tt
pgtbl_free_recursive (suc level) pgtbl = do
  entries_loop (pgtbl_free_recursive level) 512 pgtbl 0
  pmem_free pgtbl true

-- The loop over the mmap regions.
unfoldable pub destroy_regions : ℕ → ℕ → ℕ → Cmd (Unit {0})
destroy_regions zero pgtbl cur m = out_of_fuel
destroy_regions (suc k) pgtbl cur m =
    let round : Cmd (Unit {0}) = do
      c ← read_node cur
      vm_unmappages pgtbl c.begin (bytes_of c.npages) true
      c ← read_node cur
      mmap_region_free cur
      destroy_regions k pgtbl c.next
    in (if cur == 0 then pure tt else round) m

-- The result is the process as the function leaves it.
unfoldable pub uvm_destroy_pgtbl : Proc → Cmd Proc
unfolding destroy_regions
uvm_destroy_pgtbl p = do
  destroy_regions list_fuel p.pgtbl p.mmap
  let heap_pg = pg_round_up p.heap_top
  if ltb uheap_start heap_pg
      then vm_unmappages p.pgtbl uheap_start (sub64 heap_pg uheap_start) true
      else pure tt
  if ltb 1 p.ustack_npage
      then vm_unmappages p.pgtbl (ustack_top p.ustack_npage) (mul64 (p.ustack_npage - 1) pgsize)
          true
      else pure tt
  vm_unmappages p.pgtbl (va_max - 2 * 4096) pgsize true
  vm_unmappages p.pgtbl 0 pgsize true
  if not (p.pgtbl == 0) then pgtbl_free_recursive 3 p.pgtbl else pure tt
  pure (record p { mmap = 0; heap_top = uheap_start; ustack_npage = 0; pgtbl = 0 })

-- Pages for `[va, end)`; the result tells whether memory sufficed. The caller gives more rounds
-- than there are pages.
unfoldable pub fill_loop : ℕ → ℕ → ℕ → ℕ → ℕ → Cmd Bool
fill_loop zero pgtbl end perm va m = out_of_fuel
fill_loop (suc k) pgtbl end perm va m =
    let rest = fill_loop k pgtbl end perm (add64 va pgsize) in
    let round : Cmd Bool = do
      pa ← pmem_alloc false
      if pa == 0 then pure false else (do vm_mappages pgtbl va pa pgsize perm; rest)
    in (if ltb va end then round else pure true) m

-- The body of the loops that copy page by page.
unfoldable pub copy_page : ℕ → ℕ → Bool → ℕ → Cmd (Unit {0})
copy_page old new alloc va = do
  pte_old ← vm_getpte old va false
  pte_new ← vm_getpte new va alloc
  on_some pte_old (pure tt) λ a. on_some pte_new (pure tt) λ b. do
    from ← read64 a
    to ← read64 b
    m ← get
    if is_v from && is_v to
        then (λ _.
            pure tt (record m { mem = memmove m.mem (pte_to_pa to) (pte_to_pa from) pgsize }))
        else pure tt

unfoldable pub copy_loop : ℕ → ℕ → ℕ → Bool → ℕ → ℕ → Cmd (Unit {0})
unfolding copy_page
copy_loop zero old new alloc end va m = out_of_fuel
copy_loop (suc k) old new alloc end va m =
    let rest = copy_loop k old new alloc end (add64 va pgsize) in
    (if ltb va end then copy_page old new alloc va >> rest else pure tt) m

-- Rounds for the pages from `va` to `end`.
abbrev pages_fuel : ℕ → ℕ → ℕ
pages_fuel va end = (end - va) / 4096 + 2

-- The heap: new pages, then their contents. `copyin_fuel` are the rounds of `uvm_copyin`.
unfoldable pub copy_heap : ℕ → Proc → ℕ → Cmd Bool
unfolding fill_loop copy_loop
copy_heap copyin_fuel old new = do
  let heap_size = sub64 old.heap_top uheap_start
  let heap_end_pg = pg_round_up old.heap_top
  if heap_size == 0 then pure true else do
    filled ← fill_loop (pages_fuel uheap_start heap_end_pg) new heap_end_pg user_data uheap_start
    if not filled then pure false else do
      r ← uvm_copyin copyin_fuel old.pgtbl (add64 new uheap_start) uheap_start heap_size
      if r == minus_one
          then copy_loop (pages_fuel uheap_start heap_end_pg) old.pgtbl new true heap_end_pg
              uheap_start
          else pure tt
      pure true

-- The stack, from the page that `ustack_bottom_old` names up to VA_MAX - 2 * PGSIZE.
unfoldable pub copy_stack : Proc → ℕ → Cmd Bool
unfolding fill_loop copy_loop
copy_stack old new = do
  let bottom = ustack_top old.ustack_npage
  let end = va_max - 2 * 4096
  filled ←
      (if mul64 old.ustack_npage pgsize == 0
        then pure true
        else fill_loop (pages_fuel bottom end) new end user_data bottom)
  if not filled
      then pure false
      else do copy_loop (pages_fuel bottom end) old.pgtbl new false end bottom; pure true

-- `*p_cur_new = node_new`: the place is the field `mmap` of the new process, or the `next` of the
-- node that was appended last. The result is the head of the new list.
put_tail : ℕ → Option ℕ → ℕ → Cmd ℕ
put_tail head none node = pure node
put_tail head (some last) node = do
  n ← read_node last
  write_node last (record n { next = node })
  pure head

-- The loop over the regions of the old process; the result is the head of the new list and
-- whether memory sufficed. PTE_U | PTE_R | PTE_W | PTE_X is 30.
unfoldable pub copy_regions : ℕ → ℕ → ℕ → ℕ → Option ℕ → ℕ → Cmd (ℕ × Bool)
unfolding fill_loop copy_loop put_tail
copy_regions zero old new head last cur m = out_of_fuel
copy_regions (suc k) old new head last cur m =
    let rest = λ (head' : ℕ) (node : ℕ) (next : ℕ). copy_regions k old new head' (some node) next in
    let round : Cmd (ℕ × Bool) = do
      node ← mmap_region_alloc
      if node == 0 then pure (head, false) else do
        c ← read_node cur
        n ← read_node node
        write_node node (record n { begin = c.begin; npages = c.npages; next = 0 })
        let end = end_of c
        filled ← fill_loop (pages_fuel c.begin end) new end 30 c.begin
        if not filled then (do mmap_region_free node; pure (head, false)) else do
          copy_loop (pages_fuel c.begin end) old new false end c.begin
          head' ← put_tail head last node
          c ← read_node cur
          rest head' node c.next
    in (if cur == 0 then pure (head, true) else round) m

-- The result of `return`, and the new process as it stands then.
unfoldable pub uvm_copy_pgtbl : (trampoline : ℕ) → (copyin_fuel : ℕ) → Proc → Proc → Cmd (ℕ × Proc)
unfolding copy_heap copy_stack copy_regions uvm_destroy_pgtbl
uvm_copy_pgtbl trampoline copyin_fuel p_old p_new = do
  pgtbl ← pmem_alloc true
  let p1 = record p_new { pgtbl = pgtbl }
  if pgtbl == 0 then pure (minus_one, p1) else do
    m ← get
    λ _. ok (tt, record m { mem = memset m.mem pgtbl 0 pgsize })
    kvm_map_trampoline trampoline pgtbl
    heap_ok ← copy_heap copyin_fuel p_old pgtbl
    if not heap_ok then (do p' ← uvm_destroy_pgtbl p1; pure (minus_one, p')) else do
      let p2 = record p1 { heap_top = p_old.heap_top; ustack_npage = p_old.ustack_npage }
      stack_ok ← copy_stack p_old pgtbl
      if not stack_ok then (do p' ← uvm_destroy_pgtbl p2; pure (minus_one, p')) else do
        (head, regions_ok) ← copy_regions list_fuel p_old.pgtbl pgtbl p2.mmap none p_old.mmap
        let p3 = record p2 { mmap = head }
        if not regions_ok
            then (do p' ← uvm_destroy_pgtbl p3; pure (minus_one, p'))
            else pure (0, p3)
