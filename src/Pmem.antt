-- ===== src/Pmem.antt =====
-- mem/pmem.c: the allocator of physical pages, a kernel region and a user region.
pub mod Setup
pub mod Pages
pub mod Alloc
pub mod Free
pub mod Spec
pub mod Holds
pub mod Refine
use biglab.Base.{
  ℕ, zero, suc, ◌+◌, ◌-◌, ◌%◌, ◌^◌, Bool, true, false, not, ◌&&◌, ◌==◌, ltb, leb, if◌then◌else◌,
}
use biglab.Base.Word.{u32, u64, add64, sub64, pgsize}
use biglab.Base.Outcome.{Outcome, ok, out_of_fuel, panic, and_then}
use biglab.Lock.{spinlock_init, spinlock_acquire, spinlock_release}
use biglab.Memory.{Mem, load64, store64, memset}
use biglab.Machine.{Region, Machine, Cmd, pure, fail, ◌>>=◌, ◌>>◌, assert, get, read64, write64}

-- `select_region`
abbrev pub select_region : Bool → Machine → Region
select_region in_kernel m = if in_kernel then m.kern else m.user

-- The selected region changed.
abbrev pub put_region : Bool → Region → Machine → Machine
put_region in_kernel r m = if in_kernel then record m { kern = r } else record m { user = r }

abbrev region : Bool → Cmd Region
region in_kernel m = ok (select_region in_kernel m, m)

abbrev set_region : Bool → Region → Cmd (Unit {0})
set_region in_kernel r m = ok (tt, put_region in_kernel r m)

-- `spinlock_acquire(&region->lk)` and `spinlock_release(&region->lk)`
abbrev acquire : Bool → Cmd (Unit {0})
acquire k m =
    let r = select_region k m in
    and_then (spinlock_acquire m.cpu r.lk)
      λ (c, l). ok (tt, put_region k (record r { lk = l }) (record m { cpu = c }))

abbrev release : Bool → Cmd (Unit {0})
release k m =
    let r = select_region k m in
    and_then (spinlock_release m.cpu r.lk)
      λ (c, l). ok (tt, put_region k (record r { lk = l }) (record m { cpu = c }))

-- The loop of `region_setup`, over `list_head.next`, `allocable` and memory. Its fuel is given as
-- one more than the number of pages that fit.
setup_loop : ℕ → ℕ → ℕ → Mem → ℕ → ℕ → Outcome (Mem × ℕ × ℕ)
setup_loop zero end addr mem head allocable = out_of_fuel
setup_loop (suc k) end addr mem head allocable =
    let rest =
      setup_loop k end (add64 addr pgsize) (store64 mem addr head) addr (u32 (allocable + 1)) in
    if leb (add64 addr pgsize) end then rest else ok (mem, head, allocable)

unfoldable pub region_setup : ℕ → Mem → ℕ → ℕ → Outcome (Mem × Region)
unfolding setup_loop
region_setup fuel mem begin end =
    let fresh : ℕ → ℕ → Region =
      λ h n. record { begin = begin; end = end; lk = spinlock_init; allocable = n; head = h } in
    if leb end begin
    then ok (mem, fresh 0 0)
    else and_then (setup_loop fuel end begin mem 0 0) λ (mem', h, n). ok (mem', fresh h n)

unfoldable pub pmem_alloc : Bool → Cmd ℕ
pmem_alloc in_kernel = do
  acquire in_kernel
  r ← region in_kernel
  if r.head == 0 then (do release in_kernel; fail) else do
    next ← read64 r.head
    set_region in_kernel (record r { head = next; allocable = u32 (r.allocable + 2 ^ 32 - 1) })
    release in_kernel
    m ← get
    λ _. ok (r.head, record m { mem = memset m.mem r.head 0 pgsize })

unfoldable pub pmem_free : ℕ → Bool → Cmd (Unit {0})
pmem_free page in_kernel = do
  r ← region in_kernel
  assert (page % pgsize == 0)
  assert (leb r.begin page && ltb page r.end)
  acquire in_kernel
  r ← region in_kernel
  write64 page r.head
  set_region in_kernel (record r { head = page; allocable = u32 (r.allocable + 1) })
  release in_kernel
