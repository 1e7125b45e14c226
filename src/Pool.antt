-- ===== src/Pool.antt =====
-- mem/mmap.c: the store of `mmap_region_t` nodes.
pub mod Nodes
pub mod Ops
use biglab.Base.{
  ℕ, zero, suc, ◌+◌, ◌-◌, ◌<◌, Bool, true, false, List, [], ◌∷◌, ◌==◌, if◌then◌else◌, update,
}
use biglab.Base.Outcome.{Outcome, ok, out_of_fuel, and_then}
use biglab.Lock.{spinlock_init, spinlock_acquire, spinlock_release}
use biglab.Machine.{Node, Pool, Machine, Cmd, pure, ◌>>=◌, ◌>>◌, get}

-- N_MMAP
abbrev pub n_mmap : ℕ
n_mmap = 256

-- The pointer to the local variable `dummy_head` of `uvm_mmap` and `uvm_munmap`, which lies outside
-- `node_list`.
abbrev pub dummy_head : ℕ
dummy_head = 257

abbrev pub put_pool : Pool → Cmd (Unit {0})
put_pool p m = ok (tt, record m { pool = p })

abbrev pub read_node : ℕ → Cmd Node
read_node p m = ok (m.pool.node p, m)

abbrev pub write_node : ℕ → Node → Cmd (Unit {0})
write_node p n m = ok (tt, record m { pool = record m.pool { node = update m.pool.node p n } })

-- spinlock_acquire(&list_lk) and spinlock_release(&list_lk)
abbrev pub acquire : Cmd (Unit {0})
acquire m =
    and_then (spinlock_acquire m.cpu m.pool.lk)
      λ (c, l). ok (tt, record m { cpu = c; pool = record m.pool { lk = l } })

abbrev pub release : Cmd (Unit {0})
release m =
    and_then (spinlock_release m.cpu m.pool.lk)
      λ (c, l). ok (tt, record m { cpu = c; pool = record m.pool { lk = l } })

-- The loop of `mmap_init` from `i` on, with the rounds left.
pub init_loop : ℕ → ℕ → Pool → Pool
init_loop zero i p = p
init_loop (suc k) i p = init_loop k (i + 1) (record p {
  node = update p.node (i + 1) (record (p.node (i + 1)) { link = p.head });
  head = i + 1;
})

unfoldable pub mmap_init : Pool → Pool
mmap_init p = init_loop n_mmap 0 (record p { lk = spinlock_init; head = 0 })

unfoldable pub mmap_region_alloc : Cmd ℕ
mmap_region_alloc = do
  acquire
  m ← get
  let node = m.pool.head
  if node == 0 then (do release; pure 0) else do
    n ← read_node node
    put_pool (record m.pool { head = n.link })
    write_node node (record n { begin = 0; npages = 0; next = 0 })
    release
    pure node

unfoldable pub mmap_region_free : ℕ → Cmd (Unit {0})
mmap_region_free node = do
  acquire
  m ← get
  n ← read_node node
  write_node node (record n { link = m.pool.head })
  m ← get
  put_pool (record m.pool { head = node })
  release

-- The walk of `mmap_show_nodelist`: the indices that it prints.
unfoldable pub show_nodelist : ℕ → (ℕ → Node) → ℕ → Outcome (List ℕ)
show_nodelist zero node cur = out_of_fuel
show_nodelist (suc k) node cur =
    let rest = and_then (show_nodelist k node (node cur).link) (λ xs. ok ((cur - 1) ∷ xs)) in
    if cur == 0 then ok [] else rest
