-- ===== src/Munmap/Process.antt =====
-- `uvm_munmap` for a process whose regions have page tables.
use biglab.Base.{
  ℕ, ◌+◌, ◌-◌, ◌*◌, ◌/◌, ◌%◌, ◌≤◌, ◌<◌, ◌≡◌, sym, ◌∙◌, ap, true, List, arith, length, false,
}
use mathlib.Core.Path.{subst, subst₂}
use biglab.Base.Word.{va_max, mmap_begin, mmap_end}
use biglab.Base.Outcome.{ok}
use biglab.Machine.{Machine}
use biglab.Listing.{listed, Ends, listed-Ends}
use biglab.Memory.{load64}
use biglab.Kvm.{vm_unmappages, is_v}
use biglab.Kvm.Apart.{leaf}
use biglab.Kvm.Backed.{Backed, vm_unmappages-Frees}
use biglab.Munmap.{uvm_munmap}
use biglab.Munmap.Regions.{Covered}
use biglab.Munmap.Goes.{Unmapping, Clears}
use biglab.Munmap.Whole.{HasRegions, Uncovers, uvm_munmap-Uncovers}

module _ (root base : ℕ) (t1 t0 : ℕ → ℕ) (n : ℕ) (al : base % 4096 ≡ 0)
    (fits : base + n * 4096 ≤ va_max) where
  -- The tables of the process's `n` pages from `base` on, and the user region behind them.
  pub record HasTables (m : Machine) : Type 0 where
    pub table : m.proc.pgtbl ≡ root
    pub xs : List ℕ
    pub backed : Backed root base t1 t0 n m.mem m.user xs

  abbrev pub InRun : ℕ → Type 0
  InRun v = (base ≤ v) × (v < base + n * 4096)

  -- The page of the address is not mapped.
  pub NotBacked : Machine → ℕ → Type 0
  NotBacked m v =
      (j : ℕ)
      → j < n
      → base + j * 4096 ≤ v
      → v < base + j * 4096 + 4096
      → is_v (load64 m.mem (leaf root base t1 t0 j)) ≡ false

  HasTables-unmaps :
      (m : Machine) (va len : ℕ)
      → HasTables m
      → va % 4096 ≡ 0
      → len % 4096 ≡ 0
      → 0 < len
      → ((v : ℕ) → va ≤ v → v < va + len → InRun v)
      → (m' : Machine) × (vm_unmappages m.proc.pgtbl va len true m ≡ ok (tt, m'))
        × (m'.pool ≡ m.pool)
        × (m'.proc ≡ m.proc)
        × HasTables m'
        × Clears NotBacked m m' va (va + len)
  unfolding NotBacked
  HasTables-unmaps m va len h al' al'' pos inside =
      let (first, _) = inside va (omega arith) (omega arith) in
      let (_, last) = inside (va + len - 1) (omega arith) (omega arith) in
      let (m', runs, f) =
        vm_unmappages-Frees root base t1 t0 n m ((va - base) / 4096) (len / 4096) va len h.xs al
          (omega arith) (omega arith) (omega arith) (omega arith) fits h.backed in
      (
        m',
        subst (λ r. vm_unmappages r va len true m ≡ ok (tt, m')) (sym h.table) runs,
        f.pool,
        f.proc,
        record { table = ap (λ p. p.pgtbl) f.proc ∙ h.table; xs = f.xs; backed = f.backed },
        (
          λ v lo hi j h lo' hi'. f.gone j (omega arith) (omega arith),
          λ v g j h lo' hi'. f.stay j h (g j h lo' hi'),
        ),
      )

  pub HasTables-Unmapping : Unmapping HasTables InRun NotBacked
  unfolding NotBacked
  HasTables-Unmapping = record {
    unmaps = λ m va len h al1 al2 pos lo hi inside. HasTables-unmaps m va len h al1 al2 pos inside;
    local_gone = λ m m' mem table v g j h lo hi.
        subst (λ a. is_v (load64 a (leaf root base t1 t0 j)) ≡ false) (sym mem) (g j h lo hi);
    local = λ m m' h mem user table. record {
      table = table ∙ h.table;
      xs = h.xs;
      backed = subst₂ (λ a b. Backed root base t1 t0 n a b h.xs) (sym mem) (sym user) h.backed;
    };
  }

  -- For a process whose mmap regions are whole pages between MMAP_BEGIN and MMAP_END, in order
  -- and apart, in different nodes of the store of which one at least is free; whose regions
  -- lie in a run of pages below VA_MAX that have page tables, where every page of the run that
  -- is mapped has a page of the user region of its own, which is in use, and tables and
  -- entries lie outside that region and apart from each other; and for a not empty range
  -- between MMAP_BEGIN and MMAP_END that begins at a page: `uvm_munmap` does what follows,
  -- then lists the page table that it leaves, and returns 0 if the assertions of that listing
  -- hold (it ends in their panic if not). The regions left are again such regions, and cover
  -- exactly the addresses covered before that lie outside the whole pages of the range. No
  -- page of these regions in the range is mapped any more, a page that was not mapped is not
  -- mapped now, and the page tables are again as above.
  pub uvm_munmap-process :
      (m : Machine) (xs fs : List ℕ) (begin len : ℕ)
      → HasTables m
      → HasRegions m xs fs
      → ((v : ℕ) → Covered m.pool.node xs v → InRun v)
      → 0 < length fs
      → begin % 4096 ≡ 0
      → 0 < len
      → mmap_begin ≤ begin
      → begin + len ≤ mmap_end
      → (m' : Machine) × (uvm_munmap begin len m ≡ listed 0 m')
        × Ends 0 m'
        × Uncovers HasTables InRun NotBacked HasTables-Unmapping m xs fs begin len m'
  uvm_munmap-process m xs fs begin len h r inside some_free al' pos lo hi =
      let (m', runs, u) =
        uvm_munmap-Uncovers HasTables InRun NotBacked HasTables-Unmapping m xs fs begin len h r
          inside some_free al' pos lo hi in
      (m', runs, listed-Ends 0 m', u)
