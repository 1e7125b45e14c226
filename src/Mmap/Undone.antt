-- ===== src/Mmap/Undone.antt =====
-- `uvm_munmap` of what `uvm_mmap` has just placed.
use biglab.Base.{
  ℕ, ◌+◌, ◌*◌, ◌/◌, ◌%◌, ◌^◌, ◌≤◌, ◌<◌, ◌≡◌, inl, inr, ◌↔◌, List, [], ◌∷◌, ◌++◌, arith, length,
  bit_or, false,
}
use biglab.Base.Word.{va_max}
use biglab.Machine.{Node, Machine}
use biglab.Kvm.{pte_u, is_v}
use biglab.Kvm.Backed.{entry, Backed}
use biglab.Listing.{listed, Ends}
use biglab.Munmap.{uvm_munmap, pages_of}
use biglab.Munmap.Regions.{Covered, Out}
use biglab.Munmap.Whole.{HasRegions}
use biglab.Munmap.Process.{HasTables, NotBacked, InRun, uvm_munmap-process}
use biglab.Mmap.{uvm_mmap}
use biglab.Mmap.Areas.{Free}
use biglab.Mmap.Whole.{Asks, Mmaps, uvm_mmap-Mmaps}

-- An address of a region lies outside a range that overlaps none.
Free-Out :
    (node : ℕ → Node) (b len : ℕ) (xs : List ℕ) (v : ℕ)
    → Free node b len xs
    → Covered node xs v
    → Out b (b + len) v
Free-Out node b len [] v f c = elim c [ ]
Free-Out node b len (x ∷ xs) v (f, fs) (inl c) = omega arith
Free-Out node b len (x ∷ xs) v (f, fs) (inr c) = Free-Out node b len xs v fs c

module _ (root base : ℕ) (t1 t0 : ℕ → ℕ) (n : ℕ) (al : base % 4096 ≡ 0)
    (fits : base + n * 4096 ≤ va_max) (prot : ℕ) (small : bit_or prot pte_u < 1024) where
  abbrev Tables : Machine → Type 0
  Tables = HasTables root base t1 t0 n al fits

  abbrev Unbacked : Machine → ℕ → Type 0
  Unbacked = NotBacked root base t1 t0 n al fits

  -- The regions cover what they covered in `m`, and the range is not mapped.
  pub record Undone (m : Machine) (xs : List ℕ) (begin len : ℕ) (m' : Machine) : Type 0 where
    pub regions : List ℕ
    pub nodes : List ℕ
    pub well : HasRegions m' regions nodes
    pub covers : (v : ℕ) → Covered m'.pool.node regions v ↔ Covered m.pool.node xs v
    pub gone : (v : ℕ) → begin ≤ v → v < begin + len → Unbacked m' v
    pub tables : Tables m'

  -- Under the conditions of `uvm_mmap-Mmaps`, with at least one more free node, and old
  -- regions that lie in the run: `uvm_mmap` does what is said there, and `uvm_munmap` of the
  -- same pages in the state that it leaves brings the regions back to exactly the addresses
  -- that they covered, with no page of the range mapped and the tables of the run in place.
  -- Each of the two lists the page table at its end, and returns the address that was asked
  -- for and 0 if the assertions of its listing hold.
  pub uvm_munmap-uvm_mmap :
      (m : Machine) (cur : ℕ) (xs fs ys zs : List ℕ) (begin len i : ℕ)
      → HasRegions m xs (cur ∷ fs)
      → 0 < length fs
      → ((v : ℕ) → Covered m.pool.node xs v → (base ≤ v) × (v < base + n * 4096))
      → m.proc.pgtbl ≡ root
      → m.user.end ≤ 2 ^ 56
      → Backed root base t1 t0 n m.mem m.user (ys ++ zs)
      → length ys ≡ pages_of len
      → begin ≡ base + i * 4096
      → i + length ys ≤ n
      → Asks m xs begin (length ys)
      → ((j : ℕ) → i ≤ j → j < i + length ys → is_v (entry root base t1 t0 n m.mem j) ≡ false)
      → (m1 : Machine) × (m2 : Machine) × (uvm_mmap begin len prot m ≡ listed begin m1)
        × (uvm_munmap begin (length ys * 4096) m1 ≡ listed 0 m2)
        × Ends begin m1
        × Ends 0 m2
        × Mmaps root base t1 t0 n al fits prot small m xs fs begin (length ys) i ys zs m1
        × Undone m xs begin (length ys * 4096) m2
  uvm_munmap-uvm_mmap m cur xs fs ys zs begin len i h some_free inside table low b size at le a
        none =
      let bytes = length ys * 4096 in
      let (m1, maps, ends1, r) =
        uvm_mmap-Mmaps root base t1 t0 n al fits prot small m cur xs fs ys zs begin len i h table
          low b size at le a none in
      let in_run : (v : ℕ) → Covered m1.pool.node r.regions v → InRun root base t1 t0 n al fits v =
        λ v c. elim ((r.covers v).0 c) [
          | inl e ↦ inside v e
          | inr (lo, hi) ↦ (omega arith, omega arith)
        ] in
      let (m2, unmaps, ends2, u) =
        uvm_munmap-process root base t1 t0 n al fits m1 r.regions r.nodes begin bytes
          (record { table = r.table; xs = zs; backed = r.backed }) r.well in_run
          (omega (arith, r.freed)) a.aligned (omega (arith, a.pos)) a.above a.below in
      let end_is : begin + (bytes + 4095) / 4096 * 4096 ≡ begin + bytes = omega arith in
      (
        m1,
        m2,
        maps,
        unmaps,
        ends1,
        ends2,
        r,
        record {
          regions = u.ys;
          nodes = u.gs;
          well = u.regions;
          covers = λ v. (
            λ c.
                let (old, out) = (u.left v).0 c in
                elim ((r.covers v).0 old) [ inl e ↦ e | inr (lo, hi) ↦ absurd (omega arith) ],
            λ c.
                let out = Free-Out m.pool.node begin bytes xs v a.room c in
                (u.left v).1 ((r.covers v).1 (inl c), omega arith),
          );
          gone = λ v lo hi. u.gone v ((r.covers v).1 (inr (lo, hi))) lo (omega arith);
          tables = u.inv;
        },
      )
