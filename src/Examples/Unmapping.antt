-- ===== src/Examples/Unmapping.antt =====
-- A process with one region of three pages, of which the middle one is mapped and is unmapped.
use biglab.Base.{
  ℕ, zero, suc, ◌+◌, ◌*◌, ◌<◌, ◌≤◌, ◌∙◌, ap, false, ◌≡◌, ◌≢◌, refl, inl, inr, true, [], ◌∷◌, arith,
  update, Fresh,
}
use biglab.Base.Word.{mmap_begin}
use biglab.Base.Outcome.{ok}
use biglab.Memory.{Mem, load64, store64}
use biglab.Lock.{spinlock_init}
use biglab.Machine.{Node, Machine}
use biglab.Kvm.{make_pte, is_v, pte_to_pa}
use biglab.Kvm.Walk.{entry_at, LeadsTo, Path3}
use biglab.Kvm.Apart.{Tables}
use biglab.Kvm.Backed.{Backed}
use biglab.Pmem.Pages.{IsPage}
use biglab.Listing.{listed, Ends}
use biglab.Munmap.{uvm_munmap, munmap_loop}
use biglab.Munmap.Goes.{At, Goes}
use biglab.Munmap.Loop.{munmap_loop-Goes}
use biglab.Munmap.Whole.{HasRegions, Uncovers}
use biglab.Munmap.Process.{HasTables, InRun, NotBacked, HasTables-Unmapping, uvm_munmap-process}
use biglab.Examples.Pages.{user-IsRegion, user_pages}
use biglab.Examples.{below_one, machine, blank, no_node}

abbrev pub base : ℕ
base = mmap_begin + 8192

-- The root at 4096 leads over the table at 8192 to the one at 12288.
abbrev pub mem : Mem
mem =
    store64
      (store64 (store64 blank (entry_at 4096 base 2) (make_pte 8192 0)) (entry_at 8192 base 1)
        (make_pte 12288 0))
      (12288 + 8) (make_pte 0x82001000 22)

abbrev pub first_table : ℕ → ℕ
first_table i = 8192

abbrev pub last_table : ℕ → ℕ
last_table i = 12288

abbrev the_region : Node
the_region = record { begin = base; npages = 3; next = 0; link = 0 }

-- Node 1 holds the region, and node 2 is free.
abbrev pub owner : Machine
owner = record machine {
  mem = mem;
  pool = record { node = update (λ _. no_node) 1 the_region; head = 2; lk = spinlock_init };
  proc = record machine.proc { mmap = 1 };
}

below_three : (P : ℕ → Type 0) → P 0 → P 1 → P 2 → (i : ℕ) → i < 3 → P i
below_three P a b c zero lt = a
below_three P a b c (suc zero) lt = b
below_three P a b c (suc (suc zero)) lt = c
below_three P a b c (suc (suc (suc i))) lt = absurd (omega arith)

step_first : LeadsTo mem 4096 base 2 8192
unfolding load64 store64 make_pte
step_first = record { valid = refl; inner = refl; target = refl }

step_second : LeadsTo mem 8192 base 1 12288
unfolding load64 store64 make_pte
step_second = record { valid = refl; inner = refl; target = refl }

entries :
    (load64 mem 12288 ≡ 0)
    × (is_v (load64 mem (12288 + 8)) ≡ true)
    × (pte_to_pa (load64 mem (12288 + 8)) ≡ 0x82001000)
    × (load64 mem (12288 + 16) ≡ 0)
    × (load64 mem 0x82000000 ≡ 0)
unfolding load64 store64 make_pte
entries = (refl, refl, refl, refl, refl)

-- An address with the same entry leads to the same table.
same_entry :
    (table w level next : ℕ)
    → entry_at table w level ≡ entry_at table base level
    → LeadsTo mem table base level next
    → LeadsTo mem table w level next
same_entry table w level next e l = record {
  valid = rw e l.valid;
  inner = rw e l.inner;
  target = rw e l.target;
}

path : (i : ℕ) → i < 3 → Path3 mem 4096 (base + i * 4096) 8192 12288
path i lt = record {
  below = omega arith;
  first = same_entry 4096 (base + i * 4096) 2 8192 (omega arith) step_first;
  second = same_entry 8192 (base + i * 4096) 1 12288 (omega arith) step_second;
}

tables : Tables 4096 base first_table last_table mem 3
tables = record {
  path = path;
  apart = λ i j lt lt' ne. omega arith;
  apart_first = λ i j lt lt'. omega arith;
  apart_second = λ i j lt lt'. omega arith;
}

zero_invalid : (e : ℕ) → e ≡ 0 → is_v e ≢ true
zero_invalid e z v = absurd (ground arith)

-- The frame of the one page that is mapped.
in_frame :
    (P : ℕ → Type 0)
    → P 0x82001000
    → (i : ℕ) → i < 3
    → is_v (load64 mem (entry_at 12288 (base + i * 4096) 0)) ≡ true
    → P (pte_to_pa (load64 mem (entry_at 12288 (base + i * 4096) 0)))
in_frame P h =
    below_three
      (λ i.
        is_v (load64 mem (entry_at 12288 (base + i * 4096) 0)) ≡ true
        → P (pte_to_pa (load64 mem (entry_at 12288 (base + i * 4096) 0))))
      (λ v. absurd (zero_invalid (load64 mem 12288) entries.0 v)) (λ v. rw entries.2 h)
      (λ v. absurd (zero_invalid (load64 mem (12288 + 16)) entries.3 v))

only_one : (i : ℕ) → i < 3 → is_v (load64 mem (entry_at 12288 (base + i * 4096) 0)) ≡ true → i ≡ 1
only_one =
    below_three (λ i. is_v (load64 mem (entry_at 12288 (base + i * 4096) 0)) ≡ true → i ≡ 1)
      (λ v. absurd (zero_invalid (load64 mem 12288) entries.0 v)) (λ v. refl)
      (λ v. absurd (zero_invalid (load64 mem (12288 + 16)) entries.3 v))

pub backed : Backed 4096 base first_table last_table 3 mem owner.user (0x82000000 ∷ [])
backed = record {
  tables = tables;
  kept = user-IsRegion;
  free = record {
    chain = (refl, entries.4);
    pages = user_pages.pages;
    distinct = (tt, tt);
    count = refl;
    lk_free = refl;
  };
  page =
      in_frame (IsPage owner.user)
        (record { aligned = refl; above = omega arith; below = omega arith });
  fresh = in_frame (λ x. Fresh x (0x82000000 ∷ [])) (omega arith, tt);
  own = λ j k lt lt' ne v v'. absurd (omega (arith, only_one j lt v, only_one k lt' v'));
  leaf_out = λ j lt. omega arith;
  first_out = λ j lt. omega arith;
  second_out = λ j lt. omega arith;
}

owner_tables : HasTables 4096 base first_table last_table 3 refl (omega arith) owner
owner_tables = record { table = refl; xs = 0x82000000 ∷ []; backed = backed }

owner_regions : HasRegions owner (1 ∷ []) (2 ∷ [])
owner_regions = record {
  chain = (refl, omega arith, refl);
  areas =
      (record { aligned = refl; above = omega arith; pos = omega arith; below = omega arith }, tt);
  sorted = (omega arith, omega arith, omega arith, tt);
  free = record { chain = (refl, omega arith, refl); distinct = (tt, tt); lk_free = refl };
  distinct = ((omega arith, (omega arith, tt)), ((omega arith, tt), (tt, tt)));
  count = omega arith;
}

uvm_munmap-process_example :
    (m' : Machine) × (uvm_munmap (base + 4096) 100 owner ≡ listed 0 m')
    × Ends 0 m'
    × Uncovers
        (HasTables 4096 base first_table last_table 3 refl (omega arith))
        (InRun 4096 base first_table last_table 3 refl (omega arith))
        (NotBacked 4096 base first_table last_table 3 refl (omega arith))
        (HasTables-Unmapping 4096 base first_table last_table 3 refl (omega arith))
        owner
        (1 ∷ [])
        (2 ∷ [])
        (base + 4096)
        100
        m'
uvm_munmap-process_example =
    uvm_munmap-process 4096 base first_table last_table 3 refl (omega arith) owner (1 ∷ []) (2 ∷ [])
      (base + 4096) 100 owner_tables owner_regions
      (λ v c. elim c [ inl (lo, hi) ↦ (omega arith, omega arith) | inr e ↦ elim e [ ] ])
      (omega arith) refl (omega arith) (omega arith) (omega arith)

-- The machine once `uvm_munmap` has set up `dummy_head`, and the loop at its one region.
abbrev begun : Machine
begun = record owner {
  pool = record owner.pool {
    node = update owner.pool.node 257 (record { begin = 0; npages = 0; next = 1; link = 0 });
  };
}

At-region :
    At
      (HasTables 4096 base first_table last_table 3 refl (omega arith))
      (InRun 4096 base first_table last_table 3 refl (omega arith))
      (NotBacked 4096 base first_table last_table 3 refl (omega arith))
      (base + 4096)
      (base + 8192)
      begun
      257
      1
      (1 ∷ [])
      (2 ∷ [])
      mmap_begin
At-region = record {
  inv = record { table = refl; xs = 0x82000000 ∷ []; backed = backed };
  linked = refl;
  chain = (refl, omega arith, refl);
  areas =
      (record { aligned = refl; above = omega arith; pos = omega arith; below = omega arith }, tt);
  sorted = (omega arith, omega arith, omega arith, tt);
  free = record { chain = (refl, omega arith, refl); distinct = (tt, tt); lk_free = refl };
  distinct = ((omega arith, (omega arith, tt)), ((omega arith, tt), (tt, tt)));
  backed = λ v c. elim c [ inl (lo, hi) ↦ (omega arith, omega arith) | inr e ↦ elim e [ ] ];
  room = inl (omega arith);
}

munmap_loop-Goes_example :
    (m' : Machine) × (munmap_loop 3 (base + 4096) (base + 8192) 1 257 1 begun ≡ ok (0, m'))
    × Goes
        (HasTables 4096 base first_table last_table 3 refl (omega arith))
        (InRun 4096 base first_table last_table 3 refl (omega arith))
        (NotBacked 4096 base first_table last_table 3 refl (omega arith))
        (base + 4096)
        (base + 8192)
        begun
        m'
        257
        (1 ∷ [])
        (2 ∷ [])
        mmap_begin
munmap_loop-Goes_example =
    munmap_loop-Goes (HasTables 4096 base first_table last_table 3 refl (omega arith))
      (InRun 4096 base first_table last_table 3 refl (omega arith))
      (NotBacked 4096 base first_table last_table 3 refl (omega arith))
      (HasTables-Unmapping 4096 base first_table last_table 3 refl (omega arith)) (base + 4096)
      (base + 8192) 1 refl refl (omega arith) refl 3 begun 257 1 (1 ∷ []) (2 ∷ []) mmap_begin
      (omega arith) At-region

-- Its first page is not mapped.
pub not_first :
    (j : ℕ) → 0 ≤ j → j < 0 + 1 → is_v (load64 mem (entry_at 12288 (base + j * 4096) 0)) ≡ false
not_first j lo lt =
    below_one (λ k. is_v (load64 mem (entry_at 12288 (base + k * 4096) 0)) ≡ false)
      (ap is_v entries.0 ∙ refl) j (omega arith)
