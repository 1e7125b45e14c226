-- ===== src/Examples/Mapping.antt =====
-- A process without regions that maps one page and unmaps it again.
use biglab.Base.{◌≡◌, refl, [], ◌∷◌, arith, update}
use biglab.Lock.{spinlock_init}
use biglab.Machine.{Machine}
use biglab.Listing.{listed, Ends}
use biglab.Munmap.{uvm_munmap}
use biglab.Munmap.Whole.{HasRegions}
use biglab.Mmap.{uvm_mmap}
use biglab.Mmap.Whole.{Asks, Mmaps, uvm_mmap-Mmaps}
use biglab.Mmap.Undone.{Undone, uvm_munmap-uvm_mmap}
use biglab.Examples.Unmapping.{base, first_table, last_table, owner, backed, not_first}
use biglab.Examples.{machine, no_node}

-- The nodes 2 and 3 are free; page 1 of the run is mapped, and page 0 is asked for.
abbrev asker : Machine
asker = record owner {
  pool = record {
    node = update (λ _. no_node) 2 (record { begin = 0; npages = 0; next = 0; link = 3 });
    head = 2;
    lk = spinlock_init;
  };
  proc = record machine.proc { mmap = 0 };
}

asker_regions : HasRegions asker [] (2 ∷ 3 ∷ [])
asker_regions = record {
  chain = refl;
  areas = tt;
  sorted = tt;
  free = record {
    chain = (refl, omega arith, (refl, omega arith, refl));
    distinct = omega arith;
    lk_free = refl;
  };
  distinct = omega arith;
  count = omega arith;
}

asks : Asks asker [] base 1
asks = record {
  aligned = refl;
  pos = omega arith;
  above = omega arith;
  below = omega arith;
  room = tt;
  apart = tt;
}

uvm_mmap-Mmaps_example :
    (m' : Machine) × (uvm_mmap base 100 6 asker ≡ listed base m')
    × Ends base m'
    × Mmaps 4096 base first_table last_table 3 refl
        (omega arith)
        6
        (omega arith)
        asker
        []
        (3 ∷ [])
        base
        1
        0
        (0x82000000 ∷ [])
        []
        m'
uvm_mmap-Mmaps_example =
    uvm_mmap-Mmaps 4096 base first_table last_table 3 refl (omega arith) 6 (omega arith) asker 2 []
      (3 ∷ []) (0x82000000 ∷ []) [] base 100 0 asker_regions refl (omega arith) backed refl
      (omega arith) (omega arith) asks not_first

uvm_munmap-uvm_mmap_example :
    (m1 : Machine) × (m2 : Machine) × (uvm_mmap base 100 6 asker ≡ listed base m1)
    × (uvm_munmap base 4096 m1 ≡ listed 0 m2)
    × Ends base m1
    × Ends 0 m2
    × Mmaps 4096 base first_table last_table 3 refl
        (omega arith)
        6
        (omega arith)
        asker
        []
        (3 ∷ [])
        base
        1
        0
        (0x82000000 ∷ [])
        []
        m1
    × Undone 4096 base first_table last_table 3 refl
        (omega arith)
        6
        (omega arith)
        asker
        []
        base
        4096
        m2
uvm_munmap-uvm_mmap_example =
    uvm_munmap-uvm_mmap 4096 base first_table last_table 3 refl (omega arith) 6 (omega arith) asker
      2 [] (3 ∷ []) (0x82000000 ∷ []) [] base 100 0 asker_regions (omega arith) (λ v c. absurd c)
      refl (omega arith) backed refl (omega arith) (omega arith) asks not_first
