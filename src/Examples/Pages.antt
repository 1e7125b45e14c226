-- ===== src/Examples/Pages.antt =====
-- The allocator of pages.
use biglab.Base.{◌+◌, ◌-◌, ◌/◌, ◌≡◌, refl, false, [], ◌∷◌, arith}
use biglab.Base.Outcome.{ok}
use biglab.Memory.{load64}
use biglab.Machine.{Machine}
use biglab.Pmem.{pmem_free}
use biglab.Pmem.Pages.{IsRegion, FreePages}
use biglab.Pmem.Free.{pmem_free-cons, Freed}
use biglab.Pmem.Setup.{pages_down}
use biglab.Boot.{Layout, kern_bytes, pmem_init}
use biglab.Boot.Regions.{pmem_init-FreePages}
use biglab.Examples.{machine, blank}

pub user-IsRegion : IsRegion machine.user
user-IsRegion = record {
  begin_aligned = refl;
  end_aligned = refl;
  not_null = omega arith;
  fits = omega arith;
}

pub user_pages : FreePages blank machine.user (0x82000000 ∷ [])
unfolding load64
user_pages = record {
  chain = (refl, refl);
  pages = (record { aligned = refl; above = omega arith; below = omega arith }, tt);
  distinct = (tt, tt);
  count = refl;
  lk_free = refl;
}

pmem_free-cons_example :
    (m' : Machine) × (pmem_free 0x82001000 false machine ≡ ok (tt, m'))
    × Freed false machine 0x82001000 (0x82000000 ∷ []) m'
pmem_free-cons_example =
    pmem_free-cons false machine 0x82001000 (0x82000000 ∷ []) user-IsRegion user_pages
      (record { aligned = refl; above = omega arith; below = omega arith }) (omega arith, tt)

abbrev layout : Layout
layout = record { kernel_data = 0x80010000; alloc_begin = 0x80020000; alloc_end = 0x84000000 }

pmem_init-FreePages_example :
    (m' : Machine) × (pmem_init layout machine ≡ ok (tt, m'))
    × FreePages m'.mem m'.kern (pages_down 0x80020000 1024)
    × FreePages m'.mem m'.user
        (pages_down (0x80020000 + kern_bytes) ((0x84000000 - (0x80020000 + kern_bytes)) / 4096))
pmem_init-FreePages_example = pmem_init-FreePages layout machine (record {
  begin_aligned = refl;
  end_aligned = refl;
  not_null = omega arith;
  kernel_fits = omega arith;
  fits = omega arith;
})
