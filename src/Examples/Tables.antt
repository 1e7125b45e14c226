-- ===== src/Examples/Tables.antt =====
-- Page tables: a root at 4096 whose first entry leads over a table at 8192 to one at 12288.
use biglab.Base.{ℕ, ◌+◌, ◌*◌, ◌≡◌, refl, true, [], ◌∷◌, arith}
use biglab.Base.Outcome.{ok}
use biglab.Memory.{Mem, load64, store64}
use biglab.Machine.{Machine}
use biglab.Kvm.{va_to_vpn, make_pte, pte_to_pa, is_v, vm_mappages, vm_unmappages}
use biglab.Kvm.Walk.{LeadsTo, Path3}
use biglab.Kvm.Apart.{Tables}
use biglab.Kvm.Map.{Mapped, vm_mappages-maps, with_mem}
use biglab.Kvm.UnmapRange.{InUse, Emptied, returned, vm_unmappages-empties}
use biglab.Examples.Pages.{user-IsRegion, user_pages}
use biglab.Examples.{machine, blank, below_one}

abbrev tables : Mem
tables = store64 (store64 blank 4096 (make_pte 8192 0)) 8192 (make_pte 12288 0)

abbrev mapped_machine : Machine
mapped_machine = record machine { mem = tables }

first_step : LeadsTo tables 4096 8192 2 8192
unfolding load64 store64 make_pte
first_step = record { valid = refl; inner = refl; target = refl }

second_step : LeadsTo tables 8192 8192 1 12288
unfolding load64 store64 make_pte
second_step = record { valid = refl; inner = refl; target = refl }

path : Path3 tables 4096 8192 8192 12288
path = record { below = omega arith; first = first_step; second = second_step }

abbrev first_table : ℕ → ℕ
first_table i = 8192

abbrev last_table : ℕ → ℕ
last_table i = 12288

-- The tables for the one page at 8192, in any memory whose entries lead to them.
one_page_tables :
    (mem : Mem) → Path3 mem 4096 8192 8192 12288 → Tables 4096 8192 first_table last_table mem 1
one_page_tables mem p = record {
  path = below_one (λ i. Path3 mem 4096 (8192 + i * 4096) 8192 12288) p;
  apart = λ i j lt lt' ne. absurd (omega arith);
  apart_first = λ i j lt lt'. omega arith;
  apart_second = λ i j lt lt'. omega arith;
}

vm_mappages-maps_example :
    (mem' : Mem) × (vm_mappages 4096 8192 0x82001000 4096 22 mapped_machine
      ≡ ok (tt, with_mem mapped_machine mem'))
    × Mapped 4096 8192 0x82001000 22 first_table last_table mapped_machine 1 mem'
vm_mappages-maps_example =
    vm_mappages-maps 4096 8192 0x82001000 22 first_table last_table mapped_machine 4096 refl refl
      (omega arith) (omega arith) (omega arith) (omega arith) (one_page_tables tables path)

-- The page at 8192 mapped to the second page of the user region, the first of which is free.
abbrev in_use : Mem
in_use = store64 tables (12288 + 16) (make_pte 0x82001000 22)

abbrev using : Machine
using = record machine { mem = in_use }

page_first : LeadsTo in_use 4096 8192 2 8192
unfolding load64 store64 make_pte
page_first = record { valid = refl; inner = refl; target = refl }

page_second : LeadsTo in_use 8192 8192 1 12288
unfolding load64 store64 make_pte
page_second = record { valid = refl; inner = refl; target = refl }

page_path : Path3 in_use 4096 8192 8192 12288
page_path = record { below = omega arith; first = page_first; second = page_second }

page_entry :
    (is_v (load64 in_use (12288 + 16)) ≡ true)
    × (pte_to_pa (load64 in_use (12288 + 16)) ≡ 0x82001000)
    × (load64 in_use 0x82000000 ≡ 0)
unfolding load64 store64 make_pte
page_entry = (refl, refl, refl)

abbrev page_of : ℕ → ℕ
page_of i = 0x82001000

using_page : InUse 4096 8192 first_table last_table page_of using 0 1 (0x82000000 ∷ [])
using_page = record {
  tables = one_page_tables in_use page_path;
  valid = λ j lo.
      below_one (λ i. is_v (load64 in_use (12288 + 8 * va_to_vpn (8192 + i * 4096) 0)) ≡ true)
        page_entry.0 j;
  maps = λ j lo.
      below_one
        (λ i. pte_to_pa (load64 in_use (12288 + 8 * va_to_vpn (8192 + i * 4096) 0)) ≡ 0x82001000)
        page_entry.1 j;
  kept = user-IsRegion;
  free = record {
    chain = (refl, page_entry.2);
    pages = user_pages.pages;
    distinct = (tt, tt);
    count = refl;
    lk_free = refl;
  };
  page = λ j lo hi. record { aligned = refl; above = omega arith; below = omega arith };
  fresh = λ j lo hi. (omega arith, tt);
  distinct = λ j k lo hi lo' hi' ne. absurd (omega arith);
  leaf_out = λ j hi. omega arith;
  first_out = λ j hi. omega arith;
  second_out = λ j hi. omega arith;
}

vm_unmappages-empties_example :
    (m' : Machine) × (vm_unmappages 4096 8192 (1 * 4096) true using ≡ ok (tt, m'))
    × Emptied 4096 8192 first_table last_table page_of using 0 1
        (returned 4096 8192 first_table last_table page_of 1 0 (0x82000000 ∷ []))
        m'
vm_unmappages-empties_example =
    vm_unmappages-empties 4096 8192 first_table last_table page_of using 1 (0x82000000 ∷ []) refl
      (omega arith) (omega arith) using_page
