-- ===== src/Examples/Growth.antt =====
-- A fault on the page below a stack of one page.
use biglab.Base.{ℕ, ◌+◌, ◌-◌, ◌*◌, ◌≡◌, refl, [], ◌∷◌, arith}
use biglab.Base.Word.{va_max}
use biglab.Base.Outcome.{ok}
use biglab.Memory.{Mem, load64, store64}
use biglab.Machine.{Machine}
use biglab.Pmem.Pages.{FreePages}
use biglab.Kvm.{make_pte}
use biglab.Kvm.Walk.{LeadsTo, Path3}
use biglab.Kvm.Apart.{Tables}
use biglab.Stack.{uvm_ustack_grow}
use biglab.Stack.Grow.{Grown, uvm_ustack_grow-maps}
use biglab.Examples.Pages.{user-IsRegion, user_pages}
use biglab.Examples.{machine, blank, below_one}

abbrev below_stack : ℕ
below_stack = va_max - 4 * 4096

-- The tables for that page: entry 255 of the root, and entry 511 of the next table.
abbrev tables : Mem
tables =
    store64 (store64 blank (4096 + 8 * 255) (make_pte 8192 0)) (8192 + 8 * 511) (make_pte 12288 0)

abbrev faulting : Machine
faulting = record machine { mem = tables }

first_step : LeadsTo tables 4096 below_stack 2 8192
unfolding load64 store64 make_pte
first_step = record { valid = refl; inner = refl; target = refl }

second_step : LeadsTo tables 8192 below_stack 1 12288
unfolding load64 store64 make_pte
second_step = record { valid = refl; inner = refl; target = refl }

path : Path3 tables 4096 below_stack 8192 12288
path = record { below = omega arith; first = first_step; second = second_step }

page_tables : Tables 4096 below_stack (λ i. 8192) (λ i. 12288) tables 1
page_tables = record {
  path = below_one (λ i. Path3 tables 4096 (below_stack + i * 4096) 8192 12288) path;
  apart = λ i j lt lt' ne. absurd (omega arith);
  apart_first = λ i j lt lt'. omega arith;
  apart_second = λ i j lt lt'. omega arith;
}

last_link : load64 tables 0x82000000 ≡ 0
unfolding load64 store64
last_link = refl

free_page : FreePages tables faulting.user (0x82000000 ∷ [])
free_page = record {
  chain = (refl, last_link);
  pages = user_pages.pages;
  distinct = (tt, tt);
  count = refl;
  lk_free = refl;
}

uvm_ustack_grow-maps_example :
    (m' : Machine) × (uvm_ustack_grow (below_stack + 8) faulting ≡ ok (0, m'))
    × Grown 4096 below_stack 8192 12288 faulting 0x82000000 m'
uvm_ustack_grow-maps_example =
    uvm_ustack_grow-maps 4096 below_stack 8192 12288 faulting (below_stack + 8) 0x82000000 [] refl
      (omega arith) (omega arith) (omega arith) (omega arith) (omega arith) user-IsRegion free_page
      (omega arith) (λ i lt. omega arith) (λ i lt. omega arith) page_tables
