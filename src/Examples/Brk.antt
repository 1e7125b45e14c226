-- ===== src/Examples/Brk.antt =====
-- A process whose heap grows by its first page and shrinks again.
use biglab.Base.{ℕ, ◌+◌, ◌*◌, ◌<◌, ◌≡◌, ◌∙◌, ap, refl, true, false, [], ◌∷◌, arith}
use biglab.Base.Outcome.{ok}
use biglab.Memory.{Mem, load64, store64}
use biglab.Machine.{Machine}
use biglab.Kvm.{make_pte, is_v}
use biglab.Kvm.Walk.{entry_at, LeadsTo, Path3}
use biglab.Kvm.Backed.{Backed, Frees}
use biglab.Kvm.Filled.{Fills}
use biglab.Heap.{user_data, uvm_heap_grow, uvm_heap_ungrow}
use biglab.Heap.Bounds.{with_top}
use biglab.Heap.Growing.{data_small, uvm_heap_ungrow-uvm_heap_grow}
use biglab.Examples.Pages.{user-IsRegion, user_pages}
use biglab.Examples.{machine, blank, below_one}

-- The root at 0x10000 leads over 0x11000 to 0x12000 for the page at 0x2000.
abbrev tables : Mem
tables =
    store64 (store64 blank (entry_at 0x10000 0x2000 2) (make_pte 0x11000 0))
      (entry_at 0x11000 0x2000 1) (make_pte 0x12000 0)

abbrev t1 : ℕ → ℕ
t1 i = 0x11000

abbrev t0 : ℕ → ℕ
t0 i = 0x12000

abbrev small_process : Machine
small_process = record machine {
  mem = tables;
  proc = record machine.proc { pgtbl = 0x10000; heap_top = 0x2000 };
}

first_step : LeadsTo tables 0x10000 0x2000 2 0x11000
unfolding load64 store64 make_pte
first_step = record { valid = refl; inner = refl; target = refl }

second_step : LeadsTo tables 0x11000 0x2000 1 0x12000
unfolding load64 store64 make_pte
second_step = record { valid = refl; inner = refl; target = refl }

empty_words : (load64 tables (0x12000 + 16) ≡ 0) × (load64 tables 0x82000000 ≡ 0)
unfolding load64 store64 make_pte
empty_words = (refl, refl)

first_path : Path3 tables 0x10000 0x2000 0x11000 0x12000
first_path = record { below = omega arith; first = first_step; second = second_step }

not_mapped : (j : ℕ) → j < 1 → is_v (load64 tables (entry_at 0x12000 (0x2000 + j * 4096) 0)) ≡ false
not_mapped =
    below_one (λ j. is_v (load64 tables (entry_at 0x12000 (0x2000 + j * 4096) 0)) ≡ false)
      (ap is_v empty_words.0 ∙ refl)

contradicts :
    (j : ℕ) → j < 1 → is_v (load64 tables (entry_at 0x12000 (0x2000 + j * 4096) 0)) ≡ true → ⊥
contradicts j lt v = cc (not_mapped j lt)

heap-Backed : Backed 0x10000 0x2000 t1 t0 1 tables small_process.user (0x82000000 ∷ [])
heap-Backed = record {
  tables = record {
    path = below_one (λ i. Path3 tables 0x10000 (0x2000 + i * 4096) 0x11000 0x12000) first_path;
    apart = λ i j lt lt' ne. omega arith;
    apart_first = λ i j lt lt'. omega arith;
    apart_second = λ i j lt lt'. omega arith;
  };
  kept = user-IsRegion;
  free = record {
    chain = (refl, empty_words.1);
    pages = user_pages.pages;
    distinct = (tt, tt);
    count = refl;
    lk_free = refl;
  };
  page = λ j lt v. absurd (contradicts j lt v);
  fresh = λ j lt v. absurd (contradicts j lt v);
  own = λ j k lt lt' ne v v'. absurd (contradicts j lt v);
  leaf_out = λ j lt. omega arith;
  first_out = λ j lt. omega arith;
  second_out = λ j lt. omega arith;
}

uvm_heap_ungrow-uvm_heap_grow_example :
    (m1 : Machine) × (m2 : Machine) × (uvm_heap_grow 0x2001 small_process
      ≡ ok (0, with_top m1 0x2001))
    × Fills 0x10000 0x2000 t1 t0 1 refl
        (omega arith)
        user_data
        data_small
        small_process
        0
        (0x82000000 ∷ [])
        []
        m1
    × (uvm_heap_ungrow 0x2000 (with_top m1 0x2001) ≡ ok (0, with_top m2 0x2000))
    × Frees 0x10000 0x2000 t1 t0 1 (with_top m1 0x2001) m2 0 1
uvm_heap_ungrow-uvm_heap_grow_example =
    uvm_heap_ungrow-uvm_heap_grow 0x10000 0x2000 t1 t0 1 refl (omega arith) small_process 0x2001 0
      (0x82000000 ∷ []) [] refl (omega arith) heap-Backed (omega arith) (omega arith) refl refl
      (omega arith) (λ j lo hi. not_mapped j (omega arith))
