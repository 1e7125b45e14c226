-- ===== src/Examples/Fresh.antt =====
-- The allocator with its clients, and page tables that are built from free pages.
use biglab.Base.{ℕ, ◌≡◌, refl, Bool, true, false, some, [], ◌∷◌, arith}
use biglab.Base.Outcome.{ok}
use biglab.Memory.{Mem, load64, store64}
use biglab.Memory.Words.{load64-zero}
use biglab.Lock.{spinlock_init}
use biglab.Machine.{Machine, Region}
use biglab.Pmem.{select_region}
use biglab.Pmem.Pages.{IsRegion, FreePages}
use biglab.Pmem.Spec.{
  Spec, region_pages, alloc, free, write, done, step, gives, returns, writes, here,
}
use biglab.Pmem.Holds.{Holds, Shows}
use biglab.Pmem.Refine.{exec_all, exec_all-Runs}
use biglab.Kvm.{is_v, vm_getpte}
use biglab.Kvm.Walk.{entry_at}
use biglab.Kvm.Build.{Built, vm_getpte-builds}
use biglab.Examples.Pages.{user-IsRegion, user_pages}
use biglab.Examples.{machine, blank}

kern-IsRegion : IsRegion machine.kern
kern-IsRegion = record {
  begin_aligned = refl;
  end_aligned = refl;
  not_null = omega arith;
  fits = omega arith;
}

blank_word : (a : ℕ) → load64 blank a ≡ 0
blank_word a = load64-zero blank a (λ i lt. refl)

-- The allocator shows one free page and none in use in each region.
abbrev two_free : Spec
two_free = record {
  kern = record { used = []; free = 0x81000000 ∷ [] };
  user = record { used = []; free = 0x82000000 ∷ [] };
}

kern_pages : FreePages blank machine.kern (0x81000000 ∷ [])
kern_pages = record {
  chain = (refl, blank_word 0x81000000);
  pages = (record { aligned = refl; above = omega arith; below = omega arith }, tt);
  distinct = (tt, tt);
  count = refl;
  lk_free = refl;
}

machine-Shows : Shows machine two_free
machine-Shows = record { holds = at; apart = omega arith }
  where
    at : (k : Bool) → Holds blank (select_region k machine) (region_pages k two_free)
    at true = record { region = kern-IsRegion; free = kern_pages; used = tt; distinct = (tt, tt) }
    at false = record { region = user-IsRegion; free = user_pages; used = tt; distinct = (tt, tt) }

-- A client takes the user page, writes into it and gives it back.
exec_all-Runs_example :
    (m' : Machine) × (exec_all
        (alloc false ∷ write 0x82000010 5 ∷ free false 0x82000000 ∷ [])
        machine
      ≡ ok (0x82000000 ∷ 0 ∷ 0 ∷ [], m'))
    × Shows m' two_free
exec_all-Runs_example = exec_all-Runs machine machine-Shows (
    step (gives false 0x82000000 [] refl) (
      step (writes false 0x82000000 0x82000010 5 [] (here []) (omega arith) (omega arith))
        (step (returns false 0x82000000 [] (here [])) done)))

-- Three free pages of the kernel, linked in their order.
abbrev links : Mem
links = store64 (store64 blank 0x81000000 0x81001000) 0x81001000 0x81002000

abbrev three_kern : Region
three_kern = record {
  begin = 0x81000000;
  end = 0x81003000;
  lk = spinlock_init;
  allocable = 3;
  head = 0x81000000;
}

abbrev three_machine : Machine
three_machine = record machine { mem = links; kern = three_kern }

three_IsRegion : IsRegion three_kern
three_IsRegion = record {
  begin_aligned = refl;
  end_aligned = refl;
  not_null = omega arith;
  fits = omega arith;
}

link_words :
    (load64 links 0x81000000 ≡ 0x81001000)
    × (load64 links 0x81001000 ≡ 0x81002000)
    × (load64 links 0x81002000 ≡ 0)
    × (is_v (load64 links (entry_at 4096 8192 2)) ≡ false)
unfolding load64 store64
link_words = (refl, refl, refl, refl)

three_pages : FreePages links three_kern (0x81000000 ∷ 0x81001000 ∷ 0x81002000 ∷ [])
three_pages = record {
  chain = (refl, (link_words.0, (link_words.1, link_words.2)));
  pages = (
    record { aligned = refl; above = omega arith; below = omega arith },
    (
      record { aligned = refl; above = omega arith; below = omega arith },
      (record { aligned = refl; above = omega arith; below = omega arith }, tt),
    ),
  );
  distinct = ((omega arith, (omega arith, tt)), ((omega arith, tt), (tt, tt)));
  count = refl;
  lk_free = refl;
}

vm_getpte-builds_example :
    (m' : Machine) × (vm_getpte 4096 8192 true three_machine
      ≡ ok (some (entry_at 0x81001000 8192 0), m'))
    × Built three_machine 4096 8192 0x81000000 0x81001000 (0x81002000 ∷ []) m'
vm_getpte-builds_example =
    vm_getpte-builds three_machine 4096 8192 0x81000000 0x81001000 (0x81002000 ∷ []) (omega arith)
      link_words.3 three_IsRegion (omega arith) three_pages
      (omega arith, (omega arith, (omega arith, tt)))
