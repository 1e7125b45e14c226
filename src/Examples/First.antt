-- ===== src/Examples/First.antt =====
-- The first process, on a machine with the free pages that it takes.
use biglab.Base.{ℕ, ◌+◌, ◌*◌, ◌<◌, ◌≡◌, refl, ◌∙◌, inl, inr, none, false, [], ◌∷◌, arith}
use biglab.Base.Outcome.{ok}
use biglab.Memory.{Mem, load64, store64}
use biglab.Memory.Words.{store64_out}
use biglab.Lock.{spinlock_init}
use biglab.Machine.{Region, Machine}
use biglab.Kvm.{vm_getpte}
use biglab.Trap.{Return, make_satp}
use biglab.Boot.{Start, proc_make_first}
use biglab.Boot.Prepared.{Prepared}
use biglab.Boot.Make.{code_size, leaving}
use biglab.Boot.FirstProcess.{Made, proc_make_first-Made}
use biglab.Boot.Departure.{proc_make_first-unmapped}
use biglab.Examples.{machine, blank}
use biglab.Examples.Calls.{symbols}

-- Six kernel pages from 0x81000000 on and two user pages from 0x82000000 on, each linked to the next.
abbrev links : Mem
links =
    store64
      (store64
        (store64
          (store64 (store64 (store64 blank 0x81000000 0x81001000) 0x81001000 0x81002000) 0x81002000
            0x81003000)
          0x81003000 0x81004000)
        0x81004000 0x81005000)
      0x82000000 0x82001000

abbrev region : ℕ → ℕ → Region
region a n = record { begin = a; end = a + n * 4096; lk = spinlock_init; allocable = n; head = a }

abbrev fresh_machine : Machine
fresh_machine = record machine {
  mem = links;
  kern = region 0x81000000 6;
  user = region 0x82000000 2;
}

abbrev start_with : Start
start_with = record {
  satp = 0;
  hartid = 0;
  handler = 0x80003000;
  initcode = 0x80004000;
  initcode_len = 236;
}

words :
    (load64 links 0x81000000 ≡ 0x81001000)
    × (load64 links 0x81001000 ≡ 0x81002000)
    × (load64 links 0x81002000 ≡ 0x81003000)
    × (load64 links 0x81003000 ≡ 0x81004000)
    × (load64 links 0x81004000 ≡ 0x81005000)
    × (load64 links 0x81005000 ≡ 0)
    × (load64 links 0x82000000 ≡ 0x82001000)
    × (load64 links 0x82001000 ≡ 0)
unfolding load64 store64
words = (refl, refl, refl, refl, refl, refl, refl, refl)

prepared :
    Prepared fresh_machine
      (0x81000000 ∷ 0x81001000 ∷ 0x81002000 ∷ 0x81003000 ∷ 0x81004000 ∷ 0x81005000 ∷ [])
      (0x82000000 ∷ 0x82001000 ∷ [])
prepared = record {
  kern = record {
    begin_aligned = refl;
    end_aligned = refl;
    not_null = omega arith;
    fits = omega arith;
  };
  user = record {
    begin_aligned = refl;
    end_aligned = refl;
    not_null = omega arith;
    fits = omega arith;
  };
  kern_low = omega arith;
  user_low = omega arith;
  apart = inl (omega arith);
  kern_free = record {
    chain = (refl, (words.0, (words.1, (words.2, (words.3, (words.4, words.5))))));
    pages = omega arith;
    distinct = omega arith;
    count = refl;
    lk_free = refl;
  };
  user_free = record {
    chain = (refl, (words.6, words.7));
    pages = omega arith;
    distinct = omega arith;
    count = refl;
    lk_free = refl;
  };
}

-- The program's bytes are blank.
program_bytes : (i : ℕ) → i < code_size start_with → links (0x80004000 + i) < 256
program_bytes i lt =
    let zero : links (0x80004000 + i) ≡ 0 =
      store64_out _ 0x82000000 0x82001000 (0x80004000 + i) (inl (omega arith))
      ∙ store64_out _ 0x81004000 0x81005000 (0x80004000 + i) (inl (omega arith))
      ∙ store64_out _ 0x81003000 0x81004000 (0x80004000 + i) (inl (omega arith))
      ∙ store64_out _ 0x81002000 0x81003000 (0x80004000 + i) (inl (omega arith))
      ∙ store64_out _ 0x81001000 0x81002000 (0x80004000 + i) (inl (omega arith))
      ∙ store64_out _ 0x81000000 0x81001000 (0x80004000 + i) (inl (omega arith)) in
    omega (arith, zero)

proc_make_first-Made_example :
    (m' : Machine) × (proc_make_first symbols start_with fresh_machine
      ≡ ok (leaving symbols start_with 0x81000000 0x81001000, m'))
    × Made fresh_machine symbols start_with 0x81000000 0x81001000 0x81002000 0x81003000 0x81004000
        0x81005000 0x82000000 0x82001000 [] [] prepared m'
proc_make_first-Made_example =
    proc_make_first-Made fresh_machine symbols start_with 0x81000000 0x81001000 0x81002000
      0x81003000 0x81004000 0x81005000 0x82000000 0x82001000 [] [] prepared refl (omega arith)
      (omega arith, omega arith, omega arith) (inr (omega arith)) (inr (omega arith)) program_bytes

proc_make_first-unmapped_example :
    (m' : Machine) × (r : Return) × (proc_make_first symbols start_with fresh_machine ≡ ok (r, m'))
    × (r.satp ≡ make_satp 0x81001000)
    × (vm_getpte 0x81001000 r.tf false m' ≡ ok (none, m'))
proc_make_first-unmapped_example =
    proc_make_first-unmapped fresh_machine symbols start_with 0x81000000 0x81001000 0x81002000
      0x81003000 0x81004000 0x81005000 0x82000000 0x82001000 [] [] prepared (omega arith)
      (omega arith) refl (omega arith) (omega arith, omega arith, omega arith) (inr (omega arith))
      (inr (omega arith)) program_bytes
