-- ===== src/Boot/UserEntries.antt =====
-- The entries of the page table that a process starts with, once `vm_getpte` has built its tables.
use biglab.Base.{ℕ, ◌+◌, ◌*◌, ◌%◌, ◌^◌, ◌≤◌, ◌<◌, ◌≡◌, refl, ◌∙◌, ap, ◌≢◌, ◌⊎◌, List, arith}
use biglab.Base.Word.{pgsize, trampoline_va, trapframe_va}
use biglab.Memory.{Mem, load64, store64, memset}
use biglab.Memory.Words.{load64-store64_self, load64-store64_ne, load64-zero}
use biglab.Memory.Blocks.{memset_out}
use biglab.Machine.{Machine}
use biglab.Pmem.Pages.{Chain-congr, FreePages, All-map}
use biglab.Kvm.{make_pte}
use biglab.Kvm.Entry.{make_pte_fields}
use biglab.Kvm.Walk.{entry_at, LeadsTo, Path3}
use biglab.Kvm.Apart.{Path3-congr}
use biglab.Kvm.Build.{Clear, Built}

-- The table `root` with the tables `x` and `y` below it maps the page of TRAMPOLINE to `code` with
-- the flags R and X and that of TRAPFRAME to `frame` with R and W. Every other entry of the three
-- tables is 0.
pub record UserTable (mem : Mem) (root x y code frame : ℕ) : Type 0 where
  pub to_code : Path3 mem root trampoline_va x y
  pub to_frame : Path3 mem root trapframe_va x y
  pub has_code : load64 mem (entry_at y trampoline_va 0) ≡ make_pte code 10
  pub has_frame : load64 mem (entry_at y trapframe_va 0) ≡ make_pte frame 6
  pub only : (i : ℕ) → i < 510 → load64 mem (y + 8 * i) ≡ 0
  pub only_second : (i : ℕ) → i < 511 → load64 mem (x + 8 * i) ≡ 0
  pub only_first : (i : ℕ) → i < 512 → i ≢ 255 → load64 mem (root + 8 * i) ≡ 0

-- The page `root` has been taken off the list and cleared, now twice.
abbrev pub cleared : Machine → ℕ → Machine
cleared m a = record m { mem = memset m.mem a 0 pgsize }

pub Cleared-FreePages :
    (m : Machine) (a : ℕ) (xs : List ℕ)
    → Clear a xs
    → FreePages m.mem m.kern xs
    → FreePages (cleared m a).mem m.kern xs
Cleared-FreePages m a xs clear f = record {
  chain =
      Chain-congr m.mem _ m.kern.head xs
        (All-map xs (λ y away i lt. memset_out m.mem a 0 4096 (y + i) (omega arith)) clear) f.chain;
  pages = f.pages;
  distinct = f.distinct;
  count = f.count;
  lk_free = f.lk_free;
}

-- Memory with the two entries written.
unfoldable pub written : Mem → ℕ → ℕ → ℕ → Mem
written mem y code frame =
    store64 (store64 mem (entry_at y trampoline_va 0) (make_pte code 10))
      (entry_at y trapframe_va 0) (make_pte frame 6)

-- Outside these two entries the words are as before.
written_out :
    (mem : Mem) (y code frame b : ℕ)
    → (b + 8 ≤ y + 8 * 510) ⊎ (y + 4096 ≤ b)
    → load64 (written mem y code frame) b ≡ load64 mem b
unfolding written
written_out mem y code frame b out =
    load64-store64_ne _ (entry_at y trapframe_va 0) b (make_pte frame 6) (omega arith)
    ∙ load64-store64_ne mem (entry_at y trampoline_va 0) b (make_pte code 10) (omega arith)

pub word_zero :
    (mem : Mem) (t i : ℕ)
    → ((j : ℕ) → 8 * i ≤ j → j < 8 * i + 8 → mem (t + j) ≡ 0)
    → load64 mem (t + 8 * i) ≡ 0
word_zero mem t i z = load64-zero mem (t + 8 * i) λ j k.
    let e : t + 8 * i + j ≡ t + (8 * i + j) = omega arith in
    ap mem e ∙ z (8 * i + j) (omega arith) (omega arith)

pub LeadsTo-congr_entry :
    (mem : Mem) (table va va' level next : ℕ)
    → entry_at table va' level ≡ entry_at table va level
    → LeadsTo mem table va level next
    → LeadsTo mem table va' level next
LeadsTo-congr_entry mem table va va' level next e l = record {
  valid = rw e l.valid;
  inner = rw e l.inner;
  target = rw e l.target;
}

-- The two pages share their tables.
pub to_frame_path :
    (mem : Mem) (root x y : ℕ) → Path3 mem root trampoline_va x y → Path3 mem root trapframe_va x y
to_frame_path mem root x y p = record {
  below = omega arith;
  first = LeadsTo-congr_entry mem root trampoline_va trapframe_va 2 x refl p.first;
  second = LeadsTo-congr_entry mem x trampoline_va trapframe_va 1 y refl p.second;
}

pub Built-UserTable :
    (m m' : Machine) (root x y code frame : ℕ) (xs : List ℕ)
    → (x + 4096 ≤ root) ⊎ (root + 4096 ≤ x)
    → (y + 4096 ≤ root) ⊎ (root + 4096 ≤ y)
    → (y + 4096 ≤ x) ⊎ (x + 4096 ≤ y)
    → code % 4096 ≡ 0
    → code < 2 ^ 56
    → frame % 4096 ≡ 0
    → frame < 2 ^ 56
    → ((i : ℕ) → i < 4096 → m.mem (root + i) ≡ 0)
    → Built m root trampoline_va x y xs m'
    → UserTable (written m'.mem y code frame) root x y code frame
unfolding written
Built-UserTable m m' root x y code frame xs a1 a2 a3 al lt al' lt' zero b =
    let mem = m'.mem in
    let e1 = entry_at y trampoline_va 0 in
    let e2 = entry_at y trapframe_va 0 in
    let path =
      Path3-congr mem (written mem y code frame) root trampoline_va x y
        (written_out mem y code frame (entry_at root trampoline_va 2) (omega arith))
        (written_out mem y code frame (entry_at x trampoline_va 1) (omega arith)) b.path in
    record {
      to_code = path;
      to_frame = to_frame_path (written mem y code frame) root x y path;
      has_code =
          load64-store64_ne _ e2 e1 (make_pte frame 6) (omega arith)
          ∙ load64-store64_self mem e1 (make_pte code 10)
              (make_pte_fields code 10 lt al (omega arith)).3;
      has_frame =
          load64-store64_self _ e2 (make_pte frame 6)
            (make_pte_fields frame 6 lt' al' (omega arith)).3;
      only = λ i h.
          written_out mem y code frame (y + 8 * i) (omega arith)
          ∙ word_zero mem y i (λ j lo hi. b.empty j (omega arith));
      only_second = λ i h.
          written_out mem y code frame (x + 8 * i) (omega arith)
          ∙ word_zero mem x i (λ j lo hi. b.rest j (omega arith) (omega arith));
      only_first = λ i h ne.
          written_out mem y code frame (root + 8 * i) (omega arith)
          ∙ word_zero mem root i (λ j lo hi.
            b.same (root + j) (omega arith) (omega arith) (omega arith) ∙ zero j (omega arith));
    }
