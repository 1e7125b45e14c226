-- ===== src/Boot/StackTable.antt =====
-- The page table of the first process with its stack.
use biglab.Base.{ℕ, ◌+◌, ◌-◌, ◌*◌, ◌%◌, ◌^◌, ◌≤◌, ◌<◌, ◌≡◌, refl, ◌∙◌, ap, ◌≢◌, ◌⊎◌, arith}
use biglab.Base.Word.{trampoline_va, trapframe_va}
use biglab.Memory.{Mem, load64, store64}
use biglab.Memory.Words.{load64-store64_self, load64-store64_ne, load64-congr}
use biglab.Kvm.{make_pte}
use biglab.Kvm.Entry.{make_pte_fields}
use biglab.Kvm.Walk.{entry_at, Path3}
use biglab.Kvm.Apart.{Path3-congr}
use biglab.Boot.UserEntries.{UserTable, LeadsTo-congr_entry}

abbrev pub stack_va : ℕ
stack_va = trapframe_va - 4096

-- The table of `proc_pgtbl_init`, with the page of the stack below the trap frame mapped to
-- `stack` with R, W and U.
pub record StackTable (mem : Mem) (root x y code frame stack : ℕ) : Type 0 where
  pub to_code : Path3 mem root trampoline_va x y
  pub to_frame : Path3 mem root trapframe_va x y
  pub to_stack : Path3 mem root stack_va x y
  pub has_code : load64 mem (entry_at y trampoline_va 0) ≡ make_pte code 10
  pub has_frame : load64 mem (entry_at y trapframe_va 0) ≡ make_pte frame 6
  pub has_stack : load64 mem (entry_at y stack_va 0) ≡ make_pte stack 22
  pub only : (i : ℕ) → i < 509 → load64 mem (y + 8 * i) ≡ 0
  pub only_second : (i : ℕ) → i < 511 → load64 mem (x + 8 * i) ≡ 0
  pub only_first : (i : ℕ) → i < 512 → i ≢ 255 → load64 mem (root + 8 * i) ≡ 0

pub to_stack_path :
    (mem : Mem) (root x y : ℕ) → Path3 mem root trapframe_va x y → Path3 mem root stack_va x y
to_stack_path mem root x y p = record {
  below = omega arith;
  first = LeadsTo-congr_entry mem root trapframe_va stack_va 2 x refl p.first;
  second = LeadsTo-congr_entry mem x trapframe_va stack_va 1 y refl p.second;
}

module _ (mem mem' : Mem) (root x y code frame stack : ℕ)
    (apart_root : (y + 4096 ≤ root) ⊎ (root + 4096 ≤ y)) (apart_x : (y + 4096 ≤ x) ⊎ (x + 4096 ≤ y))
    (al : stack % 4096 ≡ 0) (lt : stack < 2 ^ 56)
    (same_root : (i : ℕ) → i < 4096 → mem' (root + i) ≡ mem (root + i))
    (same_x : (i : ℕ) → i < 4096 → mem' (x + i) ≡ mem (x + i))
    (same_y : (i : ℕ) → i < 4096 → mem' (y + i) ≡ mem (y + i)) where
  word_kept :
      (p : ℕ)
      → ((i : ℕ) → i < 4096 → mem' (p + i) ≡ mem (p + i))
      → (i : ℕ) → i < 512
      → load64 mem' (p + 8 * i) ≡ load64 mem (p + 8 * i)
  word_kept p same i k = load64-congr mem' mem (p + 8 * i) λ j h.
      let e : p + 8 * i + j ≡ p + (8 * i + j) = omega arith in
      ap mem' e ∙ same (8 * i + j) (omega arith) ∙ ap mem (omega arith)

  abbrev final : Mem
  final = store64 mem' (entry_at y stack_va 0) (make_pte stack 22)

  final_word :
      (p i : ℕ)
      → ((j : ℕ) → j < 4096 → mem' (p + j) ≡ mem (p + j))
      → i < 512
      → (p + 8 * i + 8 ≤ y + 4072) ⊎ (y + 4080 ≤ p + 8 * i)
      → load64 final (p + 8 * i) ≡ load64 mem (p + 8 * i)
  final_word p i same k out =
      load64-store64_ne mem' (entry_at y stack_va 0) (p + 8 * i) (make_pte stack 22) (omega arith)
      ∙ word_kept p same i k

  pub stack-StackTable :
      UserTable mem root x y code frame → StackTable final root x y code frame stack
  stack-StackTable u =
      let first = final_word root 255 same_root (omega arith) (omega arith) in
      let second = final_word x 511 same_x (omega arith) (omega arith) in
      let frame_path = Path3-congr mem final root trapframe_va x y first second u.to_frame in
      record {
        to_code = Path3-congr mem final root trampoline_va x y first second u.to_code;
        to_frame = frame_path;
        to_stack = to_stack_path final root x y frame_path;
        has_code = final_word y 511 same_y (omega arith) (omega arith) ∙ u.has_code;
        has_frame = final_word y 510 same_y (omega arith) (omega arith) ∙ u.has_frame;
        has_stack =
            load64-store64_self mem' (entry_at y stack_va 0) (make_pte stack 22)
              (make_pte_fields stack 22 lt al (omega arith)).3;
        only = λ i h. final_word y i same_y (omega arith) (omega arith) ∙ u.only i (omega arith);
        only_second = λ i h. final_word x i same_x (omega arith) (omega arith) ∙ u.only_second i h;
        only_first = λ i h ne. final_word root i same_root h (omega arith) ∙ u.only_first i h ne;
      }
