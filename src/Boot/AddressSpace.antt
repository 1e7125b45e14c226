-- ===== src/Boot/AddressSpace.antt =====
-- The address space of the first process: the four pages that its table maps.
use biglab.Base.{ℕ, ◌+◌, ◌*◌, ◌≤◌, ◌<◌, ◌≡◌, ◌≢◌, ◌∙◌, ap, arith}
use biglab.Base.Word.{trampoline_va, trapframe_va, user_base}
use biglab.Memory.{Mem, load64}
use biglab.Memory.Words.{load64-congr}
use biglab.Kvm.{make_pte}
use biglab.Kvm.Walk.{entry_at, Path3}
use biglab.Kvm.Apart.{Path3-congr}
use biglab.Boot.StackTable.{stack_va, StackTable}

-- The table `root`, with `x` and `y` below it for the top of the address space and `x2` and `y2` for
-- its bottom, maps the trampoline (R and X), the trap frame (R and W), the stack (R, W and U) and
-- the program (R, X and U). Every other entry of the five tables is 0.
pub record AddressSpace (mem : Mem) (root x y x2 y2 code frame stack program : ℕ) : Type 0 where
  pub to_code : Path3 mem root trampoline_va x y
  pub to_frame : Path3 mem root trapframe_va x y
  pub to_stack : Path3 mem root stack_va x y
  pub to_program : Path3 mem root user_base x2 y2
  pub has_code : load64 mem (entry_at y trampoline_va 0) ≡ make_pte code 10
  pub has_frame : load64 mem (entry_at y trapframe_va 0) ≡ make_pte frame 6
  pub has_stack : load64 mem (entry_at y stack_va 0) ≡ make_pte stack 22
  pub has_program : load64 mem (entry_at y2 user_base 0) ≡ make_pte program 26
  pub only_root : (i : ℕ) → i < 512 → i ≢ 0 → i ≢ 255 → load64 mem (root + 8 * i) ≡ 0
  pub only_high_second : (i : ℕ) → i < 511 → load64 mem (x + 8 * i) ≡ 0
  pub only_high : (i : ℕ) → i < 509 → load64 mem (y + 8 * i) ≡ 0
  pub only_low_second : (i : ℕ) → i < 512 → i ≢ 0 → load64 mem (x2 + 8 * i) ≡ 0
  pub only_low : (i : ℕ) → i < 512 → i ≢ 1 → load64 mem (y2 + 8 * i) ≡ 0

-- A word of a page whose bytes from `lo` on are as before.
pub word_same :
    (mem mem' : Mem) (p lo i : ℕ)
    → ((j : ℕ) → lo ≤ j → j < 4096 → mem' (p + j) ≡ mem (p + j))
    → lo ≤ 8 * i
    → i < 512
    → load64 mem' (p + 8 * i) ≡ load64 mem (p + 8 * i)
word_same mem mem' p lo i same le lt = load64-congr mem' mem (p + 8 * i) λ j h.
    let e : p + 8 * i + j ≡ p + (8 * i + j) = omega arith in
    ap mem' e ∙ same (8 * i + j) (omega arith) (omega arith) ∙ ap mem (omega arith)

-- The program's tables are new, and everything of the table with the stack is kept but for the
-- first entry of the root.
pub StackTable-AddressSpace :
    (mem mem' : Mem) (root x y x2 y2 code frame stack program : ℕ)
    → ((i : ℕ) → 8 ≤ i → i < 4096 → mem' (root + i) ≡ mem (root + i))
    → ((i : ℕ) → 0 ≤ i → i < 4096 → mem' (x + i) ≡ mem (x + i))
    → ((i : ℕ) → 0 ≤ i → i < 4096 → mem' (y + i) ≡ mem (y + i))
    → Path3 mem' root user_base x2 y2
    → load64 mem' (entry_at y2 user_base 0) ≡ make_pte program 26
    → ((i : ℕ) → i < 512 → i ≢ 0 → load64 mem' (x2 + 8 * i) ≡ 0)
    → ((i : ℕ) → i < 512 → i ≢ 1 → load64 mem' (y2 + 8 * i) ≡ 0)
    → StackTable mem root x y code frame stack
    → AddressSpace mem' root x y x2 y2 code frame stack program
StackTable-AddressSpace mem mem' root x y x2 y2 code frame stack program same_root same_x same_y
      path has low2 low t =
    let first = word_same mem mem' root 8 255 same_root (omega arith) (omega arith) in
    let second = word_same mem mem' x 0 511 same_x (omega arith) (omega arith) in
    let entry = λ (i : ℕ) (h : i < 512). word_same mem mem' y 0 i same_y (omega arith) h in
    record {
      to_code = Path3-congr mem mem' root trampoline_va x y first second t.to_code;
      to_frame = Path3-congr mem mem' root trapframe_va x y first second t.to_frame;
      to_stack = Path3-congr mem mem' root stack_va x y first second t.to_stack;
      to_program = path;
      has_code = entry 511 (omega arith) ∙ t.has_code;
      has_frame = entry 510 (omega arith) ∙ t.has_frame;
      has_stack = entry 509 (omega arith) ∙ t.has_stack;
      has_program = has;
      only_root =
          λ i h nz ne. word_same mem mem' root 8 i same_root (omega arith) h ∙ t.only_first i h ne;
      only_high_second =
          λ i h. word_same mem mem' x 0 i same_x (omega arith) (omega arith) ∙ t.only_second i h;
      only_high = λ i h. entry i (omega arith) ∙ t.only i h;
      only_low_second = low2;
      only_low = low;
    }
