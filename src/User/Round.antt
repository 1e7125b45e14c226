-- ===== src/User/Round.antt =====
-- What a system call comes to for the user program.
use biglab.Base.{ℕ, ◌+◌, ◌-◌, ◌^◌, ◌≤◌, ◌<◌, ◌≡◌, ◌≢◌, ◌⊎◌, ◌∙◌, arith}
use biglab.Base.Word.{add64, trampoline_va}
use biglab.Memory.{Mem, load64, store64}
use biglab.Memory.Words.{load64-store64_self, load64-store64_ne}
use biglab.Machine.{Machine}
use biglab.Syscall.{Buffers, a0_offset}
use biglab.Trap.{Symbols, epc_offset}
use biglab.Trap.Trampoline.{UserHart, save, x_offset, user_vector}
use biglab.User.{a0}
use biglab.User.Calls.{load64-save}

module _ (s : Symbols) (bufs : Buffers) (h : UserHart) (m : Machine) where
  abbrev tf : ℕ
  tf = m.proc.tf

  abbrev saved : Mem
  saved = save 31 tf h.x m.mem

  -- The machine in which `syscall` begins.
  abbrev pub arrived : Machine
  arrived = record m {
    mem = store64 (store64 saved (tf + epc_offset) h.pc) (tf + epc_offset) (h.pc + 4);
    stvec = s.kernel_vector;
  }

  arrived_word : (b : ℕ) → tf + 32 ≤ b → load64 arrived.mem b ≡ load64 saved b
  arrived_word b le =
      load64-store64_ne (store64 saved (tf + epc_offset) h.pc) (tf + epc_offset) b (h.pc + 4)
        (omega arith)
      ∙ load64-store64_ne saved (tf + epc_offset) b h.pc (omega arith)

  arrived_x :
      (i : ℕ) → h.x i < 2 ^ 64 → 1 ≤ i → i ≤ 31 → load64 arrived.mem (tf + x_offset i) ≡ h.x i
  arrived_x i lt one le =
      arrived_word (tf + x_offset i) (omega arith) ∙ load64-save 31 tf i h.x m.mem lt one le

  -- What the trap frame holds once the call is answered: the result in a0, the other registers as the
  -- program left them, and the address of the next instruction.
  pub record Answered (v : ℕ) (m' : Machine) : Type 0 where
    pub result : load64 m'.mem (tf + x_offset a0) ≡ v
    pub kept : (i : ℕ) → 1 ≤ i → i ≤ 31 → i ≢ a0 → load64 m'.mem (tf + x_offset i) ≡ h.x i
    pub next : load64 m'.mem (tf + epc_offset) ≡ h.pc + 4

  abbrev pub answered : ℕ → Machine → Machine
  answered v m1 = record m1 {
    mem = store64 m1.mem (m1.proc.tf + a0_offset) v;
    stvec = add64 trampoline_va (s.user_vector - s.trampoline);
  }

  answers :
      (v : ℕ) (m1 : Machine)
      → v < 2 ^ 64
      → m1.proc.tf ≡ tf
      → ((i : ℕ) → h.x i < 2 ^ 64)
      → h.pc + 4 < 2 ^ 64
      → ((b : ℕ) → tf + 24 ≤ b → b + 8 ≤ tf + 288 → load64 m1.mem b ≡ load64 arrived.mem b)
      → Answered v (answered v m1)
  answers v m1 lt same words small frame =
      let slot : m1.proc.tf + a0_offset ≡ tf + x_offset a0 = omega (arith, same) in
      let other : (b : ℕ)
          → (b + 8 ≤ tf + 112) ⊎ (tf + 120 ≤ b)
          → load64 (answered v m1).mem b ≡ load64 m1.mem b =
        λ b out. load64-store64_ne m1.mem (m1.proc.tf + a0_offset) b v (omega (arith, same)) in
      record {
        result = rw slot (load64-store64_self m1.mem (tf + x_offset a0) v lt);
        kept = λ i one le ne.
            other (tf + x_offset i) (omega arith)
            ∙ frame (tf + x_offset i) (omega arith) (omega arith)
            ∙ arrived_x i (words i) one le;
        next =
            other (tf + epc_offset) (omega arith)
            ∙ frame (tf + epc_offset) (omega arith) (omega arith)
            ∙ load64-store64_self _ (tf + epc_offset) (h.pc + 4) small;
      }
