-- ===== src/Boot/Frame.antt =====
-- The trap frame that `proc_make_first` (proc/proc.c) fills in.
use biglab.Base.{ℕ, ◌+◌, ◌^◌, ◌≤◌, ◌<◌, ◌≡◌, ◌∙◌, ◌⊎◌, arith}
use biglab.Base.Word.{trapframe_va, user_base, kstack}
use biglab.Memory.{Mem, load64, store64}
use biglab.Memory.Words.{load64-store64_self, load64-store64_ne, store64_out}
use biglab.Trap.{epc_offset}
use biglab.Boot.{Start}

module _ (st : Start) (tf : ℕ) where
  -- The fields of the trap frame, in the order of the writes.
  unfoldable pub filled : Mem → Mem
  filled mem =
      let w1 = store64 mem tf st.satp in
      let w2 = store64 w1 (tf + 8) (kstack 0 + 4096) in
      let w3 = store64 w2 (tf + 16) st.handler in
      let w4 = store64 w3 (tf + epc_offset) (user_base + 0x2c) in
      let w5 = store64 w4 (tf + 32) st.hartid in store64 w5 (tf + 48) trapframe_va

  pub filled_out : (mem : Mem) (b : ℕ) → (b < tf) ⊎ (tf + 4096 ≤ b) → filled mem b ≡ mem b
  unfolding filled
  filled_out mem b out =
      store64_out _ (tf + 48) (trapframe_va) b (omega arith)
      ∙ store64_out _ (tf + 32) (st.hartid) b (omega arith)
      ∙ store64_out _ (tf + epc_offset) (user_base + 0x2c) b (omega arith)
      ∙ store64_out _ (tf + 16) (st.handler) b (omega arith)
      ∙ store64_out _ (tf + 8) (kstack 0 + 4096) b (omega arith)
      ∙ store64_out _ (tf) (st.satp) b (omega arith)

  -- What the trap frame holds at the end.
  pub record Frame (mem : Mem) : Type 0 where
    pub satp : load64 mem tf ≡ st.satp
    pub kernel_sp : load64 mem (tf + 8) ≡ kstack 0 + 4096
    pub handler : load64 mem (tf + 16) ≡ st.handler
    pub epc : load64 mem (tf + epc_offset) ≡ user_base + 0x2c
    pub hartid : load64 mem (tf + 32) ≡ st.hartid
    pub sp : load64 mem (tf + 48) ≡ trapframe_va

  pub filled-Frame :
      (mem : Mem) → st.satp < 2 ^ 64 → st.handler < 2 ^ 64 → st.hartid < 2 ^ 64 → Frame (filled mem)
  unfolding filled
  filled-Frame mem a b c = record {
    satp =
        load64-store64_ne _ (tf + 48) (tf) (trapframe_va) (omega arith)
        ∙ load64-store64_ne _ (tf + 32) (tf) (st.hartid) (omega arith)
        ∙ load64-store64_ne _ (tf + epc_offset) (tf) (user_base + 0x2c) (omega arith)
        ∙ load64-store64_ne _ (tf + 16) (tf) (st.handler) (omega arith)
        ∙ load64-store64_ne _ (tf + 8) (tf) (kstack 0 + 4096) (omega arith)
        ∙ load64-store64_self _ (tf) (st.satp) (omega arith);
    kernel_sp =
        load64-store64_ne _ (tf + 48) (tf + 8) (trapframe_va) (omega arith)
        ∙ load64-store64_ne _ (tf + 32) (tf + 8) (st.hartid) (omega arith)
        ∙ load64-store64_ne _ (tf + epc_offset) (tf + 8) (user_base + 0x2c) (omega arith)
        ∙ load64-store64_ne _ (tf + 16) (tf + 8) (st.handler) (omega arith)
        ∙ load64-store64_self _ (tf + 8) (kstack 0 + 4096) (omega arith);
    handler =
        load64-store64_ne _ (tf + 48) (tf + 16) (trapframe_va) (omega arith)
        ∙ load64-store64_ne _ (tf + 32) (tf + 16) (st.hartid) (omega arith)
        ∙ load64-store64_ne _ (tf + epc_offset) (tf + 16) (user_base + 0x2c) (omega arith)
        ∙ load64-store64_self _ (tf + 16) (st.handler) (omega arith);
    epc =
        load64-store64_ne _ (tf + 48) (tf + epc_offset) (trapframe_va) (omega arith)
        ∙ load64-store64_ne _ (tf + 32) (tf + epc_offset) (st.hartid) (omega arith)
        ∙ load64-store64_self _ (tf + epc_offset) (user_base + 0x2c) (omega arith);
    hartid =
        load64-store64_ne _ (tf + 48) (tf + 32) (trapframe_va) (omega arith)
        ∙ load64-store64_self _ (tf + 32) (st.hartid) (omega arith);
    sp = load64-store64_self _ (tf + 48) (trapframe_va) (omega arith);
  }
