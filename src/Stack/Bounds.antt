-- ===== src/Stack/Bounds.antt =====
-- The faults that `uvm_ustack_grow` refuses, and its outcome when memory is exhausted.
use biglab.Base.{ℕ, ◌≤◌, ◌<◌, ◌≡◌, ◌⊎◌, inl, inr, arith, le→leb}
use biglab.Base.Word.{minus_one, mmap_end}
use biglab.Base.Outcome.{ok}
use biglab.Machine.{Machine}
use biglab.Stack.{ustack_top, uvm_ustack_grow}

-- A fault at or above the lowest stack address, or below MMAP_END, is refused with -1 and changes
-- nothing.
pub uvm_ustack_grow-refused :
    (m : Machine) (fault_va : ℕ)
    → (ustack_top m.proc.ustack_npage ≤ fault_va) ⊎ (fault_va < mmap_end)
    → uvm_ustack_grow fault_va m ≡ ok (minus_one, m)
unfolding uvm_ustack_grow
uvm_ustack_grow-refused m fault_va (inl h) = rw (le→leb (ustack_top m.proc.ustack_npage) fault_va h)
uvm_ustack_grow-refused m fault_va (inr h) = ground arith
