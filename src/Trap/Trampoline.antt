-- ===== src/Trap/Trampoline.antt =====
-- trap/trampoline.S: the way from a user program into the kernel and back.
use biglab.Base.{
  ℕ, zero, suc, ◌+◌, ◌*◌, ◌%◌, ◌^◌, Option, none, some, not, ◌&&◌, ◌==◌, on_some, if◌then◌else◌,
}
use biglab.Base.Outcome.{ok, and_then}
use biglab.Memory.{Mem, load64, store64}
use biglab.Machine.{Cmd}
use biglab.Base.Word.{pg_round_down}
use biglab.Kvm.{is_v, is_w, is_u, pte_to_pa}
use biglab.Kvm.Walk.{lookup}
use biglab.Syscall.{Buffers}
use biglab.Trap.{Symbols, Return, trap_user_handler}

-- The registers x1 to x31 by their number, and those that the trap uses.
pub record UserHart : Type 0 where
  pub x : ℕ → ℕ
  pub pc : ℕ
  pub sepc : ℕ
  pub sscratch : ℕ
  pub satp : ℕ

-- Register `i` lies at this offset of `trapframe_t`, from ra (x1) at 40 to t6 (x31) at 280.
abbrev pub x_offset : ℕ → ℕ
x_offset i = 32 + 8 * i

-- The registers 1 to `k`; the code stores a0 (x10) last, at an address of its own.
unfoldable pub save : ℕ → ℕ → (ℕ → ℕ) → Mem → Mem
save zero tf x mem = mem
save (suc k) tf x mem = store64 (save k tf x mem) (tf + x_offset (suc k)) (x (suc k))

-- The result has the register file once `user_return` has loaded the registers 1 to 31.
unfoldable pub restore : ℕ → Mem → (ℕ → ℕ) → ℕ → ℕ
restore tf mem x i = if i == 0 then x 0 else load64 mem (tf + x_offset i)

-- What `user_vector` hands to the handler: the registers sp, tp and satp, and where it jumps.
pub record Entry : Type 0 where
  pub sp : ℕ
  pub tp : ℕ
  pub satp : ℕ
  pub handler : ℕ

-- The physical address of a load or store of the trampoline, in supervisor mode: the page table that
-- `satp` names, walked as Sv39 lays it down, maps the page with R and W and not for the user. `none`
-- is a page fault.
unfoldable pub translate : Mem → ℕ → ℕ → Option ℕ
translate mem satp a = on_some (lookup mem (satp % 2 ^ 44 * 4096) (pg_round_down a)) none λ addr.
    let pte = load64 mem addr in
    if is_v pte && is_w pte && not (is_u pte) then some (pte_to_pa pte + a % 4096) else none

-- The trap frame lies in one page. Its address is translated by the program's page table up to the
-- write to satp.
unfoldable pub user_vector : UserHart → Mem → Option (Entry × UserHart × Mem)
unfolding translate
user_vector h mem = on_some (translate mem h.satp h.sscratch) none λ tf.
    let mem' = save 31 tf h.x mem in
    some (
      record {
        sp = load64 mem' (tf + 8);
        tp = load64 mem' (tf + 32);
        satp = load64 mem' tf;
        handler = load64 mem' (tf + 16);
      },
      record h { sscratch = h.x 10 },
      mem',
    )

-- `csrrw a0, sscratch, a0` leaves the address of the trap frame in sscratch; `sret` goes on at
-- sepc.
unfoldable pub user_return : Return → UserHart → Mem → Option UserHart
unfolding translate
user_return r h mem = on_some (translate mem r.satp r.tf) none λ tf.
    some (record {
      x = restore tf mem h.x;
      pc = h.sepc;
      sepc = h.sepc;
      sscratch = r.tf;
      satp = r.satp;
    })

-- An exception of the user program with the causes that `scause` and `stval` tell, up to the
-- next instruction that it executes; `none` is a page fault in the trampoline.
unfoldable pub user_trap : Symbols → Buffers → ℕ → ℕ → UserHart → Cmd (Option UserHart)
user_trap s bufs scause stval h m =
    on_some (user_vector h m.mem) (ok (none, m)) λ (entry, h', mem').
      and_then (trap_user_handler s bufs scause h.pc stval (record m { mem = mem' }))
        λ (r, m'). ok (user_return r (record h' { sepc = h.pc; satp = entry.satp }) m'.mem, m')
