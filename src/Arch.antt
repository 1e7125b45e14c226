-- ===== src/Arch.antt =====
-- arch/method.h: the registers of a hart that the kernel reads and writes, and lib/cpu.c.
pub mod Switch
use biglab.Base.{ℕ, ◌+◌, ◌-◌, ◌*◌, ◌/◌, ◌%◌, ◌^◌, Bool, not, ◌==◌, if◌then◌else◌}
use biglab.Machine.{Proc}

-- The registers that the functions name. Each is a place of its own here, also `sstatus`, which
-- the hardware keeps as a part of `mstatus`.
pub record Registers : Type 0 where
  pub mhartid : ℕ
  pub mstatus : ℕ
  pub mepc : ℕ
  pub sstatus : ℕ
  pub sip : ℕ
  pub sie : ℕ
  pub mie : ℕ
  pub sepc : ℕ
  pub medeleg : ℕ
  pub mideleg : ℕ
  pub stvec : ℕ
  pub mtvec : ℕ
  pub satp : ℕ
  pub sscratch : ℕ
  pub mscratch : ℕ
  pub scause : ℕ
  pub stval : ℕ
  pub mcounteren : ℕ
  pub time : ℕ
  pub sp : ℕ
  pub tp : ℕ
  pub ra : ℕ

unfoldable pub r_mhartid : Registers → ℕ
r_mhartid r = r.mhartid

unfoldable pub r_mstatus : Registers → ℕ
r_mstatus r = r.mstatus

unfoldable pub w_mstatus : ℕ → Registers → Registers
w_mstatus x r = record r { mstatus = x }

unfoldable pub w_mepc : ℕ → Registers → Registers
w_mepc x r = record r { mepc = x }

unfoldable pub r_sstatus : Registers → ℕ
r_sstatus r = r.sstatus

unfoldable pub w_sstatus : ℕ → Registers → Registers
w_sstatus x r = record r { sstatus = x }

unfoldable pub r_sip : Registers → ℕ
r_sip r = r.sip

unfoldable pub w_sip : ℕ → Registers → Registers
w_sip x r = record r { sip = x }

unfoldable pub r_sie : Registers → ℕ
r_sie r = r.sie

unfoldable pub w_sie : ℕ → Registers → Registers
w_sie x r = record r { sie = x }

unfoldable pub r_mie : Registers → ℕ
r_mie r = r.mie

unfoldable pub w_mie : ℕ → Registers → Registers
w_mie x r = record r { mie = x }

unfoldable pub w_sepc : ℕ → Registers → Registers
w_sepc x r = record r { sepc = x }

unfoldable pub r_sepc : Registers → ℕ
r_sepc r = r.sepc

unfoldable pub r_medeleg : Registers → ℕ
r_medeleg r = r.medeleg

unfoldable pub w_medeleg : ℕ → Registers → Registers
w_medeleg x r = record r { medeleg = x }

unfoldable pub r_mideleg : Registers → ℕ
r_mideleg r = r.mideleg

unfoldable pub w_mideleg : ℕ → Registers → Registers
w_mideleg x r = record r { mideleg = x }

unfoldable pub w_stvec : ℕ → Registers → Registers
w_stvec x r = record r { stvec = x }

unfoldable pub r_stvec : Registers → ℕ
r_stvec r = r.stvec

unfoldable pub w_mtvec : ℕ → Registers → Registers
w_mtvec x r = record r { mtvec = x }

unfoldable pub w_satp : ℕ → Registers → Registers
w_satp x r = record r { satp = x }

unfoldable pub r_satp : Registers → ℕ
r_satp r = r.satp

unfoldable pub w_sscratch : ℕ → Registers → Registers
w_sscratch x r = record r { sscratch = x }

unfoldable pub w_mscratch : ℕ → Registers → Registers
w_mscratch x r = record r { mscratch = x }

unfoldable pub r_scause : Registers → ℕ
r_scause r = r.scause

unfoldable pub r_stval : Registers → ℕ
r_stval r = r.stval

unfoldable pub w_mcounteren : ℕ → Registers → Registers
w_mcounteren x r = record r { mcounteren = x }

unfoldable pub r_mcounteren : Registers → ℕ
r_mcounteren r = r.mcounteren

unfoldable pub r_time : Registers → ℕ
r_time r = r.time

unfoldable pub r_sp : Registers → ℕ
r_sp r = r.sp

unfoldable pub r_tp : Registers → ℕ
r_tp r = r.tp

unfoldable pub w_tp : ℕ → Registers → Registers
w_tp x r = record r { tp = x }

unfoldable pub r_ra : Registers → ℕ
r_ra r = r.ra

-- `x | SSTATUS_SIE` and `x & ~SSTATUS_SIE`, for bit 1.
abbrev pub set_sie : ℕ → ℕ
set_sie x = if (x / 2 % 2) == 1 then x else x + 2

abbrev pub clear_sie : ℕ → ℕ
clear_sie x = x - x / 2 % 2 * 2

unfoldable pub intr_on : Registers → Registers
unfolding r_sstatus w_sstatus
intr_on r = w_sstatus (set_sie (r_sstatus r)) r

unfoldable pub intr_off : Registers → Registers
unfolding r_sstatus w_sstatus
intr_off r = w_sstatus (clear_sie (r_sstatus r)) r

unfoldable pub intr_get : Registers → Bool
unfolding r_sstatus
intr_get r = not ((r_sstatus r / 2 % 2) == 0)

-- `cpu_t` without the context, which only trap.S would use; `proc` is the process that runs.
pub record CpuStruct : Type 0 where
  pub noff : ℕ
  pub origin : Bool
  pub proc : Proc

-- The array `cpus`; its entries from NCPU on are not part of it.
abbrev pub Cpus : Type 0
Cpus = ℕ → CpuStruct

-- `&cpus[hartid]` as an index; `hartid` is an int, the low half of tp.
unfoldable pub mycpu : Registers → ℕ
unfolding r_tp
mycpu r = r_tp r % 2 ^ 32

unfoldable pub mycpuid : Registers → ℕ
unfolding r_tp
mycpuid r = r_tp r % 2 ^ 32

unfoldable pub myproc : Registers → Cpus → Proc
unfolding r_tp
myproc r cpus = (cpus (r_tp r % 2 ^ 32)).proc
