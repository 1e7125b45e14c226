-- ===== src/Devices.antt =====
-- The initialisation of the harts and their devices: boot/start.c, trap/plic.c, `timer_init`
-- (trap/timer.c), `uart_init` (lib/uart.c), `trap_kernel_init` and `trap_kernel_inithart`
-- (trap/trap_kernel.c), and `kvm_inithart` (mem/kvm.c).
pub mod Apart
use biglab.Base.{
  ℕ, ◌+◌, ◌-◌, ◌*◌, ◌/◌, ◌%◌, ◌^◌, Bool, true, false, ◌==◌, ltb, if◌then◌else◌, update,
}
use biglab.Base.Word.{add64, u32}
use biglab.Trap.{make_satp}
use biglab.Interrupt.{Timer, timer_create, uart_irq}

-- Device registers by their address, of whatever width.
abbrev pub Mmio : Type 0
Mmio = ℕ → ℕ

-- The macros of trap/type.h and lib/type.h.
abbrev pub plic_base : ℕ
plic_base = 0x0c000000

abbrev pub plic_priority : ℕ → ℕ
plic_priority hart = plic_base + hart * 4

abbrev pub plic_senable : ℕ → ℕ
plic_senable hart = plic_base + 0x2080 + hart * 0x100

abbrev pub plic_spriority : ℕ → ℕ
plic_spriority hart = plic_base + 0x201000 + hart * 0x2000

abbrev pub plic_sclaim : ℕ → ℕ
plic_sclaim hart = plic_base + 0x201004 + hart * 0x2000

abbrev pub clint_base : ℕ
clint_base = 0x2000000

abbrev pub clint_mtimecmp : ℕ → ℕ
clint_mtimecmp hart = clint_base + 0x4000 + 8 * hart

abbrev pub clint_mtime : ℕ
clint_mtime = clint_base + 0xBFF8

abbrev pub interval : ℕ
interval = 1000000

abbrev pub uart_base : ℕ
uart_base = 0x10000000

unfoldable pub plic_init : Mmio → Mmio
plic_init io = update io (plic_priority uart_irq) 1

unfoldable pub plic_inithart : ℕ → Mmio → Mmio
plic_inithart hartid io =
    update (update io (plic_senable hartid) (2 ^ uart_irq)) (plic_spriority hartid) 0

-- The value of the register, as an int by its 32 bits.
unfoldable pub plic_claim : ℕ → Mmio → ℕ
plic_claim hartid io = io (plic_sclaim hartid)

unfoldable pub plic_complete : ℕ → ℕ → Mmio → Mmio
plic_complete hartid irq io = update io (plic_sclaim hartid) irq

-- Registers 0 to 3 are THR, IER, FCR and LCR.
unfoldable pub uart_init : Mmio → Mmio
uart_init io =
    let io1 = update io (uart_base + 1) 0 in
    let io2 = update io1 (uart_base + 3) 128 in
    let io3 = update (update io2 uart_base 3) (uart_base + 1) 0 in
    let io4 = update io3 (uart_base + 3) 3 in
    let io5 = update io4 (uart_base + 2) 7 in update io5 (uart_base + 1) 3

-- The registers of a hart that the initialisation writes; `scratch` is its row of `mscratch`.
pub record Hart : Type 0 where
  pub mhartid : ℕ
  pub tp : ℕ
  pub satp : ℕ
  pub medeleg : ℕ
  pub mideleg : ℕ
  pub mcounteren : ℕ
  pub mstatus : ℕ
  pub mie : ℕ
  pub mepc : ℕ
  pub mtvec : ℕ
  pub mscratch : ℕ
  pub scratch : ℕ → ℕ
  pub stvec : ℕ
  pub sie : ℕ
  pub intr : Bool

-- `x | 1 << k`
abbrev pub set_bit : ℕ → ℕ → ℕ
set_bit k x = if (x / 2 ^ k % 2) == 1 then x else x + 2 ^ k

-- The addresses of `timer_vector`, `mscratch` and `main`.
pub record Entries : Type 0 where
  pub timer_vector : ℕ
  pub mscratch_base : ℕ
  pub main : ℕ

-- An int made of a 64-bit word, as the word that it becomes again: the low half with its sign.
abbrev pub int_of : ℕ → ℕ
int_of x = if ltb (u32 x) (2 ^ 31) then u32 x else u32 x + (2 ^ 64 - 2 ^ 32)

unfoldable pub timer_init : Entries → Hart → Mmio → Hart × Mmio
timer_init s h io =
    let hartid = int_of h.tp in
    let compare = clint_mtimecmp hartid % 2 ^ 64 in
    (
      record h {
        scratch = update (update h.scratch 3 compare) 4 interval;
        mscratch = (s.mscratch_base + hartid * 40) % 2 ^ 64;
        mtvec = s.timer_vector;
        mstatus = set_bit 3 h.mstatus;
        mie = set_bit 7 h.mie;
      },
      update io compare (add64 (io clint_mtime) interval),
    )

-- `status &= ~MSTATUS_MPP_MASK; status |= MSTATUS_MPP_S`: bits 11 and 12 become 01.
abbrev pub set_mpp_s : ℕ → ℕ
set_mpp_s x = x - x / 2 ^ 11 % 4 * 2 ^ 11 + 2 ^ 11

-- The state in which `mret` is executed.
unfoldable pub start : Entries → Hart → Mmio → Hart × Mmio
unfolding timer_init
start s h io =
    let h1 = record h {
      satp = 0;
      tp = int_of h.mhartid;
      medeleg = 0xffff;
      mideleg = 2 + 32 + 512;
      mcounteren = 7;
    } in
    let (h2, io2) = timer_init s h1 io in
    (record h2 { mstatus = set_mpp_s h2.mstatus; mepc = s.main }, io2)

-- SIE_SEIE, SIE_STIE and SIE_SSIE are the bits 9, 5 and 1; `intr_on` comes last.
unfoldable pub trap_kernel_inithart : (kernel_vector : ℕ) → Hart → Mmio → Hart × Mmio
unfolding plic_inithart
trap_kernel_inithart kernel_vector h io = (
  record h { stvec = kernel_vector; sie = set_bit 1 (set_bit 5 (set_bit 9 h.sie)); intr = true },
  plic_inithart (int_of h.tp) io,
)

unfoldable pub trap_kernel_init : Mmio → Mmio × Timer
unfolding plic_init
trap_kernel_init io = (plic_init io, timer_create)

unfoldable pub kvm_inithart : (kernel_pgtbl : ℕ) → Hart → Hart
kvm_inithart kernel_pgtbl h = record h { satp = make_satp kernel_pgtbl }
