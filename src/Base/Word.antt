-- ===== src/Base/Word.antt =====
-- Machine words (`arch/type.h`) as native numbers with their wrap-around, and the page arithmetic
-- of `mem/type.h`.
use Prim.Native.Nat.{ℕ, ◌+◌, ◌-◌, ◌*◌, ◌/◌, ◌%◌, ◌^◌}

-- uint32 and uint64 arithmetic.
abbrev pub u32 : ℕ → ℕ
u32 n = n % 2 ^ 32

abbrev pub u64 : ℕ → ℕ
u64 n = n % 2 ^ 64

abbrev pub add64 : ℕ → ℕ → ℕ
add64 a b = (a + b) % 2 ^ 64

abbrev pub sub64 : ℕ → ℕ → ℕ
sub64 a b = (a + 2 ^ 64 - b) % 2 ^ 64

abbrev pub mul64 : ℕ → ℕ → ℕ
mul64 a b = a * b % 2 ^ 64

-- `(uint64)-1`, the result with which the calls report an error.
abbrev pub minus_one : ℕ
minus_one = 2 ^ 64 - 1

abbrev pub pgsize : ℕ
pgsize = 4096

-- `x & ~(PGSIZE-1)` clears the low twelve bits.
abbrev pub pg_round_down : ℕ → ℕ
pg_round_down a = a / 4096 * 4096

abbrev pub pg_round_up : ℕ → ℕ
pg_round_up a = pg_round_down (add64 a 4095)

abbrev pub va_max : ℕ
va_max = 2 ^ 38

abbrev pub trampoline_va : ℕ
trampoline_va = va_max - pgsize

abbrev pub trapframe_va : ℕ
trapframe_va = trampoline_va - pgsize

abbrev pub kstack : ℕ → ℕ
kstack procid = trapframe_va - (procid + 1) * 2 * pgsize

abbrev pub user_base : ℕ
user_base = pgsize

abbrev pub uheap_start : ℕ
uheap_start = user_base + pgsize

abbrev pub mmap_end : ℕ
mmap_end = trapframe_va - 16 * 256 * pgsize

abbrev pub mmap_begin : ℕ
mmap_begin = mmap_end - 64 * 256 * pgsize
