-- ===== src/Memory.antt =====
-- Physical memory as bytes, and the routines of lib/utils.c over it.
pub mod Words
pub mod Blocks
pub mod Strings
use biglab.Base.{
  ℕ, zero, suc, ◌+◌, ◌-◌, ◌*◌, ◌/◌, ◌%◌, ◌^◌, Bool, true, false, not, ◌&&◌, ◌==◌, ltb,
  if◌then◌else◌, update,
}

abbrev pub Mem : Type 0
Mem = ℕ → ℕ

abbrev pub store8 : Mem → ℕ → ℕ → Mem
store8 mem a v = update mem a (v % 256)

-- A uint64 lies in memory with its lowest byte first.
abbrev pub byte : ℕ → ℕ → ℕ
byte v k = v / 256 ^ k % 256

unfoldable pub load64 : Mem → ℕ → ℕ
load64 mem a =
    mem a
    + 256 ^ 1 * mem (a + 1)
    + 256 ^ 2 * mem (a + 2)
    + 256 ^ 3 * mem (a + 3)
    + 256 ^ 4 * mem (a + 4)
    + 256 ^ 5 * mem (a + 5)
    + 256 ^ 6 * mem (a + 6)
    + 256 ^ 7 * mem (a + 7)

unfoldable pub store64 : Mem → ℕ → ℕ → Mem
store64 mem a v q = if ltb q a then mem q else if ltb q (a + 8) then byte v (q - a) else mem q

-- for (uint32 i = 0; i < n; i++) list[i] = data; with the rounds left
memset_from : ℕ → Mem → ℕ → ℕ → ℕ → Mem
memset_from zero mem begin v i = mem
memset_from (suc k) mem begin v i = memset_from k (store8 mem (begin + i) v) begin v (i + 1)

unfoldable pub memset : Mem → ℕ → ℕ → ℕ → Mem
unfolding memset_from
memset mem begin v n = memset_from n mem begin v 0

-- while (n--) { *d = *s; d++; s++; }
unfoldable pub memmove : Mem → ℕ → ℕ → ℕ → Mem
memmove mem d s zero = mem
memmove mem d s (suc n) = memmove (store8 mem d (mem s)) (d + 1) (s + 1) n

-- The loop of `strncmp`: where `p`, `q` and `n` stand when it ends.
strncmp_loop : Mem → ℕ → ℕ → ℕ → ℕ × ℕ × ℕ
strncmp_loop mem p q zero = (p, q, 0)
strncmp_loop mem p q (suc n) =
    let rest = strncmp_loop mem (p + 1) (q + 1) n in
    if not (mem p == 0) && (mem p == mem q) then rest else (p, q, suc n)

-- The two bytes whose difference is returned, or two equal ones for the result 0.
unfoldable pub strncmp : Mem → ℕ → ℕ → ℕ → ℕ × ℕ
unfolding strncmp_loop
strncmp mem p q n =
    let (p', q', n') = strncmp_loop mem p q n in if n' == 0 then (0, 0) else (mem p', mem q')
