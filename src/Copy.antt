-- ===== src/Copy.antt =====
-- `uvm_copyin`, `uvm_copyout` and `uvm_copyin_str` of mem/uvm.c. A kernel pointer
-- stands for the physical address of the buffer, whose bytes lie behind each other in physical memory
-- (a buffer on the kernel stack is mapped elsewhere). Bytes outside the buffer have no such address:
-- a store to them may fault, which is not modelled, and memory here takes every store.
pub mod Partial
pub mod Pages
pub mod Strings
use biglab.Base.{
  ℕ, zero, suc, ◌+◌, ◌-◌, ◌*◌, ◌/◌, ◌%◌, ◌^◌, Bool, true, false, not, ◌&&◌, ◌||◌, Option, none,
  some, ◌==◌, ltb, leb, if◌then◌else◌, on_some,
}
use biglab.Base.Word.{add64, sub64, pgsize, minus_one, pg_round_down}
use biglab.Base.Outcome.{out_of_fuel}
use biglab.Memory.{Mem, memmove, store8}
use biglab.Machine.{Machine, Cmd, pure, ◌>>=◌, ◌>>◌, get, read64}
use biglab.Kvm.{vm_getpte, pte_to_pa, is_v, is_u, is_w}

abbrev copy : ℕ → ℕ → ℕ → Cmd (Unit {0})
copy d s n m = pure tt (record m { mem = memmove m.mem d s n })

-- `offset` and `copy_len` of both loops, at the user address `a` with `n` bytes to go.
abbrev pub offset_of : ℕ → ℕ
offset_of a = a % pgsize

abbrev pub copy_len : ℕ → ℕ → ℕ
copy_len a n = if ltb n (pgsize - offset_of a) then n else pgsize - offset_of a

-- The physical page of a user address whose entry passes the test, or `none` for `return -1`.
unfoldable pub user_page : (ℕ → Bool) → ℕ → ℕ → Cmd (Option ℕ)
user_page allowed pgtbl a = do
  pte ← vm_getpte pgtbl (pg_round_down a) false
  on_some pte (pure none) λ addr. do
    e ← read64 addr
    pure (if is_v e && is_u e && allowed e then some (pte_to_pa e) else none)

abbrev pub any_entry : ℕ → Bool
any_entry e = true

-- The loop of `uvm_copyin`; like the other two it takes the number of rounds to run.
unfoldable pub uvm_copyin : ℕ → ℕ → ℕ → ℕ → ℕ → Cmd ℕ
uvm_copyin zero pgtbl dst src n m = out_of_fuel
uvm_copyin (suc k) pgtbl dst src n m =
    let rest = uvm_copyin k pgtbl (dst + pgsize) (add64 src pgsize) (sub64 n pgsize) in
    let round : Cmd ℕ = do
      page ← user_page any_entry pgtbl src
      on_some page (pure minus_one) λ pa. do copy dst (pa + offset_of src) (copy_len src n); rest
    in (if ltb 0 n then round else pure 0) m

unfoldable pub uvm_copyout : ℕ → ℕ → ℕ → ℕ → ℕ → Cmd ℕ
uvm_copyout zero pgtbl dst src n m = out_of_fuel
uvm_copyout (suc k) pgtbl dst src n m =
    let rest = uvm_copyout k pgtbl (add64 dst pgsize) (src + pgsize) (sub64 n pgsize) in
    let round : Cmd ℕ = do
      page ← user_page is_w pgtbl dst
      on_some page (pure minus_one) λ pa. do copy (pa + offset_of dst) src (copy_len dst n); rest
    in (if ltb 0 n then round else pure 0) m

-- The loop of `uvm_copyin_str` from `count` on, with the rounds left up to `max_len`; each round
-- copies one byte, and the loop stops behind a zero byte.
unfoldable pub copyin_str_from : ℕ → ℕ → ℕ → ℕ → ℕ → Cmd ℕ
copyin_str_from zero pgtbl dst src count = pure minus_one
copyin_str_from (suc k) pgtbl dst src count =
    let rest = copyin_str_from k pgtbl (dst + 1) (add64 src 1) (count + 1) in
    do
      page ← user_page any_entry pgtbl src
      on_some page (pure minus_one) λ pa. do
        copy dst (pa + offset_of src) 1
        m ← get
        if m.mem dst == 0 then pure (count + 1) else rest

unfoldable pub uvm_copyin_str : ℕ → ℕ → ℕ → ℕ → Cmd ℕ
uvm_copyin_str pgtbl dst src max_len = copyin_str_from max_len pgtbl dst src 0
