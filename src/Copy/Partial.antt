-- ===== src/Copy/Partial.antt =====
-- Lengths that are no whole number of pages.
use biglab.Base.{
  ℕ, zero, suc, ◌+◌, ◌*◌, ◌%◌, ◌^◌, ◌≤◌, ◌<◌, ◌≡◌, ◌≢◌, inl, inr, Bool, false, true, ◌&&◌, Option,
  none, some, arith, lt→ltb, Option-cases, if◌then◌else◌, on_some,
}
use native.Mathlib.Decide.{dec_lt}
use biglab.Base.Word.{add64, sub64, pgsize, minus_one, pg_round_down, va_max}
use biglab.Base.Outcome.{ok}
use biglab.Memory.{Mem, load64, memmove}
use biglab.Machine.{Machine}
use biglab.Kvm.{is_v, is_u, is_w, pte_to_pa}
use biglab.Kvm.Apart.{Path3-congr}
use biglab.Kvm.Walk.{entry_at, lookup, lookup-Path3, Path3, vm_getpte-lookup, vm_getpte-outside}
use biglab.Copy.{user_page, any_entry, uvm_copyin, uvm_copyout, copy_len, offset_of}

-- The page of a user address as memory alone determines it.
pub page_of : (ℕ → Bool) → ℕ → ℕ → Machine → Option ℕ
page_of allowed pgtbl a m = on_some (lookup m.mem pgtbl (pg_round_down a)) none λ addr.
    if is_v (load64 m.mem addr) && is_u (load64 m.mem addr) && allowed (load64 m.mem addr)
    then some (pte_to_pa (load64 m.mem addr))
    else none

-- Finding the page changes nothing.
pub user_page-pure :
    (allowed : ℕ → Bool) (pgtbl a : ℕ) (m : Machine)
    → user_page allowed pgtbl a m ≡ ok (page_of allowed pgtbl a m, m)
unfolding user_page page_of
user_page-pure allowed pgtbl a m =
    rw (vm_getpte-lookup m pgtbl (pg_round_down a))
      (elim (Option-cases (lookup m.mem pgtbl (pg_round_down a))) [
        | inl e ↦ rw e
        | inr (addr, e) ↦ rw e
      ])

-- The page of an address whose entries are those of `mem`, where they map it for the user.
pub page_of-mapped :
    (root a va t1 t0 : ℕ) (mem : Mem) (m : Machine)
    → pg_round_down a ≡ va
    → Path3 mem root va t1 t0
    → load64 m.mem (entry_at root va 2) ≡ load64 mem (entry_at root va 2)
    → load64 m.mem (entry_at t1 va 1) ≡ load64 mem (entry_at t1 va 1)
    → load64 m.mem (entry_at t0 va 0) ≡ load64 mem (entry_at t0 va 0)
    → is_v (load64 mem (entry_at t0 va 0)) ≡ true
    → is_u (load64 mem (entry_at t0 va 0)) ≡ true
    → page_of any_entry root a m ≡ some (pte_to_pa (load64 mem (entry_at t0 va 0)))
unfolding page_of
page_of-mapped root a va t1 t0 mem m down p first second word valid user = rw (
  down,
  lookup-Path3 m.mem root va t1 t0 (Path3-congr mem m.mem root va t1 t0 first second p),
  word,
  valid,
  user,
)

-- There is none where the entry is not valid.
pub page_of-invalid :
    (root a va t1 t0 : ℕ) (m : Machine)
    → pg_round_down a ≡ va
    → Path3 m.mem root va t1 t0
    → is_v (load64 m.mem (entry_at t0 va 0)) ≡ false
    → page_of any_entry root a m ≡ none
unfolding page_of
page_of-invalid root a va t1 t0 m down p empty =
    rw (down, lookup-Path3 m.mem root va t1 t0 p, empty)

user_page-outside :
    (allowed : ℕ → Bool) (pgtbl a : ℕ) (m : Machine)
    → va_max ≤ a
    → user_page allowed pgtbl a m ≡ ok (none, m)
unfolding user_page
user_page-outside allowed pgtbl a m h =
    rw (vm_getpte-outside m pgtbl (pg_round_down a) false (omega arith))

-- For a length above 0 and below PGSIZE, bytes that lie in one page of the user that is mapped,
-- with the next page of the user not mapped: `uvm_copyin` copies all the bytes asked for and
-- then returns -1, since the subtraction of PGSIZE wraps and a second round looks for the next
-- page.
pub uvm_copyin-partial :
    (k pgtbl dst src n pa : ℕ) (m : Machine)
    → 0 < n
    → src % 4096 + n ≤ 4096
    → n < 4096
    → src + 4096 < 2 ^ 64
    → page_of any_entry pgtbl src m ≡ some pa
    → page_of any_entry pgtbl
        (src + 4096)
        (record m { mem = memmove m.mem dst (pa + src % 4096) n })
      ≡ none
    → uvm_copyin (suc (suc k)) pgtbl dst src n m
      ≡ ok (minus_one, record m { mem = memmove m.mem dst (pa + src % 4096) n })
unfolding uvm_copyin
uvm_copyin-partial k pgtbl dst src n pa m pos inside small below first second =
    let m' = record m { mem = memmove m.mem dst (pa + src % 4096) n } in
    let next : add64 src pgsize ≡ src + 4096 = omega arith in
    let length_is : copy_len src n ≡ n = ground arith in
    let left : 0 < sub64 n pgsize = omega arith in
    rw (
      lt→ltb 0 n pos,
      user_page-pure any_entry pgtbl src m,
      first,
      length_is,
      lt→ltb 0 (sub64 n pgsize) left,
      next,
      user_page-pure any_entry pgtbl (src + 4096) m',
      second,
    )

-- For a length below 2^64 that is no multiple of PGSIZE, an address up to the page behind VA_MAX
-- and fuel for the pages up to there: `uvm_copyout` ends with -1, since the last subtraction of
-- PGSIZE wraps and the length never comes down to 0.
pub uvm_copyout-partial :
    (k pgtbl dst src n : ℕ) (m : Machine)
    → n < 2 ^ 64
    → n % 4096 ≢ 0
    → dst < va_max + 4096
    → va_max + 4096 < dst + k * 4096
    → (m' : Machine) × (uvm_copyout k pgtbl dst src n m ≡ ok (minus_one, m'))
unfolding uvm_copyout
uvm_copyout-partial zero pgtbl dst src n m small odd low fuel = absurd (omega arith)
uvm_copyout-partial (suc k) pgtbl dst src n m small odd low fuel = elim (dec_lt dst va_max) [
  | no out ↦ (m, rw (lt→ltb 0 n (omega arith), user_page-outside is_w pgtbl dst m (omega arith)))
  | yes lt ↦ elim (Option-cases (page_of is_w pgtbl dst m)) [
    | inl e ↦ (m, rw (lt→ltb 0 n (omega arith), user_page-pure is_w pgtbl dst m, e))
    | inr (pa, e) ↦
        let (m', runs) =
          uvm_copyout-partial k pgtbl (add64 dst pgsize) (src + pgsize) (sub64 n pgsize)
            (record m { mem = memmove m.mem (pa + offset_of dst) src (copy_len dst n) })
            (omega arith) (omega arith) (omega arith) (omega arith) in
        (m', rw (lt→ltb 0 n (omega arith), user_page-pure is_w pgtbl dst m, e) runs)
  ]
]
