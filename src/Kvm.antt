-- ===== src/Kvm.antt =====
-- mem/kvm.c: the three-level page tables of Sv39.
pub mod Entry
pub mod Walk
pub mod Apart
pub mod Build
pub mod OnePage
pub mod Map
pub mod Unmap
pub mod UnmapRange
pub mod UnmapNone
pub mod Backed
pub mod AddPage
pub mod Filled
use biglab.Base.{
  ℕ, zero, suc, ◌+◌, ◌*◌, ◌/◌, ◌%◌, ◌^◌, Bool, true, false, not, ◌&&◌, ◌||◌, Option, none, some,
  bit_or, ◌==◌, ltb, leb, if◌then◌else◌, on_some,
}
use biglab.Base.Word.{u64, add64, pgsize, va_max, trampoline_va}
use biglab.Base.Outcome.{Outcome, ok, out_of_fuel, panic, and_then}
use biglab.Memory.{load64, store64}
use biglab.Machine.{Machine, Cmd, pure, fail, ◌>>=◌, ◌>>◌, assert, read64, write64}
use biglab.Pmem.{pmem_alloc, pmem_free}

-- `VA_TO_VPN`: nine bits from bit 12 + 9 * level on.
abbrev pub va_to_vpn : ℕ → ℕ → ℕ
va_to_vpn va level = va / 2 ^ (12 + 9 * level) % 512

abbrev pub pa_to_pte : ℕ → ℕ
pa_to_pte pa = u64 (pa / 4096 * 1024)

abbrev pub pte_to_pa : ℕ → ℕ
pte_to_pa pte = u64 (pte / 1024 * 4096)

-- `pte & PTE_V`, `pte & PTE_W`, `pte & PTE_U`: bits 0, 2 and 4.
abbrev pub is_v : ℕ → Bool
is_v pte = pte % 2 == 1

abbrev pub is_w : ℕ → Bool
is_w pte = pte / 4 % 2 == 1

abbrev pub is_u : ℕ → Bool
is_u pte = pte / 16 % 2 == 1

-- `PTE_CHECK`: none of the bits R, W and X, so the entry points to a table.
abbrev pub pte_check : ℕ → Bool
pte_check pte = pte / 2 % 8 == 0

-- PTE_R, PTE_W, PTE_X and PTE_U
abbrev pub pte_r : ℕ
pte_r = 2

abbrev pub pte_w : ℕ
pte_w = 4

abbrev pub pte_x : ℕ
pte_x = 8

abbrev pub pte_u : ℕ
pte_u = 16

-- `PA_TO_PTE(pa) | perm | PTE_V`
unfoldable pub make_pte : ℕ → ℕ → ℕ
make_pte pa perm = bit_or (bit_or (pa_to_pte pa) perm) 1

-- The step of `vm_getpte` at a level above 0: the table of the next level, or `none` for NULL.
unfoldable pub descend : ℕ → Bool → Cmd (Option ℕ)
descend pte_addr alloc = do
  pte ← read64 pte_addr
  let next = λ (e : ℕ). if pte_check e then some (pte_to_pa e) else none
  if is_v pte then pure (next pte) else if not alloc then pure none else do
    new_pgtbl ← pmem_alloc true
    if new_pgtbl == 0 then pure none else do
      write64 pte_addr (bit_or (pa_to_pte new_pgtbl) 1)
      pte' ← read64 pte_addr
      pure (next pte')

-- The loop of `vm_getpte`, from `level` down to 0; the result is the address of the entry.
unfoldable pub walk_from : ℕ → ℕ → ℕ → Bool → Cmd (Option ℕ)
unfolding descend
walk_from zero pgtbl va alloc = pure (some (pgtbl + 8 * va_to_vpn va 0))
walk_from (suc level) pgtbl va alloc = do
  t ← descend (pgtbl + 8 * va_to_vpn va (suc level)) alloc
  on_some t (pure none) (λ table. walk_from level table va alloc)

unfoldable pub vm_getpte : ℕ → ℕ → Bool → Cmd (Option ℕ)
unfolding walk_from
vm_getpte pgtbl va alloc = if leb va_max va then pure none else walk_from 2 pgtbl va alloc

-- `((len + PGSIZE - 1) / PGSIZE) * PGSIZE`
abbrev pub whole_pages : ℕ → ℕ
whole_pages len = u64 (add64 len 4095 / 4096 * 4096)

unfoldable pub map_page : ℕ → ℕ → ℕ → ℕ → Cmd (Unit {0})
map_page pgtbl va pa perm = do
  pte ← vm_getpte pgtbl va true
  on_some pte fail (λ a. write64 a (make_pte pa perm))

-- The loop of `vm_mappages`; the caller gives more rounds than there are pages.
unfoldable pub map_loop : ℕ → ℕ → ℕ → ℕ → ℕ → ℕ → Cmd (Unit {0})
map_loop zero pgtbl end_va va pa perm m = out_of_fuel
map_loop (suc k) pgtbl end_va va pa perm m =
    let rest = map_loop k pgtbl end_va (add64 va pgsize) (add64 pa pgsize) perm in
    (if ltb va end_va then map_page pgtbl va pa perm >> rest else pure tt) m

unfoldable pub vm_mappages : ℕ → ℕ → ℕ → ℕ → ℕ → Cmd (Unit {0})
unfolding map_loop map_page
vm_mappages pgtbl va pa len perm = do
  assert (va % pgsize == 0)
  assert (pa % pgsize == 0)
  assert (ltb 0 len)
  assert (leb (add64 va len) va_max)
  map_loop (len / pgsize + 2) pgtbl (add64 va (whole_pages len)) va pa perm

-- One round of `vm_unmappages`.
unfoldable pub unmap_page : ℕ → ℕ → Bool → Cmd (Unit {0})
unmap_page pgtbl va freeit = do
  pte ← vm_getpte pgtbl va false
  on_some pte (pure tt) λ a. do
    e ← read64 a
    if not (is_v e)
        then pure tt
        else do if freeit then pmem_free (pte_to_pa e) false else pure tt; write64 a 0

unfoldable pub unmap_loop : ℕ → ℕ → ℕ → ℕ → Bool → Cmd (Unit {0})
unmap_loop zero pgtbl end_va va freeit m = out_of_fuel
unmap_loop (suc k) pgtbl end_va va freeit m =
    let rest = unmap_loop k pgtbl end_va (add64 va pgsize) freeit in
    (if ltb va end_va then unmap_page pgtbl va freeit >> rest else pure tt) m

unfoldable pub vm_unmappages : ℕ → ℕ → ℕ → Bool → Cmd (Unit {0})
unfolding unmap_loop unmap_page
vm_unmappages pgtbl va len freeit = do
  assert (va % pgsize == 0)
  assert (ltb 0 len)
  assert (leb (add64 va len) va_max)
  unmap_loop (len / pgsize + 2) pgtbl (add64 va (whole_pages len)) va freeit

-- `kvm_map_trampoline`, where `trampoline` is the address of that symbol.
unfoldable pub kvm_map_trampoline : (trampoline : ℕ) → ℕ → Cmd (Unit {0})
kvm_map_trampoline trampoline pgtbl = vm_mappages pgtbl trampoline_va trampoline pgsize 10
