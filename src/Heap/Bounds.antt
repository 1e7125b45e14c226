-- ===== src/Heap/Bounds.antt =====
-- The branches of the heap calls that map or unmap no page.
use biglab.Base.{ℕ, ◌-◌, ◌^◌, ◌≤◌, ◌<◌, ◌≡◌, arith, le→leb, lt→leb, lt→ltb, le→ltb}
use biglab.Base.Word.{pg_round_up, minus_one, mmap_begin}
use biglab.Base.Outcome.{ok}
use biglab.Machine.{Machine}
use biglab.Heap.{uvm_heap_grow, uvm_heap_ungrow}

abbrev pub with_top : Machine → ℕ → Machine
with_top m top = record m { proc = record m.proc { heap_top = top } }

-- Growth within the last page of the heap moves only the top of the heap, and growth whose last
-- page ends above MMAP_BEGIN is refused with -1 and changes nothing.
pub uvm_heap_grow-no_page :
    (m : Machine) (new_top : ℕ)
    → (pg_round_up new_top ≤ pg_round_up m.proc.heap_top
        → uvm_heap_grow new_top m ≡ ok (0, with_top m new_top))
      × (pg_round_up m.proc.heap_top < pg_round_up new_top
          → mmap_begin < pg_round_up new_top
          → uvm_heap_grow new_top m ≡ ok (minus_one, m))
unfolding uvm_heap_grow
uvm_heap_grow-no_page m new_top = (
  λ h. rw (le→leb (pg_round_up new_top) (pg_round_up m.proc.heap_top) h),
  λ h above. rw (
    lt→leb (pg_round_up new_top) (pg_round_up m.proc.heap_top) h,
    lt→ltb mmap_begin (pg_round_up new_top) above,
  ),
)

wraps_to_zero : (a : ℕ) → 2 ^ 64 - 4096 < a → a < 2 ^ 64 → pg_round_up a ≡ 0
wraps_to_zero a lo hi = omega arith

zero_below : (a b : ℕ) → a ≡ 0 → a ≤ b
zero_below a b e = omega arith

-- For a top in the last page of the 64-bit address space PGROUNDUP wraps to 0: the call succeeds
-- and sets the top of the heap there, with no page mapped.
pub uvm_heap_grow-wraps :
    (m : Machine) (new_top : ℕ)
    → 2 ^ 64 - 4096 < new_top
    → new_top < 2 ^ 64
    → uvm_heap_grow new_top m ≡ ok (0, with_top m new_top)
uvm_heap_grow-wraps m new_top lo hi =
    (uvm_heap_grow-no_page m new_top).0
      (zero_below (pg_round_up new_top) (pg_round_up m.proc.heap_top) (wraps_to_zero new_top lo hi))

-- Shrinking within a page moves only the top of the heap, down to any address of the page.
pub uvm_heap_ungrow-no_page :
    (m : Machine) (new_top : ℕ)
    → pg_round_up m.proc.heap_top ≤ pg_round_up new_top
    → uvm_heap_ungrow new_top m ≡ ok (0, with_top m new_top)
unfolding uvm_heap_ungrow
uvm_heap_ungrow-no_page m new_top h =
    rw (le→ltb (pg_round_up new_top) (pg_round_up m.proc.heap_top) h)
