-- ===== src/Listing.antt =====
-- What `vm_print` (mem/kvm.c) and `uvm_show_mmaplist` (mem/uvm.c) print, line by line.
use biglab.Base.{
  ℕ, zero, suc, ◌+◌, ◌*◌, ◌%◌, ◌<◌, ◌≡◌, refl, arith, length, ne→==, List, [], ◌∷◌, ◌++◌, ◌==◌,
  if◌then◌else◌, ◌⊎◌, inl, inr, Bool, true, false,
}
use biglab.Base.Word.{u32}
use biglab.Base.Outcome.{Outcome, ok, panic, spin, out_of_fuel, and_then}
use biglab.Memory.{Mem, load64}
use biglab.Machine.{Node, Machine, Cmd, pure, ◌>>◌}
use biglab.Pool.Nodes.{Chain, nexts}
use biglab.Kvm.{is_v, pte_check, pte_to_pa}

-- The four kinds of line, with the numbers that they show.
pub data Line : Type 0 where
  level2 : (pa : ℕ) → Line
  level1 : (i : ℕ) (pa : ℕ) → Line
  level0 : (j : ℕ) (pa : ℕ) → Line
  page : (k : ℕ) (pa : ℕ) (flags : ℕ) → Line

-- A loop over the entries of the table `t` from `i` on, with the lines for one valid entry.
unfoldable pub each_entry : (ℕ → ℕ → Outcome (List Line)) → Mem → ℕ → ℕ → ℕ → Outcome (List Line)
each_entry lines mem zero t i = ok []
each_entry lines mem (suc k) t i =
    let pte = load64 mem (t + 8 * i) in
    and_then (if is_v pte then lines i pte else ok [])
      λ here. and_then (each_entry lines mem k t (i + 1)) λ rest. ok (here ++ rest)

-- The lines for a valid entry of each level, with the assertion about it.
unfoldable pub print_page : ℕ → ℕ → Outcome (List Line)
print_page k pte = if pte_check pte then panic else ok (page k (pte_to_pa pte) (pte % 1024) ∷ [])

unfoldable pub print_level0 : Mem → ℕ → ℕ → Outcome (List Line)
unfolding each_entry print_page
print_level0 mem j pte =
    if pte_check pte
    then and_then (each_entry print_page mem 512 (pte_to_pa pte) 0)
        (λ rest. ok (level0 j (pte_to_pa pte) ∷ rest))
    else panic

unfoldable pub print_level1 : Mem → ℕ → ℕ → Outcome (List Line)
unfolding each_entry print_level0
print_level1 mem i pte =
    if pte_check pte
    then and_then (each_entry (print_level0 mem) mem 512 (pte_to_pa pte) 0)
        (λ rest. ok (level1 i (pte_to_pa pte) ∷ rest))
    else panic

unfoldable pub vm_print : Mem → ℕ → Outcome (List Line)
unfolding each_entry print_level1
vm_print mem pgtbl =
    and_then (each_entry (print_level1 mem) mem 512 pgtbl 0) λ rest. ok (level2 pgtbl ∷ rest)

-- The pairs `[0x%x, %d pages]`: `%x` takes the low half of the address.
unfoldable pub uvm_show_mmaplist : ℕ → (ℕ → Node) → ℕ → Outcome (List (ℕ × ℕ))
uvm_show_mmaplist zero node cur = out_of_fuel
uvm_show_mmaplist (suc k) node cur =
    let rest =
      and_then (uvm_show_mmaplist k node (node cur).next)
        λ xs. ok ((u32 (node cur).begin, (node cur).npages) ∷ xs) in
    if cur == 0 then ok [] else rest

-- The listing that `uvm_mmap` and `uvm_munmap` end with: its lines are not kept, but its assertions
-- may fail.
unfoldable pub list_state : Cmd (Unit {0})
list_state m =
    and_then (uvm_show_mmaplist 300 m.pool.node m.proc.mmap)
      λ regions. and_then (vm_print m.mem m.proc.pgtbl) λ lines. ok (tt, m)

-- What is left of a call that ends with the listing and the result `r`.
abbrev pub listed : ℕ → Machine → Outcome (ℕ × Machine)
listed r m = and_then (vm_print m.mem m.proc.pgtbl) λ lines. ok (r, m)

uvm_show_mmaplist-Chain :
    (k : ℕ) (node : ℕ → Node) (cur : ℕ) (xs : List ℕ)
    → Chain (nexts node) cur xs
    → length xs < k
    → (ls : List (ℕ × ℕ)) × (uvm_show_mmaplist k node cur ≡ ok ls)
unfolding uvm_show_mmaplist
uvm_show_mmaplist-Chain zero node cur xs c lt = absurd (omega arith)
uvm_show_mmaplist-Chain (suc k) node cur [] c lt = ([], rw c refl)
uvm_show_mmaplist-Chain (suc k) node cur (x ∷ xs) (e, nz, c) lt =
    let (ls, runs) = uvm_show_mmaplist-Chain k node (node x).next xs c (omega arith) in
    ((u32 (node x).begin, (node x).npages) ∷ ls, rw (e, ne→== x 0 nz, runs) refl)

-- Once the list of regions has been printed, the outcome is that of the page table.
shown_first :
    (shown : Outcome (List (ℕ × ℕ))) (lines : Outcome (List Line)) (r : ℕ) (m : Machine)
    (ls : List (ℕ × ℕ))
    → shown ≡ ok ls
    → and_then {A = Unit {0} × Machine} {B = ℕ × Machine}
        (and_then shown (λ a. and_then lines (λ b. ok (tt, m))))
        (λ (u, m'). ok (r, m'))
      ≡ and_then lines (λ b. ok (r, m))
shown_first shown (ok b) r m ls e = rw e refl
shown_first shown panic r m ls e = rw e refl
shown_first shown spin r m ls e = rw e refl
shown_first shown out_of_fuel r m ls e = rw e refl

pub list_state-listed :
    (r : ℕ) (m : Machine) (xs : List ℕ)
    → Chain (nexts m.pool.node) m.proc.mmap xs
    → length xs < 300
    → (do list_state; pure r) m ≡ listed r m
unfolding list_state
list_state-listed r m xs c lt =
    let (ls, runs) = uvm_show_mmaplist-Chain 300 m.pool.node m.proc.mmap xs c lt in
    shown_first (uvm_show_mmaplist 300 m.pool.node m.proc.mmap) (vm_print m.mem m.proc.pgtbl) r m ls
      runs

-- A listing ends: with its lines, or with an assertion that fails.
abbrev Decided : {A : Type 0} → Outcome A → Type 0
Decided {A} o = ((a : A) × (o ≡ ok a)) ⊎ (o ≡ panic)

and_then-Decided :
    {A B : Type 0} (o : Outcome A) (f : A → Outcome B)
    → Decided o
    → ((a : A) → Decided (f a))
    → Decided (and_then o f)
and_then-Decided o f (inl (a, e)) d = rw e (d a)
and_then-Decided o f (inr e) d = rw e (inr refl)

if-Decided :
    {A : Type 0} (b : Bool) (o p : Outcome A) → Decided o → Decided p → Decided (if b then o else p)
if-Decided true o p d e = d
if-Decided false o p d e = e

each_entry-Decided :
    (lines : ℕ → ℕ → Outcome (List Line)) (mem : Mem) (k t i : ℕ)
    → ((j pte : ℕ) → Decided (lines j pte))
    → Decided (each_entry lines mem k t i)
unfolding each_entry
each_entry-Decided lines mem zero t i d = inl ([], refl)
each_entry-Decided lines mem (suc k) t i d =
    let pte = load64 mem (t + 8 * i) in
    and_then-Decided (if is_v pte then lines i pte else ok []) _
      (if-Decided (is_v pte) (lines i pte) (ok []) (d i pte) (inl ([], refl)))
      λ here.
        and_then-Decided (each_entry lines mem k t (i + 1)) _
          (each_entry-Decided lines mem k t (i + 1) d) λ rest. inl (here ++ rest, refl)

print_page-Decided : (k pte : ℕ) → Decided (print_page k pte)
unfolding print_page
print_page-Decided k pte = if-Decided (pte_check pte) panic _ (inr refl) (inl (_, refl))

print_level0-Decided : (mem : Mem) (j pte : ℕ) → Decided (print_level0 mem j pte)
unfolding print_level0
print_level0-Decided mem j pte =
    if-Decided (pte_check pte) _ panic
      (and_then-Decided (each_entry print_page mem 512 (pte_to_pa pte) 0) _
        (each_entry-Decided print_page mem 512 (pte_to_pa pte) 0 print_page-Decided)
        λ rest. inl (_, refl))
      (inr refl)

print_level1-Decided : (mem : Mem) (i pte : ℕ) → Decided (print_level1 mem i pte)
unfolding print_level1
print_level1-Decided mem i pte =
    if-Decided (pte_check pte) _ panic
      (and_then-Decided (each_entry (print_level0 mem) mem 512 (pte_to_pa pte) 0) _
        (each_entry-Decided (print_level0 mem) mem 512 (pte_to_pa pte) 0 (print_level0-Decided mem))
        λ rest. inl (_, refl))
      (inr refl)

vm_print-Decided : (mem : Mem) (pgtbl : ℕ) → Decided (vm_print mem pgtbl)
unfolding vm_print
vm_print-Decided mem pgtbl =
    and_then-Decided (each_entry (print_level1 mem) mem 512 pgtbl 0) _
      (each_entry-Decided (print_level1 mem) mem 512 pgtbl 0 (print_level1-Decided mem))
      λ rest. inl (_, refl)

-- The listing at the end of a call passes, and the call returns `r`, or it fails with a panic.
pub Ends : ℕ → Machine → Type 0
Ends r m =
    ((lines : List Line) × (vm_print m.mem m.proc.pgtbl ≡ ok lines) × (listed r m ≡ ok (r, m)))
    ⊎ ((vm_print m.mem m.proc.pgtbl ≡ panic) × (listed r m ≡ panic))

pub listed-Ends : (r : ℕ) (m : Machine) → Ends r m
unfolding Ends
listed-Ends r m = elim (vm_print-Decided m.mem m.proc.pgtbl) [
  | inl (lines, e) ↦ inl (lines, e, and_then-ok (vm_print m.mem m.proc.pgtbl) lines e)
  | inr e ↦ inr (e, and_then-panic (vm_print m.mem m.proc.pgtbl) e)
]
  where
    and_then-ok :
        (o : Outcome (List Line)) (lines : List Line)
        → o ≡ ok lines
        → and_then {B = ℕ × Machine} o (λ a. ok (r, m)) ≡ ok (r, m)
    and_then-ok o lines e = rw e refl

    and_then-panic :
        (o : Outcome (List Line))
        → o ≡ panic
        → and_then {B = ℕ × Machine} o (λ a. ok (r, m)) ≡ panic
    and_then-panic o e = rw e refl
