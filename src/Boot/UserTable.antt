-- ===== src/Boot/UserTable.antt =====
-- `proc_pgtbl_init` (proc/proc.c): the page table that a process starts with.
use biglab.Base.{
  ℕ, ◌+◌, ◌%◌, ◌^◌, ◌≤◌, ◌<◌, ◌≡◌, refl, ◌∙◌, ap, ◌≢◌, ◌⊎◌, true, List, ◌∷◌, some, arith, ne→==,
}
use biglab.Base.Word.{trampoline_va, trapframe_va}
use biglab.Base.Outcome.{ok}
use biglab.Memory.{store64}
use biglab.Memory.Words.{load64-store64_ne, store64_out}
use biglab.Memory.Blocks.{memset_in, memset_out}
use biglab.Machine.{Machine}
use biglab.Pmem.{pmem_alloc}
use biglab.Pmem.Pages.{IsRegion, FreePages, All-apart}
use biglab.Pmem.Alloc.{pmem_alloc-cons}
use biglab.Kvm.{is_v, make_pte, vm_getpte}
use biglab.Kvm.Walk.{entry_at, Path3, vm_getpte-found}
use biglab.Kvm.Apart.{Path3-congr}
use biglab.Kvm.Build.{Clear, vm_getpte-builds, zeros-entry, FreePages-write}
use biglab.Kvm.OnePage.{vm_mappages-one}
use biglab.Boot.{proc_pgtbl_init}
use biglab.Boot.UserEntries.{
  UserTable, cleared, Cleared-FreePages, written, to_frame_path, Built-UserTable,
}

proc_pgtbl_init-runs :
    (m m1 m3 : Machine) (root x y code frame : ℕ)
    → pmem_alloc true m ≡ ok (root, m1)
    → root ≢ 0
    → vm_getpte root trampoline_va true (cleared m1 root)
      ≡ ok (some (entry_at y trampoline_va 0), m3)
    → code % 4096 ≡ 0
    → frame % 4096 ≡ 0
    → Path3 (store64 m3.mem (entry_at y trampoline_va 0) (make_pte code 10)) root trapframe_va x y
    → proc_pgtbl_init code frame m ≡ ok (root, record m3 { mem = written m3.mem y code frame })
unfolding proc_pgtbl_init written
proc_pgtbl_init-runs m m1 m3 root x y code frame runs ne found al al' p =
    let m4 = record m3 { mem = store64 m3.mem (entry_at y trampoline_va 0) (make_pte code 10) } in
    rw (
      runs,
      ne→== root 0 ne,
      vm_mappages-one (cleared m1 root) m3 root trampoline_va code 10 (entry_at y trampoline_va 0)
          (omega arith) al (omega arith) found,
      vm_mappages-one m4 m4 root trapframe_va frame 6 (entry_at y trapframe_va 0) (omega arith) al'
          (omega arith) (vm_getpte-found m4 root trapframe_va x y true p),
    )

-- What `proc_pgtbl_init` leaves.
pub record HasTable (m : Machine) (root x y code frame : ℕ) (xs : List ℕ) (m' : Machine)
    : Type 0 where
  pub table : UserTable m'.mem root x y code frame
  pub free : FreePages m'.mem m'.kern xs
  pub region : IsRegion m'.kern
  pub begin : m'.kern.begin ≡ m.kern.begin
  pub end : m'.kern.end ≡ m.kern.end
  pub user : m'.user ≡ m.user
  pub proc : m'.proc ≡ m.proc
  pub same :
      (b : ℕ)
      → (b < root) ⊎ (root + 4096 ≤ b)
      → (b < x) ⊎ (x + 4096 ≤ b)
      → (b < y) ⊎ (y + 4096 ≤ b)
      → m'.mem b ≡ m.mem b

-- With at least three free kernel pages, `root`, `x` and `y` the first of them, the kernel
-- region in the address space and up to 2^56, and the trampoline and the trap frame on aligned
-- pages below 2^56: `proc_pgtbl_init` returns `root`, a table that maps the page of TRAMPOLINE
-- to the trampoline with R and X and that of TRAPFRAME to the trap frame with R and W, whose
-- other entries, and those of the two tables below it, are 0. The kernel pages behind these
-- three stay free, no byte outside the three changes, and the user region and the process are as
-- before.
pub proc_pgtbl_init-UserTable :
    (m : Machine) (root x y code frame : ℕ) (xs : List ℕ)
    → IsRegion m.kern
    → m.kern.end ≤ 2 ^ 56
    → FreePages m.mem m.kern (root ∷ x ∷ y ∷ xs)
    → code % 4096 ≡ 0
    → code < 2 ^ 56
    → frame % 4096 ≡ 0
    → frame < 2 ^ 56
    → (m' : Machine) × (proc_pgtbl_init code frame m ≡ ok (root, m'))
      × HasTable m root x y code frame xs m'
unfolding written
proc_pgtbl_init-UserTable m root x y code frame xs ir low f al lt al' lt' =
    let (ip, (ix, (iy, _))) = f.pages in
    let far = All-apart m.kern root (x ∷ y ∷ xs) ip (f.pages.1) f.distinct.0 in
    let two = All-apart m.kern x (y ∷ xs) ix f.pages.1.1 f.distinct.1.0 in
    let (m1, runs, a) = pmem_alloc-cons true m root (x ∷ y ∷ xs) ir f in
    let m2 = cleared m1 root in
    let zero : (i : ℕ) → i < 4096 → m2.mem (root + i) ≡ 0 =
      λ i h. memset_in m1.mem root 0 4096 (root + i) (omega arith) (omega arith) in
    let clear : Clear root (x ∷ y ∷ xs) = far in
    let (m3, found, b) =
      vm_getpte-builds m2 root trampoline_va x y xs (omega arith)
        (ap is_v (zeros-entry m2.mem root trampoline_va 2 zero) ∙ refl) a.kept
        (omega (arith, a.end)) (Cleared-FreePages m1 root (x ∷ y ∷ xs) clear a.free) clear in
    let m4 = record m3 { mem = store64 m3.mem (entry_at y trampoline_va 0) (make_pte code 10) } in
    let path =
      Path3-congr m3.mem m4.mem root trampoline_va x y
        (load64-store64_ne m3.mem (entry_at y trampoline_va 0) (entry_at root trampoline_va 2)
          (make_pte code 10) (omega arith))
        (load64-store64_ne m3.mem (entry_at y trampoline_va 0) (entry_at x trampoline_va 1)
          (make_pte code 10) (omega arith))
        b.path in
    let apart_y = All-apart m.kern y xs iy f.pages.1.1.1 f.distinct.1.1.0 in
    let table =
      Built-UserTable m2 m3 root x y code frame xs clear.0 clear.1.0 two.0 al lt al' lt' zero b in
    (
      record m3 { mem = written m3.mem y code frame },
      proc_pgtbl_init-runs m m1 m3 root x y code frame runs (let p = ip.above in omega arith) found
          al al' (to_frame_path _ root x y path),
      record {
        table = table;
        free =
            FreePages-write m4 y (entry_at y trapframe_va 0) (make_pte frame 6) xs (omega arith)
              (omega arith) apart_y
              (FreePages-write m3 y (entry_at y trampoline_va 0) (make_pte code 10) xs (omega arith)
                (omega arith) apart_y b.free);
        region = b.region;
        begin = b.begin ∙ a.begin;
        end = b.end ∙ a.end;
        user = b.user ∙ a.other;
        proc = b.proc ∙ a.proc;
        same = λ w o ox oy.
            store64_out m4.mem (entry_at y trapframe_va 0) (make_pte frame 6) w (omega arith)
            ∙ store64_out m3.mem (entry_at y trampoline_va 0) (make_pte code 10) w (omega arith)
            ∙ b.same w ox oy (omega arith)
            ∙ memset_out m1.mem root 0 4096 w o
            ∙ a.same w o;
      },
    )
