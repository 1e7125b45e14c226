-- ===== src/Boot/Stacked.antt =====
-- `proc_make_first` up to the mapping of the stack.
use biglab.Base.{
  ℕ, ◌+◌, ◌%◌, ◌^◌, ◌≤◌, ◌<◌, ◌≡◌, refl, ◌∙◌, ◌⊎◌, true, false, List, [], ◌∷◌, arith, All,
}
use biglab.Base.Word.{pgsize}
use biglab.Base.Outcome.{ok}
use biglab.Memory.{store64}
use biglab.Memory.Words.{load64-congr, store64_out}
use biglab.Memory.Blocks.{memset_in, memset_out}
use biglab.Machine.{Machine}
use biglab.Pmem.{pmem_alloc}
use biglab.Pmem.Pages.{Chain-congr, IsPage, IsPage-bounds, FreePages, All-apart}
use biglab.Kvm.{make_pte, vm_mappages}
use biglab.Kvm.Walk.{entry_at, vm_getpte-found}
use biglab.Kvm.Apart.{Path3-congr}
use biglab.Kvm.Build.{Clear}
use biglab.Kvm.OnePage.{vm_mappages-one}
use biglab.Boot.{proc_pgtbl_init}
use biglab.Boot.UserEntries.{cleared}
use biglab.Boot.Prepared.{Prepared, take_kern, take_user, Clear-far, Prepared-touch}
use biglab.Boot.StackTable.{stack_va, StackTable, stack-StackTable, to_stack_path}
use biglab.Boot.UserTable.{HasTable, proc_pgtbl_init-UserTable}

-- Pages apart from the three tables stay free.
HasTable-user :
    (m m' : Machine) (root x y code frame : ℕ) (ks us : List ℕ)
    → HasTable m root x y code frame ks m'
    → Clear root us
    → Clear x us
    → Clear y us
    → FreePages m.mem m.user us
    → FreePages m'.mem m'.user us
HasTable-user m m' root x y code frame ks us t cr cx cy f = rw t.user (record {
  chain = Chain-congr m.mem m'.mem m.user.head us (go us cr cx cy) f.chain;
  pages = f.pages;
  distinct = f.distinct;
  count = f.count;
  lk_free = f.lk_free;
})
  where
    go :
        (zs : List ℕ)
        → Clear root zs
        → Clear x zs
        → Clear y zs
        → All (λ z. (i : ℕ) → i < 8 → m'.mem (z + i) ≡ m.mem (z + i)) zs
    go [] cr cx cy = tt
    go (z ∷ zs) (r, cr) (s, cx) (q, cy) =
        (λ i lt. t.same (z + i) (omega arith) (omega arith) (omega arith), go zs cr cx cy)

-- `proc_make_first` up to the mapping of the stack, on pages that are apart.
pub record Stacked (m : Machine) (code tf root x y stack : ℕ) (ks us : List ℕ) (m' : Machine)
    : Type 0 where
  pub table : StackTable m'.mem root x y code tf stack
  pub prepared : Prepared m' ks us
  pub zero : (i : ℕ) → i < 4096 → m'.mem (tf + i) ≡ 0
  pub same :
      (b : ℕ)
      → (b < tf) ⊎ (tf + 4096 ≤ b)
      → (b < root) ⊎ (root + 4096 ≤ b)
      → (b < x) ⊎ (x + 4096 ≤ b)
      → (b < y) ⊎ (y + 4096 ≤ b)
      → (b < stack) ⊎ (stack + 4096 ≤ b)
      → m'.mem b ≡ m.mem b

module _ (m : Machine) (code tf root x y stack : ℕ) (ks us : List ℕ)
    (h : Prepared m (tf ∷ root ∷ x ∷ y ∷ ks) (stack ∷ us)) where
  -- The calls up to there, one after the other.
  pub record Stacks (m' : Machine) : Type 0 where
    pub m1 : Machine
    pub m3 : Machine
    pub m4 : Machine
    pub first : pmem_alloc true m ≡ ok (tf, m1)
    pub table : proc_pgtbl_init code tf (cleared m1 tf) ≡ ok (root, m3)
    pub second : pmem_alloc false m3 ≡ ok (stack, m4)
    pub maps : vm_mappages root stack_va stack pgsize 22 m4 ≡ ok (tt, m')
    pub stacked : Stacked m code tf root x y stack ks us m'

  apart_tf : Clear tf (root ∷ x ∷ y ∷ ks)
  apart_tf =
      let f = h.kern_free in
      All-apart m.kern tf (root ∷ x ∷ y ∷ ks) f.pages.0 f.pages.1 f.distinct.0

  far : (p : ℕ) → IsPage m.kern p → Clear p (stack ∷ us)
  far p ip = Clear-far m.kern m.user p (stack ∷ us) h.kern h.user h.apart ip h.user_free.pages

  apart_root : Clear root (x ∷ y ∷ ks)
  apart_root =
      let f = h.kern_free in
      All-apart m.kern root (x ∷ y ∷ ks) f.pages.1.0 f.pages.1.1 f.distinct.1.0

  apart_x : Clear x (y ∷ ks)
  apart_x =
      let f = h.kern_free in
      All-apart m.kern x (y ∷ ks) f.pages.1.1.0 f.pages.1.1.1 f.distinct.1.1.0

  apart_y : Clear y ks
  apart_y =
      let f = h.kern_free in
      All-apart m.kern y ks f.pages.1.1.1.0 f.pages.1.1.1.1 f.distinct.1.1.1.0

  with_table :
      code % 4096 ≡ 0
      → code < 2 ^ 56
      → (m1 : Machine) × (m3 : Machine) × (pmem_alloc true m ≡ ok (tf, m1))
        × (proc_pgtbl_init code tf (cleared m1 tf) ≡ ok (root, m3))
        × HasTable (cleared m1 tf) root x y code tf ks m3
        × Prepared m3 ks (stack ∷ us)
        × ((i : ℕ) → i < 4096 → m1.mem (tf + i) ≡ 0)
        × ((b : ℕ) → (b < tf) ⊎ (tf + 4096 ≤ b) → m1.mem b ≡ m.mem b)
  with_table al lt =
      let ip = h.kern_free.pages.0 in
      let bounds = IsPage-bounds m.kern tf h.kern ip in
      let (m1, first, a1, p1) = take_kern m tf (root ∷ x ∷ y ∷ ks) (stack ∷ us) h in
      let m2 = cleared m1 tf in
      let p2 =
        Prepared-touch m1 m2 tf (root ∷ x ∷ y ∷ ks) (stack ∷ us)
          (λ b out. memset_out m1.mem tf 0 4096 b out) refl refl apart_tf (far tf ip) p1 in
      let (m3, table, t) =
        proc_pgtbl_init-UserTable m2 root x y code tf ks p2.kern p2.kern_low p2.kern_free al lt
          ip.aligned (omega (arith, h.kern_low)) in
      (
        m1,
        m3,
        first,
        table,
        t,
        record {
          kern = t.region;
          user = rw t.user p2.user;
          kern_low = omega (arith, t.end, p2.kern_low);
          user_low = rw t.user p2.user_low;
          apart = rw (t.user, t.begin, t.end) p2.apart;
          kern_free = t.free;
          user_free =
              HasTable-user m2 m3 root x y code tf ks (stack ∷ us) t
                (far root h.kern_free.pages.1.0) (far x h.kern_free.pages.1.1.0)
                (far y h.kern_free.pages.1.1.1.0) p2.user_free;
        },
        a1.zeroed,
        a1.same,
      )

  pub stacks : code % 4096 ≡ 0 → code < 2 ^ 56 → (m' : Machine) × Stacks m'
  stacks al lt =
      let (m1, m3, first, table, t, p3, zero, same) = with_table al lt in
      let is = h.user_free.pages.0 in
      let bounds = IsPage-bounds m.user stack h.user is in
      let c_tf = far tf h.kern_free.pages.0 in
      let c_root = far root h.kern_free.pages.1.0 in
      let c_x = far x h.kern_free.pages.1.1.0 in
      let c_y = far y h.kern_free.pages.1.1.1.0 in
      let (m4, second, a4, p4) = take_user m3 stack ks us p3 in
      let m5 = record m4 { mem = store64 m4.mem (entry_at y stack_va 0) (make_pte stack 22) } in
      let path =
        Path3-congr m3.mem m4.mem root stack_va x y
          (load64-congr m4.mem m3.mem (entry_at root stack_va 2)
            λ i lt8. a4.same _ (omega (arith, c_root.0)))
          (load64-congr m4.mem m3.mem (entry_at x stack_va 1)
            λ i lt8. a4.same _ (omega (arith, c_x.0)))
          (to_stack_path m3.mem root x y t.table.to_frame) in
      let later : (b : ℕ)
          → (b < root) ⊎ (root + 4096 ≤ b)
          → (b < x) ⊎ (x + 4096 ≤ b)
          → (b < y) ⊎ (y + 4096 ≤ b)
          → (b < stack) ⊎ (stack + 4096 ≤ b)
          → m5.mem b ≡ (cleared m1 tf).mem b =
        λ b o2 o3 o4 o5.
          store64_out m4.mem (entry_at y stack_va 0) (make_pte stack 22) b (omega arith)
          ∙ a4.same b o5
          ∙ t.same b o2 o3 o4 in
      (
        m5,
        record {
          m1 = m1;
          m3 = m3;
          m4 = m4;
          first = first;
          table = table;
          second = second;
          maps =
              vm_mappages-one m4 m4 root stack_va stack 22 (entry_at y stack_va 0) (omega arith)
                is.aligned (omega arith) (vm_getpte-found m4 root stack_va x y true path);
          stacked = record {
            table =
                stack-StackTable m3.mem m4.mem root x y code tf stack (omega (arith, apart_root))
                  (omega (arith, apart_x)) is.aligned (omega (arith, h.user_low))
                  (λ i k. a4.same (root + i) (omega (arith, c_root.0)))
                  (λ i k. a4.same (x + i) (omega (arith, c_x.0)))
                  (λ i k. a4.same (y + i) (omega (arith, c_y.0))) t.table;
            prepared =
                Prepared-touch m4 m5 y ks us
                  (λ b out.
                    store64_out m4.mem (entry_at y stack_va 0) (make_pte stack 22) b (omega arith))
                  refl refl apart_y c_y.1 p4;
            zero = λ i k.
                later (tf + i) (omega (arith, apart_tf)) (omega (arith, apart_tf))
                  (omega (arith, apart_tf)) (omega (arith, c_tf.0))
                ∙ memset_in m1.mem tf 0 4096 (tf + i) (omega arith) (omega arith);
            same = λ b o1 o2 o3 o4 o5.
                later b o2 o3 o4 o5 ∙ memset_out m1.mem tf 0 4096 b o1 ∙ same b o1;
          };
        },
      )
