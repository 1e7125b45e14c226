-- ===== src/Mmap/Filling.antt =====
-- All rounds of the loop of `uvm_mmap` that maps the pages of a new region.
use biglab.Base.{
  ℕ, zero, suc, ◌+◌, ◌*◌, ◌%◌, ◌^◌, ◌≤◌, ◌<◌, ◌≡◌, ◌≢◌, sym, ◌∙◌, ap, false, bit_or, List, [], ◌∷◌,
  ◌++◌, arith, lt→ltb, le→ltb, ne→==, length,
}
use mathlib.Core.Path.{subst}
use biglab.Base.Word.{va_max, pgsize, add64}
use biglab.Base.Outcome.{ok}
use biglab.Machine.{Machine}
use biglab.Pmem.{pmem_alloc}
use biglab.Pmem.Pages.{IsPage-bounds}
use biglab.Kvm.{is_v, vm_mappages, pte_u}
use biglab.Kvm.Backed.{entry, Backed}
use biglab.Mmap.{map_region_loop}
use biglab.Kvm.AddPage.{add_page}
use biglab.Kvm.Filled.{Fills, Fills-nil, Fills-cons}

module _ (root base : ℕ) (t1 t0 : ℕ → ℕ) (n : ℕ) (al : base % 4096 ≡ 0)
    (fits : base + n * 4096 ≤ va_max) (prot : ℕ) (small : bit_or prot pte_u < 1024) where
  abbrev perm : ℕ
  perm = bit_or prot pte_u

  round-runs :
      (k begin len end va pa : ℕ) (m m1 m2 : Machine)
      → va < end
      → pa ≢ 0
      → pmem_alloc false m ≡ ok (pa, m1)
      → vm_mappages m1.proc.pgtbl va pa pgsize perm m1 ≡ ok (tt, m2)
      → map_region_loop (suc k) begin len end prot va m
        ≡ map_region_loop k begin len end prot (add64 va pgsize) m2
  unfolding map_region_loop
  round-runs k begin len end va pa m m1 m2 lt nz runs maps =
      rw (lt→ltb va end lt, runs, ne→== pa 0 nz, maps)

  pub map_region_loop-Fills :
      (k i begin len : ℕ) (ys zs : List ℕ) (m : Machine)
      → length ys < k
      → i + length ys ≤ n
      → m.user.end ≤ 2 ^ 56
      → m.proc.pgtbl ≡ root
      → Backed root base t1 t0 n m.mem m.user (ys ++ zs)
      → ((j : ℕ) → i ≤ j → j < i + length ys → is_v (entry root base t1 t0 n m.mem j) ≡ false)
      → (m' : Machine) × (map_region_loop k begin len
            (base + (i + length ys) * 4096)
            prot
            (base + i * 4096)
            m
          ≡ ok (begin, m'))
        × Fills root base t1 t0 n al fits perm small m i ys zs m'
  unfolding map_region_loop
  map_region_loop-Fills zero i begin len ys zs m fuel le low table b none = absurd (omega arith)
  map_region_loop-Fills (suc k) i begin len [] zs m fuel le low table b none = (
    m,
    rw (le→ltb (base + i * 4096) (base + (i + 0) * 4096) (omega arith)),
    Fills-nil root base t1 t0 n al fits perm small m i zs b,
  )
  map_region_loop-Fills (suc k) i begin len (pa ∷ ys) zs m fuel le low table b none =
      let ip = b.free.pages.0 in
      let bounds = IsPage-bounds m.user pa b.kept ip in
      let above = ip.above in
      let (m1, m2, runs, proc1, maps, f) =
        add_page root base t1 t0 n al fits perm small m i pa (ys ++ zs) (omega arith) low b
          (none i (omega arith) (omega arith)) in
      let (m3, rest, g) =
        map_region_loop-Fills k (suc i) begin len ys zs m2 (omega arith) (omega arith)
          (omega (arith, f.end)) (ap (λ p. p.pgtbl) f.proc ∙ table) f.backed
          (λ j lo hi.
            ap is_v (f.stay j (omega arith) (λ e. absurd (omega arith)))
            ∙ none j (omega arith) (omega arith)) in
      let next : add64 (base + i * 4096) pgsize ≡ base + suc i * 4096 = omega arith in
      let to_end : base + (i + suc (length ys)) * 4096 ≡ base + (suc i + length ys) * 4096 =
        omega arith in
      let at_table : vm_mappages m1.proc.pgtbl (base + i * 4096) pa pgsize perm m1 ≡ ok (tt, m2) =
        subst (λ r. vm_mappages r (base + i * 4096) pa pgsize perm m1 ≡ ok (tt, m2))
          (sym (ap (λ p. p.pgtbl) proc1 ∙ table)) maps in
      (
        m3,
        round-runs k begin len (base + (i + suc (length ys)) * 4096) (base + i * 4096) pa m m1 m2
              (omega arith) (omega arith) runs at_table
            ∙ rw (to_end, next) rest,
        Fills-cons root base t1 t0 n al fits perm small m m2 m3 i pa ys zs (omega arith) b f g,
      )
