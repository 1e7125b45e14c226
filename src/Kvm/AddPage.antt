-- ===== src/Kvm/AddPage.antt =====
-- One more page of the user region mapped in a run of pages: `pmem_alloc` and `vm_mappages`.
use biglab.Base.{
  ℕ, ◌+◌, ◌*◌, ◌%◌, ◌^◌, ◌≤◌, ◌<◌, ◌≡◌, ◌≢◌, sym, ◌∙◌, ◌⊎◌, ap, true, false, List, ◌∷◌, arith,
}
use mathlib.Core.Path.{subst}
use native.Mathlib.Decide.{ℕ_discrete}
use biglab.Base.Word.{va_max, pgsize}
use biglab.Base.Outcome.{ok}
use biglab.Memory.{Mem, load64, store64}
use biglab.Memory.Words.{load64-store64_self, load64-store64_ne, load64-congr, store64_out}
use biglab.Machine.{Region, Machine}
use biglab.Pmem.{pmem_alloc}
use biglab.Pmem.Pages.{IsPage-bounds, IsRegion, FreePages}
use biglab.Pmem.Alloc.{pmem_alloc-cons}
use biglab.Kvm.{make_pte, pte_to_pa, is_v, vm_mappages}
use biglab.Kvm.Entry.{make_pte_fields}
use biglab.Kvm.Walk.{Path3, vm_getpte-found}
use biglab.Kvm.Apart.{leaf, Path3-congr}
use biglab.Kvm.OnePage.{vm_mappages-one}
use biglab.Kvm.Unmap.{Outside, FreePages-Outside}
use biglab.Kvm.Backed.{entry, frame, Backed}

module _ (root base : ℕ) (t1 t0 : ℕ → ℕ) (n : ℕ) (al : base % 4096 ≡ 0)
    (fits : base + n * 4096 ≤ va_max) (perm : ℕ) (small : perm < 1024) where
  -- Page `i` is mapped to the page `pa`, which is all zeros.
  pub record MapsTo (i pa : ℕ) (m : Machine) : Type 0 where
    pub maps : entry root base t1 t0 n m.mem i ≡ make_pte pa perm
    pub zeros : (k : ℕ) → k < 4096 → m.mem (pa + k) ≡ 0

  -- One round: the page `pa` leaves the free list, and only the entry of page `i` changes.
  pub record Adds (m : Machine) (i pa : ℕ) (xs : List ℕ) (m' : Machine) : Type 0 where
    pub backed : Backed root base t1 t0 n m'.mem m'.user xs
    pub here : MapsTo i pa m'
    pub stay :
        (j : ℕ) → j < n → j ≢ i → entry root base t1 t0 n m'.mem j ≡ entry root base t1 t0 n m.mem j
    pub same :
        (b : ℕ)
        → m.user.begin ≤ b
        → b < m.user.end
        → (b < pa) ⊎ (pa + 4096 ≤ b)
        → m'.mem b ≡ m.mem b
    pub begin : m'.user.begin ≡ m.user.begin
    pub end : m'.user.end ≡ m.user.end
    pub kern : m'.kern ≡ m.kern
    pub pool : m'.pool ≡ m.pool
    pub proc : m'.proc ≡ m.proc

  -- The run stays backed where one more page has been given to page `i`.
  Backed-added :
      (mem mem' : Mem) (user user' : Region) (i pa : ℕ) (xs : List ℕ)
      → i < n
      → Backed root base t1 t0 n mem user (pa ∷ xs)
      → IsRegion user'
      → user'.begin ≡ user.begin
      → user'.end ≡ user.end
      → FreePages mem' user' xs
      → ((w : ℕ)
          → Outside user w
          → (leaf root base t1 t0 i + 8 ≤ w) ⊎ (w + 8 ≤ leaf root base t1 t0 i)
          → load64 mem' w ≡ load64 mem w)
      → frame root base t1 t0 n mem' i ≡ pa
      → Backed root base t1 t0 n mem' user' xs
  Backed-added mem mem' user user' i pa xs lt b region begin end free word here =
      let stay : (j : ℕ)
          → j < n
          → j ≢ i
          → entry root base t1 t0 n mem' j ≡ entry root base t1 t0 n mem j =
        λ j h ne.
          word (leaf root base t1 t0 j) (b.leaf_out j h)
            (b.tables.apart i j lt h (λ q. ne (sym q))) in
      let old : (j : ℕ)
          → j < n
          → j ≢ i
          → is_v (entry root base t1 t0 n mem' j) ≡ true
          → is_v (entry root base t1 t0 n mem j) ≡ true =
        λ j h ne v. subst (λ e. is_v e ≡ true) (stay j h ne) v in
      let same : (j : ℕ)
          → j < n
          → j ≢ i
          → frame root base t1 t0 n mem' j ≡ frame root base t1 t0 n mem j =
        λ j h ne. ap pte_to_pa (stay j h ne) in
      let ip = b.free.pages.0 in
      record {
        tables = record {
          path = λ j h.
              Path3-congr mem mem' root (base + j * 4096) (t1 j) (t0 j)
                (word _ (b.first_out j h) (b.tables.apart_first i j lt h))
                (word _ (b.second_out j h) (b.tables.apart_second i j lt h)) (b.tables.path j h);
          apart = b.tables.apart;
          apart_first = b.tables.apart_first;
          apart_second = b.tables.apart_second;
        };
        kept = region;
        free = free;
        page = λ j h v. elim (ℕ_discrete j i) [
          | yes e ↦
              rw (e, here)
                (record {
                  aligned = ip.aligned;
                  above = omega (arith, ip.above);
                  below = omega (arith, ip.below);
                })
          | no ne ↦
              let q = b.page j h (old j h ne v) in
              rw (same j h ne) (record {
                aligned = q.aligned;
                above = omega (arith, q.above);
                below = omega (arith, q.below);
              })
        ];
        fresh = λ j h v. elim (ℕ_discrete j i) [
          | yes e ↦ rw (e, here) b.free.distinct.0
          | no ne ↦ rw (same j h ne) (b.fresh j h (old j h ne v)).1
        ];
        own = λ j k h h' ne v v'. elim (ℕ_discrete j i) [
          | yes e ↦
              let nk : k ≢ i = λ q. ne (e ∙ sym q) in
              rw (e, here, same k h' nk) (λ q. (b.fresh k h' (old k h' nk v')).0 (sym q))
          | no nj ↦ elim (ℕ_discrete k i) [
            | yes e ↦ rw (e, here, same j h nj) (b.fresh j h (old j h nj v)).0
            | no nk ↦
                rw (same j h nj, same k h' nk) (b.own j k h h' ne (old j h nj v) (old k h' nk v'))
          ]
        ];
        leaf_out = λ j h. let o = b.leaf_out j h in omega arith;
        first_out = λ j h. let o = b.first_out j h in omega arith;
        second_out = λ j h. let o = b.second_out j h in omega arith;
      }

  pub add_page :
      (m : Machine) (i pa : ℕ) (xs : List ℕ)
      → i < n
      → m.user.end ≤ 2 ^ 56
      → Backed root base t1 t0 n m.mem m.user (pa ∷ xs)
      → is_v (entry root base t1 t0 n m.mem i) ≡ false
      → (m1 : Machine) × (m' : Machine) × (pmem_alloc false m ≡ ok (pa, m1))
        × (m1.proc ≡ m.proc)
        × (vm_mappages root (base + i * 4096) pa pgsize perm m1 ≡ ok (tt, m'))
        × Adds m i pa xs m'
  add_page m i pa xs lt low b inv =
      let ip = b.free.pages.0 in
      let bounds = IsPage-bounds m.user pa b.kept ip in
      let above = ip.above in
      let (m1, runs, a) = pmem_alloc-cons false m pa xs b.kept b.free in
      let e = leaf root base t1 t0 i in
      let v = make_pte pa perm in
      let m' = record m1 { mem = store64 m1.mem e v } in
      let fields = make_pte_fields pa perm (omega (arith, low)) ip.aligned small in
      let word1 : (w : ℕ) → Outside m.user w → load64 m1.mem w ≡ load64 m.mem w =
        λ w o. load64-congr m1.mem m.mem w λ k h. a.same (w + k) (omega arith) in
      let out : Outside m.user e = b.leaf_out i lt in
      let word : (w : ℕ)
          → Outside m.user w
          → (e + 8 ≤ w) ⊎ (w + 8 ≤ e)
          → load64 m'.mem w ≡ load64 m.mem w =
        λ w o apart. load64-store64_ne m1.mem e w v (omega arith) ∙ word1 w o in
      let here : entry root base t1 t0 n m'.mem i ≡ v = load64-store64_self m1.mem e v fields.3 in
      let stay : (j : ℕ)
          → j < n
          → j ≢ i
          → entry root base t1 t0 n m'.mem j ≡ entry root base t1 t0 n m.mem j =
        λ j h ne.
          word (leaf root base t1 t0 j) (b.leaf_out j h)
            (b.tables.apart i j lt h (λ q. ne (sym q))) in
      let path : Path3 m1.mem root (base + i * 4096) (t1 i) (t0 i) =
        Path3-congr m.mem m1.mem root (base + i * 4096) (t1 i) (t0 i) (word1 _ (b.first_out i lt))
          (word1 _ (b.second_out i lt)) (b.tables.path i lt) in
      (
        m1,
        m',
        runs,
        a.proc,
        vm_mappages-one m1 m1 root (base + i * 4096) pa perm e (omega arith) ip.aligned
            (omega arith) (vm_getpte-found m1 root (base + i * 4096) (t1 i) (t0 i) true path),
        record {
          backed =
              Backed-added m.mem m'.mem m.user m'.user i pa xs lt b a.kept a.begin a.end
                (FreePages-Outside m1.mem m1.user e v xs a.kept (omega (arith, a.begin, a.end))
                  a.free)
                word (ap pte_to_pa here ∙ fields.0);
          here = record {
            maps = here;
            zeros = λ k h. store64_out m1.mem e v (pa + k) (omega arith) ∙ a.zeroed k h;
          };
          stay = stay;
          same = λ w lo hi o. store64_out m1.mem e v w (omega arith) ∙ a.same w o;
          begin = a.begin;
          end = a.end;
          kern = a.other;
          pool = a.pool;
          proc = a.proc;
        },
      )
