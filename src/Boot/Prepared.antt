-- ===== src/Boot/Prepared.antt =====
-- The regions and their free pages while the first process is made.
use biglab.Base.{ℕ, ◌+◌, ◌^◌, ◌≤◌, ◌<◌, ◌≡◌, ◌⊎◌, true, false, List, ◌∷◌, arith, All}
use biglab.Base.Outcome.{ok}
use biglab.Memory.{Mem}
use biglab.Machine.{Region, Machine}
use biglab.Pmem.{pmem_alloc}
use biglab.Pmem.Pages.{Chain-congr, IsPage, IsPage-bounds, IsRegion, FreePages, All-map}
use biglab.Pmem.Alloc.{Allocated, pmem_alloc-cons}
use biglab.Kvm.Build.{Clear}

-- A region whose bytes have not changed keeps its free pages.
pub FreePages-kept :
    (mem mem' : Mem) (r r' : Region) (xs : List ℕ)
    → IsRegion r
    → r' ≡ r
    → ((b : ℕ) → r.begin ≤ b → b < r.end → mem' b ≡ mem b)
    → FreePages mem r xs
    → FreePages mem' r' xs
FreePages-kept mem mem' r r' xs ir e same f = rw e (record {
  chain =
      Chain-congr mem mem' r.head xs
        (All-map xs
          (λ p ip i lt.
            let b = IsPage-bounds r p ir ip in
            let q = ip.above in same (p + i) (omega arith) (omega arith))
          f.pages)
        f.chain;
  pages = f.pages;
  distinct = f.distinct;
  count = f.count;
  lk_free = f.lk_free;
})

-- The regions and their free pages before `proc_make_first`.
pub record Prepared (m : Machine) (ks us : List ℕ) : Type 0 where
  pub kern : IsRegion m.kern
  pub user : IsRegion m.user
  pub kern_low : m.kern.end ≤ 2 ^ 56
  pub user_low : m.user.end ≤ 2 ^ 56
  pub apart : (m.kern.end ≤ m.user.begin) ⊎ (m.user.end ≤ m.kern.begin)
  pub kern_free : FreePages m.mem m.kern ks
  pub user_free : FreePages m.mem m.user us

-- A kernel page is given out.
pub take_kern :
    (m : Machine) (p : ℕ) (ks us : List ℕ)
    → Prepared m (p ∷ ks) us
    → (m' : Machine) × (pmem_alloc true m ≡ ok (p, m'))
      × Allocated true m p ks m'
      × Prepared m' ks us
take_kern m p ks us h =
    let (ip, _) = h.kern_free.pages in
    let bounds = IsPage-bounds m.kern p h.kern ip in
    let above = ip.above in
    let (m', runs, a) = pmem_alloc-cons true m p ks h.kern h.kern_free in
    let away = h.apart in
    (
      m',
      runs,
      a,
      record {
        kern = a.kept;
        user = rw a.other h.user;
        kern_low = omega (arith, a.end, h.kern_low);
        user_low = rw a.other h.user_low;
        apart = rw (a.other, a.begin, a.end) away;
        kern_free = a.free;
        user_free =
            FreePages-kept m.mem m'.mem m.user m'.user us h.user a.other
              (λ b lo hi. a.same b (omega arith)) h.user_free;
      },
    )

pub take_user :
    (m : Machine) (p : ℕ) (ks us : List ℕ)
    → Prepared m ks (p ∷ us)
    → (m' : Machine) × (pmem_alloc false m ≡ ok (p, m'))
      × Allocated false m p us m'
      × Prepared m' ks us
take_user m p ks us h =
    let (ip, _) = h.user_free.pages in
    let bounds = IsPage-bounds m.user p h.user ip in
    let above = ip.above in
    let (m', runs, a) = pmem_alloc-cons false m p us h.user h.user_free in
    let away = h.apart in
    (
      m',
      runs,
      a,
      record {
        kern = rw a.other h.kern;
        user = a.kept;
        kern_low = rw a.other h.kern_low;
        user_low = omega (arith, a.end, h.user_low);
        apart = rw (a.other, a.begin, a.end) away;
        kern_free =
            FreePages-kept m.mem m'.mem m.kern m'.kern ks h.kern a.other
              (λ b lo hi. a.same b (omega arith)) h.kern_free;
        user_free = a.free;
      },
    )

-- The pages of another region are apart from a page.
pub Clear-far :
    (r r' : Region) (p : ℕ) (xs : List ℕ)
    → IsRegion r
    → IsRegion r'
    → (r.end ≤ r'.begin) ⊎ (r'.end ≤ r.begin)
    → IsPage r p
    → All (IsPage r') xs
    → Clear p xs
Clear-far r r' p xs ir ir' away ip ips =
    All-map xs
      (λ q iq.
        let b = IsPage-bounds r p ir ip in
        let c = IsPage-bounds r' q ir' iq in
        let above = ip.above in let above' = iq.above in omega arith)
      ips

-- Writes to a page that is not free change nothing of this.
pub Prepared-touch :
    (m m' : Machine) (p : ℕ) (ks us : List ℕ)
    → ((b : ℕ) → (b < p) ⊎ (p + 4096 ≤ b) → m'.mem b ≡ m.mem b)
    → m'.kern ≡ m.kern
    → m'.user ≡ m.user
    → Clear p ks
    → Clear p us
    → Prepared m ks us
    → Prepared m' ks us
Prepared-touch m m' p ks us same k u ck cu h =
    let kept : (r r' : Region) (xs : List ℕ)
        → r' ≡ r
        → Clear p xs
        → FreePages m.mem r xs
        → FreePages m'.mem r' xs =
      λ r r' xs e c f. rw e (record {
        chain =
            Chain-congr m.mem m'.mem r.head xs
              (All-map xs (λ y away i lt. same (y + i) (omega arith)) c) f.chain;
        pages = f.pages;
        distinct = f.distinct;
        count = f.count;
        lk_free = f.lk_free;
      }) in
    record {
      kern = rw k h.kern;
      user = rw u h.user;
      kern_low = rw k h.kern_low;
      user_low = rw u h.user_low;
      apart = rw (k, u) h.apart;
      kern_free = kept m.kern m'.kern ks k ck h.kern_free;
      user_free = kept m.user m'.user us u cu h.user_free;
    }
