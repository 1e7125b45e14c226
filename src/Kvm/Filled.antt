-- ===== src/Kvm/Filled.antt =====
-- A run of pages that is mapped page by page.
use biglab.Base.{
  ℕ, zero, suc, ◌+◌, ◌*◌, ◌%◌, ◌≤◌, ◌<◌, ◌≡◌, refl, inl, ◌∙◌, ◌⊎◌, List, [], ◌∷◌, ◌++◌, arith, some,
  length, get_elem?, All,
}
use mathlib.Core.Path.{subst}
use mathlib.Core.Option.{some_inj}
use native.Mathlib.Nat.{add-zero, add-suc, suc-add}
use biglab.Base.Word.{va_max}
use biglab.Machine.{Machine}
use biglab.Pmem.Pages.{IsPage-bounds, All-apart, All-map}
use biglab.Kvm.Backed.{entry, Backed}
use biglab.Kvm.AddPage.{MapsTo, Adds}

module _ (root base : ℕ) (t1 t0 : ℕ → ℕ) (n : ℕ) (al : base % 4096 ≡ 0)
    (fits : base + n * 4096 ≤ va_max) (perm : ℕ) (small : perm < 1024) where
  -- From page `i` on the pages are mapped to `ys`, which are all zeros; the free pages are `zs`.
  pub record Fills (m : Machine) (i : ℕ) (ys zs : List ℕ) (m' : Machine) : Type 0 where
    pub backed : Backed root base t1 t0 n m'.mem m'.user zs
    pub pages :
        (j pa : ℕ)
        → get_elem? ys j ≡ some pa
        → MapsTo root base t1 t0 n al fits perm small (i + j) pa m'
    pub stay :
        (j : ℕ)
        → j < n
        → (j < i) ⊎ (i + length ys ≤ j)
        → entry root base t1 t0 n m'.mem j ≡ entry root base t1 t0 n m.mem j
    pub same :
        (b : ℕ)
        → m.user.begin ≤ b
        → b < m.user.end
        → All (λ p. (b < p) ⊎ (p + 4096 ≤ b)) ys
        → m'.mem b ≡ m.mem b
    pub kern : m'.kern ≡ m.kern
    pub pool : m'.pool ≡ m.pool
    pub proc : m'.proc ≡ m.proc

  All-left : (P : ℕ → Type 0) (xs ys : List ℕ) → All P (xs ++ ys) → All P xs
  All-left P [] ys h = tt
  All-left P (x ∷ xs) ys (p, h) = (p, All-left P xs ys h)

  abbrev At : ℕ → ℕ → Machine → Type 0
  At i pa m' = MapsTo root base t1 t0 n al fits perm small i pa m'

  extend :
      (i pa : ℕ) (ys : List ℕ) (m' : Machine)
      → At i pa m'
      → ((j q : ℕ) → get_elem? ys j ≡ some q → At (suc i + j) q m')
      → (j q : ℕ) → get_elem? (pa ∷ ys) j ≡ some q
      → At (i + j) q m'
  extend i pa ys m' here more zero q e =
      rw (add-zero i) (subst (λ p. At i p m') (some_inj.0 e) here)
  extend i pa ys m' here more (suc j) q e = rw (add-suc i j, ← suc-add i j) (more j q e)

  pub Fills-nil :
      (m : Machine) (i : ℕ) (zs : List ℕ)
      → Backed root base t1 t0 n m.mem m.user zs
      → Fills m i [] zs m
  Fills-nil m i zs b = record {
    backed = b;
    pages = λ j pa e. cc;
    stay = λ j h out. refl;
    same = λ w lo hi a. refl;
    kern = refl;
    pool = refl;
    proc = refl;
  }

  -- One page, and then the others.
  pub Fills-cons :
      (m m2 m3 : Machine) (i pa : ℕ) (ys zs : List ℕ)
      → i < n
      → Backed root base t1 t0 n m.mem m.user (pa ∷ (ys ++ zs))
      → Adds root base t1 t0 n al fits perm small m i pa (ys ++ zs) m2
      → Fills m2 (suc i) ys zs m3
      → Fills m i (pa ∷ ys) zs m3
  Fills-cons m m2 m3 i pa ys zs lt b f g =
      let ip = b.free.pages.0 in
      let bounds = IsPage-bounds m.user pa b.kept ip in
      let above = ip.above in
      let apart =
        All-left (λ q. (q + 4096 ≤ pa) ⊎ (pa + 4096 ≤ q)) ys zs
          (All-apart m.user pa (ys ++ zs) ip b.free.pages.1 b.free.distinct.0) in
      let far : (w : ℕ) → pa ≤ w → w < pa + 4096 → All (λ q. (w < q) ⊎ (q + 4096 ≤ w)) ys =
        λ w lo hi. All-map ys (λ q o. omega arith) apart in
      record {
        backed = g.backed;
        pages =
            extend i pa ys m3
              (record {
                maps = g.stay i (omega arith) (inl (omega arith)) ∙ f.here.maps;
                zeros = λ w h.
                    g.same (pa + w) (omega (arith, f.begin)) (omega (arith, f.end))
                      (far (pa + w) (omega arith) (omega arith))
                    ∙ f.here.zeros w h;
              })
              g.pages;
        stay = λ j h out. g.stay j h (omega arith) ∙ f.stay j h (λ e. absurd (omega arith));
        same = λ w lo hi (o, os).
            g.same w (omega (arith, f.begin)) (omega (arith, f.end)) os ∙ f.same w lo hi o;
        kern = g.kern ∙ f.kern;
        pool = g.pool ∙ f.pool;
        proc = g.proc ∙ f.proc;
      }
