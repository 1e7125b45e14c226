-- ===== src/Pmem/Spec.antt =====
-- What the allocator of mem/pmem.c promises: of each region, which pages are in use and which are
-- free, in the order in which they will be given out.
use biglab.Base.{
  ℕ, ◌+◌, ◌≤◌, ◌≡◌, ◌≢◌, Bool, true, false, List, [], ◌∷◌, ◌++◌, All, Fresh, Distinct,
}
use biglab.Base.Disjoint.{Fresh-insert, Distinct-insert, Fresh-append_right}

pub record Pages : Type 0 where
  pub used : List ℕ
  pub free : List ℕ

pub record Spec : Type 0 where
  pub kern : Pages
  pub user : Pages

abbrev pub region_pages : Bool → Spec → Pages
region_pages true s = s.kern
region_pages false s = s.user

abbrev pub with_pages : Bool → Pages → Spec → Spec
with_pages true p s = record s { kern = p }
with_pages false p s = record s { user = p }

-- `xs` is `ys` with the entry `x` taken out.
pub data Takes (x : ℕ) : List ℕ → List ℕ → Type 0 where
  here : (xs : List ℕ) → Takes x (x ∷ xs) xs
  there : (y : ℕ) {xs ys : List ℕ} → Takes x xs ys → Takes x (y ∷ xs) (y ∷ ys)

-- A call of the allocator, or a write of a word by whoever has been given the page.
pub data Op : Type 0 where
  alloc : Bool → Op
  free : Bool → ℕ → Op
  write : (a : ℕ) (v : ℕ) → Op

-- What a client may do, with the result and the state afterwards: a page that is given back, and
-- one that is written to, is in use.
pub data Does (s : Spec) : Op → ℕ → Spec → Type 0 where
  gives :
      (k : Bool) (x : ℕ) (xs : List ℕ)
      → (region_pages k s).free ≡ x ∷ xs
      → Does s
          (alloc k)
          x
          (with_pages k (record { used = x ∷ (region_pages k s).used; free = xs }) s)
  returns :
      (k : Bool) (x : ℕ) (us : List ℕ)
      → Takes x (region_pages k s).used us
      → Does s
          (free k x)
          0
          (with_pages k (record { used = us; free = x ∷ (region_pages k s).free }) s)
  writes :
      (k : Bool) (x a v : ℕ) (us : List ℕ)
      → Takes x (region_pages k s).used us
      → x ≤ a
      → a + 8 ≤ x + 4096
      → Does s (write a v) 0 s

-- A run with the results of its operations.
pub data Runs : Spec → List Op → List ℕ → Spec → Type 0 where
  done : {s : Spec} → Runs s [] [] s
  step :
      {s t u : Spec} {op : Op} {r : ℕ} {ops : List Op} {rs : List ℕ}
      → Does s op r t
      → Runs t ops rs u
      → Runs s (op ∷ ops) (r ∷ rs) u

Fresh-Takes :
    (u x : ℕ) (us ws xs : List ℕ)
    → Takes x us ws
    → Fresh u (us ++ xs)
    → (u ≢ x) × Fresh u (ws ++ xs)
Fresh-Takes u x us ws xs (here _) f = f
Fresh-Takes u x us ws xs (there y t) (ne, f) =
    let (a, b) = Fresh-Takes u x _ _ xs t f in (a, (ne, b))

-- A page in use becomes the first free one.
pub Distinct-returns :
    (x : ℕ) (us ws xs : List ℕ) → Takes x us ws → Distinct (us ++ xs) → Distinct (ws ++ (x ∷ xs))
Distinct-returns x us ws xs (here _) (f, d) = Distinct-insert x ws xs f d
Distinct-returns x us ws xs (there y t) (f, d) =
    let (ne, g) = Fresh-Takes y x _ _ xs t f in
    (Fresh-insert y x _ xs ne g, Distinct-returns x _ _ xs t d)

-- A page in use is not free.
pub Takes-Fresh : (x : ℕ) (us ws xs : List ℕ) → Takes x us ws → Distinct (us ++ xs) → Fresh x xs
Takes-Fresh x us ws xs (here _) (f, d) = Fresh-append_right x ws xs f
Takes-Fresh x us ws xs (there y t) (f, d) = Takes-Fresh x _ _ xs t d

pub Takes-All :
    (P : ℕ → Type 0) (x : ℕ) (us ws : List ℕ) → Takes x us ws → All P us → P x × All P ws
Takes-All P x us ws (here _) (p, ps) = (p, ps)
Takes-All P x us ws (there y t) (p, ps) = let (q, qs) = Takes-All P x _ _ t ps in (q, (p, qs))
