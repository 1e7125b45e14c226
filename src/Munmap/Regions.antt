-- ===== src/Munmap/Regions.antt =====
-- Lists of regions as the addresses that they cover.
use biglab.Base.{
  ℕ, ◌≤◌, ◌<◌, ◌≡◌, refl, sym, ap, update, ◌⊎◌, inl, inr, ◌↔◌, List, [], ◌∷◌, ◌++◌, arith, All,
  Fresh, Distinct,
}
use mathlib.Core.Path.{subst}
use biglab.Machine.{Node, Pool}
use biglab.Pool.Nodes.{Chain, nexts, Chain-update}
use biglab.Pool.Ops.{FreeNodes}
use biglab.Mmap.Areas.{stop, Sorted}
use biglab.Munmap.Rounds.{IsArea, Covers}

-- The address lies in one of the regions.
abbrev pub Covered : (ℕ → Node) → List ℕ → ℕ → Type 0
Covered node [] v = ⊥
Covered node (x ∷ xs) v = Covers (node x) v ⊎ Covered node xs v

-- An address outside the range from `begin` to `end`.
abbrev pub Out : ℕ → ℕ → ℕ → Type 0
Out begin end v = (v < begin) ⊎ (end ≤ v)

-- The nodes of the list are the same in both stores.
abbrev pub Same : (ℕ → Node) → (ℕ → Node) → List ℕ → Type 0
Same node node' xs = All (λ x. node' x ≡ node x) xs

abbrev pub Areas : (ℕ → Node) → List ℕ → Type 0
Areas node xs = All (λ x. IsArea (node x)) xs

pub Areas-congr : (f g : ℕ → Node) (xs : List ℕ) → Same f g xs → Areas f xs → Areas g xs
Areas-congr f g [] s a = tt
Areas-congr f g (x ∷ xs) (e, s) (a, as') = (rw e a, Areas-congr f g xs s as')

pub Sorted-congr :
    (f g : ℕ → Node) (lo : ℕ) (xs : List ℕ) → Same f g xs → Sorted f lo xs → Sorted g lo xs
Sorted-congr f g lo [] s h = tt
Sorted-congr f g lo (x ∷ xs) (e, s) (le, pos, fits, h) =
    rw e (le, pos, fits, Sorted-congr f g (stop (f x)) xs s h)

pub Sorted-lower :
    (f : ℕ → Node) (lo lo' : ℕ) (xs : List ℕ) → lo' ≤ lo → Sorted f lo xs → Sorted f lo' xs
Sorted-lower f lo lo' [] h s = tt
Sorted-lower f lo lo' (x ∷ xs) h (le, pos, fits, s) = (omega arith, pos, fits, s)

pub Covered-congr :
    (f g : ℕ → Node) (xs : List ℕ) (v : ℕ) → Same f g xs → Covered f xs v → Covered g xs v
Covered-congr f g [] v s c = elim c [ ]
Covered-congr f g (x ∷ xs) v (e, s) (inl c) = inl (rw e c)
Covered-congr f g (x ∷ xs) v (e, s) (inr c) = inr (Covered-congr f g xs v s c)

pub Same-sym : (f g : ℕ → Node) (xs : List ℕ) → Same f g xs → Same g f xs
Same-sym f g [] s = tt
Same-sym f g (x ∷ xs) (e, s) = (sym e, Same-sym f g xs s)

-- No region lies below the bound.
pub Covered-above :
    (f : ℕ → Node) (lo : ℕ) (xs : List ℕ) (v : ℕ) → Sorted f lo xs → Covered f xs v → lo ≤ v
Covered-above f lo [] v s c = elim c [ ]
Covered-above f lo (x ∷ xs) v (le, pos, fits, s) (inl c) = omega arith
Covered-above f lo (x ∷ xs) v (le, pos, fits, s) (inr c) =
    omega (arith, Covered-above f (stop (f x)) xs v s c)

pub Fresh-left : (q : ℕ) (xs fs : List ℕ) → Fresh q (xs ++ fs) → Fresh q xs
Fresh-left q [] fs f = tt
Fresh-left q (x ∷ xs) fs (ne, f) = (ne, Fresh-left q xs fs f)

pub Fresh-right : (q : ℕ) (xs fs : List ℕ) → Fresh q (xs ++ fs) → Fresh q fs
Fresh-right q [] fs f = f
Fresh-right q (x ∷ xs) fs (ne, f) = Fresh-right q xs fs f

pub Distinct-right : (xs fs : List ℕ) → Distinct (xs ++ fs) → Distinct fs
Distinct-right [] fs d = d
Distinct-right (x ∷ xs) fs (f, d) = Distinct-right xs fs d

-- The free nodes stay when another node is written.
pub FreeNodes-write :
    (p : Pool) (x : ℕ) (n : Node) (fs : List ℕ)
    → Fresh x fs
    → FreeNodes p fs
    → FreeNodes (record p { node = update p.node x n }) fs
FreeNodes-write p x n fs fresh f = record {
  chain = Chain-update p.node (λ y. y.link) p.head x n fs fresh f.chain;
  distinct = f.distinct;
  lk_free = f.lk_free;
}

pub Same-refl : (f : ℕ → Node) (xs : List ℕ) → Same f f xs
Same-refl f [] = tt
Same-refl f (x ∷ xs) = (refl, Same-refl f xs)

pub nexts-congr :
    (f g : ℕ → Node) (p : ℕ) (xs : List ℕ)
    → Same f g xs
    → Chain (nexts f) p xs
    → Chain (nexts g) p xs
nexts-congr f g p [] s c = c
nexts-congr f g p (x ∷ xs) (e, s) (h, nz, c) = (
  h,
  nz,
  subst (λ q. Chain (nexts g) q xs) (sym (ap (λ n. n.next) e)) (nexts-congr f g (f x).next xs s c),
)

-- If the first region keeps its addresses outside the range, and the others are the same, the
-- whole list does.
pub Covered-head :
    (begin end : ℕ) (f g : ℕ → Node) (x : ℕ) (xs : List ℕ)
    → ((v : ℕ) → Covers (g x) v ↔ (Covers (f x) v × Out begin end v))
    → Same f g xs
    → (v : ℕ) → (Covered g (x ∷ xs) v × Out begin end v) ↔ (Covered f (x ∷ xs) v × Out begin end v)
Covered-head begin end f g x xs h s v = (
  λ (c, o). elim c [
    | inl d ↦ (inl ((h v).0 d).0, o)
    | inr d ↦ (inr (Covered-congr g f xs v (Same-sym f g xs s) d), o)
  ],
  λ (c, o). elim c [
    | inl d ↦ (inl ((h v).1 (d, o)), o)
    | inr d ↦ (inr (Covered-congr f g xs v s d), o)
  ],
)
