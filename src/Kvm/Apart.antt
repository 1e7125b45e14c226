-- ===== src/Kvm/Apart.antt =====
-- Entries that lie apart, so that writing one leaves the paths through the others.
use biglab.Base.{ℕ, ◌+◌, ◌*◌, ◌≤◌, ◌<◌, ◌≡◌, ◌≢◌, ◌⊎◌, arith}
use biglab.Memory.{Mem, load64, store64}
use biglab.Memory.Words.{load64-store64_ne}
use biglab.Kvm.Walk.{entry_at, LeadsTo, Path3}

-- The words at `a` and `b` do not overlap.
abbrev pub Apart : ℕ → ℕ → Type 0
Apart a b = (a + 8 ≤ b) ⊎ (b + 8 ≤ a)

pub LeadsTo-congr :
    (m n : Mem) (table va level next : ℕ)
    → load64 n (entry_at table va level) ≡ load64 m (entry_at table va level)
    → LeadsTo m table va level next
    → LeadsTo n table va level next
LeadsTo-congr m n table va level next e l = record {
  valid = rw e l.valid;
  inner = rw e l.inner;
  target = rw e l.target;
}

pub Path3-congr :
    (m n : Mem) (root va t1 t0 : ℕ)
    → load64 n (entry_at root va 2) ≡ load64 m (entry_at root va 2)
    → load64 n (entry_at t1 va 1) ≡ load64 m (entry_at t1 va 1)
    → Path3 m root va t1 t0
    → Path3 n root va t1 t0
Path3-congr m n root va t1 t0 e f p = record {
  below = p.below;
  first = LeadsTo-congr m n root va 2 t1 e p.first;
  second = LeadsTo-congr m n t1 va 1 t0 f p.second;
}

-- The tables for the `n` pages from `va` on: the entry of page `i` is in the table `t0 i`, which is
-- reached over `t1 i`, and the entries are apart from each other and from the inner entries.
module _ (root va : ℕ) (t1 t0 : ℕ → ℕ) where
  abbrev pub page_va : ℕ → ℕ
  page_va i = va + i * 4096

  abbrev pub leaf : ℕ → ℕ
  leaf i = entry_at (t0 i) (page_va i) 0

  pub record Tables (mem : Mem) (n : ℕ) : Type 0 where
    pub path : (i : ℕ) → i < n → Path3 mem root (page_va i) (t1 i) (t0 i)
    pub apart : (i j : ℕ) → i < n → j < n → i ≢ j → Apart (leaf i) (leaf j)
    pub apart_first : (i j : ℕ) → i < n → j < n → Apart (leaf i) (entry_at root (page_va j) 2)
    pub apart_second : (i j : ℕ) → i < n → j < n → Apart (leaf i) (entry_at (t1 j) (page_va j) 1)

  -- The tables stay while the inner entries do.
  pub Tables-store64 :
      (mem : Mem) (n i v : ℕ) → i < n → Tables mem n → Tables (store64 mem (leaf i) v) n
  Tables-store64 mem n i v h t = record {
    path = λ j lt.
        Path3-congr mem _ root (page_va j) (t1 j) (t0 j)
          (load64-store64_ne mem (leaf i) _ v (swap (t.apart_first i j h lt)))
          (load64-store64_ne mem (leaf i) _ v (swap (t.apart_second i j h lt))) (t.path j lt);
    apart = t.apart;
    apart_first = t.apart_first;
    apart_second = t.apart_second;
  }
    where
      swap : {a b : ℕ} → Apart a b → Apart b a
      swap h = omega arith
