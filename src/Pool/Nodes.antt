-- ===== src/Pool/Nodes.antt =====
-- Lists through the nodes of the store: the free list (`link`) and the regions of a process (`next`).
use biglab.Base.{ℕ, ◌≡◌, ◌≢◌, List, [], ◌∷◌, ne→==, update, All, Fresh}
use biglab.Machine.{Node}

-- From `p` the pointers `f` lead through the nodes `xs` to NULL.
abbrev pub Chain : (ℕ → ℕ) → ℕ → List ℕ → Type 0
Chain f p [] = p ≡ 0
Chain f p (x ∷ xs) = (p ≡ x) × (x ≢ 0) × Chain f (f x) xs

abbrev pub links : (ℕ → Node) → ℕ → ℕ
links node p = (node p).link

abbrev pub nexts : (ℕ → Node) → ℕ → ℕ
nexts node p = (node p).next

-- A chain depends on the pointers of its own nodes only.
pub Chain-congr :
    (f g : ℕ → ℕ) (p : ℕ) (xs : List ℕ) → All (λ x. g x ≡ f x) xs → Chain f p xs → Chain g p xs
Chain-congr f g p [] h c = c
Chain-congr f g p (x ∷ xs) (h, hs) (e, ne, c) = (e, ne, rw h (Chain-congr f g (f x) xs hs c))

-- A node that is not on the list may be written.
pub All-Fresh {ℓ} :
    {A : Type ℓ} (h : ℕ → A) (p : ℕ) (v : A) (xs : List ℕ)
    → Fresh p xs
    → All (λ x. update h p v x ≡ h x) xs
All-Fresh h p v [] f = tt
All-Fresh h p v (x ∷ xs) (ne, f) = (rw (ne→== p x ne), All-Fresh h p v xs f)

pub Chain-update :
    (node : ℕ → Node) (f : Node → ℕ) (p q : ℕ) (v : Node) (xs : List ℕ)
    → Fresh q xs
    → Chain (λ x. f (node x)) p xs
    → Chain (λ x. f (update node q v x)) p xs
Chain-update node f p q v [] fresh c = c
Chain-update node f p q v (x ∷ xs) (ne, fresh) (e, nz, c) =
    (e, nz, rw (ne→== q x ne) (Chain-update node f _ q v xs fresh c))
