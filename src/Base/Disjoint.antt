-- ===== src/Base/Disjoint.antt =====
-- Lists without an entry that they share.
use Prim.Native.Nat.{ℕ}
use mathlib.Core.Path.{sym}
use mathlib.Core.Logic.{◌≢◌}
use mathlib.Core.List.{List, [], ◌∷◌, ◌++◌}
use biglab.Base.Lists.{Fresh, Distinct}

pub Fresh-middle :
    (u x : ℕ) (us xs : List ℕ) → Fresh u (us ++ (x ∷ xs)) → (u ≢ x) × Fresh u (us ++ xs)
Fresh-middle u x [] xs f = f
Fresh-middle u x (y ∷ us) xs (ne, f) = let (a, b) = Fresh-middle u x us xs f in (a, (ne, b))

pub Fresh-insert :
    (u x : ℕ) (us xs : List ℕ) → u ≢ x → Fresh u (us ++ xs) → Fresh u (us ++ (x ∷ xs))
Fresh-insert u x [] xs ne f = (ne, f)
Fresh-insert u x (y ∷ us) xs ne (ny, f) = (ny, Fresh-insert u x us xs ne f)

-- The first entry of the second list moves to the front of the first.
pub Distinct-gives :
    (x : ℕ) (us xs : List ℕ) → Distinct (us ++ (x ∷ xs)) → Distinct ((x ∷ us) ++ xs)
Distinct-gives x [] xs d = d
Distinct-gives x (u ∷ us) xs (f, d) =
    let (ne, g) = Fresh-middle u x us xs f in
    let (h, e) = Distinct-gives x us xs d in (((λ q. ne (sym q)), h), (g, e))

pub Distinct-insert :
    (x : ℕ) (us xs : List ℕ) → Fresh x (us ++ xs) → Distinct (us ++ xs) → Distinct (us ++ (x ∷ xs))
Distinct-insert x [] xs f d = (f, d)
Distinct-insert x (u ∷ us) xs (ne, f) (g, d) =
    (Fresh-insert u x us xs (λ q. ne (sym q)) g, Distinct-insert x us xs f d)

pub Fresh-append_right : (u : ℕ) (us xs : List ℕ) → Fresh u (us ++ xs) → Fresh u xs
Fresh-append_right u [] xs f = f
Fresh-append_right u (y ∷ us) xs (ne, f) = Fresh-append_right u us xs f
