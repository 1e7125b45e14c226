-- ===== src/Memory/Blocks.antt =====
-- `memset` and `memmove` against what their callers expect of them.
use biglab.Base.{
  ℕ, zero, suc, ◌+◌, ◌%◌, ◌≤◌, ◌<◌, ◌≡◌, refl, ◌∙◌, ◌⊎◌, ap, arith, ◌&&◌, leb, ltb, if◌then◌else◌,
  ne→==,
}
use native.Mathlib.Nat.{add-zero}
use biglab.Memory.{Mem, store8, memset_from, memset, memmove}

memset_from-read :
    (k : ℕ) (mem : Mem) (begin v i a : ℕ)
    → memset_from k mem begin v i a
      ≡ (if leb (begin + i) a && ltb a (begin + i + k) then v % 256 else mem a)
unfolding memset_from
memset_from-read zero mem begin v i a = ground arith
memset_from-read (suc k) mem begin v i a = memset_from-read k _ begin v (i + 1) a ∙ ground arith

-- `memset` sets exactly the `n` bytes from `begin` on to the byte `v`, and no other.
pub memset_lem :
    (mem : Mem) (begin v n a : ℕ)
    → memset mem begin v n a ≡ (if leb begin a && ltb a (begin + n) then v % 256 else mem a)
unfolding memset
memset_lem mem begin v n a = memset_from-read n mem begin v 0 a ∙ ground arith

pub memset_in :
    (mem : Mem) (begin v n a : ℕ) → begin ≤ a → a < begin + n → memset mem begin v n a ≡ v % 256
memset_in mem begin v n a h k = ground (arith, memset_lem mem begin v n a)

pub memset_out :
    (mem : Mem) (begin v n a : ℕ) → (a < begin) ⊎ (begin + n ≤ a) → memset mem begin v n a ≡ mem a
memset_out mem begin v n a h = ground (arith, memset_lem mem begin v n a)

-- `memmove` writes no byte outside its destination.
pub memmove_out :
    (n : ℕ) (mem : Mem) (d s a : ℕ) → (a < d) ⊎ (d + n ≤ a) → memmove mem d s n a ≡ mem a
unfolding memmove
memmove_out zero mem d s a h = refl
memmove_out (suc n) mem d s a h = memmove_out n _ (d + 1) (s + 1) a (omega arith) ∙ ground arith

-- Where the destination does not begin inside the source (so that copying forwards is safe), the
-- destination holds afterwards what the source held before.
pub memmove_copies :
    (n : ℕ) (mem : Mem) (d s i : ℕ)
    → (d ≤ s) ⊎ (s + n ≤ d)
    → ((a : ℕ) → mem a < 256)
    → i < n
    → memmove mem d s n (d + i) ≡ mem (s + i)
unfolding memmove
memmove_copies zero mem d s i apart bytes h = absurd (omega arith)
memmove_copies (suc n) mem d s zero apart bytes h =
    memmove_out n _ (d + 1) (s + 1) (d + 0) (omega arith)
    ∙ ground (arith, bytes s, add-zero d, ap mem (add-zero s))
memmove_copies (suc n) mem d s (suc i) apart bytes h =
    ap (memmove (store8 mem d (mem s)) (d + 1) (s + 1) n) to
    ∙ memmove_copies n _ (d + 1) (s + 1) i (omega arith) (λ a. ground (arith, bytes a))
        (omega arith)
    ∙ ground (arith, ap mem from)
  where
    to : d + suc i ≡ d + 1 + i
    to = omega arith

    from : s + suc i ≡ s + 1 + i
    from = omega arith

-- The same where the two blocks do not meet and only the source is known to hold bytes.
pub memmove_apart :
    (n : ℕ) (mem : Mem) (d s i : ℕ)
    → (d + n ≤ s) ⊎ (s + n ≤ d)
    → ((j : ℕ) → j < n → mem (s + j) < 256)
    → i < n
    → memmove mem d s n (d + i) ≡ mem (s + i)
unfolding memmove
memmove_apart zero mem d s i apart bytes h = absurd (omega arith)
memmove_apart (suc n) mem d s zero apart bytes h =
    memmove_out n _ (d + 1) (s + 1) (d + 0) (omega arith)
    ∙ ground (arith, bytes 0, add-zero d, ap mem (add-zero s))
memmove_apart (suc n) mem d s (suc i) apart bytes h =
    let next = store8 mem d (mem s) in
    let same : (j : ℕ) → j < n → next (s + 1 + j) ≡ mem (s + suc j) = λ j k.
      let e : s + 1 + j ≡ s + suc j = omega arith in
      ap next e ∙ rw (ne→== d (s + suc j) (λ q. absurd (omega arith))) in
    let to : d + suc i ≡ d + 1 + i = omega arith in
    ap (memmove next (d + 1) (s + 1) n) to
    ∙ memmove_apart n next (d + 1) (s + 1) i (omega arith)
        (λ j k. rw (same j k) (bytes (suc j) (omega arith))) (omega arith)
    ∙ same i (omega arith)
