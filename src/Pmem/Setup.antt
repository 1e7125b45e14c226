-- ===== src/Pmem/Setup.antt =====
-- `region_setup` builds the free list of a region.
use biglab.Base.{
  ℕ, zero, suc, ◌+◌, ◌-◌, ◌*◌, ◌/◌, ◌≤◌, ◌<◌, ◌≡◌, refl, ◌⊎◌, ◌∙◌, true, false, List, [], ◌∷◌,
  arith, leb, le→leb, lt→leb, length, Fresh,
}
use mathlib.Core.Path.{subst}
use native.Mathlib.Decide.{dec_lt}
use biglab.Base.Word.{pgsize, u32, add64}
use biglab.Base.Outcome.{Outcome, ok}
use biglab.Lock.{spinlock_init}
use biglab.Memory.{Mem, store64}
use biglab.Memory.Words.{store64_out}
use biglab.Machine.{Region}
use biglab.Pmem.{setup_loop, region_setup}
use biglab.Pmem.Pages.{IsRegion, FreePages}
use biglab.Pmem.Free.{FreePages-store64}

-- The pages of `[begin, begin + n * 4096)`, the last one first.
unfoldable pub pages_down : ℕ → ℕ → List ℕ
pages_down begin zero = []
pages_down begin (suc n) = (begin + n * 4096) ∷ pages_down begin n

Fresh-pages_down : (begin i j : ℕ) → j ≤ i → Fresh (begin + i * 4096) (pages_down begin j)
unfolding pages_down
Fresh-pages_down begin i zero h = tt
Fresh-pages_down begin i (suc j) h = (omega arith, Fresh-pages_down begin i j (omega arith))

pub length-pages_down : (begin n : ℕ) → length (pages_down begin n) ≡ n
unfolding pages_down
length-pages_down begin zero = refl
length-pages_down begin (suc n) = omega (arith, length-pages_down begin n)

abbrev pub region : ℕ → ℕ → ℕ → ℕ → Region
region begin end h n = record {
  begin = begin;
  end = end;
  lk = spinlock_init;
  allocable = n;
  head = h;
}

-- The bytes outside the range are as before.
abbrev pub SameOutside : ℕ → ℕ → Mem → Mem → Type 0
SameOutside begin end mem mem' = (b : ℕ) → (b < begin) ⊎ (end ≤ b) → mem' b ≡ mem b

-- A run from memory `mem` that ends with all `n` pages on the list.
abbrev Builds : ℕ → ℕ → ℕ → Mem → Outcome (Mem × ℕ × ℕ) → Type 0
Builds begin end n mem out =
    (mem' : Mem) × (h : ℕ) × (c : ℕ) × (out ≡ ok (mem', h, c))
    × FreePages mem' (region begin end h c) (pages_down begin n)
    × SameOutside begin end mem mem'

Builds-from :
    (begin end n : ℕ) (mem mem1 : Mem) (out : Outcome (Mem × ℕ × ℕ))
    → SameOutside begin end mem mem1
    → Builds begin end n mem1 out
    → Builds begin end n mem out
Builds-from begin end n mem mem1 out same (mem', h, c, e, f, same') =
    (mem', h, c, e, f, λ b far. same' b far ∙ same b far)

module _ (begin end n : ℕ) (ir : IsRegion (region begin end 0 0)) (e : begin + n * 4096 ≡ end) where
  -- The region's bounds hold whatever its head and count are.
  kept : (h c : ℕ) → IsRegion (region begin end h c)
  kept h c = omega arith

  -- From the state after `i` pages the loop links the other ones.
  setup_loop-FreePages :
      (k i h c : ℕ) (mem : Mem)
      → i ≤ n
      → n < i + k
      → FreePages mem (region begin end h c) (pages_down begin i)
      → Builds begin end n mem (setup_loop k end (begin + i * 4096) mem h c)
  unfolding setup_loop pages_down
  setup_loop-FreePages zero i h c mem le fuel f = absurd (omega arith)
  setup_loop-FreePages (suc k) i h c mem le fuel f = elim (dec_lt i n) [
    | yes lt ↦
        let more : leb (add64 (begin + i * 4096) pgsize) end ≡ true = le→leb _ _ (omega arith) in
        let to : add64 (begin + i * 4096) pgsize ≡ begin + suc i * 4096 = omega arith in
        rw (more, to)
          (Builds-from begin end n mem (store64 mem (begin + i * 4096) h) _
            (λ b out. store64_out mem (begin + i * 4096) h b (omega arith))
            (setup_loop-FreePages k (suc i) (begin + i * 4096) (u32 (c + 1)) _ lt (omega arith) (
              FreePages-store64 mem (region begin end h c) (begin + i * 4096) (pages_down begin i)
                (kept h c) f
                (record { aligned = omega arith; above = omega arith; below = omega arith })
                (Fresh-pages_down begin i i (omega arith)))))
    | no ge ↦
        let last : leb (add64 (begin + i * 4096) pgsize) end ≡ false = lt→leb _ _ (omega arith) in
        let all : i ≡ n = omega arith in
        (
          mem,
          h,
          c,
          rw last refl,
          subst (λ j. FreePages mem (region begin end h c) (pages_down begin j)) all f,
          λ b out. refl,
        )
  ]

none_free : (mem : Mem) (begin end : ℕ) → FreePages mem (region begin end 0 0) (pages_down begin 0)
unfolding pages_down
none_free mem begin end = record {
  chain = refl;
  pages = tt;
  distinct = tt;
  count = refl;
  lk_free = refl;
}

-- Given one round more than the pages of a region that does not reach the end of the address space,
-- `region_setup` ends with every page of the region on its free list, each once.
pub region_setup-FreePages :
    (mem : Mem) (begin end : ℕ)
    → begin < end
    → IsRegion (region begin end 0 0)
    → (mem' : Mem) × (r : Region) × (region_setup ((end - begin) / 4096 + 1) mem begin end
        ≡ ok (mem', r))
      × (r.begin ≡ begin)
      × (r.end ≡ end)
      × FreePages mem' r (pages_down begin ((end - begin) / 4096))
      × SameOutside begin end mem mem'
unfolding region_setup
region_setup-FreePages mem begin end lt ir =
    let (mem', h, c, e, f, same) =
      setup_loop-FreePages begin end n ir (omega arith) (n + 1) 0 0 0 mem (omega arith)
        (omega arith) (none_free mem begin end) in
    let e' : setup_loop (n + 1) end begin mem 0 0 ≡ ok (mem', h, c) =
      subst (λ a. setup_loop (n + 1) end a mem 0 0 ≡ ok (mem', h, c)) first e in
    let off : leb end begin ≡ false = lt→leb end begin lt in
    (mem', region begin end h c, runs off e', refl, refl, f, same)
  where
    n : ℕ
    n = (end - begin) / 4096

    first : begin + 0 * 4096 ≡ begin
    first = omega arith

    runs :
        {mem' : Mem} {h c : ℕ}
        → leb end begin ≡ false
        → setup_loop (n + 1) end begin mem 0 0 ≡ ok (mem', h, c)
        → region_setup (n + 1) mem begin end ≡ ok (mem', region begin end h c)
    runs off e = rw (off, e)
