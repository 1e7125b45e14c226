-- ===== src/Copy/Pages.antt =====
-- `uvm_copyin` (mem/uvm.c) for a whole number of pages, from any address on.
use biglab.Base.{
  ℕ, zero, suc, ◌+◌, ◌-◌, ◌*◌, ◌%◌, ◌≤◌, ◌<◌, ◌≡◌, refl, sym, ◌∙◌, ◌⊎◌, true, some, arith, le→ltb,
  lt→ltb,
}
use mathlib.Core.Path.{subst}
use native.Mathlib.Decide.{ℕ_discrete}
use biglab.Base.Word.{va_max, add64, sub64}
use biglab.Base.Outcome.{ok}
use biglab.Memory.{Mem, load64, memmove}
use biglab.Memory.Blocks.{memmove_apart, memmove_out}
use biglab.Memory.Words.{load64-congr}
use biglab.Machine.{Machine}
use biglab.Kvm.{is_v, is_u, pte_to_pa}
use biglab.Kvm.Walk.{entry_at, Path3}
use biglab.Copy.{any_entry, uvm_copyin}
use biglab.Copy.Partial.{page_of, page_of-mapped, user_page-pure}

-- The run of `n` pages from `base` on, of which the copy begins `o` bytes behind the first page's
-- beginning.
module _ (root base o : ℕ) (t1 t0 : ℕ → ℕ) (dst n : ℕ) where
  abbrev word : ℕ → ℕ
  word j = entry_at (t0 j) (base + j * 4096) 0

  abbrev pub frame : Mem → ℕ → ℕ
  frame mem j = pte_to_pa (load64 mem (word j))

  -- Neither the word nor the page lies in the `n` pages from `dst` on.
  abbrev Away : ℕ → ℕ → Type 0
  Away b size = (b + size ≤ dst) ⊎ (dst + n * 4096 ≤ b)

  -- The pages are mapped for the user, and neither they nor the entries on the way overlap the
  -- buffer.
  pub record PagesAt (mem : Mem) : Type 0 where
    pub aligned : base % 4096 ≡ 0
    pub inside : o < 4096
    pub below : base + n * 4096 ≤ va_max
    pub path : (j : ℕ) → j < n → Path3 mem root (base + j * 4096) (t1 j) (t0 j)
    pub valid : (j : ℕ) → j < n → is_v (load64 mem (word j)) ≡ true
    pub user : (j : ℕ) → j < n → is_u (load64 mem (word j)) ≡ true
    pub bytes : (j i : ℕ) → j < n → i < 4096 → mem (frame mem j + i) < 256
    pub away_first : (j : ℕ) → j < n → Away (entry_at root (base + j * 4096) 2) 8
    pub away_second : (j : ℕ) → j < n → Away (entry_at (t1 j) (base + j * 4096) 1) 8
    pub away_word : (j : ℕ) → j < n → Away (word j) 8
    pub away_page : (j : ℕ) → j < n → Away (frame mem j) 4096

  -- Of each of the first `c` pages the bytes from `o` on have been copied, to the beginning of a
  -- page of the buffer; the last `o` bytes of that page are as before.
  pub record PagesCopied (m m' : Machine) (c : ℕ) : Type 0 where
    pub buffer :
        (j i : ℕ)
        → j < c
        → i < 4096 - o
        → m'.mem (dst + j * 4096 + i) ≡ m.mem (frame m.mem j + o + i)
    pub gaps :
        (j i : ℕ)
        → j < c
        → 4096 - o ≤ i
        → i < 4096
        → m'.mem (dst + j * 4096 + i) ≡ m.mem (dst + j * 4096 + i)
    pub same : (b : ℕ) → (b < dst) ⊎ (dst + c * 4096 ≤ b) → m'.mem b ≡ m.mem b

  word_kept :
      (m m' : Machine) (c w : ℕ)
      → c ≤ n
      → PagesCopied m m' c
      → Away w 8
      → load64 m'.mem w ≡ load64 m.mem w
  word_kept m m' c w le k out = load64-congr m'.mem m.mem w λ i lt. k.same (w + i) (omega arith)

  page_of-run :
      (m m' : Machine) (c : ℕ)
      → c < n
      → PagesAt m.mem
      → PagesCopied m m' c
      → page_of any_entry root (base + o + c * 4096) m' ≡ some (frame m.mem c)
  page_of-run m m' c lt s k =
      let al = s.aligned in
      let inside = s.inside in
      let le : c ≤ n = omega arith in
      page_of-mapped root (base + o + c * 4096) (base + c * 4096) (t1 c) (t0 c) m.mem m'
        (omega arith) (s.path c lt) (word_kept m m' c _ le k (s.away_first c lt))
        (word_kept m m' c _ le k (s.away_second c lt)) (word_kept m m' c _ le k (s.away_word c lt))
        (s.valid c lt) (s.user c lt)

  abbrev stepped : Machine → ℕ → ℕ → Machine
  stepped m' c from = record m' { mem = memmove m'.mem (dst + c * 4096) (from + o) (4096 - o) }

  PagesCopied-next :
      (m m' : Machine) (c : ℕ)
      → c < n
      → PagesAt m.mem
      → PagesCopied m m' c
      → PagesCopied m (stepped m' c (frame m.mem c)) (suc c)
  PagesCopied-next m m' c lt s k =
      let inside = s.inside in
      let from = frame m.mem c in
      let away : Away from 4096 = s.away_page c lt in
      let out : (b : ℕ)
          → (b < dst + c * 4096) ⊎ (dst + c * 4096 + (4096 - o) ≤ b)
          → memmove m'.mem (dst + c * 4096) (from + o) (4096 - o) b ≡ m'.mem b =
        memmove_out (4096 - o) m'.mem (dst + c * 4096) (from + o) in
      let old : (i : ℕ) → i < 4096 - o → m'.mem (from + o + i) ≡ m.mem (from + o + i) =
        λ i small. k.same (from + o + i) (omega arith) in
      let bytes : (i : ℕ) → i < 4096 - o → m'.mem (from + o + i) < 256 = λ i small.
        let e : from + o + i ≡ from + (o + i) = omega arith in
        rw (old i small, e) (s.bytes c (o + i) lt (omega arith)) in
      record {
        buffer = λ j i before small. elim (ℕ_discrete j c) [
          | yes e ↦ rw e (
              memmove_apart (4096 - o) m'.mem (dst + c * 4096) (from + o) i (omega arith) bytes
                small
              ∙ old i small)
          | no ne ↦ out (dst + j * 4096 + i) (omega arith) ∙ k.buffer j i (omega arith) small
        ];
        gaps = λ j i before big small. elim (ℕ_discrete j c) [
          | yes e ↦
              rw e
                (out (dst + c * 4096 + i) (omega arith) ∙ k.same (dst + c * 4096 + i) (omega arith))
          | no ne ↦ out (dst + j * 4096 + i) (omega arith) ∙ k.gaps j i (omega arith) big small
        ];
        same = λ b far. out b (omega arith) ∙ k.same b (omega arith);
      }

  -- One round.
  uvm_copyin-step :
      (k r c : ℕ) (m m' : Machine)
      → c + suc r ≡ n
      → PagesAt m.mem
      → PagesCopied m m' c
      → uvm_copyin (suc k) root (dst + c * 4096) (base + o + c * 4096) (suc r * 4096) m'
        ≡ uvm_copyin k root
            (dst + suc c * 4096)
            (base + o + suc c * 4096)
            (r * 4096)
            (stepped m' c (frame m.mem c))
  unfolding uvm_copyin
  uvm_copyin-step k r c m m' at s d =
      let lt : c < n = omega arith in
      let al = s.aligned in
      let inside = s.inside in
      let below = s.below in
      let offset : (base + o + c * 4096) % 4096 ≡ o = omega arith in
      let to : dst + c * 4096 + 4096 ≡ dst + suc c * 4096 = omega arith in
      let from : add64 (base + o + c * 4096) 4096 ≡ base + o + suc c * 4096 = omega arith in
      let left : sub64 (suc r * 4096) 4096 ≡ r * 4096 = omega arith in
      rw
        (
          lt→ltb 0 (suc r * 4096) (omega arith),
          user_page-pure any_entry root (base + o + c * 4096) m',
          page_of-run m m' c lt s d,
          offset,
          le→ltb (suc r * 4096) (4096 - o) (omega arith),
        )
        (rw (to, from, left) refl)

  uvm_copyin-PagesCopied :
      (k r c : ℕ) (m m' : Machine)
      → c + r ≡ n
      → PagesAt m.mem
      → PagesCopied m m' c
      → r < k
      → (m2 : Machine) × (uvm_copyin k root (dst + c * 4096) (base + o + c * 4096) (r * 4096) m'
          ≡ ok (0, m2))
        × PagesCopied m m2 n
  unfolding uvm_copyin
  uvm_copyin-PagesCopied zero r c m m' at s d lt = absurd (omega arith)
  uvm_copyin-PagesCopied (suc k) zero c m m' at s d lt =
      (m', refl, subst (PagesCopied m m') (omega arith) d)
  uvm_copyin-PagesCopied (suc k) (suc r) c m m' at s d lt =
      let (m2, runs, done) =
        uvm_copyin-PagesCopied k r (suc c) m (stepped m' c (frame m.mem c)) (omega arith) s
          (PagesCopied-next m m' c (omega arith) s d) (omega arith) in
      (m2, uvm_copyin-step k r c m m' at s d ∙ runs, done)

  -- For `n` pages that are mapped for the user, from `base` on, where neither the pages nor
  -- the entries on the way to them overlap the buffer of `n` pages, an offset `o` below
  -- PGSIZE, and more than `n` rounds: `uvm_copyin` of `n * PGSIZE` bytes from `base + o` on
  -- returns 0. The first PGSIZE - o bytes of each page of the buffer are then those from the
  -- offset on of the same page of the user, and the other `o` bytes, as every byte outside the
  -- buffer, are as before, so that the buffer holds what was asked for only for `o` = 0.
  pub uvm_copyin-pages :
      (k : ℕ) (m : Machine)
      → n < k
      → PagesAt m.mem
      → (m' : Machine) × (uvm_copyin k root dst (base + o) (n * 4096) m ≡ ok (0, m'))
        × PagesCopied m m' n
  uvm_copyin-pages k m fuel s =
      let to : dst + 0 * 4096 ≡ dst = omega arith in
      let from : base + o + 0 * 4096 ≡ base + o = omega arith in
      let (m', runs, done) =
        uvm_copyin-PagesCopied k n 0 m m (omega arith) s
          (record {
            buffer = λ j i lt. absurd (omega arith);
            gaps = λ j i lt. absurd (omega arith);
            same = λ b out. refl;
          })
          fuel in
      (m', rw (sym to, sym from) runs, done)
