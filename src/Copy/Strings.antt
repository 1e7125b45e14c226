-- ===== src/Copy/Strings.antt =====
-- `uvm_copyin_str` (mem/uvm.c) where the whole string is mapped.
use biglab.Base.{
  ℕ, zero, suc, ◌+◌, ◌-◌, ◌*◌, ◌/◌, ◌%◌, ◌^◌, ◌≤◌, ◌<◌, ◌≡◌, refl, sym, ◌∙◌, ◌⊎◌, ap, ◌≢◌, true,
  some, arith, ne→==, eq→==, update,
}
use mathlib.Core.Path.{subst}
use native.Mathlib.Decide.{ℕ_discrete}
use biglab.Base.Word.{va_max, add64}
use biglab.Base.Outcome.{ok}
use biglab.Memory.{Mem, load64, memmove, store8}
use biglab.Memory.Words.{load64-congr}
use biglab.Machine.{Machine}
use biglab.Kvm.{is_v, is_u, pte_to_pa}
use biglab.Kvm.Walk.{entry_at, Path3}
use biglab.Copy.{any_entry, copyin_str_from, uvm_copyin_str}
use biglab.Copy.Partial.{page_of, page_of-mapped, user_page-pure}

module _ (root base : ℕ) (t1 t0 : ℕ → ℕ) (src dst len : ℕ) where
  -- The page of a byte of the string in the run from `base` on, and its address.
  abbrev page : ℕ → ℕ
  page i = (src + i - base) / 4096

  abbrev word : ℕ → ℕ
  word i = entry_at (t0 (page i)) (base + page i * 4096) 0

  abbrev pub place : Mem → ℕ → ℕ
  place mem i = pte_to_pa (load64 mem (word i)) + (src + i) % 4096

  -- Neither the word nor the byte lies in the `len + 1` bytes from `dst` on.
  abbrev Away : ℕ → ℕ → Type 0
  Away b size = (b + size ≤ dst) ⊎ (dst + len < b)

  -- The string is `len` bytes that are not 0 and a 0, from `src` on; its pages are mapped for the
  -- user, and neither they nor the entries on the way overlap the buffer.
  pub record StringAt (mem : Mem) : Type 0 where
    pub aligned : base % 4096 ≡ 0
    pub above : base ≤ src
    pub below : src + len < va_max
    pub path : (i : ℕ) → i ≤ len → Path3 mem root (base + page i * 4096) (t1 (page i)) (t0 (page i))
    pub valid : (i : ℕ) → i ≤ len → is_v (load64 mem (word i)) ≡ true
    pub user : (i : ℕ) → i ≤ len → is_u (load64 mem (word i)) ≡ true
    pub bytes : (i : ℕ) → i < len → mem (place mem i) ≢ 0
    pub ends : mem (place mem len) ≡ 0
    pub small : (i : ℕ) → i ≤ len → mem (place mem i) < 256
    pub away_first : (i : ℕ) → i ≤ len → Away (entry_at root (base + page i * 4096) 2) 8
    pub away_second : (i : ℕ) → i ≤ len → Away (entry_at (t1 (page i)) (base + page i * 4096) 1) 8
    pub away_word : (i : ℕ) → i ≤ len → Away (word i) 8
    pub away_byte : (i : ℕ) → i ≤ len → Away (place mem i) 1

  -- The first `c` bytes have been copied.
  pub record Copied (m m' : Machine) (c : ℕ) : Type 0 where
    pub buffer : (i : ℕ) → i < c → m'.mem (dst + i) ≡ m.mem (place m.mem i)
    pub same : (b : ℕ) → (b < dst) ⊎ (dst + c ≤ b) → m'.mem b ≡ m.mem b

  word_kept :
      (m m' : Machine) (c w : ℕ)
      → c ≤ len
      → Copied m m' c
      → Away w 8
      → load64 m'.mem w ≡ load64 m.mem w
  word_kept m m' c w le k out = load64-congr m'.mem m.mem w λ i lt. k.same (w + i) (omega arith)

  page_of-run :
      (m m' : Machine) (c : ℕ)
      → c ≤ len
      → StringAt m.mem
      → Copied m m' c
      → page_of any_entry root (src + c) m' ≡ some (pte_to_pa (load64 m.mem (word c)))
  page_of-run m m' c le s k =
      let al = s.aligned in
      let ab = s.above in
      page_of-mapped root (src + c) (base + page c * 4096) (t1 (page c)) (t0 (page c)) m.mem m'
        (omega arith) (s.path c le) (word_kept m m' c _ le k (s.away_first c le))
        (word_kept m m' c _ le k (s.away_second c le)) (word_kept m m' c _ le k (s.away_word c le))
        (s.valid c le) (s.user c le)

  abbrev stepped : Machine → ℕ → ℕ → Machine
  stepped m' c from = record m' { mem = store8 m'.mem (dst + c) (m'.mem from) }

  Copied-next :
      (m m' : Machine) (c : ℕ)
      → c ≤ len
      → StringAt m.mem
      → Copied m m' c
      → Copied m (stepped m' c (place m.mem c)) (suc c)
  Copied-next m m' c le s k =
      let from : m'.mem (place m.mem c) ≡ m.mem (place m.mem c) =
        k.same (place m.mem c) (let o = s.away_byte c le in omega arith) in
      record {
        buffer = λ i lt. elim (ℕ_discrete c i) [
          | yes e ↦
              subst
                (λ j.
                  update m'.mem (dst + c) (m'.mem (place m.mem c) % 256) (dst + j)
                  ≡ m.mem (place m.mem j))
                e
                (rw (eq→== (dst + c) (dst + c) refl, from)
                  (let small = s.small c le in omega arith))
          | no ne ↦
              rw (ne→== (dst + c) (dst + i) (λ q. ne (omega arith))) (k.buffer i (omega arith))
        ];
        same = λ b out. rw (ne→== (dst + c) b (λ q. absurd (omega arith))) (k.same b (omega arith));
      }

  -- The byte that a round has copied.
  same_byte :
      (m m' : Machine) (c : ℕ)
      → c ≤ len
      → StringAt m.mem
      → Copied m m' c
      → (stepped m' c (place m.mem c)).mem (dst + c) ≡ m.mem (place m.mem c)
  same_byte m m' c le s k = Copied.buffer (Copied-next m m' c le s k) c (omega arith)

  -- A round whose byte is not 0.
  copyin_str_from-step :
      (n c : ℕ) (m m' : Machine)
      → c < len
      → StringAt m.mem
      → Copied m m' c
      → copyin_str_from (suc n) root (dst + c) (src + c) c m'
        ≡ copyin_str_from n root (dst + suc c) (src + suc c) (suc c) (stepped m' c (place m.mem c))
  unfolding copyin_str_from memmove
  copyin_str_from-step n c m m' lt s k =
      let le : c ≤ len = omega arith in
      let below = s.below in
      let to : dst + c + 1 ≡ dst + suc c = omega arith in
      let from : add64 (src + c) 1 ≡ src + suc c = omega arith in
      let count : c + 1 ≡ suc c = omega arith in
      rw
        (
          user_page-pure any_entry root (src + c) m',
          page_of-run m m' c le s k,
          same_byte m m' c le s k,
          ne→== (m.mem (place m.mem c)) 0 (s.bytes c lt),
        )
        (rw (to, from, count) refl)

  copyin_str_from-Copied :
      (n r c : ℕ) (m m' : Machine)
      → c + r ≡ len
      → StringAt m.mem
      → Copied m m' c
      → r < n
      → (m2 : Machine) × (copyin_str_from n root (dst + c) (src + c) c m' ≡ ok (len + 1, m2))
        × Copied m m2 (len + 1)
  unfolding copyin_str_from memmove
  copyin_str_from-Copied zero r c m m' at s k lt = absurd (omega arith)
  copyin_str_from-Copied (suc n) zero c m m' at s k lt =
      let e : c ≡ len = omega arith in
      let zero_byte : m.mem (place m.mem c) ≡ 0 = ap (λ j. m.mem (place m.mem j)) e ∙ s.ends in
      let le : c ≤ len = omega arith in
      let m2 = stepped m' c (place m.mem c) in
      let last = Copied-next m m' c le s k in
      (
        m2,
        rw
            (
              user_page-pure any_entry root (src + c) m',
              page_of-run m m' c le s k,
              same_byte m m' c le s k,
              zero_byte,
            )
            (rw e refl),
        subst (λ j. Copied m m2 j) (omega arith) last,
      )
  copyin_str_from-Copied (suc n) (suc r) c m m' at s k lt =
      let le : c ≤ len = omega arith in
      let (m2, runs, done) =
        copyin_str_from-Copied n r (suc c) m (stepped m' c (place m.mem c)) (omega arith) s
          (Copied-next m m' c le s k) (omega arith) in
      (m2, copyin_str_from-step n c m m' (omega arith) s k ∙ runs, done)

  -- For a string of `len` bytes that are not 0 and a 0 behind them, over pages that are mapped
  -- for the user, where neither the pages nor the entries on the way to them overlap the
  -- buffer, and a limit above `len`, with `len + 1` an int: `uvm_copyin_str` returns `len +
  -- 1`, the buffer holds the string with its 0, and no other byte changes.
  pub uvm_copyin_str-copies :
      (max : ℕ) (m : Machine)
      → len < max
      → len + 1 < 2 ^ 31
      → StringAt m.mem
      → (m' : Machine) × (uvm_copyin_str root dst src max m ≡ ok (len + 1, m'))
        × Copied m m' (len + 1)
  unfolding uvm_copyin_str
  uvm_copyin_str-copies max m fits short s =
      let to : dst + 0 ≡ dst = omega arith in
      let from : src + 0 ≡ src = omega arith in
      let (m', runs, done) =
        copyin_str_from-Copied max len 0 m m (omega arith) s
          (record { buffer = λ i lt. absurd (omega arith); same = λ b out. refl }) fits in
      (m', rw (sym to, sym from) runs, done)
