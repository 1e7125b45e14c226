-- ===== src/Boot/Program.antt =====
-- `proc_make_first` from the page of the program on, up to its mapping.
use biglab.Base.{ℕ, ◌+◌, ◌*◌, ◌≤◌, ◌<◌, ◌≡◌, refl, ◌≢◌, ◌⊎◌, ◌∙◌, ap, false, List, ◌∷◌, arith}
use biglab.Base.Word.{pgsize, user_base}
use biglab.Base.Outcome.{ok}
use biglab.Memory.{load64, store64, memmove}
use biglab.Memory.Words.{load64-store64_self, load64-store64_ne, load64-congr, store64_out}
use biglab.Memory.Blocks.{memset_in, memset_out, memmove_out, memmove_apart}
use biglab.Machine.{Machine}
use biglab.Pmem.{pmem_alloc}
use biglab.Pmem.Pages.{IsPage-bounds, All-apart}
use biglab.Kvm.{make_pte, is_v, vm_mappages}
use biglab.Kvm.Entry.{make_pte_fields}
use biglab.Kvm.Walk.{entry_at, Path3}
use biglab.Kvm.Apart.{Path3-congr}
use biglab.Kvm.Build.{Clear, vm_getpte-builds}
use biglab.Kvm.OnePage.{vm_mappages-one}
use biglab.Boot.UserEntries.{cleared, word_zero}
use biglab.Boot.Prepared.{Prepared, take_user, Clear-far, Prepared-touch}

module _ (n : Machine) (root x y code src size : ℕ) where
  abbrev copied : Machine → Machine
  copied m6 = record (cleared m6 code) { mem = memmove (cleared m6 code).mem code src size }

  -- The page holds the program, and the table leads to it over new tables with no other entry.
  pub record Programs (m' : Machine) : Type 0 where
    pub m6 : Machine
    pub takes : pmem_alloc false n ≡ ok (code, m6)
    pub maps : vm_mappages root user_base code pgsize 26 (copied m6) ≡ ok (tt, m')
    pub path : Path3 m'.mem root user_base x y
    pub has : load64 m'.mem (entry_at y user_base 0) ≡ make_pte code 26
    pub only_second : (i : ℕ) → i < 512 → i ≢ 0 → load64 m'.mem (x + 8 * i) ≡ 0
    pub only : (i : ℕ) → i < 512 → i ≢ 1 → load64 m'.mem (y + 8 * i) ≡ 0
    pub same :
        (b : ℕ)
        → (b < code) ⊎ (code + 4096 ≤ b)
        → (b < x) ⊎ (x + 4096 ≤ b)
        → (b < y) ⊎ (y + 4096 ≤ b)
        → (b < root) ⊎ (root + 8 ≤ b)
        → m'.mem b ≡ n.mem b
    pub program : (i : ℕ) → i < size → m'.mem (code + i) ≡ n.mem (src + i)
    pub rest : (i : ℕ) → size ≤ i → i < 4096 → m'.mem (code + i) ≡ 0

  module _ (ks us : List ℕ) (p : Prepared n (x ∷ y ∷ ks) (code ∷ us))
      (c_root : Clear root (x ∷ y ∷ ks)) (away : (code + 4096 ≤ root) ⊎ (root + 4096 ≤ code))
      (empty : load64 n.mem (root + 8 * 0) ≡ 0) (fits : size ≤ 4096)
      (src_apart : (code + 4096 ≤ src) ⊎ (src + size ≤ code))
      (bytes : (i : ℕ) → i < size → n.mem (src + i) < 256) where
    apart_code : Clear code (x ∷ y ∷ ks)
    apart_code =
        let away' : (n.user.end ≤ n.kern.begin) ⊎ (n.kern.end ≤ n.user.begin) =
          omega (arith, p.apart) in
        Clear-far n.user n.kern code (x ∷ y ∷ ks) p.user p.kern away' p.user_free.pages.0
          p.kern_free.pages

    apart_us : Clear code us
    apart_us = let f = p.user_free in All-apart n.user code us f.pages.0 f.pages.1 f.distinct.0

    copied_out :
        (m6 : Machine) (b : ℕ) → (b < code) ⊎ (code + 4096 ≤ b) → (copied m6).mem b ≡ m6.mem b
    copied_out m6 b out =
        memmove_out size (cleared m6 code).mem code src b (omega arith)
        ∙ memset_out m6.mem code 0 4096 b out

    pub programs : (m' : Machine) × Programs m'
    programs =
        let ic = p.user_free.pages.0 in
        let bounds = IsPage-bounds n.user code p.user ic in
        let x_y =
          All-apart n.kern x (y ∷ ks) p.kern_free.pages.0 p.kern_free.pages.1
            p.kern_free.distinct.0 in
        let (m6, takes, a6, p6) = take_user n code (x ∷ y ∷ ks) us p in
        let m8 = copied m6 in
        let p8 =
          Prepared-touch m6 m8 code (x ∷ y ∷ ks) us (copied_out m6) refl refl apart_code apart_us
            p6 in
        let root_kept : load64 m8.mem (root + 8 * 0) ≡ load64 n.mem (root + 8 * 0) =
          load64-congr m8.mem n.mem (root + 8 * 0)
            λ i k. copied_out m6 _ (omega arith) ∙ a6.same _ (omega arith) in
        let (m9, found, b) =
          vm_getpte-builds m8 root user_base x y ks (omega arith)
            (ap is_v (root_kept ∙ empty) ∙ refl) p8.kern p8.kern_low p8.kern_free c_root in
        let entry = entry_at y user_base 0 in
        let m10 = record m9 { mem = store64 m9.mem entry (make_pte code 26) } in
        let out : (w : ℕ) → (w < y + 8) ⊎ (y + 16 ≤ w) → m10.mem w ≡ m9.mem w =
          λ w o. store64_out m9.mem entry (make_pte code 26) w (omega arith) in
        let page : (i : ℕ) → i < 4096 → m10.mem (code + i) ≡ m8.mem (code + i) = λ i k.
          out (code + i) (omega (arith, apart_code))
          ∙ b.same (code + i) (omega (arith, apart_code)) (omega (arith, apart_code))
              (omega arith) in
        let source : (j : ℕ) → j < size → (cleared m6 code).mem (src + j) ≡ n.mem (src + j) = λ j k.
          memset_out m6.mem code 0 4096 (src + j) (omega arith) ∙ a6.same (src + j) (omega arith) in
        (
          m10,
          record {
            m6 = m6;
            takes = takes;
            maps =
                vm_mappages-one m8 m9 root user_base code 26 entry (omega arith) ic.aligned
                  (omega arith) found;
            path =
                Path3-congr m9.mem m10.mem root user_base x y
                  (load64-congr _ _ _ λ i k. out _ (omega (arith, c_root)))
                  (load64-congr _ _ _ λ i k. out _ (omega (arith, x_y))) b.path;
            has =
                load64-store64_self m9.mem entry (make_pte code 26)
                  (make_pte_fields code 26 (omega (arith, p.user_low)) ic.aligned (omega arith)).3;
            only_second = λ i k ne.
                load64-store64_ne m9.mem entry (x + 8 * i) (make_pte code 26) (omega (arith, x_y))
                ∙ word_zero m9.mem x i (λ j lo hi. b.rest j (omega arith) (omega arith));
            only = λ i k ne.
                load64-store64_ne m9.mem entry (y + 8 * i) (make_pte code 26) (omega arith)
                ∙ word_zero m9.mem y i (λ j lo hi. b.empty j (omega arith));
            same = λ w o1 o2 o3 o4.
                out w (omega arith)
                ∙ b.same w o2 o3 (omega arith)
                ∙ copied_out m6 w o1
                ∙ a6.same w o1;
            program = λ i k.
                page i (omega arith)
                ∙ memmove_apart size (cleared m6 code).mem code src i (omega arith)
                    (λ j lt. rw (source j lt) (bytes j lt)) k
                ∙ source i k;
            rest = λ i lo k.
                page i k
                ∙ memmove_out size (cleared m6 code).mem code src (code + i) (omega arith)
                ∙ memset_in m6.mem code 0 4096 (code + i) (omega arith) (omega arith);
          },
        )
