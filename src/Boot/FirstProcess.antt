-- ===== src/Boot/FirstProcess.antt =====
-- `proc_make_first` (proc/proc.c): the address space and the trap frame of the first process.
use biglab.Base.{ℕ, ◌+◌, ◌*◌, ◌%◌, ◌^◌, ◌≤◌, ◌<◌, ◌≡◌, refl, ◌∙◌, ◌⊎◌, List, ◌∷◌, arith}
use biglab.Base.Word.{user_base}
use biglab.Base.Outcome.{ok}
use biglab.Memory.{load64}
use biglab.Machine.{Region, Machine}
use biglab.Pmem.Pages.{IsPage, IsPage-bounds, IsRegion, All-apart}
use biglab.Kvm.Apart.{Path3-congr}
use biglab.Kvm.Build.{Clear}
use biglab.Trap.{Symbols}
use biglab.Boot.{Start, proc_make_first}
use biglab.Boot.Frame.{filled, filled_out, Frame, filled-Frame}
use biglab.Boot.Make.{code_size, made, ready, leaving, make-runs}
use biglab.Boot.AddressSpace.{AddressSpace, StackTable-AddressSpace, word_same}
use biglab.Boot.Program.{Programs, programs}
use biglab.Boot.Prepared.{Prepared, Clear-far}
use biglab.Boot.Stacked.{Stacked, stacks}

module _ (m : Machine) (s : Symbols) (st : Start) (tf root x y x2 y2 stack code : ℕ)
    (ks us : List ℕ) (h : Prepared m (tf ∷ root ∷ x ∷ y ∷ x2 ∷ y2 ∷ ks) (stack ∷ code ∷ us)) where
  -- The process, its address space and its trap frame; the page of the program holds the program
  -- and zeros behind it.
  pub record Made (m' : Machine) : Type 0 where
    pub proc : m'.proc ≡ made s st tf root
    pub space : AddressSpace m'.mem root x y x2 y2 s.trampoline tf stack code
    pub frame : Frame st tf m'.mem
    pub program : (i : ℕ) → i < code_size st → m'.mem (code + i) ≡ m.mem (st.initcode + i)
    pub rest : (i : ℕ) → code_size st ≤ i → i < 4096 → m'.mem (code + i) ≡ 0

  apart_word :
      (r : Region) (p i : ℕ)
      → IsRegion r
      → IsPage r p
      → (r.end ≤ st.initcode) ⊎ (st.initcode + code_size st ≤ r.begin)
      → i < code_size st
      → (st.initcode + i < p) ⊎ (p + 4096 ≤ st.initcode + i)
  apart_word r p i ir ip out k = let b = IsPage-bounds r p ir ip in let a = ip.above in omega arith

  apart_tf : Clear tf (root ∷ x ∷ y ∷ x2 ∷ y2 ∷ ks)
  apart_tf =
      let f = h.kern_free in
      All-apart m.kern tf (root ∷ x ∷ y ∷ x2 ∷ y2 ∷ ks) f.pages.0 f.pages.1 f.distinct.0

  apart_root : Clear root (x ∷ y ∷ x2 ∷ y2 ∷ ks)
  apart_root =
      let f = h.kern_free in
      All-apart m.kern root (x ∷ y ∷ x2 ∷ y2 ∷ ks) f.pages.1.0 f.pages.1.1 f.distinct.1.0

  apart_x : Clear x (y ∷ x2 ∷ y2 ∷ ks)
  apart_x =
      let f = h.kern_free in
      All-apart m.kern x (y ∷ x2 ∷ y2 ∷ ks) f.pages.1.1.0 f.pages.1.1.1 f.distinct.1.1.0

  apart_y : Clear y (x2 ∷ y2 ∷ ks)
  apart_y =
      let f = h.kern_free in
      All-apart m.kern y (x2 ∷ y2 ∷ ks) f.pages.1.1.1.0 f.pages.1.1.1.1 f.distinct.1.1.1.0

  apart_x2 : Clear x2 (y2 ∷ ks)
  apart_x2 =
      let f = h.kern_free in
      All-apart m.kern x2 (y2 ∷ ks) f.pages.1.1.1.1.0 f.pages.1.1.1.1.1 f.distinct.1.1.1.1.0

  apart_y2 : Clear y2 (ks)
  apart_y2 =
      let f = h.kern_free in
      All-apart m.kern y2 (ks) f.pages.1.1.1.1.1.0 f.pages.1.1.1.1.1.1 f.distinct.1.1.1.1.1.0

  apart_stack : Clear stack (code ∷ us)
  apart_stack =
      let f = h.user_free in All-apart m.user stack (code ∷ us) f.pages.0 f.pages.1 f.distinct.0

  far : (p : ℕ) → IsPage m.kern p → Clear p (stack ∷ code ∷ us)
  far p ip =
      Clear-far m.kern m.user p (stack ∷ code ∷ us) h.kern h.user h.apart ip h.user_free.pages

  size_le : code_size st ≤ 4096
  size_le = ground arith

  -- Filling in the trap frame leaves the tables and the program as they are.
  Made-ready :
      (m5 m9 : Machine)
      → Stacked m s.trampoline tf root x y stack (x2 ∷ y2 ∷ ks) (code ∷ us) m5
      → Programs m5 root x2 y2 code st.initcode (code_size st) m9
      → (st.satp < 2 ^ 64) × (st.handler < 2 ^ 64) × (st.hartid < 2 ^ 64)
      → ((i : ℕ) → i < code_size st → m5.mem (st.initcode + i) ≡ m.mem (st.initcode + i))
      → Made (ready s st tf root m9)
  Made-ready m5 m9 d q regs from =
      let kp = h.kern_free.pages in
      let f_tf = far tf kp.0 in
      let f_x = far x kp.1.1.0 in
      let f_y = far y kp.1.1.1.0 in
      let f_root = far root kp.1.0 in
      let done : (b : ℕ) → (b < tf) ⊎ (tf + 4096 ≤ b) → filled st tf m9.mem b ≡ m9.mem b =
        λ b o. filled_out st tf m9.mem b o in
      let word : (a i : ℕ)
          → (a + 4096 ≤ tf) ⊎ (tf + 4096 ≤ a)
          → i < 512
          → load64 (filled st tf m9.mem) (a + 8 * i) ≡ load64 m9.mem (a + 8 * i) =
        λ a i o k.
          word_same m9.mem (filled st tf m9.mem) a 0 i (λ j lo l. done (a + j) (omega arith))
            (omega arith) k in
      record {
        proc = refl;
        space =
            StackTable-AddressSpace m5.mem (filled st tf m9.mem) root x y x2 y2 s.trampoline tf
              stack code
              (λ i lo k.
                done (root + i) (omega (arith, apart_tf))
                ∙ q.same (root + i) (omega (arith, f_root.1.0)) (omega (arith, apart_root))
                    (omega (arith, apart_root)) (omega arith))
              (λ i lo k.
                done (x + i) (omega (arith, apart_tf))
                ∙ q.same (x + i) (omega (arith, f_x.1.0)) (omega (arith, apart_x))
                    (omega (arith, apart_x)) (omega (arith, apart_root)))
              (λ i lo k.
                done (y + i) (omega (arith, apart_tf))
                ∙ q.same (y + i) (omega (arith, f_y.1.0)) (omega (arith, apart_y))
                    (omega (arith, apart_y)) (omega (arith, apart_root)))
              (Path3-congr m9.mem (filled st tf m9.mem) root user_base x2 y2
                (word root 0 (omega (arith, apart_tf)) (omega arith))
                (word x2 0 (omega (arith, apart_tf)) (omega arith)) q.path)
              (word y2 1 (omega (arith, apart_tf)) (omega arith) ∙ q.has)
              (λ i k ne. word x2 i (omega (arith, apart_tf)) k ∙ q.only_second i k ne)
              (λ i k ne. word y2 i (omega (arith, apart_tf)) k ∙ q.only i k ne) d.table;
        frame = filled-Frame st tf m9.mem regs.0 regs.1 regs.2;
        program =
            λ i k. done (code + i) (omega (arith, f_tf.1.0, size_le)) ∙ q.program i k ∙ from i k;
        rest = λ i lo k. done (code + i) (omega (arith, f_tf.1.0)) ∙ q.rest i lo k;
      }

  -- Before `proc_make_first` both regions lie below 2^56, whole and apart, with at least six free
  -- pages in the kernel's and two in the user's, the trampoline is an aligned page below 2^56, the
  -- registers and the handler are 64-bit words, and the program lies in bytes outside both regions.
  -- Then it returns to the user program with its process recorded: the first free pages hold the
  -- trap frame, a page table that maps the trampoline, the trap frame, the stack and the program
  -- with their flags and nothing else, and the program, cut at one page and with zeros behind it;
  -- the trap frame holds the kernel's satp, stack, handler and hart, the user program's entry and
  -- the top of its stack.
  pub proc_make_first-Made :
      s.trampoline % 4096 ≡ 0
      → s.trampoline < 2 ^ 56
      → (st.satp < 2 ^ 64) × (st.handler < 2 ^ 64) × (st.hartid < 2 ^ 64)
      → (m.kern.end ≤ st.initcode) ⊎ (st.initcode + code_size st ≤ m.kern.begin)
      → (m.user.end ≤ st.initcode) ⊎ (st.initcode + code_size st ≤ m.user.begin)
      → ((i : ℕ) → i < code_size st → m.mem (st.initcode + i) < 256)
      → (m' : Machine) × (proc_make_first s st m ≡ ok (leaving s st tf root, m')) × Made m'
  proc_make_first-Made al lt regs kern_out user_out bytes =
      let (m5, t) = stacks m s.trampoline tf root x y stack (x2 ∷ y2 ∷ ks) (code ∷ us) h al lt in
      let d = t.stacked in
      let kp = h.kern_free.pages in
      let up = h.user_free.pages in
      let size = code_size st in
      let from : (i : ℕ) → i < size → m5.mem (st.initcode + i) ≡ m.mem (st.initcode + i) = λ i k.
        d.same (st.initcode + i) (apart_word m.kern tf i h.kern kp.0 kern_out k)
          (apart_word m.kern root i h.kern kp.1.0 kern_out k)
          (apart_word m.kern x i h.kern kp.1.1.0 kern_out k)
          (apart_word m.kern y i h.kern kp.1.1.1.0 kern_out k)
          (apart_word m.user stack i h.user up.0 user_out k) in
      let code_out : (code + 4096 ≤ st.initcode) ⊎ (st.initcode + size ≤ code) =
        let b = IsPage-bounds m.user code h.user up.1.0 in let a = up.1.0.above in omega arith in
      let (m9, q) =
        programs m5 root x2 y2 code st.initcode size ks us d.prepared apart_root.1.1
          (far root kp.1.0).1.0 (d.table.only_first 0 (omega arith) (λ e. absurd (omega arith)))
          size_le code_out (λ i k. rw (from i k) (bytes i k)) in
      let tf_bounds = IsPage-bounds m.kern tf h.kern kp.0 in
      let stack_bounds = IsPage-bounds m.user stack h.user up.0 in
      let code_bounds = IsPage-bounds m.user code h.user up.1.0 in
      (
        ready s st tf root m9,
        make-runs s st tf root m t.m1 t.m3 t.m4 m5 q.m6 m9 stack code (omega arith) (omega arith)
            (omega arith) t.first t.table t.second t.maps q.takes q.maps,
        Made-ready m5 m9 d q regs from,
      )
