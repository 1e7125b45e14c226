-- ===== src/User/Calls.antt =====
-- A system call of a user program, through the trampoline and the kernel.
use biglab.Base.{
  ℕ, zero, suc, ◌+◌, ◌*◌, ◌^◌, ◌≤◌, ◌<◌, ◌≡◌, refl, ◌≢◌, ◌⊎◌, inl, ◌∙◌, some, List, [], ◌∷◌, arith,
  update, length, get_elem?, lt→leb, le→ltb, eq→==, ne→==, sym,
}
use mathlib.Core.Path.{subst}
use mathlib.Core.Option.{some_inj}
use native.Mathlib.Nat.{add-zero, add-suc, suc-add}
use native.Mathlib.Decide.{dec_lt}
use biglab.Memory.{Mem, load64, store64}
use biglab.Memory.Words.{load64-store64_self, load64-store64_ne}
use biglab.Base.Word.{u32}
use biglab.Base.Outcome.{ok}
use biglab.Machine.{Machine, Cmd}
use biglab.Syscall.{Buffers, a0_offset, a7_offset, syscalls, syscall}
use biglab.Syscall.Results.{reg}
use biglab.User.{Regs, a0, a7, bind_args}
use biglab.Trap.Trampoline.{save, x_offset}

-- Words outside the registers of a trap frame are as before.
pub load64-save_out :
    (k tf b : ℕ) (x : ℕ → ℕ) (mem : Mem)
    → (b + 8 ≤ tf + 40) ⊎ (tf + 40 + 8 * k ≤ b)
    → load64 (save k tf x mem) b ≡ load64 mem b
unfolding save
load64-save_out zero tf b x mem out = refl
load64-save_out (suc k) tf b x mem out =
    load64-store64_ne (save k tf x mem) (tf + x_offset (suc k)) b (x (suc k)) (omega arith)
    ∙ load64-save_out k tf b x mem (omega arith)

-- A saved register is read back.
pub load64-save :
    (k tf i : ℕ) (x : ℕ → ℕ) (mem : Mem)
    → x i < 2 ^ 64
    → 1 ≤ i
    → i ≤ k
    → load64 (save k tf x mem) (tf + x_offset i) ≡ x i
unfolding save
load64-save zero tf i x mem lt one le = absurd (omega arith)
load64-save (suc k) tf i x mem lt one le = elim (dec_lt i (suc k)) [
  | yes below ↦
      load64-store64_ne (save k tf x mem) (tf + x_offset (suc k)) (tf + x_offset i) (x (suc k))
        (omega arith)
      ∙ load64-save k tf i x mem lt one (omega arith)
  | no same ↦
      let e : i ≡ suc k = omega arith in
      rw e (load64-store64_self (save k tf x mem) (tf + x_offset (suc k)) (x (suc k)) (rw e at lt))
]

-- The arguments one after the other, from register `k` on.
put_args : ℕ → List ℕ → Regs → Regs
put_args k [] y = y
put_args k (v ∷ vs) y = put_args (suc k) vs (update y k v)

put_args-other :
    (k j : ℕ) (vs : List ℕ) (y : Regs) → (j < k) ⊎ (k + length vs ≤ j) → put_args k vs y j ≡ y j
unfolding put_args
put_args-other k j [] y out = refl
put_args-other k j (v ∷ vs) y out =
    put_args-other (suc k) j vs (update y k v) (omega arith)
    ∙ rw (ne→== k j (λ e. absurd (omega arith)))

put_args-arg :
    (k i v : ℕ) (vs : List ℕ) (y : Regs)
    → get_elem? vs i ≡ some v
    → (i < length vs) × (put_args k vs y (k + i) ≡ v)
unfolding put_args
put_args-arg k i v [] y h = cc
put_args-arg k zero v (w ∷ vs) y h = (
  omega arith,
  rw (add-zero k)
      (put_args-other (suc k) k vs (update y k w) (inl (omega arith)) ∙ rw (eq→== k k refl) (cc)),
)
put_args-arg k (suc i) v (w ∷ vs) y h =
    let (lt, e) = put_args-arg (suc k) i v vs (update y k w) h in
    (omega arith, rw (add-suc k i, ← suc-add k i) e)

bind_args-put_args :
    (n : ℕ) (args : List ℕ) (x y : Regs)
    → bind_args (n ∷ args) x ≡ some y
    → (length args ≤ 6) × (put_args a0 args (update x a7 n) ≡ y)
unfolding bind_args put_args
bind_args-put_args n [] x y h = (omega arith, some_inj.0 h)
bind_args-put_args n (a ∷ []) x y h = (omega arith, some_inj.0 h)
bind_args-put_args n (a ∷ b ∷ []) x y h = (omega arith, some_inj.0 h)
bind_args-put_args n (a ∷ b ∷ c ∷ []) x y h = (omega arith, some_inj.0 h)
bind_args-put_args n (a ∷ b ∷ c ∷ d ∷ []) x y h = (omega arith, some_inj.0 h)
bind_args-put_args n (a ∷ b ∷ c ∷ d ∷ e ∷ []) x y h = (omega arith, some_inj.0 h)
bind_args-put_args n (a ∷ b ∷ c ∷ d ∷ e ∷ f ∷ []) x y h = (omega arith, some_inj.0 h)
bind_args-put_args n (a ∷ b ∷ c ∷ d ∷ e ∷ f ∷ g ∷ _) x y h = cc

-- What binding the arguments does: the number in a7, the arguments from a0 on, and nothing else.
pub record Bound (n : ℕ) (args : List ℕ) (x y : Regs) : Type 0 where
  pub number : y a7 ≡ n
  pub arg : (i v : ℕ) → get_elem? args i ≡ some v → (i < 6) × (y (a0 + i) ≡ v)
  pub other : (j : ℕ) → j ≢ a7 → (j < a0) ⊎ (a0 + length args ≤ j) → y j ≡ x j

pub bind_args-Bound :
    (n : ℕ) (args : List ℕ) (x y : Regs) → bind_args (n ∷ args) x ≡ some y → Bound n args x y
bind_args-Bound n args x y h =
    let (le, e) = bind_args-put_args n args x y h in
    subst (Bound n args x) e (record {
      number = put_args-other a0 a7 args (update x a7 n) (omega arith);
      arg = λ i v k. let (lt, is) = put_args-arg a0 i v args (update x a7 n) k in (omega arith, is);
      other = λ j ne out.
          put_args-other a0 j args (update x a7 n) out ∙ rw (ne→== a7 j (λ q. ne (sym q)));
    })

pub syscall-runs :
    (bufs : Buffers) (m m' : Machine) (n v : ℕ) (call : Cmd ℕ)
    → reg m a7_offset ≡ n
    → n ≤ 6
    → syscalls bufs n ≡ some call
    → call m ≡ ok (v, m')
    → syscall bufs m ≡ ok (tt, record m' { mem = store64 m'.mem (m'.proc.tf + a0_offset) v })
unfolding syscall reg
syscall-runs bufs m m' n v call number le entry runs =
    let low : u32 (load64 m.mem (m.proc.tf + a7_offset)) ≡ n = omega arith in
    rw (low, lt→leb (2 ^ 31) n (omega arith), le→ltb 6 n le, entry, runs)
