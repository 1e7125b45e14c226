-- ===== src/Console/Echo.antt =====
-- What reaches the terminal.
use biglab.Base.{
  ℕ, ◌≤◌, ◌<◌, ◌≡◌, refl, ◌⊎◌, ◌∙◌, ap, sym, false, List, [], ◌∷◌, ◌++◌, append_assoc, append-nil,
  arith, All,
}
use biglab.Base.Outcome.{ok}
use biglab.Lock.{Cpu, push_off, pop_off}
use biglab.Lock.Sequential.{settle}
use biglab.Console.{Console, uart_putc_sync, put_all, echo, uart_intr}

pop_off-push_off : (c : Cpu) → pop_off (push_off c) ≡ ok (settle c)
unfolding push_off pop_off
pop_off-push_off c = ground arith

-- The bytes `bs` have been sent, and the hart is as deep in interrupt switches as before.
pub record Sent (con : Console) (bs : List ℕ) (con' : Console) : Type 0 where
  pub bytes : con'.sent ≡ con.sent ++ bs
  pub alive : con'.panicked ≡ false
  pub depth : con'.cpu.noff ≡ con.cpu.noff

Sent-nothing : (con : Console) → con.panicked ≡ false → Sent con [] con
Sent-nothing con h = record { bytes = sym (append-nil con.sent); alive = h; depth = refl }

Sent-append :
    (con con' con'' : Console) (bs cs : List ℕ)
    → Sent con bs con'
    → Sent con' cs con''
    → Sent con (bs ++ cs) con''
Sent-append con con' con'' bs cs s t = record {
  bytes = t.bytes ∙ ap (λ l. l ++ cs) s.bytes ∙ append_assoc con.sent bs cs;
  alive = t.alive;
  depth = t.depth ∙ s.depth;
}

uart_putc_sync-sends :
    (c : ℕ) (con : Console)
    → con.panicked ≡ false
    → (con' : Console) × (uart_putc_sync c con ≡ ok con') × Sent con (c ∷ []) con'
unfolding uart_putc_sync
uart_putc_sync-sends c con h = (
  record con { cpu = settle con.cpu; sent = con.sent ++ (c ∷ []) },
  rw (h, pop_off-push_off con.cpu),
  record { bytes = refl; alive = h; depth = refl },
)

-- While nothing has panicked, `put_all` returns, and has sent exactly its bytes.
pub put_all-sends :
    (cs : List ℕ) (con : Console)
    → con.panicked ≡ false
    → (con' : Console) × (put_all cs con ≡ ok con') × Sent con cs con'
unfolding put_all
put_all-sends [] con h = (con, refl, Sent-nothing con h)
put_all-sends (c ∷ cs) con h =
    let (con1, runs1, s1) = uart_putc_sync-sends c con h in
    let (con2, runs2, s2) = put_all-sends cs con1 s1.alive in
    (con2, rw runs1 runs2, Sent-append con con1 con2 (c ∷ []) cs s1 s2)

-- The answers to a sequence of bytes, one after the other.
unfoldable pub answers : List ℕ → List ℕ
answers [] = []
answers (c ∷ cs) = echo c ++ answers cs

-- While nothing has panicked, the interrupt handler returns once the bytes of input are read,
-- has sent the answers to them in their order, and leaves the depth of the interrupt switches.
pub uart_intr-answers :
    (cs : List ℕ) (con : Console)
    → con.panicked ≡ false
    → (con' : Console) × (uart_intr cs con ≡ ok con') × Sent con (answers cs) con'
unfolding uart_intr answers
uart_intr-answers [] con h = (con, refl, Sent-nothing con h)
uart_intr-answers (c ∷ cs) con h =
    let (con1, runs1, s1) = put_all-sends (echo c) con h in
    let (con2, runs2, s2) = uart_intr-answers cs con1 s1.alive in
    (con2, rw runs1 runs2, Sent-append con con1 con2 (echo c) (answers cs) s1 s2)

-- A printable character, a tab, a backspace, or part of a line end.
pub IsShown : ℕ → Type 0
IsShown c = ((32 ≤ c) × (c < 127)) ⊎ (((c ≡ 8) ⊎ (c ≡ 9)) ⊎ ((c ≡ 10) ⊎ (c ≡ 13)))

All-append : (P : ℕ → Type 0) (bs cs : List ℕ) → All P bs → All P cs → All P (bs ++ cs)
All-append P [] cs p q = q
All-append P (b ∷ bs) cs (p, ps) q = (p, All-append P bs cs ps q)

echo-IsShown : (c : ℕ) → All IsShown (echo c)
unfolding echo IsShown
echo-IsShown c = ground arith

-- Every byte that answers a byte of input is a printable character, a backspace, a tab or part
-- of a line end.
pub answers-IsShown : (cs : List ℕ) → All IsShown (answers cs)
unfolding answers
answers-IsShown [] = tt
answers-IsShown (c ∷ cs) =
    All-append IsShown (echo c) (answers cs) (echo-IsShown c) (answers-IsShown cs)
