-- ===== src/User.antt =====
-- user/syscall_arch.h, user/sys.h, user/syscall_num.h and user/initcode.c: how a user program makes
-- system calls.
pub mod Calls
pub mod Round
use biglab.Base.{ℕ, ◌+◌, ◌-◌, ◌*◌, ◌^◌, Option, none, some, List, [], ◌∷◌, update}
use biglab.Base.Word.{mmap_begin, pgsize}
use biglab.Base.Outcome.{Outcome, ok, spin, and_then}

abbrev pub Regs : Type 0
Regs = ℕ → ℕ

-- The registers a0 to a7 are x10 to x17.
abbrev pub a0 : ℕ
a0 = 10

abbrev pub a7 : ℕ
a7 = 17

-- The registers that the functions bind before `ecall`; the others hold what they held.
unfoldable pub bind0 : ℕ → Regs → Regs
bind0 n x = update x a7 n

unfoldable pub bind1 : ℕ → ℕ → Regs → Regs
unfolding bind0
bind1 n a x = update (bind0 n x) a0 a

unfoldable pub bind2 : ℕ → ℕ → ℕ → Regs → Regs
unfolding bind1
bind2 n a b x = update (bind1 n a x) (a0 + 1) b

unfoldable pub bind3 : ℕ → ℕ → ℕ → ℕ → Regs → Regs
unfolding bind2
bind3 n a b c x = update (bind2 n a b x) (a0 + 2) c

unfoldable pub bind4 : ℕ → ℕ → ℕ → ℕ → ℕ → Regs → Regs
unfolding bind3
bind4 n a b c d x = update (bind3 n a b c x) (a0 + 3) d

unfoldable pub bind5 : ℕ → ℕ → ℕ → ℕ → ℕ → ℕ → Regs → Regs
unfolding bind4
bind5 n a b c d e x = update (bind4 n a b c d x) (a0 + 4) e

unfoldable pub bind6 : ℕ → ℕ → ℕ → ℕ → ℕ → ℕ → ℕ → Regs → Regs
unfolding bind5
bind6 n a b c d e f x = update (bind5 n a b c d e x) (a0 + 5) f

-- `syscall(...)`: the macros choose the function by the count of arguments; without a number, or
-- with more than six arguments behind it, the program does not compile.
unfoldable pub bind_args : List ℕ → Regs → Option Regs
unfolding bind6
bind_args (n ∷ []) x = some (bind0 n x)
bind_args (n ∷ a ∷ []) x = some (bind1 n a x)
bind_args (n ∷ a ∷ b ∷ []) x = some (bind2 n a b x)
bind_args (n ∷ a ∷ b ∷ c ∷ []) x = some (bind3 n a b c x)
bind_args (n ∷ a ∷ b ∷ c ∷ d ∷ []) x = some (bind4 n a b c d x)
bind_args (n ∷ a ∷ b ∷ c ∷ d ∷ e ∷ []) x = some (bind5 n a b c d e x)
bind_args (n ∷ a ∷ b ∷ c ∷ d ∷ e ∷ f ∷ []) x = some (bind6 n a b c d e f x)
bind_args _ x = none

-- SYS_mmap and SYS_munmap
abbrev pub mmap_number : ℕ
mmap_number = 5

abbrev pub munmap_number : ℕ
munmap_number = 6

-- The system calls of `main` in user/initcode.c, with addresses and lengths in pages from
-- MMAP_BEGIN on; the 0 of the last sys_mmap stands for itself.
abbrev at_page : ℕ → ℕ
at_page i = mmap_begin + i * pgsize

abbrev call_of : ℕ → ℕ → ℕ → List ℕ
call_of n begin pages = n ∷ begin ∷ (pages * pgsize) ∷ []

unfoldable pub main_calls : List (List ℕ)
main_calls =
    call_of mmap_number (at_page 4) 3
    ∷ call_of mmap_number (at_page 10) 2
    ∷ call_of mmap_number (at_page 2) 2
    ∷ call_of mmap_number (at_page 12) 1
    ∷ call_of mmap_number (at_page 7) 3
    ∷ call_of mmap_number (at_page 0) 2
    ∷ call_of mmap_number 0 10
    ∷ call_of munmap_number (at_page 10) 5
    ∷ call_of munmap_number (at_page 0) 10
    ∷ call_of munmap_number (at_page 17) 2
    ∷ call_of munmap_number (at_page 15) 2
    ∷ call_of munmap_number (at_page 19) 2
    ∷ call_of munmap_number (at_page 22) 1
    ∷ call_of munmap_number (at_page 21) 1
    ∷ []
