-- ===== src/Print.antt =====
-- The numbers and the formats of lib/print.c.
pub mod Digits
pub mod Output
use biglab.Base.{
  ℕ, zero, suc, ◌+◌, ◌-◌, ◌*◌, ◌/◌, ◌%◌, ◌^◌, Bool, true, false, ◌&&◌, ◌||◌, Option, none, some,
  List, [], ◌∷◌, ◌++◌, ◌==◌, ltb, leb, if◌then◌else◌, on_some,
}
use biglab.Base.Word.{u32, u64}

-- The entries of `digits[]`.
unfoldable pub digit : ℕ → ℕ
digit d = if ltb d 10 then 48 + d else 87 + d

-- The loop that fills `buf`, whose last entry comes first here, as it is printed; 32 rounds are
-- enough for a uint32 in any base.
unfoldable pub digits_loop : ℕ → ℕ → ℕ → List ℕ → List ℕ
unfolding digit
digits_loop zero base x buf = buf
digits_loop (suc k) base x buf =
    let rest = digits_loop k base (x / base) (digit (x % base) ∷ buf) in
    if (x / base) == 0 then digit (x % base) ∷ buf else rest

-- The bytes that `printint` sends; `xx` is an int as its 32 bits, negative from 2 ^ 31 on.
unfoldable pub printint : ℕ → ℕ → Bool → List ℕ
unfolding digits_loop
printint xx base sign =
    if sign && leb (2 ^ 31) xx
    then 45 ∷ digits_loop 32 base (u32 (2 ^ 32 - xx)) []
    else digits_loop 32 base xx []

unfoldable pub pointer_loop : ℕ → ℕ → List ℕ
unfolding digit
pointer_loop zero x = []
pointer_loop (suc k) x = digit (x / 2 ^ 60) ∷ pointer_loop k (u64 (x * 16))

unfoldable pub printptr : ℕ → List ℕ
unfolding pointer_loop
printptr x = 48 ∷ 120 ∷ pointer_loop 16 x

-- An argument of `printf`: a number, or a string with `none` for NULL.
pub data Arg : Type 0 where
  num : ℕ → Arg
  str : Option (List ℕ) → Arg

-- `(null)`
abbrev null_text : List ℕ
null_text = 40 ∷ 110 ∷ 117 ∷ 108 ∷ 108 ∷ 41 ∷ []

-- The bytes for one conversion and the arguments left; `none` is a missing argument or one of
-- another type, where C defines nothing.
unfoldable pub convert : ℕ → List Arg → Option (List ℕ × List Arg)
unfolding printint printptr
convert c (num x ∷ args) =
    if c == 100
    then some (printint (u32 x) 10 true, args)
    else if c == 120
    then some (printint (u32 x) 16 false, args)
    else if c == 112
    then some (printptr (u64 x), args)
    else if c == 99
    then some (x % 256 ∷ [], args)
    else if c == 115
    then none
    else if c == 37
    then some (37 ∷ [], num x ∷ args)
    else some (37 ∷ c ∷ [], num x ∷ args)
convert c (str none ∷ args) =
    if c == 115
    then some (null_text, args)
    else if c == 100 || c == 120 || c == 112 || c == 99
    then none
    else if c == 37
    then some (37 ∷ [], str none ∷ args)
    else some (37 ∷ c ∷ [], str none ∷ args)
convert c (str (some s) ∷ args) =
    if c == 115
    then some (s, args)
    else if c == 100 || c == 120 || c == 112 || c == 99
    then none
    else if c == 37
    then some (37 ∷ [], str (some s) ∷ args)
    else some (37 ∷ c ∷ [], str (some s) ∷ args)
convert c [] =
    if c == 100 || c == 120 || c == 112 || c == 99 || c == 115
    then none
    else if c == 37
    then some (37 ∷ [], [])
    else some (37 ∷ c ∷ [], [])

-- The loop of `printf` over a format without its final 0.
unfoldable pub printf_loop : List ℕ → List Arg → Option (List ℕ)
unfolding convert
printf_loop [] args = some []
printf_loop (c ∷ []) args = if c == 37 then some [] else some (c ∷ [])
printf_loop (c ∷ d ∷ fmt) args =
    if c == 37
    then on_some (convert d args) none
        (λ (bs, left). on_some (printf_loop fmt left) none (λ rest. some (bs ++ rest)))
    else on_some (printf_loop (d ∷ fmt) args) none (λ rest. some (c ∷ rest))
