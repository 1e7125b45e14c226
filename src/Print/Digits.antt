-- ===== src/Print/Digits.antt =====
-- The digits of a number, read back.
use biglab.Base.{
  ℕ, zero, suc, ◌+◌, ◌-◌, ◌*◌, ◌/◌, ◌%◌, ◌^◌, ◌≤◌, ◌<◌, ◌≡◌, refl, inl, inr, ◌∙◌, ap, true, false,
  List, [], ◌∷◌, arith, ltb, leb, lt→leb, le→leb, eq→==, ne→==, Bool-cases, if◌then◌else◌, length,
}
use native.Mathlib.Decide.{dec_lt}
use native.Mathlib.Nat.{lt_of_mul-lt-mul_right, div-add-mod', mod-lt}
use biglab.Base.Word.{u32}
use biglab.Print.{digit, digits_loop, printint}

-- The value of a digit, and of digits read from the left after the value `acc`.
unfoldable pub digit_value : ℕ → ℕ
digit_value c = if ltb c 58 then c - 48 else c - 87

unfoldable pub reading : ℕ → ℕ → List ℕ → ℕ
unfolding digit_value
reading base acc [] = acc
reading base acc (c ∷ cs) = reading base (acc * base + digit_value c) cs

digit_value-digit : (d : ℕ) → d < 16 → digit_value (digit d) ≡ d
unfolding digit_value digit
digit_value-digit d h = ground arith

-- `base ^ k`
unfoldable pub room : ℕ → ℕ → ℕ
room base zero = 1
room base (suc k) = room base k * base

module _ (base : ℕ) (two : 2 ≤ base) (sixteen : base ≤ 16) where
  -- Dividing by the base brings a number into one digit less.
  room-div : (k x : ℕ) → x < room base (suc k) → x / base < room base k
  unfolding room
  room-div k x h = lt_of_mul-lt-mul_right base (omega (arith, div-add-mod' x base, h))

  mod-lt-base : (x : ℕ) → x % base < base
  mod-lt-base x = mod-lt x {m = base} (omega (arith, two))

  rest_digit : (x : ℕ) → digit_value (digit (x % base)) ≡ x % base
  rest_digit x = digit_value-digit (x % base) (omega (arith, mod-lt-base x, sixteen))

  last_digit : (x : ℕ) → x / base ≡ 0 → x % base ≡ x
  last_digit x e = omega (arith, div-add-mod' x base, ap (λ q. q * base) e)

  first_value : (x : ℕ) → x / base ≡ 0 → 0 * base + digit_value (digit (x % base)) ≡ x
  first_value x e = rw (rest_digit x) (omega (arith, last_digit x e))

  next_value : (x : ℕ) → x / base * base + digit_value (digit (x % base)) ≡ x
  next_value x = rw (rest_digit x) (div-add-mod' x base)

  -- The digits appended in front of `buf` are those of `x`.
  reading-digits_loop :
      (k x : ℕ) (buf : List ℕ)
      → x < room base (suc k)
      → reading base 0 (digits_loop (suc k) base x buf) ≡ reading base x buf
  unfolding digits_loop reading room
  reading-digits_loop zero x buf h =
      let last : x / base ≡ 0 = omega (arith, room-div zero x h) in
      rw (eq→== (x / base) 0 last) (ap (λ v. reading base v buf) (first_value x last))
  reading-digits_loop (suc k) x buf h = elim (dec_lt 0 (x / base)) [
    | no done ↦
        let last : x / base ≡ 0 = omega arith in
        rw (eq→== (x / base) 0 last) (ap (λ v. reading base v buf) (first_value x last))
    | yes more ↦ rw (ne→== (x / base) 0 (λ e. absurd (omega arith))) (
        reading-digits_loop k (x / base) (digit (x % base) ∷ buf) (room-div (suc k) x h)
        ∙ ap (λ v. reading base v buf) (next_value x))
  ]

  -- At most one digit per round.
  length-digits_loop :
      (j k x : ℕ) (buf : List ℕ)
      → x < room base (suc j)
      → length (digits_loop (suc k) base x buf) ≤ suc j + length buf
  unfolding digits_loop room
  length-digits_loop zero k x buf h =
      let last : x / base ≡ 0 = omega (arith, room-div zero x h) in
      rw (eq→== (x / base) 0 last) (omega arith)
  length-digits_loop (suc j) zero x buf h = ground arith
  length-digits_loop (suc j) (suc k) x buf h = elim (dec_lt 0 (x / base)) [
    | no done ↦ let last : x / base ≡ 0 = omega arith in rw (eq→== (x / base) 0 last) (omega arith)
    | yes more ↦ rw (ne→== (x / base) 0 (λ e. absurd (omega arith))) (
        omega (
          arith,
          length-digits_loop j k (x / base) (digit (x % base) ∷ buf) (room-div (suc j) x h),
        ))
  ]

rooms : (room 10 32 ≡ 10 ^ 32) × (room 16 32 ≡ 16 ^ 32)
unfolding room
rooms = (refl, refl)

buffer_rooms : (room 10 10 ≡ 10 ^ 10) × (room 16 8 ≡ 16 ^ 8)
unfolding room
buffer_rooms = (refl, refl)

-- What `%x` prints for a uint32, and `%d` for an int that is not negative, are digits whose
-- value in base 16 and 10 is that number.
pub printint-reads :
    (xx : ℕ)
    → (xx < 2 ^ 32 → reading 16 0 (printint xx 16 false) ≡ xx)
      × (xx < 2 ^ 31 → reading 10 0 (printint xx 10 true) ≡ xx)
unfolding printint reading
printint-reads xx = (
  λ h. reading-digits_loop 16 (omega arith) (omega arith) 31 xx [] (omega (arith, rooms.1, h)),
  λ h.
      rw (lt→leb (2 ^ 31) xx h)
        (reading-digits_loop 10 (omega arith) (omega arith) 31 xx [] (omega (arith, rooms.0, h))),
)

-- What `%d` prints for a negative int is a minus sign and digits whose value is its magnitude,
-- also for the least int.
pub printint-negative :
    (xx : ℕ)
    → 2 ^ 31 ≤ xx
    → xx < 2 ^ 32
    → (ds : List ℕ) × (printint xx 10 true ≡ 45 ∷ ds) × (reading 10 0 ds ≡ 2 ^ 32 - xx)
unfolding printint reading
printint-negative xx lo hi = (
  digits_loop 32 10 (u32 (2 ^ 32 - xx)) [],
  rw (le→leb (2 ^ 31) xx lo),
  reading-digits_loop 10 (omega arith) (omega arith) 31 (u32 (2 ^ 32 - xx)) []
        (omega (arith, rooms.0))
      ∙ omega arith,
)

-- For a uint32 `%x`, and for an int `%d`, `printint` writes at most the sixteen bytes of its
-- buffer.
pub printint-fits :
    (xx : ℕ)
    → xx < 2 ^ 32
    → (length (printint xx 16 false) ≤ 16) × (length (printint xx 10 true) ≤ 16)
unfolding printint
printint-fits xx h = (
  omega (
    arith,
    length-digits_loop 16 (omega arith) (omega arith) 7 31 xx [] (omega (arith, buffer_rooms.1, h)),
  ),
  elim (Bool-cases (leb (2 ^ 31) xx)) [
    | inl e ↦ rw e (
        omega (
          arith,
          length-digits_loop 10 (omega arith) (omega arith) 9 31 (u32 (2 ^ 32 - xx)) []
              (omega (arith, buffer_rooms.0)),
        ))
    | inr e ↦ rw e (
        omega (
          arith,
          length-digits_loop 10 (omega arith) (omega arith) 9 31 xx []
              (omega (arith, buffer_rooms.0, h)),
        ))
  ],
)
