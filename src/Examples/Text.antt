-- ===== src/Examples/Text.antt =====
-- The string "hi" on the border of two pages, and the two pages as a whole.
use biglab.Base.{
  ℕ, zero, suc, ◌+◌, ◌-◌, ◌*◌, ◌/◌, ◌<◌, ◌≤◌, ◌≡◌, ◌≢◌, refl, inl, inr, ap, ◌∙◌, ◌⊎◌, true, false,
  some, arith, update,
}
use biglab.Base.Outcome.{ok}
use biglab.Memory.{Mem, load64, memmove, store64}
use biglab.Base.Word.{minus_one}
use biglab.Copy.{any_entry}
use biglab.Copy.Partial.{page_of, page_of-mapped, page_of-invalid, uvm_copyin-partial}
use biglab.Memory.Words.{store64_out}
use biglab.Machine.{Machine}
use biglab.Kvm.{make_pte, is_u, is_v, pte_to_pa}
use biglab.Kvm.Walk.{entry_at, Path3}
use biglab.Copy.{uvm_copyin, uvm_copyin_str}
use biglab.Copy.Pages.{PagesAt, PagesCopied, frame, uvm_copyin-pages}
use biglab.Copy.Strings.{Copied, StringAt, place, uvm_copyin_str-copies}
use biglab.Examples.{machine, blank}

-- The root at 0x10000 leads over 0x11000 to 0x12000, whose entries map 0x2000 and 0x3000.
abbrev mem : Mem
mem =
    store64
      (store64
        (store64
          (store64 (update (update blank 0x82000fff 104) 0x82005000 105) (entry_at 0x10000 0x2000 2)
            (make_pte 0x11000 0))
          (entry_at 0x11000 0x2000 1) (make_pte 0x12000 0))
        (0x12000 + 16) (make_pte 0x82000000 22))
      (0x12000 + 24) (make_pte 0x82005000 22)

abbrev t1 : ℕ → ℕ
t1 i = 0x11000

abbrev t0 : ℕ → ℕ
t0 i = 0x12000

abbrev reader : Machine
reader = record machine { mem = mem }

up_to_two : (P : ℕ → Type 0) → P 0 → P 1 → P 2 → (i : ℕ) → i ≤ 2 → P i
up_to_two P a b c zero le = a
up_to_two P a b c (suc zero) le = b
up_to_two P a b c (suc (suc zero)) le = c
up_to_two P a b c (suc (suc (suc i))) le = absurd (omega arith)

first_page : Path3 mem 0x10000 0x2000 0x11000 0x12000
unfolding load64 store64 make_pte
first_page = record {
  below = omega arith;
  first = record { valid = refl; inner = refl; target = refl };
  second = record { valid = refl; inner = refl; target = refl };
}

second_page : Path3 mem 0x10000 0x3000 0x11000 0x12000
unfolding load64 store64 make_pte
second_page = record {
  below = omega arith;
  first = record { valid = refl; inner = refl; target = refl };
  second = record { valid = refl; inner = refl; target = refl };
}

words :
    (is_v (load64 mem (0x12000 + 16)) ≡ true)
    × (is_v (load64 mem (0x12000 + 24)) ≡ true)
    × (is_u (load64 mem (0x12000 + 16)) ≡ true)
    × (is_u (load64 mem (0x12000 + 24)) ≡ true)
unfolding load64 store64 make_pte
words = (refl, refl, refl, refl)

abbrev at_place : ℕ → ℕ
at_place i = place 0x10000 0x2000 t1 t0 0x2fff 0x80100000 2 mem i

places : (at_place 0 ≡ 0x82000fff) × (at_place 1 ≡ 0x82005000) × (at_place 2 ≡ 0x82005001)
unfolding load64 store64 make_pte
places = (refl, refl, refl)

text : (mem 0x82000fff ≡ 104) × (mem 0x82005000 ≡ 105) × (mem 0x82005001 ≡ 0)
unfolding store64
text = (refl, refl, refl)

-- What holds of the three bytes holds of every byte of the string.
at_places :
    (P : ℕ → Type 0) → P 0x82000fff → P 0x82005000 → P 0x82005001 → (i : ℕ) → i ≤ 2 → P (at_place i)
at_places P a b c = up_to_two (λ i. P (at_place i)) (rw places.0 a) (rw places.1 b) (rw places.2 c)

not_zero : (i : ℕ) → i < 2 → mem (at_place i) ≢ 0
not_zero zero lt e = absurd (omega (arith, e, ap mem places.0, text.0))
not_zero (suc zero) lt e = absurd (omega (arith, e, ap mem places.1, text.1))
not_zero (suc (suc i)) lt e = absurd (omega arith)

the_string : StringAt 0x10000 0x2000 t1 t0 0x2fff 0x80100000 2 mem
the_string = record {
  aligned = refl;
  above = omega arith;
  below = omega arith;
  path =
      up_to_two
        (λ i. Path3 mem 0x10000 (0x2000 + (0x2fff + i - 0x2000) / 4096 * 4096) 0x11000 0x12000)
        first_page second_page second_page;
  valid = up_to_two _ words.0 words.1 words.1;
  user = up_to_two _ words.2 words.3 words.3;
  bytes = λ i lt. not_zero i lt;
  ends = ap mem places.2 ∙ text.2;
  small =
      at_places (λ a. mem a < 256) (omega (arith, text.0)) (omega (arith, text.1))
        (omega (arith, text.2));
  away_first = λ i le. inl (omega arith);
  away_second = λ i le. inl (omega arith);
  away_word = λ i le. inl (omega arith);
  away_byte =
      at_places (λ a. (a + 1 ≤ 0x80100000) ⊎ (0x80100002 < a)) (inr (omega arith))
        (inr (omega arith)) (inr (omega arith));
}

uvm_copyin_str-copies_example :
    (m' : Machine) × (uvm_copyin_str 0x10000 0x80100000 0x2fff 128 reader ≡ ok (3, m'))
    × Copied 0x10000 0x2000 t1 t0 0x2fff 0x80100000 2 reader m' 3
uvm_copyin_str-copies_example =
    uvm_copyin_str-copies 0x10000 0x2000 t1 t0 0x2fff 0x80100000 2 128 reader (omega arith)
      (omega arith) the_string

-- Both pages from their middle on.
abbrev letters : Mem
letters = update (update blank 0x82000fff 104) 0x82005000 105

letters_small : (q : ℕ) → letters q < 256
letters_small q = ground arith

abbrev first_link : Mem
first_link = store64 letters (entry_at 0x10000 0x2000 2) (make_pte 0x11000 0)

abbrev second_link : Mem
second_link = store64 first_link (entry_at 0x11000 0x2000 1) (make_pte 0x12000 0)

abbrev first_leaf : Mem
first_leaf = store64 second_link (0x12000 + 16) (make_pte 0x82000000 22)

page_bytes : (q : ℕ) → 0x82000000 ≤ q → mem q < 256
page_bytes q le = omega (
  arith,
  letters_small q,
  store64_out letters (entry_at 0x10000 0x2000 2) (make_pte 0x11000 0) q (inr (omega arith)),
  store64_out first_link (entry_at 0x11000 0x2000 1) (make_pte 0x12000 0) q (inr (omega arith)),
  store64_out second_link (0x12000 + 16) (make_pte 0x82000000 22) q (inr (omega arith)),
  store64_out first_leaf (0x12000 + 24) (make_pte 0x82005000 22) q (inr (omega arith)),
)

frames :
    (pte_to_pa (load64 mem (0x12000 + 16)) ≡ 0x82000000)
    × (pte_to_pa (load64 mem (0x12000 + 24)) ≡ 0x82005000)
unfolding load64 store64 make_pte
frames = (refl, refl)

both : (P : ℕ → Type 0) → P 0 → P 1 → (j : ℕ) → j < 2 → P j
both P a b zero lt = a
both P a b (suc zero) lt = b
both P a b (suc (suc j)) lt = absurd (omega arith)

abbrev at_frame : ℕ → ℕ
at_frame j = frame 0x10000 0x2000 0x800 t1 t0 0x80100000 2 mem j

frame_above : (j : ℕ) → j < 2 → 0x82000000 ≤ at_frame j
frame_above =
    both (λ j. 0x82000000 ≤ at_frame j) (omega (arith, frames.0)) (omega (arith, frames.1))

two_pages : PagesAt 0x10000 0x2000 0x800 t1 t0 0x80100000 2 mem
two_pages = record {
  aligned = refl;
  inside = omega arith;
  below = omega arith;
  path = both (λ j. Path3 mem 0x10000 (0x2000 + j * 4096) 0x11000 0x12000) first_page second_page;
  valid = both _ words.0 words.1;
  user = both _ words.2 words.3;
  bytes = λ j i lt small. page_bytes (at_frame j + i) (omega (arith, frame_above j lt));
  away_first = λ j lt. inl (omega arith);
  away_second = λ j lt. inl (omega arith);
  away_word = λ j lt. inl (omega arith);
  away_page = λ j lt. inr (omega (arith, frame_above j lt));
}

uvm_copyin-pages_example :
    (m' : Machine) × (uvm_copyin 0x10000 0x10000 0x80100000 0x2800 8192 reader ≡ ok (0, m'))
    × PagesCopied 0x10000 0x2000 0x800 t1 t0 0x80100000 2 reader m' 2
uvm_copyin-pages_example =
    uvm_copyin-pages 0x10000 0x2000 0x800 t1 t0 0x80100000 2 0x10000 reader (omega arith) two_pages

-- Twelve bytes of the last page that is mapped.
abbrev after_copy : Machine
after_copy = record reader { mem = memmove mem 0x80100000 (0x82005000 + 16) 12 }

first_found : page_of any_entry 0x10000 0x3010 reader ≡ some 0x82005000
first_found =
    page_of-mapped 0x10000 0x3010 0x3000 0x11000 0x12000 mem reader refl second_page refl refl refl
      words.1 words.3
    ∙ ap some frames.1

next_page : Path3 after_copy.mem 0x10000 0x4000 0x11000 0x12000
unfolding load64 store64 make_pte memmove
next_page = record {
  below = omega arith;
  first = record { valid = refl; inner = refl; target = refl };
  second = record { valid = refl; inner = refl; target = refl };
}

next_empty : is_v (load64 after_copy.mem (entry_at 0x12000 0x4000 0)) ≡ false
unfolding load64 store64 make_pte memmove
next_empty = refl

uvm_copyin-partial_example :
    uvm_copyin 4 0x10000 0x80100000 0x3010 12 reader ≡ ok (minus_one, after_copy)
uvm_copyin-partial_example =
    uvm_copyin-partial 2 0x10000 0x80100000 0x3010 12 0x82005000 reader (omega arith) (omega arith)
      (omega arith) (omega arith) first_found
      (page_of-invalid 0x10000 0x4010 0x4000 0x11000 0x12000 after_copy refl next_page next_empty)
