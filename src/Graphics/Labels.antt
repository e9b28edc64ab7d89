-- ===== src/Graphics/Labels.antt =====
-- The numbers on the labels of boot/graphics.h.
use simpleos.Common.{
  ℕ, zero, suc, ◌+◌, ◌/◌, ◌%◌, ◌≡◌, refl, ap, ◌==◌, if◌then◌else◌, List, [], ◌∷◌, Bool-cases, inl,
  inr,
}
use simpleos.Console.{dec_loop, dec_text}
use simpleos.Graphics.{digits_from, turn_round, int_to_str}

turn_round-digits_from :
    (fuel num : ℕ) (out : List ℕ) → turn_round (digits_from fuel num) out ≡ dec_loop fuel num out
unfolding turn_round digits_from dec_loop
turn_round-digits_from zero num out = refl
turn_round-digits_from (suc fuel) num out = elim (Bool-cases (num == 0)) [
  | inl none ↦ rw none refl
  | inr some ↦ rw some (turn_round-digits_from fuel (num / 10) ((b'0' + num % 10) ∷ out))
]

-- The loader's `int_to_str`, which turns its digits round, writes the text that the kernel's
-- `print_dec` prints.
pub int_to_str-dec_text : (num : ℕ) → int_to_str num ≡ dec_text num
unfolding int_to_str dec_text
int_to_str-dec_text num =
    ap (λ t. if num == 0 then b'0' ∷ [] else t) (turn_round-digits_from 20 num [])
