-- ===== src/Console/Numbers.antt =====
-- The numbers that kernel/kernel.c prints, read by `parse_uint` of kernel/shell/shell.c.
use simpleos.Common.{
  ℕ, zero, suc, ◌+◌, ◌/◌, ◌%◌, ◌^◌, ◌≤◌, ◌<◌, true, false, ◌==◌, ◌&&◌, ◌≡◌, refl, sym, ap, ◌∙◌,
  arith, Bool-cases, inl, inr, List, [], ◌∷◌, some, length, ◌≢◌, ◌||◌,
}
use simpleos.Shell.{parse_uint}
use simpleos.Shell.Numbers.{is_digit, digit_value, all_digits, number, read, parse_uint_lem}
use simpleos.Console.{dec_loop, dec_text, hex_digit, hex_loop, skip_zeros, hex_text}

-- The loop of `print_dec` writes the digits of a number in front of what stands in its buffer.
dec_loop-number :
    (fuel num : ℕ) (out : List ℕ)
    → num < 10 ^ fuel
    → number 10 0 (dec_loop fuel num out) ≡ number 10 num out
unfolding dec_loop
dec_loop-number zero num out small = ground (arith, small)
dec_loop-number (suc fuel) num out small =
    ground (arith, small, dec_loop-number fuel (num / 10) ((b'0' + num % 10) ∷ out))

dec_loop-digits :
    (fuel num : ℕ) (out : List ℕ)
    → all_digits 10 out ≡ true
    → all_digits 10 (dec_loop fuel num out) ≡ true
unfolding dec_loop
dec_loop-digits zero num out digits = digits
dec_loop-digits (suc fuel) num out digits =
    ground (arith, digits, dec_loop-digits fuel (num / 10) ((b'0' + num % 10) ∷ out))

dec_loop-length : (fuel num : ℕ) (out : List ℕ) → length (dec_loop fuel num out) ≤ fuel + length out
unfolding dec_loop
dec_loop-length zero num out = omega arith
dec_loop-length (suc fuel) num out =
    ground (arith, dec_loop-length fuel (num / 10) ((b'0' + num % 10) ∷ out))

read-digits :
    (base : ℕ) (cs : List ℕ)
    → all_digits base cs ≡ true
    → number base 0 cs < 2 ^ 64
    → read base cs ≡ some (number base 0 cs)
read-digits base cs digits small = rw digits (ap some (omega (arith, small)))

-- Two decimal digits are no prefix.
no_prefix :
    (a b : ℕ) (cs : List ℕ)
    → all_digits 10 (a ∷ b ∷ cs) ≡ true
    → ((a == b'0') && ((b == b'x') || (b == b'X'))) ≡ false
no_prefix a b cs digits = ground (arith, digits)

parse_uint-digits :
    (cs : List ℕ)
    → all_digits 10 cs ≡ true
    → number 10 0 cs < 2 ^ 64
    → cs ≢ []
    → parse_uint (some cs) ≡ some (number 10 0 cs)
parse_uint-digits [] digits small full = absurd (full refl)
parse_uint-digits (a ∷ []) digits small full =
    (parse_uint_lem a a []).2 ∙ read-digits 10 (a ∷ []) digits small
parse_uint-digits (a ∷ b ∷ cs) digits small full =
    (parse_uint_lem a b cs).3
    ∙ rw (no_prefix a b cs digits) (read-digits 10 (a ∷ b ∷ cs) digits small)

-- What `print_dec` prints of a 64-bit number are at most 20 characters, as many as its buffer holds,
-- and `parse_uint` reads the number back from them.
pub dec_text_lem :
    (num : ℕ)
    → num < 2 ^ 64
    → (length (dec_text num) ≤ 20) × (parse_uint (some (dec_text num)) ≡ some num)
unfolding dec_text
dec_text_lem num small = elim (Bool-cases (num == 0)) [
  | inl none ↦ ground (arith, none, (parse_uint_lem b'0' b'0' []).2)
  | inr full ↦
      rw full
        let cs = dec_loop 20 num [] in
          let value : number 10 0 cs ≡ num = dec_loop-number 20 num [] (omega (arith, small)) in
          let filled : cs ≢ [] =
            λ empty. ground (arith, full, sym value ∙ ap (λ t. number 10 0 t) empty) in
          (
            dec_loop-length 20 num [],
            parse_uint-digits cs (dec_loop-digits 20 num [] refl) (rw value small) filled
                ∙ ap some value,
          )
]

-- The same for the sixteen hexadecimal digits of `print_hex`, with zeros in front.
hex_digit-value :
    (d : ℕ) → d < 16 → (is_digit 16 (hex_digit d) ≡ true) × (digit_value (hex_digit d) ≡ d)
unfolding hex_digit
hex_digit-value d small = ground (arith, small)

hex_loop-number :
    (left num : ℕ) (out : List ℕ)
    → num < 16 ^ left
    → number 16 0 (hex_loop left num out) ≡ number 16 num out
unfolding hex_loop
hex_loop-number zero num out small = ground (arith, small)
hex_loop-number (suc left) num out small =
    hex_loop-number left (num / 16) (hex_digit (num % 16) ∷ out) (omega (arith, small))
    ∙ ap (λ n. number 16 n out) (omega (arith, (hex_digit-value (num % 16) (omega arith)).1))

hex_loop-digits :
    (left num : ℕ) (out : List ℕ)
    → all_digits 16 out ≡ true
    → all_digits 16 (hex_loop left num out) ≡ true
unfolding hex_loop
hex_loop-digits zero num out digits = digits
hex_loop-digits (suc left) num out digits =
    hex_loop-digits left (num / 16) (hex_digit (num % 16) ∷ out)
      (rw ((hex_digit-value (num % 16) (omega arith)).0) digits)

skip_zeros-number :
    (cs : List ℕ)
    → all_digits 16 cs ≡ true
    → (number 16 0 (skip_zeros cs) ≡ number 16 0 cs) × (all_digits 16 (skip_zeros cs) ≡ true)
unfolding skip_zeros
skip_zeros-number [] digits = (refl, refl)
skip_zeros-number (d ∷ []) digits = (refl, digits)
skip_zeros-number (d ∷ e ∷ ds) digits = ground (arith, digits, skip_zeros-number (e ∷ ds))

-- What `print_hex` prints of a 64-bit number is read back by `parse_uint` as that number.
pub hex_text_lem : (num : ℕ) → num < 2 ^ 64 → parse_uint (some (hex_text num)) ≡ some num
unfolding hex_text
hex_text_lem num small =
    let cs = hex_loop 16 num [] in
    let stripped = skip_zeros-number cs (hex_loop-digits 16 num [] refl) in
    let value : number 16 0 (skip_zeros cs) ≡ num =
      stripped.0 ∙ hex_loop-number 16 num [] (omega (arith, small)) in
    (parse_uint_lem b'0' b'x' (skip_zeros cs)).3
    ∙ read-digits 16 (skip_zeros cs) stripped.1 (rw value small)
    ∙ ap some value
