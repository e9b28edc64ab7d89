-- ===== src/Shell/Numbers.antt =====
-- The numbers that kernel/shell/shell.c reads.
use simpleos.Common.{
  ℕ, ◌+◌, ◌-◌, ◌*◌, ◌%◌, ◌^◌, ◌<◌, ◌≡◌, refl, arith, Bool, true, false, ◌&&◌, ◌||◌, leb, ◌==◌,
  if◌then◌else◌, List, [], ◌∷◌, Option, none, some, Bool-cases, inl, inr, ap, sym, ◌∙◌,
}
use simpleos.Shell.{digit_of, parse_loop, parse_prefix, parse_uint}

abbrev pub is_digit : ℕ → ℕ → Bool
is_digit base c =
    (leb b'0' c && leb c b'9')
    || ((base == 16) && ((leb b'a' c && leb c b'f') || (leb b'A' c && leb c b'F')))

abbrev pub digit_value : ℕ → ℕ
digit_value c = if leb b'a' c then c - b'a' + 10 else if leb b'A' c then c - b'A' + 10 else c - b'0'

abbrev pub all_digits : ℕ → List ℕ → Bool
all_digits base [] = true
all_digits base (c ∷ cs) = is_digit base c && all_digits base cs

-- The number that the digits stand for, behind a number already read.
abbrev pub number : ℕ → ℕ → List ℕ → ℕ
number base value [] = value
number base value (c ∷ cs) = number base (value * base + digit_value c) cs

digit_of_lem :
    (base c : ℕ) → digit_of base c ≡ (if is_digit base c then some (digit_value c) else none)
unfolding digit_of
digit_of_lem base c = ground arith

accepted : (base c : ℕ) → is_digit base c ≡ true → digit_of base c ≡ some (digit_value c)
accepted base c t = digit_of_lem base c ∙ ap (λ b. if b then some (digit_value c) else none) t

refused : (base c : ℕ) → is_digit base c ≡ false → digit_of base c ≡ none
refused base c t = digit_of_lem base c ∙ ap (λ b. if b then some (digit_value c) else none) t

-- One round of the loop, by what the character is.
parse_step :
    (base v c : ℕ) (cs : List ℕ) (o : Option ℕ)
    → digit_of base c ≡ o
    → parse_loop base v (c ∷ cs)
      ≡ elim o [ none ↦ none | some digit ↦ parse_loop base ((v * base + digit) % 2 ^ 64) cs ]
unfolding parse_loop
parse_step base v c cs o e =
    ap (λ o. elim o [ none ↦ none | some digit ↦ parse_loop base ((v * base + digit) % 2 ^ 64) cs ])
      e

-- A base in which one more digit respects equality modulo `2 ^ 64`.
module _ (base : ℕ)
    (respects : (v w d : ℕ)
      → v % 2 ^ 64 ≡ w % 2 ^ 64
      → (v * base + d) % 2 ^ 64 ≡ (w * base + d) % 2 ^ 64) where
  number-mod :
      (v w : ℕ) (cs : List ℕ)
      → v % 2 ^ 64 ≡ w % 2 ^ 64
      → number base v cs % 2 ^ 64 ≡ number base w cs % 2 ^ 64
  number-mod v w [] e = e
  number-mod v w (c ∷ cs) e =
      number-mod (v * base + digit_value c) (w * base + digit_value c) cs
        (respects v w (digit_value c) e)

  -- The loop returns the number modulo `2 ^ 64` if all characters are digits.
  parse_loop_lem :
      (v : ℕ) (cs : List ℕ)
      → v < 2 ^ 64
      → parse_loop base v cs
        ≡ (if all_digits base cs then some (number base v cs % 2 ^ 64) else none)
  unfolding parse_loop
  parse_loop_lem v [] h = ap some (omega (arith, h))
  parse_loop_lem v (c ∷ cs) h = elim (Bool-cases (is_digit base c)) [
    | inl digit ↦
        parse_step base v c cs (some (digit_value c)) (accepted base c digit)
        ∙ parse_loop_lem ((v * base + digit_value c) % 2 ^ 64) cs (omega arith)
        ∙ ap (λ n. if all_digits base cs then some n else none)
            (number-mod ((v * base + digit_value c) % 2 ^ 64) (v * base + digit_value c) cs
              (omega arith))
        ∙ ap
            (λ b.
              if b && all_digits base cs
              then some (number base (v * base + digit_value c) cs % 2 ^ 64)
              else none)
            (sym digit)
    | inr other ↦
        parse_step base v c cs none (refused base c other)
        ∙ ap
            (λ b.
              if b && all_digits base cs
              then some (number base (v * base + digit_value c) cs % 2 ^ 64)
              else none)
            (sym other)
  ]

decimal_lem :
    (cs : List ℕ)
    → parse_loop 10 0 cs ≡ (if all_digits 10 cs then some (number 10 0 cs % 2 ^ 64) else none)
decimal_lem cs = parse_loop_lem 10 (λ v w d e. omega (arith, e)) 0 cs (omega arith)

hexadecimal_lem :
    (cs : List ℕ)
    → parse_loop 16 0 cs ≡ (if all_digits 16 cs then some (number 16 0 cs % 2 ^ 64) else none)
hexadecimal_lem cs = parse_loop_lem 16 (λ v w d e. omega (arith, e)) 0 cs (omega arith)

-- The text without its prefix, and the base that the prefix says.
abbrev pub read : ℕ → List ℕ → Option ℕ
read base cs = if all_digits base cs then some (number base 0 cs % 2 ^ 64) else none

-- `parse_uint` refuses a null pointer and the empty text. It reads a text that begins with 0x or 0X as
-- the hexadecimal number behind that prefix, 0 if nothing follows, and any other text as a decimal
-- number, modulo `2 ^ 64`; it refuses a text with a character that is no digit of its base.
pub parse_uint_lem :
    (a b : ℕ) (cs : List ℕ)
    → (parse_uint none ≡ none)
      × (parse_uint (some []) ≡ none)
      × (parse_uint (some (a ∷ [])) ≡ read 10 (a ∷ []))
      × (parse_uint (some (a ∷ b ∷ cs)) ≡ (
          if (a == b'0') && ((b == b'x') || (b == b'X')) then read 16 cs else read 10 (a ∷ b ∷ cs)))
unfolding parse_uint parse_prefix
parse_uint_lem a b cs =
    (refl, refl, decimal_lem (a ∷ []), ground (arith, decimal_lem (a ∷ b ∷ cs), hexadecimal_lem cs))
