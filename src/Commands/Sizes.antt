-- ===== src/Commands/Sizes.antt =====
-- The sizes that kernel/shell/shell.c prints.
use simpleos.Common.{
  ℕ, ◌+◌, ◌*◌, ◌/◌, ◌%◌, ◌^◌, ◌≤◌, ◌<◌, arith, List, [], ◌∷◌, Bool-cases, inl, inr, leb, ◌≡◌, true,
  false,
}
use simpleos.Console.{dec_text}
use simpleos.Commands.{Output, text, char, unit_of, whole_of, frac_of, print_bytes_human}

-- The unit of a size of at least 1024 bytes, and its name.
pub data Scale (n : ℕ) : ℕ → List ℕ → Type 0 where
  kilo : 2 ^ 10 ≤ n → n < 2 ^ 20 → Scale n 1024 (b'K' ∷ b'B' ∷ [])
  mega : 2 ^ 20 ≤ n → n < 2 ^ 30 → Scale n 1048576 (b'M' ∷ b'B' ∷ [])
  giga : 2 ^ 30 ≤ n → Scale n 1073741824 (b'G' ∷ b'B' ∷ [])

-- The output of a size: the number of bytes below 1024, and else a number with one digit behind the
-- point, which is the size in its unit, rounded down.
pub data Human (n : ℕ) : List Output → Type 0 where
  bytes :
      n < 1024
      → Human n (
          text (b' ' ∷ b'(' ∷ [])
          ∷ text (dec_text n)
          ∷ char b' '
          ∷ text (b'B' ∷ [])
          ∷ text (b')' ∷ [])
          ∷ [])
  tenths :
      (unit whole frac : ℕ) (suffix : List ℕ)
      → Scale n unit suffix
      → (whole * 10 + frac) * unit ≤ n * 10
      → n * 10 < (whole * 10 + frac + 1) * unit
      → frac < 10
      → Human n (
          text (b' ' ∷ b'(' ∷ [])
          ∷ text (dec_text whole)
          ∷ char b'.'
          ∷ text (dec_text frac)
          ∷ char b' '
          ∷ text suffix
          ∷ text (b')' ∷ [])
          ∷ [])

in_bytes : (n : ℕ) → n < 1024 → Human n (print_bytes_human n)
unfolding print_bytes_human unit_of whole_of frac_of
in_bytes n small =
    let one : n / 1 ≡ n = omega arith in
    let no_kilo : leb 1024 n ≡ false = ground (arith, small) in
    let no_mega : leb (1024 * 1024) n ≡ false = ground (arith, small) in
    let no_giga : leb (1024 * 1024 * 1024) n ≡ false = ground (arith, small) in
    rw (no_giga, no_mega, no_kilo, one) (bytes small)

in_kilo : (n : ℕ) → 2 ^ 10 ≤ n → n < 2 ^ 20 → Human n (print_bytes_human n)
unfolding print_bytes_human unit_of whole_of frac_of
in_kilo n low high =
    let kilo_yes : leb 1024 n ≡ true = ground (arith, low) in
    let no_mega : leb (1024 * 1024) n ≡ false = ground (arith, high) in
    let no_giga : leb (1024 * 1024 * 1024) n ≡ false = ground (arith, high) in
    rw (no_giga, no_mega, kilo_yes)
      (tenths 1024 (n / 1024) ((n % 1024) * 10 / 1024) _ (kilo low high) (omega arith) (omega arith)
        (omega arith))

in_mega : (n : ℕ) → 2 ^ 20 ≤ n → n < 2 ^ 30 → Human n (print_bytes_human n)
unfolding print_bytes_human unit_of whole_of frac_of
in_mega n low high =
    let mega_yes : leb (1024 * 1024) n ≡ true = ground (arith, low) in
    let no_giga : leb (1024 * 1024 * 1024) n ≡ false = ground (arith, high) in
    rw (no_giga, mega_yes)
      (tenths 1048576 (n / 1048576) ((n % 1048576) * 10 / 1048576) _ (mega low high) (omega arith)
        (omega arith) (omega arith))

in_giga : (n : ℕ) → 2 ^ 30 ≤ n → Human n (print_bytes_human n)
unfolding print_bytes_human unit_of whole_of frac_of
in_giga n low =
    let giga_yes : leb (1024 * 1024 * 1024) n ≡ true = ground (arith, low) in
    rw giga_yes (
      tenths 1073741824 (n / 1073741824) ((n % 1073741824) * 10 / 1073741824) _ (giga low)
        (omega arith) (omega arith) (omega arith))

-- What is printed of a number of bytes: below 1024 the number itself with B; from there on a number in
-- KB, from 2 ^ 20 on in MB, and from 2 ^ 30 on in GB, with one digit behind the point. It is the size
-- rounded down: it is not more than the size, and one more tenth would be.
pub print_bytes_human-Human : (n : ℕ) → Human n (print_bytes_human n)
print_bytes_human-Human n = elim (Bool-cases (leb (2 ^ 10) n)) [
  | inr below ↦ in_bytes n (ground (arith, below))
  | inl kilo_on ↦ elim (Bool-cases (leb (2 ^ 20) n)) [
    | inr below ↦ in_kilo n (ground (arith, kilo_on)) (ground (arith, below))
    | inl mega_on ↦ elim (Bool-cases (leb (2 ^ 30) n)) [
      | inr below ↦ in_mega n (ground (arith, mega_on)) (ground (arith, below))
      | inl giga_on ↦ in_giga n (ground (arith, giga_on))
    ]
  ]
]
