-- ===== src/Commands/Dump.antt =====
-- The dump of memory in kernel/shell/shell.c.
use simpleos.Common.{
  ℕ, zero, suc, ◌+◌, ◌-◌, ◌/◌, ◌%◌, ◌^◌, ◌≤◌, ◌<◌, ◌≡◌, refl, ap, ◌∙◌, subst, arith, List, [], ◌∷◌,
  ◌++◌, Option, none, some, min, ltb, Bool-cases, inl, inr, true, get_or, length, ◌&&◌, ◌==◌,
}
use simpleos.Common.Bytes.{passes, passes_at}
use simpleos.Console.{hex_text}
use simpleos.Shell.Numbers.{is_digit, digit_value, number, all_digits}
use simpleos.Commands.{
  Output, color, text, char, clear, port, halt, dump_bytes, dump_lines, dump, hex_char,
}

-- The texts of an output that a single character follows, in order; `last` is the text just before.
abbrev pub entries : Option (List ℕ) → List Output → List (List ℕ)
entries last [] = []
entries last (text t ∷ os) = entries (some t) os
entries none (char c ∷ os) = entries none os
entries (some t) (char c ∷ os) = t ∷ entries none os
entries last (color c ∷ os) = entries none os
entries last (clear ∷ os) = entries none os
entries last (port a v ∷ os) = entries none os
entries last (halt ∷ os) = entries none os

-- What is printed of the byte at an address.
abbrev byte_text : (ℕ → ℕ) → ℕ → List ℕ
byte_text memory at =
    hex_char (memory (at % 2 ^ 64) / 16 % 16) ∷ hex_char (memory (at % 2 ^ 64) % 16) ∷ []

-- The two digits of each of `n` bytes.
abbrev digits_of : ℕ → ℕ → (ℕ → ℕ) → List (List ℕ)
digits_of zero at memory = []
digits_of (suc n) at memory = byte_text memory at ∷ digits_of n (at + 1) memory

entries-dump_bytes :
    (n at : ℕ) (memory : ℕ → ℕ) (os : List Output)
    → entries none (dump_bytes n at memory ++ os) ≡ digits_of n at memory ++ entries none os
unfolding dump_bytes
entries-dump_bytes zero at memory os = refl
entries-dump_bytes (suc n) at memory os =
    ap (λ es. byte_text memory at ∷ es) (entries-dump_bytes n (at + 1) memory os)

-- A line: the address is no entry, since a text follows it, and the colon is none where bytes follow.
entries-line :
    (n at : ℕ) (memory : ℕ → ℕ) (a b : List ℕ) (os : List Output)
    → entries none (text a ∷ text b ∷ (dump_bytes (suc n) at memory ++ (char b'\n' ∷ os)))
      ≡ digits_of (suc n) at memory ++ entries none os
unfolding dump_bytes
entries-line n at memory a b os =
    ap (λ es. byte_text memory at ∷ es) (entries-dump_bytes n (at + 1) memory (char b'\n' ∷ os))

digits_of-append :
    (n m at : ℕ) (memory : ℕ → ℕ)
    → digits_of n at memory ++ digits_of m (at + n) memory ≡ digits_of (n + m) at memory
digits_of-append zero m at memory =
    let same : at + 0 ≡ at = omega arith in let sum : 0 + m ≡ m = omega arith in rw (same, sum) refl
digits_of-append (suc n) m at memory =
    let same : at + suc n ≡ at + 1 + n = omega arith in
    let sum : suc n + m ≡ suc (n + m) = omega arith in
    rw (same, sum) (ap (λ es. byte_text memory at ∷ es) (digits_of-append n m (at + 1) memory))

-- A dump that has ended with these entries.
data Listed (es : List (List ℕ)) : Option (List Output) → Type 0 where
  listed : (os : List Output) → entries none os ≡ es → Listed es (some os)

digits_of-at :
    (m a b : ℕ) (memory : ℕ → ℕ) → (0 < m → a ≡ b) → digits_of m a memory ≡ digits_of m b memory
digits_of-at zero a b memory same = refl
digits_of-at (suc m) a b memory same = ap (λ c. digits_of (suc m) c memory) (same (omega arith))

-- The bytes of a line and of those below it are the bytes left.
digits_of-line :
    (addr len offset : ℕ) (memory : ℕ → ℕ)
    → offset < len
    → digits_of (min 16 (len - offset)) (addr + offset) memory
        ++ digits_of (len - (offset + 16)) (addr + (offset + 16)) memory
      ≡ digits_of (len - offset) (addr + offset) memory
digits_of-line addr len offset memory more =
    let n = min 16 (len - offset) in
    let m = len - (offset + 16) in
    ap (λ es. digits_of n (addr + offset) memory ++ es)
      (digits_of-at m (addr + (offset + 16)) (addr + offset + n) memory
        (λ some_left. omega (arith, some_left)))
    ∙ digits_of-append n m (addr + offset) memory
    ∙ ap (λ k. digits_of k (addr + offset) memory) (omega (arith, more))

line-Listed :
    (addr len offset : ℕ) (memory : ℕ → ℕ) (r : Option (List Output))
    → offset < len
    → Listed (digits_of (len - (offset + 16)) (addr + (offset + 16)) memory) r
    → Listed (digits_of (len - offset) (addr + offset) memory) (elim r [
      | none ↦ none
      | some os ↦ some (
          text (hex_text ((addr + offset) % 2 ^ 64))
          ∷ text (b':' ∷ b' ' ∷ [])
          ∷ (dump_bytes (min 16 (len - offset)) (addr + offset) memory ++ (char b'\n' ∷ os)))
    ])
line-Listed addr len offset memory _ more (listed os e) =
    let n = min 16 (len - offset) in
    let n_suc : n ≡ suc (n - 1) = omega (arith, more) in
    let line : entries none (
          text (hex_text ((addr + offset) % 2 ^ 64))
          ∷ text (b':' ∷ b' ' ∷ [])
          ∷ (dump_bytes n (addr + offset) memory ++ (char b'\n' ∷ os)))
        ≡ digits_of n (addr + offset) memory ++ entries none os =
      rw n_suc (
        entries-line (n - 1) (addr + offset) memory (hex_text ((addr + offset) % 2 ^ 64))
          (b':' ∷ b' ' ∷ []) os) in
    listed _ (
      line
      ∙ ap (λ es. digits_of n (addr + offset) memory ++ es) e
      ∙ digits_of-line addr len offset memory more)

dump_lines-Listed :
    (fuel addr len offset : ℕ) (memory : ℕ → ℕ)
    → len + 16 ≤ 2 ^ 64
    → (len - offset + 15) / 16 < fuel
    → Listed
        (digits_of (len - offset) (addr + offset) memory)
        (dump_lines fuel addr len offset memory)
unfolding dump_lines
dump_lines-Listed zero addr len offset memory fits enough = absurd (omega (arith, enough))
dump_lines-Listed (suc fuel) addr len offset memory fits enough =
    elim (Bool-cases (ltb offset len)) [
      | inl more ↦
          let next : (offset + 16) % 2 ^ 64 ≡ offset + 16 = ground (arith, fits, more) in
          rw (more, next)
            (line-Listed addr len offset memory (dump_lines fuel addr len (offset + 16) memory)
              (ground (arith, more))
              (dump_lines-Listed fuel addr len (offset + 16) memory fits
                (ground (arith, more, enough))))
      | inr over ↦
          let nothing : len - offset ≡ 0 = ground (arith, over) in
          rw (over, nothing) (listed [] refl)
    ]

-- Two hexadecimal digits whose value is the byte.
pub record Shows (byte : ℕ) (t : List ℕ) : Type 0 where
  pub two : length t ≡ 2
  pub digits : all_digits 16 t ≡ true
  pub value : number 16 0 t ≡ byte

-- A dump that has ended, with an entry for each byte from `addr` on.
pub data Dumped (addr len : ℕ) (memory : ℕ → ℕ) : Option (List Output) → Type 0 where
  dumped :
      (os : List Output)
      → length (entries none os) ≡ len
      → ((i : ℕ) → i < len → Shows (memory ((addr + i) % 2 ^ 64)) (get_or (entries none os) i []))
      → Dumped addr len memory (some os)

hex_table : passes (λ d. is_digit 16 (hex_char d) && (digit_value (hex_char d) == d)) 16 ≡ true
unfolding passes hex_char
hex_table = refl

hex_char_lem : (d : ℕ) → d < 16 → (is_digit 16 (hex_char d) ≡ true) × (digit_value (hex_char d) ≡ d)
hex_char_lem d small = ground (
  arith,
  passes_at (λ x. is_digit 16 (hex_char x) && (digit_value (hex_char x) == x)) 16 small hex_table,
)

byte_text-Shows :
    (memory : ℕ → ℕ) (at : ℕ)
    → memory (at % 2 ^ 64) < 256
    → Shows (memory (at % 2 ^ 64)) (byte_text memory at)
byte_text-Shows memory at small =
    let high = hex_char_lem (memory (at % 2 ^ 64) / 16 % 16) (omega arith) in
    let low = hex_char_lem (memory (at % 2 ^ 64) % 16) (omega arith) in
    record {
      two = refl;
      digits = rw (high.0, low.0) refl;
      value = omega (arith, small, high.1, low.1);
    }

length-digits_of : (n at : ℕ) (memory : ℕ → ℕ) → length (digits_of n at memory) ≡ n
length-digits_of zero at memory = refl
length-digits_of (suc n) at memory = omega (arith, length-digits_of n (at + 1) memory)

get_or-digits_of :
    (n at i : ℕ) (memory : ℕ → ℕ)
    → i < n
    → get_or (digits_of n at memory) i [] ≡ byte_text memory (at + i)
get_or-digits_of zero at i memory inside = absurd (omega (arith, inside))
get_or-digits_of (suc n) at zero memory inside =
    let same : at + 0 ≡ at = omega arith in rw same refl
get_or-digits_of (suc n) at (suc i) memory inside =
    let same : at + suc i ≡ at + 1 + i = omega arith in
    rw same (get_or-digits_of n (at + 1) i memory (omega (arith, inside)))

Listed-Dumped :
    (addr len : ℕ) (memory : ℕ → ℕ) (r : Option (List Output))
    → ((a : ℕ) → memory a < 256)
    → Listed (digits_of len addr memory) r
    → Dumped addr len memory r
Listed-Dumped addr len memory _ small (listed os e) =
    dumped os (ap length e ∙ length-digits_of len addr memory) (λ i inside.
      rw (e, get_or-digits_of len addr i memory inside)
        (byte_text-Shows memory (addr + i) (small ((addr + i) % 2 ^ 64))))

-- A dump of at most 2 ^ 64 - 16 bytes ends, and shows for each of these bytes, in the order of their
-- addresses, which are words of 64 bits, two hexadecimal digits that are read as its value.
pub dump-Dumped :
    (addr len : ℕ) (memory : ℕ → ℕ)
    → len + 16 ≤ 2 ^ 64
    → ((a : ℕ) → memory a < 256)
    → Dumped addr len memory (dump addr len memory)
unfolding dump
dump-Dumped addr len memory fits small =
    let whole : len - 0 ≡ len = omega arith in
    let start : addr + 0 ≡ addr = omega arith in
    let same : digits_of (len - 0) (addr + 0) memory ≡ digits_of len addr memory =
      rw (whole, start) refl in
    Listed-Dumped addr len memory (dump_lines (len / 16 + 2) addr len 0 memory) small (
      subst (λ es. Listed es (dump_lines (len / 16 + 2) addr len 0 memory)) same
        (dump_lines-Listed (len / 16 + 2) addr len 0 memory fits (omega arith)))

-- A dump whose length is near the end of the words.
module _ (addr len : ℕ) (memory : ℕ → ℕ) (long : 2 ^ 64 < len + 16) where
  -- A dump of more bytes never ends, whatever the fuel: the offset, which is a multiple of 16, starts
  -- over at 0 before it reaches the length.
  pub dump_lines-endless :
      (fuel offset : ℕ)
      → offset < len
      → offset < 2 ^ 64
      → offset % 16 ≡ 0
      → dump_lines fuel addr len offset memory ≡ none
  unfolding dump_lines
  dump_lines-endless zero offset more word aligned = refl
  dump_lines-endless (suc fuel) offset more word aligned =
      let inside : ltb offset len ≡ true = ground (arith, more) in
      rw
        (
          inside,
          dump_lines-endless fuel ((offset + 16) % 2 ^ 64)
              (omega (arith, more, long, word, aligned)) (omega arith) (omega (arith, aligned)),
        )
        refl
