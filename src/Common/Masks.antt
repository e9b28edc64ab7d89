-- ===== src/Common/Masks.antt =====
-- The operation `|` on words of any width, digit by digit and page by page.
use Prim.Native.Nat.{
  ℕ, zero, suc, ◌+◌, ◌*◌, ◌/◌, ◌%◌, ◌≤◌, ◌<◌, ◌-◌, ◌^◌, min, max, bit_or, bit_and, digits,
  bit_or-bitwise, bit_and-bitwise,
}
use mathlib.Core.Path.{◌≡◌, refl, ap, sym, ◌∙◌}
use native.Mathlib.Omega.{arith}
use native.Mathlib.Nat.{div-add-mod, mod-lt, one-le-pow, mul-add-mod_self_left, mod-eq_of_lt}

-- What the native operation stands for, with `fuel` digits of the first number left.
abbrev joined : ℕ → ℕ → ℕ → ℕ
joined fuel x y = digits (λ rest. rest) max fuel x y

-- Fuel beyond the digits of the first number changes nothing.
joined_enough : (f g x y : ℕ) → x ≤ f → x ≤ g → joined f x y ≡ joined g x y
joined_enough zero zero x y hf hg = refl
joined_enough zero (suc g) zero y hf hg = refl
joined_enough zero (suc g) (suc x) y hf hg = elim hf [ ]
joined_enough (suc f) zero zero y hf hg = refl
joined_enough (suc f) zero (suc x) y hf hg = elim hg [ ]
joined_enough (suc f) (suc g) zero y hf hg = refl
joined_enough (suc f) (suc g) (suc x) y hf hg =
    omega (arith, joined_enough f g (suc x / 2) (y / 2) (omega (arith, hf)) (omega (arith, hg)))

pub zero-bit_or : (y : ℕ) → bit_or 0 y ≡ y
zero-bit_or y = bit_or-bitwise 0 y

-- The lowest digit, and the rest.
pub bit_or_digit : (x y : ℕ) → bit_or x y ≡ bit_or (x / 2) (y / 2) * 2 + max (x % 2) (y % 2)
bit_or_digit zero y = omega (arith, zero-bit_or y, zero-bit_or (y / 2))
bit_or_digit (suc x) y = omega (
  arith,
  bit_or-bitwise (suc x) y,
  bit_or-bitwise (suc x / 2) (y / 2),
  joined_enough x (suc x / 2) (suc x / 2) (y / 2) (omega arith) (omega arith),
)

bit_or-zero_below : (n x : ℕ) → x ≤ n → bit_or x 0 ≡ x
bit_or-zero_below n zero h = zero-bit_or 0
bit_or-zero_below zero (suc x) h = elim h [ ]
bit_or-zero_below (suc n) (suc x) h =
    omega (arith, bit_or_digit (suc x) 0, bit_or-zero_below n (suc x / 2) (omega (arith, h)))

pub bit_or-zero : (x : ℕ) → bit_or x 0 ≡ x
bit_or-zero x = bit_or-zero_below x x (omega arith)

-- A number with `n` digits 0 put behind it, and joined with another one digit by digit.
abbrev shifted : ℕ → ℕ → ℕ
shifted zero x = x
shifted (suc n) x = shifted n x * 2

abbrev behind : ℕ → ℕ → ℕ → ℕ
behind zero x y = bit_or x y
behind (suc n) x y = behind n x (y / 2) * 2 + y % 2

half_double : (s : ℕ) → s * 2 / 2 ≡ s
half_double s = omega arith

half_of : (x y : ℕ) → bit_or x y / 2 ≡ bit_or (x / 2) (y / 2)
half_of x y = omega (arith, bit_or_digit x y)

bit_or-shifted : (n x y : ℕ) → bit_or (shifted n x) y ≡ behind n x y
bit_or-shifted zero x y = refl
bit_or-shifted (suc n) x y =
    (let digit = bit_or_digit (shifted n x * 2) y in
      digit
      ∙ omega (
        arith,
        ap (λ s. bit_or s (y / 2)) (half_double (shifted n x)),
        bit_or-shifted n x (y / 2),
      ))

abbrev halved : ℕ → ℕ → ℕ
halved zero x = x
halved (suc n) x = halved n (x / 2)

bit_or-halved : (n x y : ℕ) → halved n (bit_or x y) ≡ bit_or (halved n x) (halved n y)
bit_or-halved zero x y = refl
bit_or-halved (suc n) x y = ap (halved n) (half_of x y) ∙ bit_or-halved n (x / 2) (y / 2)

twelve : (x : ℕ) → halved 12 x ≡ x / 4096
twelve x = omega arith

small_page : (y : ℕ) → y < 4096 → y / 4096 ≡ 0
small_page y h = omega arith

-- A page number joined with a word: the low 12 bits are those of the word.
pub bit_or-aligned : (x y : ℕ) → bit_or (x * 4096) y ≡ bit_or x (y / 4096) * 4096 + y % 4096
bit_or-aligned x y =
    ap (λ s. bit_or s y) (omega arith)
    ∙ bit_or-shifted 12 x y
    ∙ omega (arith, ap (bit_or x) (twelve y))

-- The page number of a joined word.
pub bit_or-page : (x y : ℕ) → bit_or x y / 4096 ≡ bit_or (x / 4096) (y / 4096)
bit_or-page x y =
    sym (twelve (bit_or x y))
    ∙ bit_or-halved 12 x y
    ∙ ap (λ a. bit_or a (halved 12 y)) (twelve x)
    ∙ ap (bit_or (x / 4096)) (twelve y)

-- With flags below a page, joining is adding.
pub bit_or-flags : (x y : ℕ) → y < 4096 → bit_or (x * 4096) y ≡ x * 4096 + y
bit_or-flags x y h =
    bit_or-aligned x y ∙ omega (arith, h, ap (bit_or x) (small_page y h), bit_or-zero x)

-- The lowest bit of a word joined with 1.
pub bit_or-present : (x : ℕ) → bit_or x 1 % 2 ≡ 1
bit_or-present x = omega (arith, bit_or_digit x 1)

-- The same for `&`.
abbrev met : ℕ → ℕ → ℕ → ℕ
met fuel x y = digits (λ rest. 0) min fuel x y

met_enough : (f g x y : ℕ) → x ≤ f → x ≤ g → met f x y ≡ met g x y
met_enough zero zero x y hf hg = refl
met_enough zero (suc g) zero y hf hg = refl
met_enough zero (suc g) (suc x) y hf hg = elim hf [ ]
met_enough (suc f) zero zero y hf hg = refl
met_enough (suc f) zero (suc x) y hf hg = elim hg [ ]
met_enough (suc f) (suc g) zero y hf hg = refl
met_enough (suc f) (suc g) (suc x) y hf hg =
    omega (arith, met_enough f g (suc x / 2) (y / 2) (omega (arith, hf)) (omega (arith, hg)))

zero-bit_and : (y : ℕ) → bit_and 0 y ≡ 0
zero-bit_and y = bit_and-bitwise 0 y

bit_and_digit : (x y : ℕ) → bit_and x y ≡ bit_and (x / 2) (y / 2) * 2 + min (x % 2) (y % 2)
bit_and_digit zero y = omega (arith, zero-bit_and y, zero-bit_and (y / 2))
bit_and_digit (suc x) y = omega (
  arith,
  bit_and-bitwise (suc x) y,
  bit_and-bitwise (suc x / 2) (y / 2),
  met_enough x (suc x / 2) (suc x / 2) (y / 2) (omega arith) (omega arith),
)

bit_and-zero_below : (n x : ℕ) → x ≤ n → bit_and x 0 ≡ 0
bit_and-zero_below n zero h = zero-bit_and 0
bit_and-zero_below zero (suc x) h = elim h [ ]
bit_and-zero_below (suc n) (suc x) h =
    omega (arith, bit_and_digit (suc x) 0, bit_and-zero_below n (suc x / 2) (omega (arith, h)))

mod-double : (p x : ℕ) → 0 < p → x % (p * 2) ≡ (x / 2 % p) * 2 + x % 2
mod-double p x pos =
    let q = x / 2 / p in
    let r = (x / 2 % p) * 2 + x % 2 in
    let whole : x ≡ (p * 2) * q + r = grind (arith, div-add-mod (x / 2) p) in
    ap (λ n. n % (p * 2)) whole
    ∙ mul-add-mod_self_left (p * 2) q r
    ∙ mod-eq_of_lt (omega (arith, mod-lt (x / 2) pos))

-- `x & (2 ^ k - 1)` are the `k` lowest digits of `x`.
pub bit_and-low : (k x : ℕ) → bit_and x (2 ^ k - 1) ≡ x % 2 ^ k
bit_and-low zero x = omega (arith, bit_and-zero_below x x (omega arith))
bit_and-low (suc k) x =
    let pos : 0 < 2 ^ k = one-le-pow k 2 (omega arith) in
    let double : 2 ^ suc k ≡ 2 ^ k * 2 = omega arith in
    let half : (2 ^ suc k - 1) / 2 ≡ 2 ^ k - 1 = omega (arith, pos, double) in
    bit_and_digit x (2 ^ suc k - 1)
    ∙ omega (
      arith,
      ap (bit_and (x / 2)) half,
      bit_and-low k (x / 2),
      pos,
      double,
      mod-double (2 ^ k) x pos,
      ap (λ m. x % m) double,
    )
