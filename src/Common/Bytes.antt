-- ===== src/Common/Bytes.antt =====
-- Memory cells as functions of their index, and the bits of a byte.
use Prim.Native.Nat.{bit_and, bit_or}
use simpleos.Common.Tests.{ltb, ◌==◌, if◌then◌else◌, ==_iff}
use Prim.Native.Nat.{ℕ, zero, suc, ◌-◌, ◌/◌, ◌%◌, ◌^◌, ◌<◌}
use mathlib.Core.Path.{◌≡◌, refl}
use mathlib.Core.Bool.{Bool, true, ◌&&◌}
use native.Mathlib.Omega.{arith}

-- An array write: cell `i` becomes `v`, and every other cell stays.
abbrev pub update {ℓ} : {A : Type ℓ} → (ℕ → A) → ℕ → A → ℕ → A
update f i v j = if i == j then v else f j

-- A finite table: `entry` passes its test at 0, …, `size - 1`.
unfoldable pub passes : (entry : ℕ → Bool) (size : ℕ) → Bool
passes entry zero = true
passes entry (suc size) = passes entry size && entry size

pub passes_at :
    {i : ℕ} (entry : ℕ → Bool) (size : ℕ) → i < size → passes entry size ≡ true → entry i ≡ true
unfolding passes
passes_at entry zero inside table = elim inside [ ]
passes_at {i} entry (suc size) inside table = ground (arith, passes_at {i = i} entry size)

-- Bit `k` of a byte, `(b >> k) & 1`.
unfoldable pub bit_of : ℕ → ℕ → ℕ
bit_of b k = (b / 2 ^ k) % 2

-- `b |= 1 << k`, for a byte.
unfoldable pub set_bit : ℕ → ℕ → ℕ
set_bit b k = bit_or b (2 ^ k)

-- `b &= ~(1 << k)`, for a byte.
unfoldable pub clear_bit : ℕ → ℕ → ℕ
clear_bit b k = bit_and b (255 - 2 ^ k)

-- What a table over a byte, a bit to write and a bit to read says at each of its entries.
byte_table : (ℕ → ℕ → ℕ → Bool) → Bool
byte_table p = passes (λ b. passes (λ k. passes (λ j. p b k j) 8) 8) 256

byte_table_sound :
    (p : ℕ → ℕ → ℕ → Bool)
    → byte_table p ≡ true
    → (b k j : ℕ) → b < 256
    → k < 8
    → j < 8
    → p b k j ≡ true
unfolding byte_table
byte_table_sound p t b k j hb hk hj =
    passes_at (λ j. p b k j) 8 hj
      (passes_at (λ k. passes (λ j. p b k j) 8) 8 hk
        (passes_at (λ b. passes (λ k. passes (λ j. p b k j) 8) 8) 256 hb t))

set_table :
    byte_table (λ b k j. bit_of (set_bit b k) j == (if k == j then 1 else bit_of b j)) ≡ true
unfolding byte_table passes set_bit bit_of
set_table = refl

clear_table :
    byte_table (λ b k j. bit_of (clear_bit b k) j == (if k == j then 0 else bit_of b j)) ≡ true
unfolding byte_table passes clear_bit bit_of
clear_table = refl

range_table : byte_table (λ b k j. ltb (set_bit b k) 256 && ltb (clear_bit b k) 256) ≡ true
unfolding byte_table passes set_bit clear_bit
range_table = refl

module _ (b k j : ℕ) (hb : b < 256) (hk : k < 8) where
  pub bit_of-set_bit : j < 8 → bit_of (set_bit b k) j ≡ (if k == j then 1 else bit_of b j)
  bit_of-set_bit hj = (==_iff _ _).0 (byte_table_sound _ set_table b k j hb hk hj)

  pub bit_of-clear_bit : j < 8 → bit_of (clear_bit b k) j ≡ (if k == j then 0 else bit_of b j)
  bit_of-clear_bit hj = (==_iff _ _).0 (byte_table_sound _ clear_table b k j hb hk hj)

module _ (b k : ℕ) (hb : b < 256) (hk : k < 8) where
  pub set_bit-lt : set_bit b k < 256
  set_bit-lt = ground (arith, byte_table_sound _ range_table b k 0 hb hk (omega arith))

  pub clear_bit-lt : clear_bit b k < 256
  clear_bit-lt = ground (arith, byte_table_sound _ range_table b k 0 hb hk (omega arith))

full_table : passes (λ j. bit_of 255 j == 1) 8 ≡ true
unfolding passes bit_of
full_table = refl

pub bit_of-full : (j : ℕ) → j < 8 → bit_of 255 j ≡ 1
bit_of-full j h = (==_iff _ _).0 (passes_at _ 8 h full_table)

pub bit_of-lt : (b k : ℕ) → bit_of b k < 2
unfolding bit_of
bit_of-lt b k = omega arith
