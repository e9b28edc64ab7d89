-- ===== src/Pmm/Bitmap.antt =====
-- The bitmap of kernel/mm/pmm.c, read page by page.
use simpleos.Common.{ℕ, ◌/◌, ◌%◌, ◌<◌, ◌≡◌, arith, ◌==◌, if◌then◌else◌}
use simpleos.Common.Bytes.{bit_of-set_bit, bit_of-clear_bit, set_bit-lt, clear_bit-lt, bit_of-lt}
use simpleos.Pmm.{Bitmap, max_pages, bitmap_set, bitmap_clear, bitmap_test}

-- The cells hold bytes.
abbrev pub IsBytes : Bitmap → Type 0
IsBytes bm = (i : ℕ) → bm i < 256

module _ (bm : Bitmap) (p : ℕ) (v : IsBytes bm) where
  pub bitmap_set-IsBytes : IsBytes (bitmap_set bm p)
  unfolding bitmap_set
  bitmap_set-IsBytes i =
      ground (arith, v i, set_bit-lt (bm (p / 8)) (p % 8) (v (p / 8)) (omega arith))

  pub bitmap_clear-IsBytes : IsBytes (bitmap_clear bm p)
  unfolding bitmap_clear
  bitmap_clear-IsBytes i =
      ground (arith, v i, clear_bit-lt (bm (p / 8)) (p % 8) (v (p / 8)) (omega arith))

  -- Setting a page's bit changes what `bitmap_test` says of that page, and of no other.
  pub test-set :
      (q : ℕ)
      → p < max_pages
      → bitmap_test (bitmap_set bm p) q ≡ (if p == q then 1 else bitmap_test bm q)
  unfolding bitmap_test bitmap_set
  test-set q h =
      ground (arith, bit_of-set_bit (bm (p / 8)) (p % 8) (q % 8) (v (p / 8)) (omega arith))

  pub test-clear :
      (q : ℕ)
      → p < max_pages
      → bitmap_test (bitmap_clear bm p) q ≡ (if p == q then 0 else bitmap_test bm q)
  unfolding bitmap_test bitmap_clear
  test-clear q h =
      ground (arith, bit_of-clear_bit (bm (p / 8)) (p % 8) (q % 8) (v (p / 8)) (omega arith))

pub test-lt : (bm : Bitmap) (q : ℕ) → bitmap_test bm q < 2
unfolding bitmap_test
test-lt bm q = ground (arith, bit_of-lt (bm (q / 8)) (q % 8))
