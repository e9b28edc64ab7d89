-- ===== src/Pmm/Count.antt =====
-- How many of the first pages a test marks: what the counter `used_pages` of
-- kernel/mm/pmm.c stands for.
use simpleos.Common.{
  ℕ, zero, suc, ◌+◌, ◌<◌, ◌≡◌, inl, inr, refl, arith, ◌==◌, if◌then◌else◌, Bool-cases,
}

unfoldable pub count : ℕ → (ℕ → ℕ) → ℕ
count zero f = 0
count (suc n) f = f n + count n f

pub count-eq : (n : ℕ) (f g : ℕ → ℕ) → ((q : ℕ) → q < n → f q ≡ g q) → count n f ≡ count n g
unfolding count
count-eq zero f g h = refl
count-eq (suc n) f g h = omega (arith, h n (omega arith), count-eq n f g (λ q l. h q (omega arith)))

-- A change at one page moves the count by the difference there.
pub count-change :
    (n p v : ℕ) (f g : ℕ → ℕ)
    → p < n
    → ((q : ℕ) → q < n → g q ≡ (if p == q then v else f q))
    → count n g + f p ≡ count n f + v
unfolding count
count-change zero p v f g h e = elim h [ ]
count-change (suc n) p v f g h e = elim (Bool-cases (p == n)) [
  | inl here ↦
      ground (arith, e n (omega arith), count-eq n f g (λ q l. ground (arith, e q (omega arith))))
  | inr there ↦
      ground
        (arith, e n (omega arith), count-change n p v f g (ground arith) (λ q l. e q (omega arith)))
]

pub count-const : (n : ℕ) (f : ℕ → ℕ) → ((q : ℕ) → q < n → f q ≡ 1) → count n f ≡ n
unfolding count
count-const zero f h = refl
count-const (suc n) f h =
    omega (arith, h n (omega arith), count-const n f (λ q l. h q (omega arith)))

pub count-le : (n : ℕ) (f : ℕ → ℕ) → ((q : ℕ) → f q < 2) → count n f < n + 1
unfolding count
count-le zero f h = omega arith
count-le (suc n) f h = omega (arith, h n, count-le n f h)
