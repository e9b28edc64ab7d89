-- ===== src/History/Lines.antt =====
-- The lines that the circular array of kernel/shell/history.c holds, the oldest first.
use simpleos.Common.{
  ℕ, ◌+◌, ◌-◌, ◌%◌, ◌≤◌, ◌<◌, ◌≡◌, refl, arith, true, List, [], ◌∷◌, Option, none, some, get_or,
}
use simpleos.Common.Ring.{wrap, slots, slots-get}
use simpleos.History.{History, index, str_equal}

abbrev pub lines : History → List (List ℕ)
lines h = slots h.history_entries 16 h.history_start h.history_count

-- The selection is one of the lines.
abbrev pub IsSelection : Option ℕ → ℕ → Type 0
IsSelection none count = 0 ≤ count
IsSelection (some n) count = n < count

pub record IsHistory (h : History) : Type 0 where
  pub start_lt : h.history_start < 16
  pub count_le : h.history_count ≤ 16
  pub selection : IsSelection h.nav_pos h.history_count

-- The line that is `n` lines older than the newest one.
abbrev pub newest : History → ℕ → List ℕ
newest h n = get_or (lines h) (h.history_count - 1 - n) []

index_wrap :
    (start count n : ℕ)
    → start < 16
    → count ≤ 16
    → n < count
    → (start + count - 1 - n) % 16 ≡ wrap 16 (start + (count - 1 - n))
index_wrap start count n hs hc hn = ground arith

-- The cell that `index` names holds that line.
pub entry_newest :
    (h : History) (n : ℕ)
    → IsHistory h
    → n < h.history_count
    → h.history_entries (index h n) ≡ newest h n
entry_newest h n v inside = ground (
  arith,
  v.start_lt,
  v.count_le,
  slots-get h.history_entries 16 h.history_start h.history_count (h.history_count - 1 - n) [],
  index_wrap h.history_start h.history_count n,
)

-- `str_equal` decides equality.
pub str_equal_sound : (a b : List ℕ) → str_equal a b ≡ true → a ≡ b
unfolding str_equal
str_equal_sound [] [] t = refl
str_equal_sound [] (y ∷ ys) t = ground arith
str_equal_sound (x ∷ xs) [] t = ground arith
str_equal_sound (x ∷ xs) (y ∷ ys) t = ground (arith, str_equal_sound xs ys)

pub str_equal_refl : (a : List ℕ) → str_equal a a ≡ true
unfolding str_equal
str_equal_refl [] = refl
str_equal_refl (x ∷ xs) = ground (arith, str_equal_refl xs)
