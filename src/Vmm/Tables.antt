-- ===== src/Vmm/Tables.antt =====
-- The page tables of kernel/mm/vmm.c as a tree: each table has one place in it.
use simpleos.Common.{
  ℕ, zero, suc, ◌+◌, ◌*◌, ◌/◌, ◌≤◌, ◌<◌, ◌≡◌, ◌≢◌, refl, arith, Bool, true, false, ◌||◌, ◌==◌,
  if◌then◌else◌,
}
use simpleos.Common.Bytes.{update}
use simpleos.Pmm.Invariant.{used, IsValid}
use simpleos.Vmm.{Vmm, Words, entry_at, clear_entries, present, page_of}

-- The place of a table: how many levels of tables it and those below it make, 4 for the root and 0
-- for a page that is no table; and the indices that lead to it from the root, as one number.
pub record Places : Type 0 where
  pub level : ℕ → ℕ
  pub prefix : ℕ → ℕ

-- A table stands on a page in use, and a present entry above the last level leads to the table of its
-- place.
pub record IsTables (m : Places) (s : Vmm) : Type 0 where
  pub root_level : m.level s.kernel_pml4 ≡ 4
  pub root_prefix : m.prefix s.kernel_pml4 ≡ 0
  pub aligned : (t : ℕ) → 0 < m.level t → t ≡ (t / 4096) * 4096
  pub taken : (t : ℕ) → 0 < m.level t → used s.pmm (t / 4096) ≡ 1
  pub above : (t : ℕ) → 0 < m.level t → 0 < t
  pub level_below :
      (t i : ℕ)
      → 1 < m.level t
      → i < 512
      → present (s.words (entry_at t i)) ≡ true
      → m.level (page_of (s.words (entry_at t i))) + 1 ≡ m.level t
  pub prefix_below :
      (t i : ℕ)
      → 1 < m.level t
      → i < 512
      → present (s.words (entry_at t i)) ≡ true
      → m.prefix (page_of (s.words (entry_at t i))) ≡ m.prefix t * 512 + i
  pub pages : IsValid s.pmm

-- Entries of two tables are the same word only if table and index are the same.
pub entry_at-table :
    (t t' i i' : ℕ)
    → t ≡ (t / 4096) * 4096
    → t' ≡ (t' / 4096) * 4096
    → i < 512
    → i' < 512
    → entry_at t i ≡ entry_at t' i'
    → t ≡ t'
entry_at-table t t' i i' a a' h h' e = omega (arith, a, a', h, h', e)

pub entry_at-index :
    (t t' i i' : ℕ)
    → t ≡ (t / 4096) * 4096
    → t' ≡ (t' / 4096) * 4096
    → i < 512
    → i' < 512
    → entry_at t i ≡ entry_at t' i'
    → i ≡ i'
entry_at-index t t' i i' a a' h h' e = omega (arith, a, a', h, h', e)

-- Is the word at `a` one of the entries from `i` on, `rounds` of them?
abbrev pub clears : ℕ → ℕ → ℕ → ℕ → Bool
clears zero t i a = false
clears (suc rounds) t i a = (entry_at t i == a) || clears rounds t (i + 1) a

pub clears-inside :
    (rounds t i j : ℕ) → i ≤ j → j < i + rounds → clears rounds t i (entry_at t j) ≡ true
clears-inside zero t i j low high = absurd (omega (arith, low, high))
clears-inside (suc rounds) t i j low high =
    ground (arith, low, high, clears-inside rounds t (i + 1) j)

pub clears-outside :
    (rounds t i a : ℕ)
    → t ≡ (t / 4096) * 4096
    → i + rounds ≤ 512
    → a / 4096 ≢ t / 4096
    → clears rounds t i a ≡ false
clears-outside zero t i a al fits apart = refl
clears-outside (suc rounds) t i a al fits apart =
    ground (arith, al, fits, apart, clears-outside rounds t (i + 1) a)

-- Clearing a table clears its entries, and leaves the words of other pages alone.
pub clear_entries_lem :
    (rounds t i : ℕ) (w : Words) (a : ℕ)
    → clear_entries rounds t i w a ≡ (if clears rounds t i a then 0 else w a)
unfolding clear_entries
clear_entries_lem zero t i w a = refl
clear_entries_lem (suc rounds) t i w a =
    ground (arith, clear_entries_lem rounds t (i + 1) (update w (entry_at t i) 0) a)
