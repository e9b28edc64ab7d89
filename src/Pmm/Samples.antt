-- ===== src/Pmm/Samples.antt =====
-- States of kernel/mm/pmm.c for the tests.
use simpleos.Common.{ℕ, ◌%◌, ◌<◌, ◌≡◌, refl, sym, arith}
use simpleos.Pmm.{
  Pmm, max_pages, free_pages, free_run, free_if_used, mark_free, bitmap_test, bitmap_clear,
}
use simpleos.Common.Bytes.{bit_of-full, bit_of, clear_bit}
use simpleos.Pmm.Count.{count-const}
use simpleos.Pmm.Invariant.{used, IsValid}
use simpleos.Pmm.Runs.{free_pages-Frees}

-- Every page in use.
abbrev pub full_state : Pmm
full_state = record { bitmap = λ _. 255; total_pages = max_pages; used_pages = max_pages }

full_state-used : (q : ℕ) → q < max_pages → used full_state q ≡ 1
unfolding bitmap_test
full_state-used q h = ground (arith, bit_of-full (q % 8) (omega arith))

pub full_state-IsValid : IsValid full_state
full_state-IsValid = record {
  bytes = λ i. omega arith;
  total = refl;
  counted = sym (count-const max_pages (used full_state) full_state-used);
}

-- The four pages from 2 MiB on are free.
abbrev pub some_free : Pmm
some_free = free_pages full_state 0x200000 4

pub some_free-IsValid : IsValid some_free
some_free-IsValid = (free_pages-Frees 0x200000 4 full_state-IsValid).valid

pub some_free-used : used some_free 1 ≡ 1
unfolding free_pages free_run free_if_used mark_free bitmap_test bitmap_clear clear_bit bit_of
some_free-used = refl
