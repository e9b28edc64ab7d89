-- ===== src/Pmm/Examples.antt =====
-- Small runs of kernel/mm/pmm.c, and its theorems at concrete states.
use simpleos.Common.{
  ℕ, ◌+◌, ◌<◌, ◌≡◌, refl, ap, inl, arith, ◌==◌, if◌then◌else◌, leb, ◌&&◌, some, List, [], ◌∷◌,
}
use simpleos.Pmm.{
  Pmm, MemoryMapEntry, max_pages, kernel_pages, init, alloc_page, free_page, alloc_pages,
  free_pages, get_total_pages, get_free_pages, get_used_pages, memory_conventional, alloc_page_loop,
  alloc_pages_loop, first_used, mark_free, free_run, free_if_used, bitmap_clear, bitmap_test,
}
use simpleos.Common.Bytes.{clear_bit, bit_of}
use simpleos.Pmm.Samples.{full_state, full_state-IsValid}
use simpleos.Pmm.Invariant.{used, IsValid}
use simpleos.Pmm.Single.{AllocPage, alloc_page-AllocPage, free_page_lem}
use simpleos.Pmm.Runs.{
  AllocPages, alloc_pages-AllocPages, Frees, free_pages-Frees, free_pages-alloc_pages,
}
use simpleos.Pmm.Init.{covers, init_lem, alloc_page-init_rejected, get_free_pages-add-used}

-- The two pages from 2 MiB on are free.
abbrev two_free : Pmm
two_free = free_pages full_state 0x200000 2

two_free-IsValid : IsValid two_free
two_free-IsValid = (free_pages-Frees 0x200000 2 full_state-IsValid).valid

-- The static variables at boot, and a map with a usable region across the 2 MiB line.
abbrev boot : Pmm
boot = record { bitmap = λ _. 0; total_pages = 0; used_pages = 0 }

abbrev small_map : List MemoryMapEntry
small_map =
    record { kind = 0; physical_start = 0; num_pages = 600 }
    ∷ record { kind = memory_conventional; physical_start = 0x1fe000; num_pages = 6 }
    ∷ []

alloc_two : (alloc_pages two_free 2).0 ≡ some 0x200000
unfolding alloc_pages alloc_pages_loop first_used free_pages free_run free_if_used mark_free
    bitmap_test bitmap_clear clear_bit bit_of
alloc_two = refl

alloc_one : (alloc_page two_free).0 ≡ some 0x200000
unfolding alloc_page alloc_page_loop free_pages free_run free_if_used mark_free bitmap_test
    bitmap_clear clear_bit bit_of
alloc_one = refl

alloc_page-AllocPage_example : AllocPage two_free (alloc_page two_free)
alloc_page-AllocPage_example = alloc_page-AllocPage two_free-IsValid

free_page_lem_example :
    ((q : ℕ)
      → q < max_pages
      → used (free_page full_state 0x400123) q ≡ (if 1024 == q then 0 else used full_state q))
    × ((free_page full_state 0x400123).used_pages + used full_state 1024 ≡ max_pages)
    × IsValid (free_page full_state 0x400123)
free_page_lem_example = free_page_lem full_state-IsValid 0x400123

alloc_pages-AllocPages_example : AllocPages two_free 2 (alloc_pages two_free 2)
alloc_pages-AllocPages_example = alloc_pages-AllocPages 2 two_free-IsValid

free_pages-Frees_example : Frees full_state (free_pages full_state 0x400000 256) 1024 256
free_pages-Frees_example = free_pages-Frees 0x400000 256 full_state-IsValid

free_pages-alloc_pages_example :
    ((q : ℕ)
      → q < max_pages
      → used (free_pages (alloc_pages two_free 2).1 0x200000 2) q ≡ used two_free q)
    × ((free_pages (alloc_pages two_free 2).1 0x200000 2).used_pages ≡ two_free.used_pages)
free_pages-alloc_pages_example =
    free_pages-alloc_pages {t = (alloc_pages two_free 2).1} 2 0x200000 two_free-IsValid
      (ap (λ r. (r, (alloc_pages two_free 2).1)) alloc_two)

init_lem_example :
    IsValid (init (some small_map) boot)
    × ((q : ℕ)
        → q < max_pages
        → used (init (some small_map) boot) q
          ≡ (if leb kernel_pages q && covers small_map q then 0 else 1))
init_lem_example = init_lem boot small_map (λ i. omega arith) (omega arith)

alloc_page-init_rejected_example :
    (get_total_pages (init (some []) boot) ≡ 0)
    × (get_free_pages (init (some []) boot) ≡ 0)
    × ((alloc_page (init (some []) boot)).0 ≡ some 0x200000)
unfolding bitmap_test bit_of
alloc_page-init_rejected_example = alloc_page-init_rejected (some []) boot (inl refl) refl

get_free_pages-add-used_example :
    (get_free_pages two_free + get_used_pages two_free ≡ get_total_pages two_free)
    × (get_total_pages two_free ≡ max_pages)
get_free_pages-add-used_example = get_free_pages-add-used two_free-IsValid
