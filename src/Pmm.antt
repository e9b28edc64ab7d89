-- ===== src/Pmm.antt =====
-- The physical memory manager, kernel/mm/pmm.c: a bitmap with one bit for each 4 KiB page.
-- The bitmap is the array of its bytes, as a function of the index; an array write is `update`.
pub mod Bitmap
pub mod Count
pub mod Invariant
pub mod Single
pub mod Runs
pub mod Init
pub mod Samples
mod Examples
use simpleos.Common.{
  ℕ, zero, suc, ◌+◌, ◌-◌, ◌*◌, ◌/◌, ◌%◌, ◌^◌, Bool, true, false, not, ◌&&◌, ◌||◌, Option, none,
  some, List, [], ◌∷◌, ltb, leb, ◌==◌, if◌then◌else◌, length,
}
use simpleos.Common.Bytes.{update, bit_of, set_bit, clear_bit}

abbrev pub page_size : ℕ
page_size = 4096

-- `PMM_MAX_PAGES`: 256 MiB of pages.
abbrev pub max_pages : ℕ
max_pages = 65536

abbrev pub bitmap_size : ℕ
bitmap_size = 8192

-- The pages of the first 2 MiB, which hold the kernel.
abbrev pub kernel_pages : ℕ
kernel_pages = 512

-- `memory_map_entry_t`: the fields that the code reads.
pub record MemoryMapEntry : Type 0 where
  pub kind : ℕ
  pub physical_start : ℕ
  pub num_pages : ℕ

abbrev pub memory_boot_code : ℕ
memory_boot_code = 3

abbrev pub memory_boot_data : ℕ
memory_boot_data = 4

abbrev pub memory_conventional : ℕ
memory_conventional = 7

abbrev pub Bitmap : Type 0
Bitmap = ℕ → ℕ

-- The file's static variables.
pub record Pmm : Type 0 where
  pub bitmap : Bitmap
  pub total_pages : ℕ
  pub used_pages : ℕ

unfoldable pub bitmap_set : Bitmap → ℕ → Bitmap
bitmap_set bm page =
    if ltb page max_pages then update bm (page / 8) (set_bit (bm (page / 8)) (page % 8)) else bm

unfoldable pub bitmap_clear : Bitmap → ℕ → Bitmap
bitmap_clear bm page =
    if ltb page max_pages then update bm (page / 8) (clear_bit (bm (page / 8)) (page % 8)) else bm

unfoldable pub bitmap_test : Bitmap → ℕ → ℕ
bitmap_test bm page = if ltb page max_pages then bit_of (bm (page / 8)) (page % 8) else 1

-- `uint64_t` counters.
abbrev pub incr : ℕ → ℕ
incr n = (n + 1) % 2 ^ 64

abbrev pub decr : ℕ → ℕ
decr n = (n + 2 ^ 64 - 1) % 2 ^ 64

-- `bitmap_set(page); used_pages++;`
unfoldable pub mark_used : Pmm → ℕ → Pmm
mark_used s page = record s { bitmap = bitmap_set s.bitmap page; used_pages = incr s.used_pages }

-- `bitmap_clear(page); used_pages--;`
unfoldable pub mark_free : Pmm → ℕ → Pmm
mark_free s page = record s { bitmap = bitmap_clear s.bitmap page; used_pages = decr s.used_pages }

-- `if (bitmap_test(page)) { bitmap_clear(page); used_pages--; }`
unfoldable pub free_if_used : Pmm → ℕ → Pmm
free_if_used s page = if bitmap_test s.bitmap page == 0 then s else mark_free s page

-- `if (!bitmap_test(page)) { bitmap_set(page); used_pages++; }`
unfoldable pub use_if_free : Pmm → ℕ → Pmm
use_if_free s page = if bitmap_test s.bitmap page == 0 then mark_used s page else s

-- The search loop of `pmm_alloc_page`, with `rounds` pages left to look at. NULL is `none`.
unfoldable pub alloc_page_loop : ℕ → ℕ → Pmm → Option ℕ × Pmm
alloc_page_loop zero page s = (none, s)
alloc_page_loop (suc rounds) page s = elim (bitmap_test s.bitmap page == 0) [
  | true ↦ (some (page * page_size), mark_used s page)
  | false ↦ alloc_page_loop rounds (page + 1) s
]

unfoldable pub alloc_page : Pmm → Option ℕ × Pmm
alloc_page s = alloc_page_loop (max_pages - kernel_pages) kernel_pages s

unfoldable pub free_page : Pmm → ℕ → Pmm
free_page s addr =
    let page = addr / page_size in
    if ltb page max_pages && not (bitmap_test s.bitmap page == 0) then mark_free s page else s

-- The inner loop of `pmm_alloc_pages`: the first `i` below the count whose page is in use.
unfoldable pub first_used : Bitmap → ℕ → ℕ → ℕ → Option ℕ
first_used bm start zero i = none
first_used bm start (suc rounds) i = elim (bitmap_test bm (start + i) == 0) [
  | true ↦ first_used bm start rounds (i + 1)
  | false ↦ some i
]

-- `for (i = 0; i < count; i++) { bitmap_set(start_page + i); used_pages++; }`
unfoldable pub mark_run : ℕ → ℕ → Pmm → Pmm
mark_run zero page s = s
mark_run (suc rounds) page s = mark_run rounds (page + 1) (mark_used s page)

-- The outer loop: a used page at `start + i` moves the search to `start + i + 1`.
unfoldable pub alloc_pages_loop : ℕ → ℕ → ℕ → Pmm → Option ℕ × Pmm
alloc_pages_loop zero count start s = (none, s)
alloc_pages_loop (suc fuel) count start s = elim (leb (start + count) max_pages) [
  | true ↦ elim (first_used s.bitmap start count 0) [
    | none ↦ (some (start * page_size), mark_run count start s)
    | some i ↦ alloc_pages_loop fuel count (start + i + 1) s
  ]
  | false ↦ (none, s)
]

unfoldable pub alloc_pages : Pmm → ℕ → Option ℕ × Pmm
alloc_pages s count =
    if (count == 0) || ltb 256 count
    then (none, s)
    else alloc_pages_loop max_pages count kernel_pages s

-- The loop of `pmm_free_pages`, and of `pmm_init` over one region: it stops at the last page.
unfoldable pub free_run : ℕ → ℕ → Pmm → Pmm
free_run zero page s = s
free_run (suc rounds) page s = elim (ltb page max_pages) [
  | true ↦ free_run rounds (page + 1) (free_if_used s page)
  | false ↦ s
]

unfoldable pub free_pages : Pmm → ℕ → ℕ → Pmm
free_pages s addr count = free_run count (addr / page_size) s

unfoldable pub get_total_pages : Pmm → ℕ
get_total_pages s = s.total_pages

unfoldable pub get_free_pages : Pmm → ℕ
get_free_pages s = if ltb s.used_pages s.total_pages then s.total_pages - s.used_pages else 0

unfoldable pub get_used_pages : Pmm → ℕ
get_used_pages s = s.used_pages

-- `for (i = 0; i < PMM_BITMAP_SIZE; i++) bitmap[i] = 0xFF;`
unfoldable pub fill_loop : ℕ → ℕ → Bitmap → Bitmap
fill_loop zero i bm = bm
fill_loop (suc rounds) i bm = fill_loop rounds (i + 1) (update bm i 255)

abbrev pub is_usable : MemoryMapEntry → Bool
is_usable e =
    (e.kind == memory_conventional) || (e.kind == memory_boot_code) || (e.kind == memory_boot_data)

-- One round of the loop over the memory map.
unfoldable pub free_region : MemoryMapEntry → Pmm → Pmm
free_region e s =
    if is_usable e
    then (let num_pages = if ltb max_pages e.num_pages then max_pages else e.num_pages in
        free_run num_pages (e.physical_start / page_size) s)
    else s

unfoldable pub free_regions : List MemoryMapEntry → Pmm → Pmm
free_regions [] s = s
free_regions (e ∷ es) s = free_regions es (free_region e s)

-- `for (page = 0; page < 512; page++) if (!bitmap_test(page)) { … }`
unfoldable pub reserve_loop : ℕ → ℕ → Pmm → Pmm
reserve_loop zero page s = s
reserve_loop (suc rounds) page s = reserve_loop rounds (page + 1) (use_if_free s page)

-- The state that the loop over the memory map starts from: every page is in use.
unfoldable pub all_used : Pmm → Pmm
all_used s = record {
  bitmap = fill_loop bitmap_size 0 s.bitmap;
  total_pages = max_pages;
  used_pages = max_pages;
}

-- `none` is a null `mmap`; the length of the list is `entries`.
unfoldable pub init : Option (List MemoryMapEntry) → Pmm → Pmm
init none s = record s { total_pages = 0; used_pages = 0 }
init (some mmap) s =
    if (length mmap == 0) || ltb 256 (length mmap)
    then record s { total_pages = 0; used_pages = 0 }
    else reserve_loop kernel_pages 0 (free_regions mmap (all_used s))
