-- ===== src/Pmm/Init.antt =====
-- `pmm_init` of kernel/mm/pmm.c, and the statistics.
use simpleos.Common.{
  ℕ, zero, suc, ◌+◌, ◌-◌, ◌*◌, ◌/◌, ◌%◌, ◌≤◌, ◌<◌, ◌≡◌, ◌⊎◌, refl, sym, arith, ◌==◌, if◌then◌else◌,
  Bool-cases, inl, inr, Option, none, some, Bool, true, false, ltb, leb, ◌||◌, ◌&&◌, List, [], ◌∷◌,
  length,
}
use simpleos.Common.Bytes.{update, bit_of-full}
use simpleos.Pmm.{
  Bitmap, Pmm, MemoryMapEntry, max_pages, bitmap_size, kernel_pages, page_size, bitmap_test,
  fill_loop, all_used, is_usable, free_region, free_regions, use_if_free, reserve_loop, init,
  alloc_page, alloc_page_loop, get_total_pages, get_free_pages, get_used_pages,
}
use simpleos.Pmm.Bitmap.{IsBytes, test-lt}
use simpleos.Pmm.Count.{count-const}
use simpleos.Pmm.Invariant.{used, within, IsValid, used-mark_used, mark_used-IsValid, used_pages-le}
use simpleos.Pmm.Runs.{free_run-Frees}

-- A usable region of the map covers page `q`.
unfoldable pub covers : List MemoryMapEntry → ℕ → Bool
covers [] q = false
covers (e ∷ es) q =
    (is_usable e && within (e.physical_start / page_size) e.num_pages q) || covers es q

fill_loop_lem :
    (rounds i : ℕ) (bm : Bitmap) (j : ℕ)
    → fill_loop rounds i bm j ≡ (if within i rounds j then 255 else bm j)
unfolding fill_loop
fill_loop_lem zero i bm j = ground arith
fill_loop_lem (suc rounds) i bm j = ground (arith, fill_loop_lem rounds (i + 1) (update bm i 255) j)

used-all_used : (s : Pmm) (q : ℕ) → q < max_pages → used (all_used s) q ≡ 1
unfolding all_used bitmap_test
used-all_used s q h =
    ground (arith, fill_loop_lem bitmap_size 0 s.bitmap (q / 8), bit_of-full (q % 8) (omega arith))

-- `pmm_init` reaches a valid state only if the array held bytes: cells past the bitmap stay.
all_used-IsValid : (s : Pmm) → IsBytes s.bitmap → IsValid (all_used s)
unfolding all_used
all_used-IsValid s v = record {
  bytes = λ i. ground (arith, fill_loop_lem bitmap_size 0 s.bitmap i, v i);
  total = refl;
  counted = sym (count-const max_pages (used (all_used s)) (used-all_used s));
}

free_region-Frees :
    (e : MemoryMapEntry) {s : Pmm}
    → IsValid s
    → ((q : ℕ)
        → q < max_pages
        → used (free_region e s) q ≡ (
            if is_usable e && within (e.physical_start / page_size) e.num_pages q
            then 0
            else used s q))
      × IsValid (free_region e s)
unfolding free_region
free_region-Frees e {s} v = elim (Bool-cases (is_usable e)) [
  | inr skip ↦ rw (skip, free_region) (λ q h. refl, v)
  | inl use_it ↦
      let n : ℕ = if ltb max_pages e.num_pages then max_pages else e.num_pages in
      let frees = free_run-Frees n (e.physical_start / page_size) v in
      rw (use_it, free_region) (λ q h. ground (arith, frees.marks q h), frees.valid)
]

free_regions-Frees :
    (es : List MemoryMapEntry) {s : Pmm}
    → IsValid s
    → ((q : ℕ) → q < max_pages → used (free_regions es s) q ≡ (if covers es q then 0 else used s q))
      × IsValid (free_regions es s)
unfolding free_regions covers
free_regions-Frees [] v = (λ q h. refl, v)
free_regions-Frees (e ∷ es) {s} v =
    let first = free_region-Frees e v in
    let rest = free_regions-Frees es first.1 in
    (λ q h. ground (arith, rest.0 q h, first.0 q h), rest.1)

use_if_free-Takes :
    {s : Pmm} (p : ℕ)
    → IsValid s
    → p < max_pages
    → ((q : ℕ) → used (use_if_free s p) q ≡ (if p == q then 1 else used s q))
      × IsValid (use_if_free s p)
unfolding use_if_free
use_if_free-Takes {s} p v h = (
  λ q. ground (arith, used-mark_used v p h q, test-lt s.bitmap p),
  ground (arith, mark_used-IsValid v p h),
)

reserve_loop-Takes :
    (n p : ℕ) {s : Pmm}
    → IsValid s
    → p + n ≤ max_pages
    → ((q : ℕ) → used (reserve_loop n p s) q ≡ (if within p n q then 1 else used s q))
      × IsValid (reserve_loop n p s)
unfolding reserve_loop
reserve_loop-Takes zero p v h = (λ q. ground arith, v)
reserve_loop-Takes (suc n) p v h =
    let first = use_if_free-Takes p v (omega arith) in
    let rest = reserve_loop-Takes n (p + 1) first.1 (omega arith) in
    (λ q. ground (arith, rest.0 q, first.0 q), rest.1)

-- The memory maps that `pmm_init` accepts.
abbrev pub IsAccepted : List MemoryMapEntry → Type 0
IsAccepted m = (0 < length m) × (length m ≤ 256)

-- After `pmm_init` on a map with 1 to 256 entries the state is valid, and a managed page is free
-- exactly if it lies above the first 2 MiB and some usable region of the map covers it.
pub init_lem :
    (s : Pmm) (m : List MemoryMapEntry)
    → IsBytes s.bitmap
    → IsAccepted m
    → IsValid (init (some m) s)
      × ((q : ℕ)
          → q < max_pages
          → used (init (some m) s) q ≡ (if leb kernel_pages q && covers m q then 0 else 1))
unfolding init
init_lem s m b a =
    let freed = free_regions-Frees m (all_used-IsValid s b) in
    let reserved = reserve_loop-Takes kernel_pages 0 freed.1 (omega arith) in
    let good : ((length m == 0) || ltb 256 (length m)) ≡ false = ground arith in
    rw (good, init)
      (reserved.1, λ q h. ground (arith, reserved.0 q, freed.0 q h, used-all_used s q h))

-- A map that `pmm_init` turns down.
abbrev pub IsRejected : Option (List MemoryMapEntry) → Type 0
IsRejected none = Unit {0}
IsRejected (some m) = (length m ≡ 0) ⊎ (256 < length m)

init-rejected :
    (m : Option (List MemoryMapEntry)) (s : Pmm)
    → IsRejected m
    → init m s ≡ record s { total_pages = 0; used_pages = 0 }
unfolding init
init-rejected none s r = refl
init-rejected (some m) s r =
    let bad : ((length m == 0) || ltb 256 (length m)) ≡ true = ground arith in rw (bad, init)

alloc_page_loop-first :
    (s : Pmm) (rounds p : ℕ)
    → 0 < rounds
    → used s p ≡ 0
    → (alloc_page_loop rounds p s).0 ≡ some (p * page_size)
unfolding alloc_page_loop
alloc_page_loop-first s zero p h free = absurd (omega arith)
alloc_page_loop-first s (suc rounds) p h free = ground arith

alloc_page-first :
    (s : Pmm) → used s kernel_pages ≡ 0 → (alloc_page s).0 ≡ some (kernel_pages * page_size)
unfolding alloc_page
alloc_page-first s free =
    alloc_page_loop-first s (max_pages - kernel_pages) kernel_pages (omega arith) free

-- After a rejected map the manager reports no memory, and yet, if the bit of page 512 is clear, as it
-- is in the zeroed array at boot, `pmm_alloc_page` hands out the page at 2 MiB.
pub alloc_page-init_rejected :
    (m : Option (List MemoryMapEntry)) (s : Pmm)
    → IsRejected m
    → used s kernel_pages ≡ 0
    → (get_total_pages (init m s) ≡ 0)
      × (get_free_pages (init m s) ≡ 0)
      × ((alloc_page (init m s)).0 ≡ some 0x200000)
unfolding get_total_pages get_free_pages
alloc_page-init_rejected m s r free =
    rw (init-rejected m s r)
      (refl, refl, alloc_page-first (record s { total_pages = 0; used_pages = 0 }) free)

-- On a valid state the free and the used pages make up the total, which is 65536.
pub get_free_pages-add-used :
    {s : Pmm}
    → IsValid s
    → (get_free_pages s + get_used_pages s ≡ get_total_pages s) × (get_total_pages s ≡ max_pages)
unfolding get_free_pages get_used_pages get_total_pages
get_free_pages-add-used v = ground (arith, used_pages-le v)
