-- ===== src/Heap/Examples.antt =====
-- Small runs of kernel/mm/heap.c, and its theorems at concrete heaps.
use simpleos.Common.{
  ◌+◌, ◌-◌, ◌<◌, ◌≤◌, ◌≡◌, ◌≢◌, refl, true, false, [], ◌∷◌, arith, if◌then◌else◌, ltb,
}
use simpleos.Common.Bytes.{update}
use simpleos.Heap.{
  Heap, header_size, min_block_size, heap_init, kmalloc, kfree, krealloc, heap_get_free_size,
  heap_get_used_size, heap_get_total_size, find_free_block, finish_alloc, take_block, split_block,
  set_prev, release_block, coalesce_blocks, coalesce_next, coalesce_prev,
}
use simpleos.Heap.Blocks.{Blocks, span, taken, carve, release}
use simpleos.Heap.Segment.{header, Seg}
use simpleos.Heap.Invariant.{IsHeap}
use simpleos.Heap.Init.{up, room, heap_init-IsHeap, heap_get_free_size-free}
use simpleos.Heap.Alloc.{Kmalloc, kmalloc-Kmalloc}
use simpleos.Heap.Free.{kfree-release, kfree-unchanged}
use simpleos.Heap.Coalesced.{IsCoalesced, IsCoalesced-release, kfree-kmalloc}
use simpleos.Heap.Realloc.{krealloc-shrink, krealloc-grow_overlaps}
use simpleos.Heap.Limits.{InRegion, kmalloc-InRegion, kmalloc-wraps}

abbrev blank : Heap
blank = record {
  cells = λ _. header 0 false 0 0;
  bytes = λ _. 0;
  heap_start = 0;
  heap_total_size = 0;
  heap_used_size = 0;
}

-- A taken block of 64 bytes at 0x1000, and a free one of 128 behind it.
abbrev two : Blocks
two = (64, false) ∷ (128, true) ∷ []

abbrev small : Heap
small = record {
  cells = update (λ _. header 128 true 0 0x1000) 0x1000 (header 64 false 0x1060 0);
  bytes = λ _. 0;
  heap_start = 0x1000;
  heap_total_size = 256;
  heap_used_size = 96;
}

small-IsHeap : IsHeap small 0x1000 two
small-IsHeap = record {
  start = refl;
  chain = (refl, (refl, tt));
  total = refl;
  counted = refl;
  base_ne = omega arith;
  base_aligned = refl;
  small = omega arith;
  aligned = (refl, (refl, tt));
}

kmalloc_runs : (kmalloc small 20).0 ≡ 0x1080
unfolding kmalloc find_free_block finish_alloc take_block split_block set_prev
kmalloc_runs = refl

kmalloc_succeeds : (kmalloc small 20).0 ≢ 0
unfolding kmalloc find_free_block finish_alloc take_block split_block set_prev
kmalloc_succeeds = omega arith

kfree_runs : (kfree small 0x1020).heap_used_size ≡ 0
unfolding kfree release_block coalesce_blocks coalesce_next coalesce_prev
kfree_runs = refl

heap_init-IsHeap_example :
    IsHeap
      (heap_init 0x400003 0x100000 blank)
      0x400008
      ((room 0x400003 0x100000 - header_size, true) ∷ [])
    × (0x400003 ≤ up 0x400003)
    × (up 0x400003 + room 0x400003 0x100000 ≤ 0x400003 + 0x100000)
    × (0x100000 < room 0x400003 0x100000 + 15)
heap_init-IsHeap_example =
    heap_init-IsHeap 0x400003 0x100000 blank (omega arith) (omega arith) (omega arith)

heap_get_free_size-free_example :
    (heap_get_free_size small + heap_get_used_size small ≡ heap_get_total_size small)
    × (heap_get_free_size small + taken two ≡ span two)
heap_get_free_size-free_example = heap_get_free_size-free 0x1000 two small-IsHeap

kmalloc-Kmalloc_example : Kmalloc small 0x1000 two 20 (kmalloc small 20)
kmalloc-Kmalloc_example = kmalloc-Kmalloc 0x1000 two 20 small-IsHeap

kfree-release_example : IsHeap (kfree small 0x1020) 0x1000 (release [] 64 ((128, true) ∷ []))
kfree-release_example = kfree-release 0x1000 64 [] ((128, true) ∷ []) small-IsHeap

kfree-unchanged_example : (kfree small 0x1080 ≡ small) × (kfree small 0 ≡ small)
kfree-unchanged_example = kfree-unchanged 0x1000 128 ((64, false) ∷ []) [] small-IsHeap

kfree-kmalloc_example : IsHeap (kfree (kmalloc small 20).1 (kmalloc small 20).0) 0x1000 two
kfree-kmalloc_example = kfree-kmalloc 0x1000 two 20 small-IsHeap (tt, tt) kmalloc_succeeds

IsCoalesced-release_example : IsCoalesced (release [] 64 ((128, true) ∷ []))
IsCoalesced-release_example = IsCoalesced-release [] ((128, true) ∷ []) 64 (tt, tt)

kmalloc-InRegion_example : InRegion 0x1000 two (kmalloc small 20).0 20
kmalloc-InRegion_example =
    kmalloc-InRegion 0x1000 two 20 small-IsHeap (omega arith) kmalloc_succeeds

kmalloc-wraps_example :
    ((kmalloc small 0xffff_ffff_ffff_fffc).0 ≢ 0)
    × (0x1000 + span two < (kmalloc small 0xffff_ffff_ffff_fffc).0 + 0xffff_ffff_ffff_fffc)
kmalloc-wraps_example =
    kmalloc-wraps 0x1000 128 ((64, false) ∷ []) [] 0xffff_ffff_ffff_fffc small-IsHeap (omega arith)
      (omega arith)

krealloc-shrink_example :
    ((krealloc small 0x1020 10).0 ≡ 0x1020)
    × Seg (krealloc small 0x1020 10).1.cells 0 0x1000 (carve false 16 64 ((128, true) ∷ [])) 0
    × ((krealloc small 0x1020 10).1.heap_used_size
        ≡ taken (carve false 16 64 ((128, true) ∷ []))
          + (if ltb 64 (16 + min_block_size) then 0 else 64 - 16))
krealloc-shrink_example =
    krealloc-shrink 0x1000 64 [] ((128, true) ∷ []) small-IsHeap 10 (omega arith) (omega arith)

krealloc-grow_overlaps_example :
    let (p, h') = krealloc small 0x1020 100 in
    (p ≡ 0x1020)
    × ((h'.cells 0x1000).size ≡ 104)
    × ((h'.cells 0x1000).next ≡ 0x1060)
    × (0x1060 < p + (h'.cells 0x1000).size)
    × ((h'.cells 0x1060).free ≡ false)
    × ((h'.cells 0x1060).size ≡ 128)
krealloc-grow_overlaps_example =
    krealloc-grow_overlaps 0x1000 64 128 [] [] small-IsHeap 100 (omega arith) (omega arith)
      (omega arith)
