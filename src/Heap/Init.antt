-- ===== src/Heap/Init.antt =====
-- `heap_init` of kernel/mm/heap.c, and the statistics.
use simpleos.Common.{
  ℕ, ◌+◌, ◌-◌, ◌%◌, ◌≤◌, ◌<◌, ◌≡◌, ◌≢◌, refl, true, false, [], ◌∷◌, arith, ◌==◌, ◌||◌, ltb,
}
use simpleos.Heap.{
  Heap, header_size, min_block_size, word, align_down, sub_size, heap_init, heap_get_total_size,
  heap_get_used_size, heap_get_free_size,
}
use simpleos.Heap.Blocks.{Blocks, span, taken, taken-le-span}
use simpleos.Heap.Segment.{update_self}
use simpleos.Heap.Invariant.{half_word, IsHeap}

-- The 8-aligned part of the `size` bytes from `start` on: where it begins, and how long it is.
abbrev pub up : ℕ → ℕ
up start = align_down (start + 7)

abbrev pub room : ℕ → ℕ → ℕ
room start size = align_down (size - (up start - start))

-- Over at least 48 bytes at an address that is not null, in the lower half of the address space,
-- `heap_init` sets up one free block that fills the 8-aligned part of them, which loses fewer than
-- 16 bytes.
pub heap_init-IsHeap :
    (start size : ℕ) (h : Heap)
    → start + size < half_word
    → start ≢ 0
    → min_block_size ≤ size
    → IsHeap (heap_init start size h) (up start) ((room start size - header_size, true) ∷ [])
      × (start ≤ up start)
      × (up start + room start size ≤ start + size)
      × (size < room start size + 15)
unfolding heap_init
heap_init-IsHeap start size h small ne le =
    let t : ((start == 0) || ltb size min_block_size) ≡ false = ground arith in
    let e : align_down ((start + 7) % word) ≡ up start = omega arith in
    let e' : align_down (sub_size size (sub_size (up start) start)) ≡ room start size =
      omega arith in
    let e'' : sub_size (room start size) header_size ≡ room start size - header_size =
      omega arith in
    (
      rw (t, e, e', e'')
          (record {
            start = refl;
            chain = (update_self h.cells (up start) _, tt);
            total = omega arith;
            counted = refl;
            base_ne = omega arith;
            base_aligned = omega arith;
            small = omega arith;
            aligned = (omega arith, tt);
          }),
      omega arith,
      omega arith,
      omega arith,
    )

-- On a well-formed heap the free and the used bytes make up the total, and the free bytes are those
-- of the free blocks, with their headers.
pub heap_get_free_size-free :
    {h : Heap} (base : ℕ) (bs : Blocks)
    → IsHeap h base bs
    → (heap_get_free_size h + heap_get_used_size h ≡ heap_get_total_size h)
      × (heap_get_free_size h + taken bs ≡ span bs)
unfolding heap_get_free_size heap_get_used_size heap_get_total_size
heap_get_free_size-free base bs v = omega (arith, v.total, v.counted, v.small, taken-le-span bs)
