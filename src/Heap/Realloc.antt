-- ===== src/Heap/Realloc.antt =====
-- `krealloc` of kernel/mm/heap.c on the paths that work in place, and sizes that wrap round.
use simpleos.Common.{
  ℕ, ◌+◌, ◌-◌, ◌%◌, ◌≤◌, ◌<◌, ◌≡◌, ◌≢◌, refl, ◌∙◌, ap, true, false, not, ◌∷◌, ◌++◌, arith, ◌==◌,
  ◌&&◌, if◌then◌else◌, ltb, leb,
}
use simpleos.Common.Bytes.{update}
use simpleos.Heap.{
  Heap, Block, Cells, header_size, min_block_size, align_size, add_size, split_block, grow_block,
  krealloc,
}
use simpleos.Heap.Blocks.{
  Blocks, span, taken, carve, span-append, taken-append, span-carve, taken-carve, IsAligned-carve,
  IsAligned-right,
}
use simpleos.Heap.Alloc.{link-carve}
use simpleos.Heap.Segment.{header, link, last, Seg, Seg-right, update_ne, update_self}
use simpleos.Heap.Invariant.{half_word, IsHeap, IsHeap-change}
use simpleos.Heap.Split.{split_block-carve, split_block-small}

-- Where the block of a pointer lies, and what its header says.
module _ {h : Heap} (base n : ℕ) (xs ys : Blocks)
    (v : IsHeap h base (xs ++ ((n, false) ∷ ys))) where
  abbrev at : ℕ
  at = base + span xs

  abbrev ptr : ℕ
  ptr = at + header_size

  chain : Seg h.cells (last 0 base xs) at ((n, false) ∷ ys) 0
  chain = Seg-right h.cells 0 base at xs ((n, false) ∷ ys) 0 refl v.chain

  back : ptr - header_size ≡ at
  back = omega arith

  room : at + header_size + n + span ys < half_word
  room = omega (arith, v.small, span-append xs ((n, false) ∷ ys))

  -- Shrinking in place: the tests of `krealloc`.
  shrink_eq :
      (size : ℕ)
      → size ≢ 0
      → align_size size ≤ n
      → krealloc h ptr size ≡ (ptr, record h { cells = split_block h.cells at (align_size size) })
  unfolding krealloc
  shrink_eq size ne le =
      let z : (ptr == 0) ≡ false = ground (arith, v.base_ne) in
      let z' : (size == 0) ≡ false = ground arith in
      let t : leb (align_size size) (h.cells at).size ≡ true = rw chain.0 (ground arith) in
      rw (back, z, z', t)

  shrunk-Seg :
      (k : ℕ)
      → k ≤ n
      → k % 8 ≡ 0
      → Seg (split_block h.cells at k) 0 base (xs ++ carve false k n ys) 0
  shrunk-Seg k le al =
      let cut =
        split_block-carve h.cells (last 0 base xs) at k n false ys le (omega (arith, room))
          (omega (arith, v.base_ne)) chain in
      (IsHeap-change base at xs ((n, false) ∷ ys) (carve false k n ys) (split_block h.cells at k)
        (taken xs + taken (carve false k n ys)) v refl cut.0 cut.1 (link-carve false k n at ys)
        (span-carve false k n ys le)
        (IsAligned-carve false k n ys le al (IsAligned-right xs ((n, false) ∷ ys) v.aligned))
        refl).chain

  -- `krealloc` to a size that fits in place returns the same pointer and cuts the block down, but
  -- leaves `heap_used_size` alone: after a split the counter stays above the bytes in use by the
  -- difference of the two sizes.
  pub krealloc-shrink :
      (size : ℕ)
      → size ≢ 0
      → align_size size ≤ n
      → ((krealloc h ptr size).0 ≡ ptr)
        × Seg (krealloc h ptr size).1.cells 0 base (xs ++ carve false (align_size size) n ys) 0
        × ((krealloc h ptr size).1.heap_used_size
            ≡ taken (xs ++ carve false (align_size size) n ys)
              + (if ltb n (align_size size + min_block_size) then 0 else n - align_size size))
  krealloc-shrink size ne le =
      let k = align_size size in
      rw (shrink_eq size ne le) (
        refl,
        shrunk-Seg k le (omega arith),
        ground (
          arith,
          v.counted,
          taken-append xs ((n, false) ∷ ys),
          taken-append xs (carve false k n ys),
          taken-carve false k n ys le,
        ),
      )

-- The same, where the block behind is free and has `m` bytes.
module _ {h : Heap} (base n m : ℕ) (xs ys : Blocks)
    (v : IsHeap h base (xs ++ ((n, false) ∷ (m, true) ∷ ys))) where
  abbrev here : ℕ
  here = base + span xs

  abbrev next : ℕ
  next = here + header_size + n

  both : Seg h.cells (last 0 base xs) here ((n, false) ∷ (m, true) ∷ ys) 0
  both = chain base n xs ((m, true) ∷ ys) v

  abbrev taken_next : Cells
  taken_next = update h.cells next (record (h.cells next) { free = false })

  abbrev grown : ℕ → Cells
  grown k = update taken_next here (record (taken_next here) { size = k })

  grown-here : (k : ℕ) → grown k here ≡ header k false next (last 0 base xs)
  grown-here k =
      update_self taken_next here _
      ∙ ap (λ (b : Block). record b { size = k })
          (update_ne h.cells next here _ (omega arith) ∙ both.0)

  grown-next : (k : ℕ) → grown k next ≡ header m false (link ys (next + header_size + m) 0) here
  grown-next k =
      update_ne taken_next here next _ (omega arith)
      ∙ update_self h.cells next _
      ∙ ap (λ (b : Block). record b { free = false }) both.1.0

  split_grown : (k : ℕ) → k ≤ n + header_size + m → split_block (grown k) here k ≡ grown k
  split_grown k le =
      split_block-small (grown k) here k k (grown-here k) (omega arith) (omega arith)
        (omega (arith, room base n xs ((m, true) ∷ ys) v))

  grow_eq :
      (size : ℕ)
      → size ≢ 0
      → n < align_size size
      → align_size size ≤ n + header_size + m
      → krealloc h (here + header_size) size
        ≡ (here + header_size, record h { cells = grown (align_size size) })
  unfolding krealloc grow_block
  grow_eq size ne lt le =
      let k = align_size size in
      let back : here + header_size - header_size ≡ here = omega arith in
      let z : (here + header_size == 0) ≡ false = ground arith in
      let z' : (size == 0) ≡ false = ground arith in
      let t : leb k (h.cells here).size ≡ false = rw both.0 (ground arith) in
      let nx : (h.cells here).next ≡ next = ap (λ (b : Block). b.next) both.0 in
      let free : (not ((h.cells here).next == 0) && (h.cells (h.cells here).next).free) ≡ true =
        rw (nx, both.1.0) (ground arith) in
      let fits : leb k
            (add_size (add_size (h.cells here).size header_size) (h.cells (h.cells here).next).size)
          ≡ true =
        rw (both.0, both.1.0) (ground (arith, room base n xs ((m, true) ∷ ys) v)) in
      rw (back, z, z', t, free, fits)
        (ap
            (λ x.
              let c1 = update h.cells x (record (h.cells x) { free = false }) in
              (
                here + header_size,
                record h {
                  cells = split_block (update c1 here (record (c1 here) { size = k })) here k;
                },
              ))
            nx
          ∙ ap (λ c. (here + header_size, record h { cells = c })) (split_grown k le))

  -- Growing in place into a free next block: `krealloc` returns the same pointer and the block gets
  -- the new size, but the header behind stays linked where it was, inside the grown block, and is
  -- marked as in use.
  pub krealloc-grow_overlaps :
      (size : ℕ)
      → size ≢ 0
      → n < align_size size
      → align_size size ≤ n + header_size + m
      → let (p, h') = krealloc h (here + header_size) size in
        (p ≡ here + header_size)
        × ((h'.cells here).size ≡ align_size size)
        × ((h'.cells here).next ≡ next)
        × (next < p + (h'.cells here).size)
        × ((h'.cells next).free ≡ false)
        × ((h'.cells next).size ≡ m)
  krealloc-grow_overlaps size ne lt le =
      let k = align_size size in
      rw (grow_eq size ne lt le) (
        refl,
        ap (λ (b : Block). b.size) (grown-here k),
        ap (λ (b : Block). b.next) (grown-here k),
        omega (arith, ap (λ (b : Block). b.size) (grown-here k)),
        ap (λ (b : Block). b.free) (grown-next k),
        ap (λ (b : Block). b.size) (grown-next k),
      )
