-- ===== src/Heap/Alloc.antt =====
-- `kmalloc` of kernel/mm/heap.c.
use simpleos.Common.{
  ℕ, zero, suc, ◌+◌, ◌-◌, ◌%◌, ◌≤◌, ◌<◌, ◌≡◌, ◌≢◌, ◌⊎◌, refl, sym, ◌∙◌, ap, subst, Bool, true,
  false, [], ◌∷◌, ◌++◌, arith, ◌==◌, ◌&&◌, Bool-cases, inl, inr, ltb, leb, length,
}
use simpleos.Common.Bytes.{update}
use simpleos.Heap.{
  Block, Cells, Heap, header_size, min_block_size, align_size, add_size, find_free_block, walk_fuel,
  split_block, take_block, finish_alloc, kmalloc,
}
use simpleos.Heap.Blocks.{
  Blocks, span, taken, carve, span-append, taken-append, taken-le-span, length-le-span, span-carve,
  IsAligned-carve, IsAligned-right,
}
use simpleos.Heap.Segment.{link, last, Seg, Seg-right, update_ne}
use simpleos.Heap.Invariant.{half_word, IsHeap, IsHeap-change}
use simpleos.Heap.Split.{split_block-carve, Seg-set_free}

-- No free block of the list holds `size` bytes.
abbrev pub NoFit : ℕ → Blocks → Type 0
NoFit size [] = Unit {0}
NoFit size ((n, f) ∷ bs) = ((f && leb size n) ≡ false) × NoFit size bs

-- What the first-fit search may come to, over the blocks from `a` on.
pub data FirstFit (size a : ℕ) (bs : Blocks) (r : ℕ) : Type 0 where
  no_fit : r ≡ 0 → NoFit size bs → FirstFit size a bs r
  fit :
      (xs ys : Blocks) (m : ℕ)
      → bs ≡ xs ++ ((m, true) ∷ ys)
      → size ≤ m
      → NoFit size xs
      → r ≡ a + span xs
      → FirstFit size a bs r

FirstFit-cons :
    (size a n : ℕ) (f : Bool) (bs : Blocks) {r : ℕ}
    → (f && leb size n) ≡ false
    → FirstFit size (a + header_size + n) bs r
    → FirstFit size a ((n, f) ∷ bs) r
FirstFit-cons size a n f bs miss (no_fit z none) = no_fit z (miss, none)
FirstFit-cons size a n f bs miss (fit xs ys m e le none r) =
    fit ((n, f) ∷ xs) ys m (ap (λ k. (n, f) ∷ k) e) le (miss, none) (omega arith)

find_free_block-FirstFit :
    (fuel size : ℕ) (c : Cells) (prev a : ℕ) (bs : Blocks)
    → a ≢ 0
    → length bs < fuel
    → Seg c prev a bs 0
    → FirstFit size a bs (find_free_block fuel c (link bs a 0) size)
unfolding find_free_block
find_free_block-FirstFit zero size c prev a bs ne enough s = absurd (omega arith)
find_free_block-FirstFit (suc fuel) size c prev a [] ne enough s = no_fit refl tt
find_free_block-FirstFit (suc fuel) size c prev a ((n, f) ∷ bs) ne enough s =
    let z : (a == 0) ≡ false = ground arith in
    elim (Bool-cases (f && leb size n)) [
      | inl here ↦
          let t : ((c a).free && leb size (c a).size) ≡ true = rw s.0 here in
          let free : f ≡ true = ground arith in
          rw (z, find_free_block, t)
            (fit [] bs n (ap (λ g. (n, g) ∷ bs) free) (ground arith) tt (omega arith))
      | inr there ↦
          let t : ((c a).free && leb size (c a).size) ≡ false = rw s.0 there in
          rw (z, find_free_block, t)
            (FirstFit-cons size a n f bs there (
              subst (λ k. FirstFit size (a + header_size + n) bs (find_free_block fuel c k size))
                (sym (ap (λ (h : Block). h.next) s.0))
                (find_free_block-FirstFit fuel size c a (a + header_size + n) bs (omega arith)
                  (omega arith) s.1)))
    ]

-- What `kmalloc` may come to on a heap of the blocks `bs`.
pub data Kmalloc (h : Heap) (base : ℕ) (bs : Blocks) (size : ℕ) (r : ℕ × Heap) : Type 0 where
  refused : (size ≡ 0) ⊎ NoFit (align_size size) bs → r.0 ≡ 0 → r.1 ≡ h → Kmalloc h base bs size r
  granted :
      (xs ys : Blocks) (m : ℕ)
      → size ≢ 0
      → bs ≡ xs ++ ((m, true) ∷ ys)
      → align_size size ≤ m
      → NoFit (align_size size) xs
      → r.0 ≡ base + span xs + header_size
      → IsHeap r.1 base (xs ++ carve false (align_size size) m ys)
      → Kmalloc h base bs size r

pub link-carve : (f : Bool) (n m b : ℕ) (ys : Blocks) → link (carve f n m ys) b 0 ≡ b
unfolding carve
link-carve f n m b ys = ground arith

-- Marking the carved block as taken, and reading off its size.
carve-taken :
    (c : Cells) (prev b n m : ℕ) (ys : Blocks)
    → Seg c prev b (carve true n m ys) 0
    → Seg (update c b (record (c b) { free = false })) prev b (carve false n m ys) 0
      × ((c b).size + header_size + taken ys ≡ taken (carve false n m ys))
unfolding carve
carve-taken c prev b n m ys s = elim (Bool-cases (ltb m (n + min_block_size))) [
  | inl small ↦
      let s' : Seg c prev b ((m, true) ∷ ys) 0 = rw (small, carve) at s in
      rw (small, carve)
        (Seg-set_free c prev b m true false ys 0 s', omega (arith, ap (λ (h : Block). h.size) s'.0))
  | inr big ↦
      let s' : Seg c prev b ((n, true) ∷ (m - n - header_size, true) ∷ ys) 0 =
        rw (big, carve) at s in
      rw (big, carve)
        (
          Seg-set_free c prev b n true false ((m - n - header_size, true) ∷ ys) 0 s',
          omega (arith, ap (λ (h : Block). h.size) s'.0),
        )
]

module _ {h : Heap} (base : ℕ) (xs ys : Blocks) (n m : ℕ)
    (v : IsHeap h base (xs ++ ((m, true) ∷ ys))) (fits : n ≤ m) (al : n % 8 ≡ 0) where
  abbrev at : ℕ
  at = base + span xs

  abbrev cut : Cells
  cut = split_block h.cells at n

  room : at + header_size + m + span ys < half_word
  room = omega (arith, v.small, span-append xs ((m, true) ∷ ys))

  cut-Seg :
      Seg cut (last 0 base xs) at (carve true n m ys) 0
      × ((q : ℕ) → q ≢ 0 → q < at → cut q ≡ h.cells q)
  cut-Seg =
      split_block-carve h.cells (last 0 base xs) at n m true ys fits (omega (arith, room))
        (omega (arith, v.base_ne)) (Seg-right h.cells 0 base at xs ((m, true) ∷ ys) 0 refl v.chain)

  used_after :
      add_size h.heap_used_size (add_size (cut at).size header_size)
      ≡ taken xs + taken (carve false n m ys)
  used_after =
      let now = (carve-taken cut (last 0 base xs) at n m ys cut-Seg.0).1 in
      omega (
        arith,
        now,
        room,
        v.counted,
        taken-append xs ((m, true) ∷ ys),
        taken-le-span xs,
        taken-le-span (carve false n m ys),
        span-carve false n m ys fits,
      )

  -- Taking the block at the end of `xs` leaves a heap of the blocks with that one carved.
  pub take_block-IsHeap : IsHeap (take_block h at n).1 base (xs ++ carve false n m ys)
  unfolding take_block
  take_block-IsHeap =
      IsHeap-change base at xs ((m, true) ∷ ys) (carve false n m ys)
        (update cut at (record (cut at) { free = false }))
        (add_size h.heap_used_size (add_size (cut at).size header_size)) v refl
        (carve-taken cut (last 0 base xs) at n m ys cut-Seg.0).0
        (λ q z lo. update_ne cut at q _ (omega arith) ∙ cut-Seg.1 q z lo)
        (link-carve false n m at ys) (span-carve false n m ys fits)
        (IsAligned-carve false n m ys fits al (IsAligned-right xs ((m, true) ∷ ys) v.aligned))
        used_after

finish_alloc-Kmalloc :
    {h : Heap} (base size : ℕ) (bs : Blocks) {r : ℕ}
    → IsHeap h base bs
    → size ≢ 0
    → FirstFit (align_size size) base bs r
    → Kmalloc h base bs size (finish_alloc h r (align_size size))
unfolding finish_alloc
finish_alloc-Kmalloc base size bs v ne (no_fit e none) =
    rw (e, finish_alloc) (refused (inr none) refl refl)
finish_alloc-Kmalloc {h} base size bs v ne (fit xs ys m e le none at) =
    let z : (base + span xs == 0) ≡ false = ground (arith, v.base_ne) in
    rw (at, finish_alloc, z)
      (granted xs ys m ne e le none (unfold take_block in refl)
        (take_block-IsHeap base xs ys (align_size size) m (rw e at v) le (omega arith)))

-- `kmalloc` refines the first fit over the list of blocks: it takes the first free block that holds
-- the aligned size, cut down if the rest is worth a block, and returns the address behind its header;
-- or it returns NULL and changes nothing, when the size is 0 or no free block is large enough.
-- The heap stays well formed, and its counters stay exact.
pub kmalloc-Kmalloc :
    {h : Heap} (base : ℕ) (bs : Blocks) (size : ℕ)
    → IsHeap h base bs
    → Kmalloc h base bs size (kmalloc h size)
unfolding kmalloc
kmalloc-Kmalloc {h} base bs size v = elim (Bool-cases (size == 0)) [
  | inl z ↦ rw z (refused (inl (ground arith)) refl refl)
  | inr p ↦ rw p (
      finish_alloc-Kmalloc base size bs v (ground arith) (
        rw v.start (
          find_free_block-FirstFit (walk_fuel h) (align_size size) h.cells 0 base bs v.base_ne
            (omega (arith, v.total, length-le-span bs)) v.chain)))
]
