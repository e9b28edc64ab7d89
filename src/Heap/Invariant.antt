-- ===== src/Heap/Invariant.antt =====
-- The invariant of kernel/mm/heap.c: memory holds a list of blocks.
use simpleos.Common.{ℕ, ◌+◌, ◌%◌, ◌^◌, ◌<◌, ◌≡◌, ◌≢◌, sym, ◌∙◌, ap, ◌++◌, arith}
use simpleos.Heap.{Cells, Heap}
use simpleos.Heap.Blocks.{
  Blocks, span, taken, IsAligned, span-append, taken-append, IsAligned-append, IsAligned-left,
}
use simpleos.Heap.Segment.{link, last, Seg, Seg-left, Seg-append, link-append, Seg-frame}

-- Memory lies in the lower half of the address space.
abbrev pub half_word : ℕ
half_word = 2 ^ 63

-- The heap's memory from `base` on holds the blocks `bs`, and the counters agree with them.
pub record IsHeap (h : Heap) (base : ℕ) (bs : Blocks) : Type 0 where
  pub start : h.heap_start ≡ link bs base 0
  pub chain : Seg h.cells 0 base bs 0
  pub total : h.heap_total_size ≡ span bs
  pub counted : h.heap_used_size ≡ taken bs
  pub base_ne : base ≢ 0
  pub base_aligned : base % 8 ≡ 0
  pub small : base + span bs < half_word
  pub aligned : IsAligned bs

-- To change a heap from some block on, change the segment that begins there.
pub IsHeap-change :
    {h : Heap} (base b : ℕ) (xs old new : Blocks) (d : Cells) (used : ℕ)
    → IsHeap h base (xs ++ old)
    → b ≡ base + span xs
    → Seg d (last 0 base xs) b new 0
    → ((q : ℕ) → q ≢ 0 → q < b → d q ≡ h.cells q)
    → link new b 0 ≡ link old b 0
    → span new ≡ span old
    → IsAligned new
    → used ≡ taken xs + taken new
    → IsHeap (record h { cells = d; heap_used_size = used }) base (xs ++ new)
IsHeap-change {h} base b xs old new d used v e s same l sp al us = record {
  start =
      v.start
      ∙ link-append xs old base b 0 e
      ∙ ap (link xs base) (sym l)
      ∙ sym (link-append xs new base b 0 e);
  chain =
      Seg-append d 0 base b xs new 0 e
        (rw l (
          Seg-frame h.cells d 0 base xs (link old b 0)
            (λ q lo hi. same q (omega (arith, v.base_ne)) (omega arith))
            (Seg-left h.cells 0 base b xs old 0 e v.chain)))
        s;
  total = omega (arith, v.total, span-append xs old, span-append xs new);
  counted = omega (arith, taken-append xs new);
  base_ne = v.base_ne;
  base_aligned = v.base_aligned;
  small = omega (arith, v.small, span-append xs old, span-append xs new);
  aligned = IsAligned-append xs new (IsAligned-left xs old v.aligned) al;
}
