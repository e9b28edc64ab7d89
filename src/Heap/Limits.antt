-- ===== src/Heap/Limits.antt =====
-- Where the memory that `kmalloc` of kernel/mm/heap.c returns lies, and sizes that wrap round.
use simpleos.Common.{
  ℕ, ◌+◌, ◌%◌, ◌≤◌, ◌<◌, ◌≡◌, ◌≢◌, refl, true, [], ◌∷◌, ◌++◌, arith, inl, inr, ap,
}
use simpleos.Heap.{Heap, header_size, word, align_size, kmalloc}
use simpleos.Heap.Blocks.{Blocks, span, IsAligned, IsAligned-left, span-append}
use simpleos.Heap.Invariant.{IsHeap}
use simpleos.Heap.Alloc.{NoFit, Kmalloc, refused, granted, kmalloc-Kmalloc}

span_aligned : (xs : Blocks) → IsAligned xs → span xs % 8 ≡ 0
span_aligned [] a = refl
span_aligned ((n, f) ∷ xs) a = omega (arith, a.0, span_aligned xs a.1)

-- The `size` bytes at `p` are 8-aligned, and lie behind the first header and in the region.
abbrev pub InRegion : ℕ → Blocks → ℕ → ℕ → Type 0
InRegion base bs p size = (p % 8 ≡ 0) × (base + header_size ≤ p) × (p + size ≤ base + span bs)

Kmalloc-InRegion :
    {h : Heap} (base : ℕ) (bs : Blocks) (size : ℕ) {r : ℕ × Heap}
    → IsHeap h base bs
    → size + 7 < word
    → r.0 ≢ 0
    → Kmalloc h base bs size r
    → InRegion base bs r.0 size
Kmalloc-InRegion base bs size v small ne (refused _ z _) = absurd (ne z)
Kmalloc-InRegion base bs size v small ne (granted xs ys m _ e le _ at _) =
    let sp : span bs ≡ span xs + (m + header_size + span ys) =
      omega (arith, ap span e, span-append xs ((m, true) ∷ ys)) in
    let al = span_aligned xs (IsAligned-left xs ((m, true) ∷ ys) (rw e at v.aligned)) in
    omega (arith, v.base_aligned)

-- A pointer that `kmalloc` returns for a size that does not wrap when it is rounded up is 8-aligned,
-- and the `size` bytes behind it lie inside the heap's region.
pub kmalloc-InRegion :
    {h : Heap} (base : ℕ) (bs : Blocks) (size : ℕ)
    → IsHeap h base bs
    → size + 7 < word
    → (kmalloc h size).0 ≢ 0
    → InRegion base bs (kmalloc h size).0 size
kmalloc-InRegion base bs size v small ne =
    Kmalloc-InRegion base bs size v small ne (kmalloc-Kmalloc base bs size v)

not-NoFit : (xs ys : Blocks) (m : ℕ) → ¬ NoFit 0 (xs ++ ((m, true) ∷ ys))
not-NoFit [] ys m none = ground (arith, none.0)
not-NoFit (x ∷ xs) ys m none = not-NoFit xs ys m none.1

Kmalloc-wraps :
    {h : Heap} (base m : ℕ) (xs ys : Blocks) (size : ℕ) {r : ℕ × Heap}
    → IsHeap h base (xs ++ ((m, true) ∷ ys))
    → word ≤ size + 7
    → align_size size ≡ 0
    → Kmalloc h base (xs ++ ((m, true) ∷ ys)) size r
    → (r.0 ≢ 0) × (base + span (xs ++ ((m, true) ∷ ys)) < r.0 + size)
Kmalloc-wraps base m xs ys size v big z (refused (inl e) _ _) = absurd (omega arith)
Kmalloc-wraps base m xs ys size v big z (refused (inr none) _ _) =
    absurd (not-NoFit xs ys m (rw z at none))
Kmalloc-wraps base m xs ys size v big z (granted _ _ _ _ _ _ _ at _) =
    (omega arith, omega (arith, v.small))

-- For the seven largest sizes the rounding wraps to 0: `kmalloc` succeeds wherever a block is free,
-- with a pointer behind which the region does not hold `size` bytes.
pub kmalloc-wraps :
    {h : Heap} (base m : ℕ) (xs ys : Blocks) (size : ℕ)
    → IsHeap h base (xs ++ ((m, true) ∷ ys))
    → word ≤ size + 7
    → size < word
    → ((kmalloc h size).0 ≢ 0) × (base + span (xs ++ ((m, true) ∷ ys)) < (kmalloc h size).0 + size)
kmalloc-wraps base m xs ys size v big small =
    Kmalloc-wraps base m xs ys size v big (omega arith)
      (kmalloc-Kmalloc base (xs ++ ((m, true) ∷ ys)) size v)
