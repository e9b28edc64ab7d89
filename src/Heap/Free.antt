-- ===== src/Heap/Free.antt =====
-- `kfree` of kernel/mm/heap.c.
use mathlib.Core.List.{append_assoc}
use simpleos.Common.{
  ℕ, ◌+◌, ◌-◌, ◌<◌, ◌≡◌, ◌≢◌, refl, sym, ◌∙◌, ap, subst, Bool, true, false, [], ◌∷◌, ◌++◌, arith,
  ◌==◌, ◌||◌, inl,
}
use simpleos.Common.Bytes.{update}
use simpleos.Heap.{
  Block, Cells, Heap, header_size, word, add_size, sub_size, coalesce_next, coalesce_blocks,
  release_block, kfree,
}
use simpleos.Heap.Blocks.{
  Blocks, span, taken, IsAligned, absorb_next, join_next, join_prev, join_last, join_last-snoc,
  release, Snoc, empty, snoc, Snoc-view, span-append, taken-append, taken-le-span, span-join_next,
  taken-join_next, IsAligned-join_next, span-join_prev, taken-join_prev, IsAligned-join_prev,
  IsAligned-right,
}
use simpleos.Heap.Segment.{header, link, last, Seg, Seg-right, update_ne}
use simpleos.Heap.Invariant.{half_word, IsHeap, IsHeap-change}
use simpleos.Heap.Split.{Seg-set_free}
use simpleos.Heap.Coalesce.{Leaves, coalesce_next-Seg, coalesce_prev-Seg, coalesce_prev-busy}

-- The memory in which `kfree` begins to coalesce.
abbrev pub freed : Cells → ℕ → Cells
freed c b = update c b (record (c b) { free = true })

-- The first of two blocks is behind no other: only the block behind it can be joined.
coalesce-first :
    (c : Cells) (b n : ℕ) (ys : Blocks)
    → b ≢ 0
    → b + span ((n, false) ∷ ys) < half_word
    → Seg c 0 b ((n, false) ∷ ys) 0
    → Leaves c (coalesce_blocks (freed c b) b) 0 b (join_next n ys)
unfolding coalesce_blocks
coalesce-first c b n ys ne room s =
    let next =
      coalesce_next-Seg (freed c b) 0 b n ys ne room (Seg-set_free c 0 b n false true ys 0 s) in
    let same =
      coalesce_prev-busy (coalesce_next (freed c b) b) b (absorb_next n ys).0 next.0.0 (inl refl) in
    subst (λ d. Leaves c d 0 b (join_next n ys)) (sym same)
      (next.0, λ q z lo. next.1 q z lo ∙ update_ne c b q _ (omega arith))

coalesce-second :
    (c : Cells) (prev a b k n : ℕ) (g : Bool) (ys : Blocks)
    → a ≢ 0
    → b ≡ a + header_size + k
    → b + span ((n, false) ∷ ys) < half_word
    → Seg c prev a ((k, g) ∷ (n, false) ∷ ys) 0
    → Leaves c
        (coalesce_blocks (freed c b) b)
        prev
        a
        (join_prev k g (absorb_next n ys).0 (absorb_next n ys).1)
unfolding coalesce_blocks
coalesce-second c prev a b k n g ys ne e room s =
    let tail : Seg c a b ((n, false) ∷ ys) 0 = rw e s.1 in
    let next =
      coalesce_next-Seg (freed c b) a b n ys (omega arith) room
        (Seg-set_free c a b n false true ys 0 tail) in
    let head : coalesce_next (freed c b) b a ≡ header k g b prev =
      next.1 a ne (omega arith)
      ∙ update_ne c b a _ (omega arith)
      ∙ s.0
      ∙ ap (λ t. header k g t prev) (sym e) in
    let both : Seg (coalesce_next (freed c b) b) prev a ((k, g) ∷ join_next n ys) 0 =
      rw (sym e) (head, next.0) in
    let prev_done =
      coalesce_prev-Seg (coalesce_next (freed c b) b) prev a b k (absorb_next n ys).0 g
        (absorb_next n ys).1 ne e (omega (arith, span-join_next n ys)) both in
    (
      prev_done.0,
      λ q z lo. prev_done.1 q z lo ∙ next.1 q z (omega arith) ∙ update_ne c b q _ (omega arith),
    )

used_after :
    (used n before after : ℕ) (c : Block)
    → c.size ≡ n
    → used ≡ before + (n + header_size) + after
    → used < word
    → sub_size used (add_size c.size header_size) ≡ before + after
used_after used n before after c e h small = omega arith

module _ {h : Heap} (base n : ℕ) (ys : Blocks) where
  -- Where the block is the first one.
  release-first :
      IsHeap h base ((n, false) ∷ ys) → IsHeap (release_block h base) base (join_next n ys)
  unfolding release_block
  release-first v =
      let done = coalesce-first h.cells base n ys v.base_ne v.small v.chain in
      IsHeap-change base base [] ((n, false) ∷ ys) (join_next n ys)
        (coalesce_blocks (freed h.cells base) base)
        (sub_size h.heap_used_size (add_size (h.cells base).size header_size)) v (omega arith)
        done.0 done.1 refl (span-join_next n ys) (IsAligned-join_next n ys v.aligned.0 v.aligned.1)
        (used_after h.heap_used_size n 0 (taken ys) (h.cells base)
            (ap (λ (b : Block). b.size) v.chain.0) (omega (arith, v.counted))
            (omega (arith, v.counted, v.small, taken-le-span ((n, false) ∷ ys)))
          ∙ omega (arith, taken-join_next n ys))

link-join_prev : (k n a : ℕ) (g : Bool) (bs : Blocks) → link (join_prev k g n bs) a 0 ≡ a
unfolding join_prev
link-join_prev k n a true bs = refl
link-join_prev k n a false bs = refl

-- Where a block `(k, g)` stands before it.
module _ {h : Heap} (base n k : ℕ) (g : Bool) (zs ys : Blocks) (b : ℕ)
    (e : b ≡ base + span zs + header_size + k)
    (v : IsHeap h base (zs ++ ((k, g) ∷ (n, false) ∷ ys))) where
  abbrev old : Blocks
  old = (k, g) ∷ (n, false) ∷ ys

  abbrev new : Blocks
  new = join_prev k g (absorb_next n ys).0 (absorb_next n ys).1

  abbrev at : ℕ
  at = base + span zs

  here : Seg h.cells (last 0 base zs) at old 0
  here = Seg-right h.cells 0 base at zs old 0 refl v.chain

  done : Leaves h.cells (coalesce_blocks (freed h.cells b) b) (last 0 base zs) at new
  done =
      coalesce-second h.cells (last 0 base zs) at b k n g ys (omega (arith, v.base_ne)) e
        (omega (arith, v.small, span-append zs old)) here

  new-taken : taken new ≡ taken ((k, g) ∷ ys)
  new-taken =
      omega
        (arith, taken-join_prev k (absorb_next n ys).0 (absorb_next n ys).1 g, taken-join_next n ys)

  new-span : span new ≡ span old
  new-span =
      omega
        (arith, span-join_prev k (absorb_next n ys).0 (absorb_next n ys).1 g, span-join_next n ys)

  new-IsAligned : IsAligned new
  new-IsAligned =
      let al = IsAligned-right zs old v.aligned in
      let next = IsAligned-join_next n ys al.1.0 al.1.1 in
      IsAligned-join_prev k (absorb_next n ys).0 (absorb_next n ys).1 g al.0 next.0 next.1

  release-second : IsHeap (release_block h b) base (zs ++ new)
  unfolding release_block
  release-second =
      IsHeap-change base at zs old new (coalesce_blocks (freed h.cells b) b)
        (sub_size h.heap_used_size (add_size (h.cells b).size header_size)) v refl done.0 done.1
        (link-join_prev k (absorb_next n ys).0 at g (absorb_next n ys).1) new-span new-IsAligned
        (used_after h.heap_used_size n (taken (zs ++ ((k, g) ∷ []))) (taken ys) (h.cells b)
            (ap (λ (x : Block). x.size) (ap h.cells e ∙ here.1.0))
            (omega (arith, v.counted, taken-append zs old, taken-append zs ((k, g) ∷ [])))
            (omega (arith, v.counted, v.small, taken-le-span (zs ++ old)))
          ∙ omega (arith, new-taken, taken-append zs ((k, g) ∷ [])))

release_block-IsHeap :
    {h : Heap} (base n : ℕ) (xs ys : Blocks)
    → IsHeap h base (xs ++ ((n, false) ∷ ys))
    → IsHeap (release_block h (base + span xs)) base (release xs n ys)
unfolding release
release_block-IsHeap {h} base n xs ys = go (Snoc-view xs)
  where
    go :
        {xs : Blocks}
        → Snoc xs
        → IsHeap h base (xs ++ ((n, false) ∷ ys))
        → IsHeap
            (release_block h (base + span xs))
            base
            (join_last xs (absorb_next n ys).0 (absorb_next n ys).1)
    go empty v =
        let e : base + 0 ≡ base = omega arith in
        rw e (unfold join_last in release-first base n ys v)
    go (snoc zs k g) v = rw (join_last-snoc zs k g (absorb_next n ys).0 (absorb_next n ys).1) (
        release-second base n k g zs ys (base + span (zs ++ ((k, g) ∷ [])))
          (omega (arith, span-append zs ((k, g) ∷ []))) (rw append_assoc at v))

-- Freeing a block that is in use, wherever it stands, marks it free and joins it with the free
-- blocks before and behind it; the heap stays well formed and its counters exact.
pub kfree-release :
    {h : Heap} (base n : ℕ) (xs ys : Blocks)
    → IsHeap h base (xs ++ ((n, false) ∷ ys))
    → IsHeap (kfree h (base + span xs + header_size)) base (release xs n ys)
unfolding kfree
kfree-release {h} base n xs ys v =
    let here = Seg-right h.cells 0 base (base + span xs) xs ((n, false) ∷ ys) 0 refl v.chain in
    let e : base + span xs + header_size - header_size ≡ base + span xs = omega arith in
    let t : ((base + span xs + header_size == 0) || (h.cells (base + span xs)).free) ≡ false =
      rw here.0 (ground arith) in
    rw (e, t) (release_block-IsHeap base n xs ys v)

-- Freeing NULL, and freeing a block that is free already, changes nothing.
pub kfree-unchanged :
    {h : Heap} (base n : ℕ) (xs ys : Blocks)
    → IsHeap h base (xs ++ ((n, true) ∷ ys))
    → (kfree h (base + span xs + header_size) ≡ h) × (kfree h 0 ≡ h)
unfolding kfree
kfree-unchanged {h} base n xs ys v =
    let here = Seg-right h.cells 0 base (base + span xs) xs ((n, true) ∷ ys) 0 refl v.chain in
    let e : base + span xs + header_size - header_size ≡ base + span xs = omega arith in
    let t : ((base + span xs + header_size == 0) || (h.cells (base + span xs)).free) ≡ true =
      rw here.0 (ground arith) in
    (rw (e, t), refl)
