-- ===== src/Heap/Coalesced.antt =====
-- The heap of kernel/mm/heap.c never keeps two free blocks side by side, so that giving a block back
-- undoes an allocation.
use simpleos.Common.{
  ℕ, ◌+◌, ◌-◌, ◌≤◌, ◌≡◌, ◌≢◌, refl, ap, Bool, true, false, [], ◌∷◌, ◌++◌, arith, Bool-cases, inl,
  inr, ltb,
}
use simpleos.Heap.{Heap, header_size, min_block_size, align_size, kmalloc, kfree}
use simpleos.Heap.Blocks.{Blocks, span, carve, absorb_next, join_prev, join_last, release}
use simpleos.Heap.Invariant.{IsHeap}
use simpleos.Heap.Alloc.{Kmalloc, refused, granted, kmalloc-Kmalloc}
use simpleos.Heap.Free.{kfree-release}

-- The first of the blocks, if there is one, is not free.
abbrev pub StartsBusy : Blocks → Type 0
StartsBusy [] = Unit {0}
StartsBusy ((n, f) ∷ bs) = f ≡ false

-- No free block has a free block behind it.
abbrev pub IsCoalesced : Blocks → Type 0
IsCoalesced [] = Unit {0}
IsCoalesced ((n, true) ∷ bs) = StartsBusy bs × IsCoalesced bs
IsCoalesced ((n, false) ∷ bs) = IsCoalesced bs

IsCoalesced-right : (xs ys : Blocks) → IsCoalesced (xs ++ ys) → IsCoalesced ys
IsCoalesced-right [] ys c = c
IsCoalesced-right ((n, true) ∷ xs) ys c = IsCoalesced-right xs ys c.1
IsCoalesced-right ((n, false) ∷ xs) ys c = IsCoalesced-right xs ys c

-- A block that is not free can stand in the place of any first block.
IsCoalesced-replace :
    (xs ys : Blocks) (n : ℕ) (y : ℕ × Bool) (zs : Blocks)
    → IsCoalesced (xs ++ (y ∷ zs))
    → IsCoalesced ys
    → IsCoalesced (xs ++ ((n, false) ∷ ys))
IsCoalesced-replace [] ys n y zs c d = d
IsCoalesced-replace ((m, true) ∷ []) ys n y zs c d = (refl, d)
IsCoalesced-replace ((m, true) ∷ x ∷ xs) ys n y zs c d =
    (c.0, IsCoalesced-replace (x ∷ xs) ys n y zs c.1 d)
IsCoalesced-replace ((m, false) ∷ xs) ys n y zs c d = IsCoalesced-replace xs ys n y zs c d

-- Allocation keeps free blocks apart.
pub IsCoalesced-carve :
    (xs ys : Blocks) (n m : ℕ)
    → IsCoalesced (xs ++ ((m, true) ∷ ys))
    → IsCoalesced (xs ++ carve false n m ys)
unfolding carve
IsCoalesced-carve xs ys n m c = elim (Bool-cases (ltb m (n + min_block_size))) [
  | inl small ↦
      rw (small, carve)
        (IsCoalesced-replace xs ys m (m, true) ys c (IsCoalesced-right xs ((m, true) ∷ ys) c).1)
  | inr big ↦
      rw (big, carve)
        (IsCoalesced-replace xs ((m - n - header_size, true) ∷ ys) n (m, true) ys c
          (IsCoalesced-right xs ((m, true) ∷ ys) c))
]

absorb_next-IsCoalesced :
    (n : ℕ) (ys : Blocks)
    → IsCoalesced ys
    → StartsBusy (absorb_next n ys).1 × IsCoalesced (absorb_next n ys).1
unfolding absorb_next
absorb_next-IsCoalesced n [] c = (tt, tt)
absorb_next-IsCoalesced n ((m, true) ∷ ys) c = c
absorb_next-IsCoalesced n ((m, false) ∷ ys) c = (refl, c)

join_last-StartsBusy :
    (k : ℕ) (xs : Blocks) (n : ℕ) (ys : Blocks) → StartsBusy (join_last ((k, false) ∷ xs) n ys)
unfolding join_last join_prev
join_last-StartsBusy k [] n ys = refl
join_last-StartsBusy k (x ∷ xs) n ys = refl

join_last-IsCoalesced :
    (xs : Blocks) (n : ℕ) (ys : Blocks) (z : ℕ × Bool) (zs : Blocks)
    → IsCoalesced (xs ++ (z ∷ zs))
    → StartsBusy ys
    → IsCoalesced ys
    → IsCoalesced (join_last xs n ys)
unfolding join_last join_prev
join_last-IsCoalesced [] n ys z zs c b d = (b, d)
join_last-IsCoalesced ((k, true) ∷ []) n ys z zs c b d = (b, d)
join_last-IsCoalesced ((k, false) ∷ []) n ys z zs c b d = (b, d)
join_last-IsCoalesced ((k, true) ∷ (l, true) ∷ xs) n ys z zs c b d = absurd (ground (arith, c.0))
join_last-IsCoalesced ((k, true) ∷ (l, false) ∷ xs) n ys z zs c b d =
    (join_last-StartsBusy l xs n ys, join_last-IsCoalesced ((l, false) ∷ xs) n ys z zs c.1 b d)
join_last-IsCoalesced ((k, false) ∷ x ∷ xs) n ys z zs c b d =
    join_last-IsCoalesced (x ∷ xs) n ys z zs c b d

-- Giving a block back keeps free blocks apart.
pub IsCoalesced-release :
    (xs ys : Blocks) (n : ℕ) → IsCoalesced (xs ++ ((n, false) ∷ ys)) → IsCoalesced (release xs n ys)
unfolding release
IsCoalesced-release xs ys n c =
    let next = absorb_next-IsCoalesced n ys (IsCoalesced-right xs ((n, false) ∷ ys) c) in
    join_last-IsCoalesced xs (absorb_next n ys).0 (absorb_next n ys).1 (n, false) ys c next.0 next.1

absorb_next-StartsBusy : (n : ℕ) (ys : Blocks) → StartsBusy ys → absorb_next n ys ≡ (n, ys)
unfolding absorb_next
absorb_next-StartsBusy n [] b = refl
absorb_next-StartsBusy n ((m, true) ∷ ys) b = absurd (ground arith)
absorb_next-StartsBusy n ((m, false) ∷ ys) b = refl

join_last-apart :
    (xs ys : Blocks) (m : ℕ)
    → IsCoalesced (xs ++ ((m, true) ∷ ys))
    → join_last xs m ys ≡ xs ++ ((m, true) ∷ ys)
unfolding join_last join_prev
join_last-apart [] ys m c = refl
join_last-apart ((k, true) ∷ []) ys m c = absurd (ground (arith, c.0))
join_last-apart ((k, false) ∷ []) ys m c = refl
join_last-apart (x ∷ x' ∷ xs) ys m c =
    ap (λ l. x ∷ l)
      (join_last-apart (x' ∷ xs) ys m
        (IsCoalesced-right (x ∷ []) (x' ∷ (xs ++ ((m, true) ∷ ys))) c))

-- The block that `carve` takes, given back.
release-carved :
    {h : Heap} (base : ℕ) (xs ys : Blocks) (n m : ℕ)
    → n ≤ m
    → IsCoalesced (xs ++ ((m, true) ∷ ys))
    → IsHeap h base (xs ++ carve false n m ys)
    → IsHeap (kfree h (base + span xs + header_size)) base (xs ++ ((m, true) ∷ ys))
unfolding carve
release-carved {h} base xs ys n m le c v = elim (Bool-cases (ltb m (n + min_block_size))) [
  | inl small ↦
      let freed = kfree-release base m xs ys (rw (small, carve) at v) in
      let e : release xs m ys ≡ xs ++ ((m, true) ∷ ys) =
        unfold release in
        rw (absorb_next-StartsBusy m ys (IsCoalesced-right xs ((m, true) ∷ ys) c).0)
          (join_last-apart xs ys m c) in
      rw e at freed
  | inr big ↦
      let freed =
        kfree-release base n xs ((m - n - header_size, true) ∷ ys) (rw (big, carve) at v) in
      let whole : n + header_size + (m - n - header_size) ≡ m = ground arith in
      let e : release xs n ((m - n - header_size, true) ∷ ys) ≡ xs ++ ((m, true) ∷ ys) =
        unfold release absorb_next in rw whole (join_last-apart xs ys m c) in
      rw e at freed
]

freed-Kmalloc :
    {h : Heap} (base : ℕ) (bs : Blocks) (size : ℕ) {r : ℕ × Heap}
    → IsCoalesced bs
    → r.0 ≢ 0
    → Kmalloc h base bs size r
    → IsHeap (kfree r.1 r.0) base bs
freed-Kmalloc base bs size c ne (refused _ z _) = absurd (ne z)
freed-Kmalloc {h} base bs size {r} c ne (granted xs ys m _ e le _ at v) =
    rw (at, e) (release-carved base xs ys (align_size size) m le (rw e at c) v)

-- On a well-formed heap with no two free blocks side by side, `kfree` of what `kmalloc` returned
-- restores the list of blocks, whatever was split.
pub kfree-kmalloc :
    {h : Heap} (base : ℕ) (bs : Blocks) (size : ℕ)
    → IsHeap h base bs
    → IsCoalesced bs
    → (kmalloc h size).0 ≢ 0
    → IsHeap (kfree (kmalloc h size).1 (kmalloc h size).0) base bs
kfree-kmalloc base bs size v c ne = freed-Kmalloc base bs size c ne (kmalloc-Kmalloc base bs size v)
