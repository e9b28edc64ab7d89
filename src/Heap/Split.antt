-- ===== src/Heap/Split.antt =====
-- `split_block` of kernel/mm/heap.c, at the head of a segment.
use simpleos.Common.{
  ℕ, ◌+◌, ◌-◌, ◌≤◌, ◌<◌, ◌≡◌, ◌≢◌, refl, sym, ◌∙◌, ap, subst, Bool, true, false, [], ◌∷◌, arith,
  Bool-cases, inl, inr, ltb,
}
use simpleos.Common.Bytes.{update}
use simpleos.Heap.{
  Block, Cells, header_size, min_block_size, word, add_size, sub_size, set_prev, split_block,
}
use simpleos.Heap.Invariant.{half_word}
use simpleos.Heap.Blocks.{Blocks, carve}
use simpleos.Heap.Segment.{
  header, link, Seg, Seg-frame, Seg-set_prev, set_prev_ne, update_self, update_ne,
}

module _ (c : Cells) (prev b n m : ℕ) (f : Bool) (ys : Blocks) (fits : n + min_block_size ≤ m)
    (small : b + header_size + m < word) (ne : b ≢ 0) (s : Seg c prev b ((m, f) ∷ ys) 0) where
  abbrev at : ℕ
  at = b + header_size + n

  abbrev end : ℕ
  end = b + header_size + m

  abbrev rest : Block
  rest = header (m - n - header_size) true (link ys end 0) b

  c1 : Cells
  c1 = update c at rest

  c2 : Cells
  c2 = set_prev c1 (link ys end 0) at

  link_ne : (q : ℕ) → q ≢ 0 → q ≢ end → link ys end 0 ≢ q
  link_ne q z e = go ys
    where
      go : (ys : Blocks) → link ys end 0 ≢ q
      go [] h = z (sym h)
      go (y ∷ ys) h = e (sym h)

  -- The last two writes, for a place to read the next block from.
  finish : Cells → ℕ → Cells
  finish d k = let c2 = set_prev d k at in update c2 b (record (c2 b) { size = n; next = at })

  split_eq : split_block c b n ≡ finish c1 (link ys end 0)
  unfolding split_block finish c1
  split_eq =
      let big : ltb (c b).size (add_size n min_block_size) ≡ false = rw s.0 (ground arith) in
      rw big (
        ap (λ (r : Block). finish (update c at r) (update c at r b).next)
          (ap (λ (h : Block). header (sub_size (sub_size h.size n) header_size) true h.next b) s.0
            ∙ ap (λ k. header k true (link ys end 0) b) (omega arith))
        ∙ ap (λ (h : Block). finish c1 h.next) (update_ne c at b rest (omega arith) ∙ s.0))

  c2-above : (q : ℕ) → b ≤ q → q < end → q ≢ at → c2 q ≡ c q
  unfolding c2 c1
  c2-above q lo hi ne' =
      set_prev_ne c1 (link ys end 0) q at (link_ne q (omega arith) (omega arith))
      ∙ update_ne c at q rest (λ e. ne' (sym e))

  c2-at : c2 at ≡ rest
  unfolding c2 c1
  c2-at =
      set_prev_ne c1 (link ys end 0) at at (link_ne at (omega arith) (omega arith))
      ∙ update_self c at rest

  finish_ne : (q : ℕ) → b ≢ q → finish c1 (link ys end 0) q ≡ c2 q
  unfolding finish c2
  finish_ne q e = update_ne c2 b q (record (c2 b) { size = n; next = at }) e

  split_head : finish c1 (link ys end 0) b ≡ header n f at prev
  unfolding finish c2
  split_head =
      update_self c2 b (record (c2 b) { size = n; next = at })
      ∙ ap (λ (h : Block). record h { size = n; next = at })
          (c2-above b (omega arith) (omega arith) (omega arith) ∙ s.0)

  -- The blocks behind: only the first learns of its new neighbour.
  split_tail : Seg (finish c1 (link ys end 0)) at end ys 0
  split_tail =
      Seg-frame c2 (finish c1 (link ys end 0)) at end ys 0 (λ q lo hi. finish_ne q (omega arith))
        (unfold c2 in
          Seg-set_prev c1 b at end ys (omega arith) (
            unfold c1 in
            Seg-frame c (update c at rest) b end ys 0
              (λ q lo hi. update_ne c at q rest (omega arith)) s.1))

  -- The block at `b` is cut down to `n` bytes, and a free block stands behind it.
  pub split_block-Seg : Seg (split_block c b n) prev b ((n, f) ∷ (m - n - header_size, true) ∷ ys) 0
  split_block-Seg =
      let e : at + header_size + (m - n - header_size) ≡ end = omega arith in
      subst (λ d. Seg d prev b ((n, f) ∷ (m - n - header_size, true) ∷ ys) 0) (sym split_eq)
        (split_head, rw e (finish_ne at (omega arith) ∙ c2-at, split_tail))

  -- Nothing below the block is touched.
  pub split_block-below : (q : ℕ) → q ≢ 0 → q < b → split_block c b n q ≡ c q
  unfolding c2 c1
  split_block-below q z lo = rw split_eq (
      finish_ne q (omega arith)
      ∙ (set_prev_ne c1 (link ys end 0) q at (link_ne q z (omega arith))
          ∙ update_ne c at q rest (omega arith)))

-- A block that is not worth splitting is left as it is.
pub split_block-small :
    (c : Cells) (b n m : ℕ) {f : Bool} {next prev : ℕ}
    → c b ≡ header m f next prev
    → m < n + min_block_size
    → n ≤ m
    → m < word - min_block_size
    → split_block c b n ≡ c
unfolding split_block
split_block-small c b n m e small fits room =
    let t : ltb (c b).size (add_size n min_block_size) ≡ true = rw e (ground arith) in rw t

-- What `split_block` makes of the block at the head of a segment, whichever way its test goes.
pub split_block-carve :
    (c : Cells) (prev b n m : ℕ) (f : Bool) (ys : Blocks)
    → n ≤ m
    → b + header_size + m < half_word
    → b ≢ 0
    → Seg c prev b ((m, f) ∷ ys) 0
    → Seg (split_block c b n) prev b (carve f n m ys) 0
      × ((q : ℕ) → q ≢ 0 → q < b → split_block c b n q ≡ c q)
unfolding carve
split_block-carve c prev b n m f ys fits room ne s =
    elim (Bool-cases (ltb m (n + min_block_size))) [
      | inl small ↦
          let same = split_block-small c b n m s.0 (ground arith) fits (omega arith) in
          rw (small, carve)
            (subst (λ d. Seg d prev b ((m, f) ∷ ys) 0 × ((q : ℕ) → q ≢ 0 → q < b → d q ≡ c q))
              (sym same) (s, λ q z lo. refl))
      | inr big ↦
          rw (big, carve)
            (
              split_block-Seg c prev b n m f ys (ground arith) (omega arith) ne s,
              split_block-below c prev b n m f ys (ground arith) (omega arith) ne s,
            )
    ]

pub Seg-set_free :
    (c : Cells) (prev a n : ℕ) (f g : Bool) (bs : Blocks) (stop : ℕ)
    → Seg c prev a ((n, f) ∷ bs) stop
    → Seg (update c a (record (c a) { free = g })) prev a ((n, g) ∷ bs) stop
Seg-set_free c prev a n f g bs stop s = (
  update_self c a (record (c a) { free = g }) ∙ ap (λ (h : Block). record h { free = g }) s.0,
  Seg-frame c (update c a (record (c a) { free = g })) a (a + header_size + n) bs stop
      (λ q lo hi. update_ne c a q (record (c a) { free = g }) (omega arith)) s.1,
)
