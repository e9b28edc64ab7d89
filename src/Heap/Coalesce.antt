-- ===== src/Heap/Coalesce.antt =====
-- `coalesce_blocks` of kernel/mm/heap.c, at the head of a segment.
use simpleos.Common.{
  ℕ, ◌+◌, ◌<◌, ◌≡◌, ◌≢◌, ◌⊎◌, refl, sym, ◌∙◌, ap, subst, Bool, true, false, not, [], ◌∷◌, arith,
  ◌==◌, ◌&&◌, inl, inr, if◌then◌else◌,
}
use simpleos.Common.Bytes.{update}
use simpleos.Heap.{Block, Cells, header_size, add_size, set_prev, coalesce_next, coalesce_prev}
use simpleos.Heap.Blocks.{Blocks, span, absorb_next, join_next, join_prev}
use simpleos.Heap.Segment.{
  header, link, Seg, Seg-frame, Seg-set_prev, update_ne, update_self, set_prev_ne,
}
use simpleos.Heap.Invariant.{half_word}

-- The block at `a` takes over the block behind it.
module _ (c : Cells) (prev a k n : ℕ) (f : Bool) (ys : Blocks) (ne : a ≢ 0)
    (room : a + header_size + k + header_size + n < half_word)
    (s : Seg c prev a ((k, true) ∷ (n, f) ∷ ys) 0) where
  abbrev back : ℕ
  back = a + header_size + k

  abbrev end : ℕ
  end = back + header_size + n

  abbrev grown : Cells
  grown = update c a (header (k + header_size + n) true (link ys end 0) prev)

  abbrev absorbed : Cells
  absorbed = set_prev grown (link ys end 0) a

  link_ne : (q : ℕ) → q ≢ 0 → q ≢ end → link ys end 0 ≢ q
  link_ne q z e = go ys
    where
      go : (ys : Blocks) → link ys end 0 ≢ q
      go [] h = z (sym h)
      go (y ∷ ys) h = e (sym h)

  pub absorbed-Seg : Seg absorbed prev a ((k + header_size + n, true) ∷ ys) 0
  absorbed-Seg =
      let e : a + header_size + (k + header_size + n) ≡ end = omega arith in
      rw e (
        set_prev_ne grown (link ys end 0) a a (link_ne a ne (omega arith)) ∙ update_self c a _,
        Seg-set_prev grown back a end ys (omega arith)
            (Seg-frame c grown back end ys 0 (λ q lo hi. update_ne c a q _ (omega arith)) s.1.1),
      )

  pub absorbed-below : (q : ℕ) → q ≢ 0 → q < a → absorbed q ≡ c q
  absorbed-below q z lo =
      set_prev_ne grown (link ys end 0) q a (link_ne q z (omega arith))
      ∙ update_ne c a q _ (omega arith)

  -- What `coalesce_next` does, as a function of the two headers that it reads.
  next_writes : Block → Block → Cells
  next_writes x y =
      if not (x.next == 0) && y.free
      then (let c1 =
            update c a
              (record x { size = add_size x.size (add_size header_size y.size); next = y.next }) in
          set_prev c1 (c1 a).next a)
      else c

  same_size : add_size k (add_size header_size n) ≡ k + header_size + n
  same_size = omega arith

  pub coalesce_next-absorbed : f ≡ true → coalesce_next c a ≡ absorbed
  unfolding coalesce_next next_writes
  coalesce_next-absorbed e =
      let z : (not (back == 0) && f) ≡ true = ground arith in
      ap (λ (x : Block). next_writes x (c x.next)) s.0
      ∙ ap (next_writes (header k true back prev)) s.1.0
      ∙ rw (z, same_size) (ap (λ (x : Block). set_prev grown x.next a) (update_self c a _))

  -- What `coalesce_prev` does at the block behind.
  prev_writes : Block → Block → Cells
  prev_writes x y =
      if not (x.prev == 0) && y.free
      then (let c1 =
            update c x.prev
              (record y { size = add_size y.size (add_size header_size x.size); next = x.next }) in
          set_prev c1 (c1 back).next x.prev)
      else c

  pub coalesce_prev-absorbed : coalesce_prev c back ≡ absorbed
  unfolding coalesce_prev prev_writes
  coalesce_prev-absorbed =
      let z : (not (a == 0)) ≡ true = ground arith in
      ap (λ (x : Block). prev_writes x (c x.prev)) s.1.0
      ∙ ap (prev_writes (header n f (link ys end 0) a)) s.0
      ∙ rw (z, same_size)
          (ap (λ (x : Block). set_prev grown x.next a) (update_ne c a back _ (omega arith) ∙ s.1.0))

-- Where the previous block is not free, or there is none, nothing happens.
pub coalesce_prev-busy :
    (c : Cells) (b n : ℕ) {f : Bool} {next prev : ℕ}
    → c b ≡ header n f next prev
    → (prev ≡ 0) ⊎ ((c prev).free ≡ false)
    → coalesce_prev c b ≡ c
unfolding coalesce_prev
coalesce_prev-busy c b n {prev} e busy =
    let t : (not ((c b).prev == 0) && (c (c b).prev).free) ≡ false = rw e (ground arith) in rw t

pub coalesce_next-busy :
    (c : Cells) (b n : ℕ) {f : Bool} {next prev : ℕ}
    → c b ≡ header n f next prev
    → (next ≡ 0) ⊎ ((c next).free ≡ false)
    → coalesce_next c b ≡ c
unfolding coalesce_next
coalesce_next-busy c b n {next} e busy =
    let t : (not ((c b).next == 0) && (c (c b).next).free) ≡ false = rw e (ground arith) in rw t

-- A change of memory that leaves a segment at `b`, and everything below `b` as it was.
abbrev pub Leaves : Cells → Cells → ℕ → ℕ → Blocks → Type 0
Leaves c d prev b bs = Seg d prev b bs 0 × ((q : ℕ) → q ≢ 0 → q < b → d q ≡ c q)

-- `coalesce_next` joins the free block at `b` with the next one if that is free.
pub coalesce_next-Seg :
    (c : Cells) (prev b n : ℕ) (ys : Blocks)
    → b ≢ 0
    → b + span ((n, true) ∷ ys) < half_word
    → Seg c prev b ((n, true) ∷ ys) 0
    → Leaves c (coalesce_next c b) prev b (join_next n ys)
unfolding absorb_next
coalesce_next-Seg c prev b n [] ne room s =
    subst (λ d. Leaves c d prev b ((n, true) ∷ [])) (sym (coalesce_next-busy c b n s.0 (inl refl)))
      (s, λ q z lo. refl)
coalesce_next-Seg c prev b n ((m, false) ∷ ys) ne room s =
    subst (λ d. Leaves c d prev b ((n, true) ∷ (m, false) ∷ ys))
      (sym (coalesce_next-busy c b n s.0 (inr (ap (λ (h : Block). h.free) s.1.0))))
      (s, λ q z lo. refl)
coalesce_next-Seg c prev b n ((m, true) ∷ ys) ne room s =
    subst (λ d. Leaves c d prev b ((n + header_size + m, true) ∷ ys))
      (sym (coalesce_next-absorbed c prev b n m true ys ne (omega arith) s refl))
      (
        absorbed-Seg c prev b n m true ys ne (omega arith) s,
        absorbed-below c prev b n m true ys ne (omega arith) s,
      )

-- `coalesce_prev` at the second block of a segment joins it with the first if that is free.
pub coalesce_prev-Seg :
    (c : Cells) (prev a b k n : ℕ) (g : Bool) (ys : Blocks)
    → a ≢ 0
    → b ≡ a + header_size + k
    → b + span ((n, true) ∷ ys) < half_word
    → Seg c prev a ((k, g) ∷ (n, true) ∷ ys) 0
    → Leaves c (coalesce_prev c b) prev a (join_prev k g n ys)
unfolding join_prev
coalesce_prev-Seg c prev a b k n true ys ne e room s =
    subst (λ d. Leaves c d prev a ((k + header_size + n, true) ∷ ys))
      (sym (rw e (coalesce_prev-absorbed c prev a k n true ys ne (omega arith) s)))
      (
        absorbed-Seg c prev a k n true ys ne (omega arith) s,
        absorbed-below c prev a k n true ys ne (omega arith) s,
      )
coalesce_prev-Seg c prev a b k n false ys ne e room s =
    subst (λ d. Leaves c d prev a ((k, false) ∷ (n, true) ∷ ys))
      (sym (coalesce_prev-busy c b n (ap c e ∙ s.1.0) (inr (ap (λ (h : Block). h.free) s.0))))
      (s, λ q z lo. refl)
