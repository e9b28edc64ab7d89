-- ===== src/Heap/Blocks.antt =====
-- The abstract heap: the sizes of its blocks in address order, and whether each is free.
use simpleos.Common.{
  ℕ, ◌+◌, ◌-◌, ◌*◌, ◌%◌, ◌≡◌, ◌≤◌, refl, ap, Bool, true, false, List, [], ◌∷◌, ◌++◌, arith,
  if◌then◌else◌, ltb, length,
}
use simpleos.Heap.{header_size, min_block_size}

abbrev pub Blocks : Type 0
Blocks = List (ℕ × Bool)

-- The bytes that the blocks take up, headers included.
abbrev pub span : Blocks → ℕ
span [] = 0
span ((n, f) ∷ bs) = n + header_size + span bs

-- The bytes of the blocks that are not free, headers included.
abbrev pub taken : Blocks → ℕ
taken [] = 0
taken ((n, f) ∷ bs) = (if f then 0 else n + header_size) + taken bs

-- The sizes are multiples of 8.
abbrev pub IsAligned : Blocks → Type 0
IsAligned [] = Unit {0}
IsAligned ((n, f) ∷ bs) = (n % 8 ≡ 0) × IsAligned bs

-- A block of `m` bytes cut down to `n`: the rest becomes a free block if it is worth it.
unfoldable pub carve : Bool → ℕ → ℕ → Blocks → Blocks
carve f n m bs =
    if ltb m (n + min_block_size) then (m, f) ∷ bs else (n, f) ∷ (m - n - header_size, true) ∷ bs

-- A free block of `n` bytes takes over the next of the blocks behind it, if that is free: its new
-- size, and the blocks that are left.
unfoldable pub absorb_next : ℕ → Blocks → ℕ × Blocks
absorb_next n [] = (n, [])
absorb_next n ((m, true) ∷ bs) = (n + header_size + m, bs)
absorb_next n ((m, false) ∷ bs) = (n, (m, false) ∷ bs)

abbrev pub join_next : ℕ → Blocks → Blocks
join_next n bs = ((absorb_next n bs).0, true) ∷ (absorb_next n bs).1

-- A free block of `n` bytes behind a block of `k`, joined with it if that is free.
unfoldable pub join_prev : ℕ → Bool → ℕ → Blocks → Blocks
join_prev k true n bs = (k + header_size + n, true) ∷ bs
join_prev k false n bs = (k, false) ∷ (n, true) ∷ bs

-- A free block of `n` bytes behind the blocks `xs`, joined with the last of them if that is free.
unfoldable pub join_last : Blocks → ℕ → Blocks → Blocks
join_last [] n bs = (n, true) ∷ bs
join_last ((k, g) ∷ []) n bs = join_prev k g n bs
join_last (x ∷ x' ∷ xs) n bs = x ∷ join_last (x' ∷ xs) n bs

-- The block of `n` bytes between `xs` and `ys` is given back, and joined with its free neighbours.
unfoldable pub release : Blocks → ℕ → Blocks → Blocks
release xs n ys = join_last xs (absorb_next n ys).0 (absorb_next n ys).1

pub span-append : (xs ys : Blocks) → span (xs ++ ys) ≡ span xs + span ys
span-append [] ys = omega arith
span-append ((n, f) ∷ xs) ys = omega (arith, span-append xs ys)

pub taken-append : (xs ys : Blocks) → taken (xs ++ ys) ≡ taken xs + taken ys
taken-append [] ys = omega arith
taken-append ((n, f) ∷ xs) ys = omega (arith, taken-append xs ys)

pub taken-le-span : (xs : Blocks) → taken xs ≤ span xs
taken-le-span [] = omega arith
taken-le-span ((n, true) ∷ xs) = omega (arith, taken-le-span xs)
taken-le-span ((n, false) ∷ xs) = omega (arith, taken-le-span xs)

pub length-le-span : (xs : Blocks) → length xs * header_size ≤ span xs
length-le-span [] = omega arith
length-le-span ((n, f) ∷ xs) = omega (arith, length-le-span xs)

pub IsAligned-append : (xs ys : Blocks) → IsAligned xs → IsAligned ys → IsAligned (xs ++ ys)
IsAligned-append [] ys a b = b
IsAligned-append ((n, f) ∷ xs) ys a b = (a.0, IsAligned-append xs ys a.1 b)

pub IsAligned-left : (xs ys : Blocks) → IsAligned (xs ++ ys) → IsAligned xs
IsAligned-left [] ys a = tt
IsAligned-left ((n, f) ∷ xs) ys a = (a.0, IsAligned-left xs ys a.1)

pub IsAligned-right : (xs ys : Blocks) → IsAligned (xs ++ ys) → IsAligned ys
IsAligned-right [] ys a = a
IsAligned-right ((n, f) ∷ xs) ys a = IsAligned-right xs ys a.1

module _ (f : Bool) (n m : ℕ) (bs : Blocks) (fits : n ≤ m) where
  pub span-carve : span (carve f n m bs) ≡ span ((m, true) ∷ bs)
  unfolding carve
  span-carve = ground arith

  pub taken-carve :
      taken (carve f n m bs)
      ≡ (if f then 0 else (if ltb m (n + min_block_size) then m else n) + header_size) + taken bs
  unfolding carve
  taken-carve = ground arith

  pub IsAligned-carve : n % 8 ≡ 0 → IsAligned ((m, true) ∷ bs) → IsAligned (carve f n m bs)
  unfolding carve
  IsAligned-carve h a = ground arith

module _ (n : ℕ) where
  pub span-join_next : (bs : Blocks) → span (join_next n bs) ≡ span ((n, true) ∷ bs)
  unfolding absorb_next
  span-join_next [] = refl
  span-join_next ((m, true) ∷ bs) = omega arith
  span-join_next ((m, false) ∷ bs) = refl

  pub taken-join_next : (bs : Blocks) → taken (join_next n bs) ≡ taken bs
  unfolding absorb_next
  taken-join_next [] = refl
  taken-join_next ((m, true) ∷ bs) = omega arith
  taken-join_next ((m, false) ∷ bs) = omega arith

  pub IsAligned-join_next : (bs : Blocks) → n % 8 ≡ 0 → IsAligned bs → IsAligned (join_next n bs)
  unfolding absorb_next
  IsAligned-join_next [] h a = (h, tt)
  IsAligned-join_next ((m, true) ∷ bs) h a = (omega arith, a.1)
  IsAligned-join_next ((m, false) ∷ bs) h a = (h, a)

module _ (k n : ℕ) (bs : Blocks) where
  pub span-join_prev : (g : Bool) → span (join_prev k g n bs) ≡ span ((k, g) ∷ (n, true) ∷ bs)
  unfolding join_prev
  span-join_prev true = omega arith
  span-join_prev false = refl

  pub taken-join_prev : (g : Bool) → taken (join_prev k g n bs) ≡ taken ((k, g) ∷ bs)
  unfolding join_prev
  taken-join_prev true = omega arith
  taken-join_prev false = omega arith

  pub IsAligned-join_prev :
      (g : Bool) → k % 8 ≡ 0 → n % 8 ≡ 0 → IsAligned bs → IsAligned (join_prev k g n bs)
  unfolding join_prev
  IsAligned-join_prev true hk hn a = (omega arith, a)
  IsAligned-join_prev false hk hn a = (hk, (hn, a))

-- A list is empty or has a last element.
pub data Snoc : Blocks → Type 0 where
  empty : Snoc []
  snoc : (zs : Blocks) (k : ℕ) (g : Bool) → Snoc (zs ++ ((k, g) ∷ []))

pub Snoc-cons : (x : ℕ × Bool) {xs : Blocks} → Snoc xs → Snoc (x ∷ xs)
Snoc-cons (k, g) empty = snoc [] k g
Snoc-cons x (snoc zs k g) = snoc (x ∷ zs) k g

pub Snoc-view : (xs : Blocks) → Snoc xs
Snoc-view [] = empty
Snoc-view (x ∷ xs) = Snoc-cons x (Snoc-view xs)

pub join_last-snoc :
    (zs : Blocks) (k : ℕ) (g : Bool) (n : ℕ) (bs : Blocks)
    → join_last (zs ++ ((k, g) ∷ [])) n bs ≡ zs ++ join_prev k g n bs
unfolding join_last
join_last-snoc [] k g n bs = refl
join_last-snoc (z ∷ []) k g n bs = refl
join_last-snoc (z ∷ z' ∷ zs) k g n bs = ap (λ l. z ∷ l) (join_last-snoc (z' ∷ zs) k g n bs)
