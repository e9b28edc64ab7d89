-- ===== src/Virtio/FreeList.antt =====
-- The list of free descriptors of a virtqueue of kernel/virtio_net.h.
use simpleos.Common.{
  ℕ, zero, suc, ◌+◌, ◌%◌, ◌^◌, ◌≤◌, ◌<◌, ◌≡◌, refl, ap, ◌∙◌, subst, arith, ltb, ◌==◌, if◌then◌else◌,
  List, [], ◌∷◌, length,
}
use simpleos.Common.Bytes.{update}
use simpleos.Virtio.{VirtqDesc, Virtqueue, link_free, virtq_init}

-- The list that begins with descriptor `head` and goes on by the field `next`; what stands in that
-- field of its last descriptor does not matter.
pub data Linked (desc : ℕ → VirtqDesc) : ℕ → List ℕ → Type 0 where
  nil : (head : ℕ) → Linked desc head []
  link : (d : ℕ) (ds : List ℕ) → Linked desc (desc d).next ds → Linked desc d (d ∷ ds)

-- How often a descriptor stands in a list.
abbrev pub count : ℕ → List ℕ → ℕ
count x [] = 0
count x (d ∷ ds) = (if x == d then 1 else 0) + count x ds

-- Every descriptor of the queue is either free, and then once in the free list, or out, and then once
-- in the list of those that the device has.
pub record IsQueue (vq : Virtqueue) (free out : List ℕ) : Type 0 where
  pub linked : Linked vq.desc vq.free_head free
  pub free_count : length free ≡ vq.num_free
  pub all_count : length free + length out ≡ vq.size
  pub once : (x : ℕ) → count x free + count x out ≡ (if ltb x vq.size then 1 else 0)
  pub small : vq.size < 2 ^ 16

-- Changing a descriptor that is not in the list.
pub Linked-update :
    (desc : ℕ → VirtqDesc) (d head : ℕ) (v : VirtqDesc) (ds : List ℕ)
    → count d ds ≡ 0
    → Linked desc head ds
    → Linked (update desc d v) head ds
Linked-update desc d _ v _ gone (nil head) = nil head
Linked-update desc d _ v _ gone (link e es rest) = link e es (
    let here : update desc d v e ≡ desc e = ground (arith, gone) in
    rw here (Linked-update desc d (desc e).next v es (ground (arith, gone)) rest))

-- The numbers from `i` on, `n` of them.
abbrev pub counting : ℕ → ℕ → List ℕ
counting i zero = []
counting i (suc n) = i ∷ counting (i + 1) n

length-counting : (i n : ℕ) → length (counting i n) ≡ n
length-counting i zero = refl
length-counting i (suc n) = ap suc (length-counting (i + 1) n)

count-counting_below : (x i n : ℕ) → x < i → count x (counting i n) ≡ 0
count-counting_below x i zero below = refl
count-counting_below x i (suc n) below = ground (arith, below, count-counting_below x (i + 1) n)

count-counting : (x i n : ℕ) → i ≤ x → count x (counting i n) ≡ (if ltb x (i + n) then 1 else 0)
count-counting x i zero low = ground (arith, low)
count-counting x i (suc n) low =
    ground (arith, low, count-counting x (i + 1) n, count-counting_below x (i + 1) n)

link_free-below :
    (rounds i j : ℕ) (desc : ℕ → VirtqDesc) → j < i → link_free rounds i desc j ≡ desc j
unfolding link_free
link_free-below zero i j desc below = refl
link_free-below (suc rounds) i j desc below =
    link_free-below rounds (i + 1) j (update desc i (record (desc i) { next = (i + 1) % 2 ^ 16 }))
      (omega (arith, below))
    ∙ ground (arith, below)

link_free-Linked :
    (rounds i : ℕ) (desc : ℕ → VirtqDesc)
    → i + rounds < 2 ^ 16
    → Linked (link_free rounds i desc) i (counting i (suc rounds))
unfolding link_free
link_free-Linked zero i desc small = link i [] (nil (desc i).next)
link_free-Linked (suc rounds) i desc small =
    let desc' = update desc i (record (desc i) { next = (i + 1) % 2 ^ 16 }) in
    let next' : (link_free rounds (i + 1) desc' i).next ≡ i + 1 =
      ap (λ e. e.next) (link_free-below rounds (i + 1) i desc' (omega arith))
      ∙ ground (arith, small) in
    link i (counting (i + 1) (suc rounds))
      (rw next' (link_free-Linked rounds (i + 1) desc' (omega (arith, small))))

-- `virtq_init` makes a queue of at least one descriptor whose descriptors are all free, in the order
-- of their indices.
pub virtq_init-IsQueue :
    (size mem : ℕ) (vq : Virtqueue)
    → 0 < size
    → size < 2 ^ 16
    → IsQueue (virtq_init size mem vq) (counting 0 size) []
unfolding virtq_init
virtq_init-IsQueue zero mem vq pos small' = absurd (omega (arith, pos))
virtq_init-IsQueue (suc n) mem vq pos small' = record {
  linked =
      subst (λ m. Linked (link_free m 0 vq.desc) 0 (counting 0 (suc n))) (omega arith)
        (link_free-Linked n 0 vq.desc (omega (arith, small')));
  free_count = length-counting 0 (suc n);
  all_count = omega (arith, length-counting 0 (suc n));
  once = λ x. ground (arith, count-counting x 0 (suc n) (omega arith));
  small = small';
}

pub Linked-head : (desc : ℕ → VirtqDesc) (h d : ℕ) (ds : List ℕ) → Linked desc h (d ∷ ds) → h ≡ d
Linked-head desc _ _ _ (link d ds rest) = refl

pub Linked-tail :
    (desc : ℕ → VirtqDesc) (h d : ℕ) (ds : List ℕ)
    → Linked desc h (d ∷ ds)
    → Linked desc (desc d).next ds
Linked-tail desc _ _ _ (link d ds rest) = rest
