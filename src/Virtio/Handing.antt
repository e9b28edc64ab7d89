-- ===== src/Virtio/Handing.antt =====
-- Handing descriptors to the device and taking them back, in kernel/virtio_net.h.
use simpleos.Common.{
  ℕ, suc, ◌+◌, ◌-◌, ◌%◌, ◌^◌, ◌<◌, ◌≡◌, ◌≢◌, refl, arith, ◌==◌, if◌then◌else◌, true, false, List,
  [], ◌∷◌, length, Bool-cases, inl, inr, Option, none, some, ==_iff, ==_false,
}
use simpleos.Common.Bytes.{update}
use simpleos.Virtio.{VirtqDesc, Virtqueue, slot, virtq_add_buffer, virtq_get_used}
use simpleos.Virtio.FreeList.{link, count, IsQueue, Linked-update, Linked-head, Linked-tail}

-- What a call of `virtq_add_buffer` does to a queue with these free descriptors: with none it changes
-- nothing and returns -1; otherwise the first one is filled and put into the available ring, whose
-- index goes up by one, and it is out.
pub data Added (buf len flags : ℕ) (vq : Virtqueue) (out : List ℕ)
    : List ℕ → Option ℕ × Virtqueue → Type 0 where
  refused : Added buf len flags vq out [] (none, vq)
  added :
      (d : ℕ) (ds : List ℕ) (vq' : Virtqueue)
      → vq'.desc d ≡ record { addr = buf; len = len; flags = flags; next = 0 }
      → vq'.avail_ring (slot vq.size vq.avail_idx) ≡ d
      → vq'.avail_idx ≡ (vq.avail_idx + 1) % 2 ^ 16
      → ((e : ℕ) → e ≢ d → vq'.desc e ≡ vq.desc e)
      → IsQueue vq' ds (d ∷ out)
      → Added buf len flags vq out (d ∷ ds) (some d, vq')

-- The queue behind a head that was taken.
taken :
    (vq vq' : Virtqueue) (d : ℕ) (ds out : List ℕ) (v : VirtqDesc)
    → IsQueue vq (d ∷ ds) out
    → vq'.desc ≡ update vq.desc d v
    → vq'.free_head ≡ (vq.desc d).next
    → vq'.num_free ≡ vq.num_free - 1
    → vq'.size ≡ vq.size
    → IsQueue vq' ds (d ∷ out)
taken vq vq' d ds out v q e1 e2 e3 e4 = record {
  linked =
      rw (e1, e2)
        (Linked-update vq.desc d (vq.desc d).next v ds (ground (arith, q.once d))
          (Linked-tail vq.desc vq.free_head d ds q.linked));
  free_count = omega (arith, q.free_count, e3);
  all_count = omega (arith, q.all_count, e4);
  once = λ x. rw e4 (ground (arith, q.once x));
  small = rw e4 q.small;
}

add-some :
    (buf len' flags' : ℕ) (vq : Virtqueue) (d : ℕ) (ds out : List ℕ)
    → IsQueue vq (d ∷ ds) out
    → vq.free_head ≡ d
    → Added buf len' flags' vq out (d ∷ ds) (virtq_add_buffer buf len' flags' vq)
unfolding virtq_add_buffer
add-some buf len' flags' vq d ds out q first =
    let full : (vq.num_free == 0) ≡ false = ground (arith, q.free_count) in
    let new : VirtqDesc = record { addr = buf; len = len'; flags = flags'; next = 0 } in
    rw (full, first)
      (added d ds
        (record vq {
          free_head = (vq.desc d).next;
          num_free = vq.num_free - 1;
          desc = update vq.desc d new;
          avail_ring = update vq.avail_ring (slot vq.size vq.avail_idx) d;
          avail_idx = (vq.avail_idx + 1) % 2 ^ 16;
        })
        (ground arith) (ground arith) refl (λ e apart. ground (arith, apart))
        (taken vq _ d ds out new q refl refl refl refl))

-- A queue that keeps its descriptors apart does so after `virtq_add_buffer`, which refuses a buffer
-- exactly where no descriptor is free; otherwise the first free descriptor takes the buffer, stands in
-- the available ring, and is out, and no other descriptor changes.
pub virtq_add_buffer-Added :
    (buf len' flags' : ℕ) (vq : Virtqueue) (free out : List ℕ)
    → IsQueue vq free out
    → Added buf len' flags' vq out free (virtq_add_buffer buf len' flags' vq)
unfolding virtq_add_buffer
virtq_add_buffer-Added buf len' flags' vq [] out q =
    let empty : (vq.num_free == 0) ≡ true = ground (arith, q.free_count) in rw empty refused
virtq_add_buffer-Added buf len' flags' vq (d ∷ ds) out q =
    add-some buf len' flags' vq d ds out q (Linked-head vq.desc vq.free_head d ds q.linked)

-- A list without the first entry that is `x`.
abbrev pub remove : ℕ → List ℕ → List ℕ
remove x [] = []
remove x (d ∷ ds) = let rest = remove x ds in if x == d then ds else d ∷ rest

count-remove :
    (x d : ℕ) (ds : List ℕ)
    → 0 < count d ds
    → count x (remove d ds) + (if x == d then 1 else 0) ≡ count x ds
count-remove x d [] some' = absurd (omega (arith, some'))
count-remove x d (e ∷ es) some' = ground (arith, some', count-remove x d es)

length-remove : (d : ℕ) (ds : List ℕ) → 0 < count d ds → suc (length (remove d ds)) ≡ length ds
length-remove d [] some' = absurd (omega (arith, some'))
length-remove d (e ∷ es) some' = ground (arith, some', length-remove d es)

-- What a call of `virtq_get_used` does: where the device has used no further buffer it changes
-- nothing and returns -1; otherwise it returns the descriptor and the length that stand at the slot of
-- the last seen index, this index goes up by one, and the descriptor is the first free one.
pub data Got (vq : Virtqueue) (free out : List ℕ) : Option (ℕ × ℕ) × Virtqueue → Type 0 where
  idle : vq.last_used_idx ≡ vq.used_idx → Got vq free out (none, vq)
  got :
      (d len : ℕ) (vq' : Virtqueue)
      → vq.last_used_idx ≢ vq.used_idx
      → vq.used_ring (slot vq.size vq.last_used_idx) ≡ record { id = d; len = len }
      → vq'.last_used_idx ≡ (vq.last_used_idx + 1) % 2 ^ 16
      → ((e : ℕ) → e ≢ d → vq'.desc e ≡ vq.desc e)
      → IsQueue vq' (d ∷ free) (remove d out)
      → Got vq free out (some (d, len), vq')

given :
    (vq vq' : Virtqueue) (d : ℕ) (free out : List ℕ) (v : VirtqDesc)
    → IsQueue vq free out
    → 0 < count d out
    → v.next ≡ vq.free_head
    → vq'.desc ≡ update vq.desc d v
    → vq'.free_head ≡ d % 2 ^ 16
    → vq'.num_free ≡ (vq.num_free + 1) % 2 ^ 16
    → vq'.size ≡ vq.size
    → IsQueue vq' (d ∷ free) (remove d out)
given vq vq' d free out v q held e0 e1 e2 e3 e4 =
    let inside : d < vq.size = ground (arith, held, q.once d) in
    let whole : d % 2 ^ 16 ≡ d = omega (arith, inside, q.small) in
    let place : (update vq.desc d v d).next ≡ vq.free_head = ground (arith, e0) in
    record {
      linked =
          rw (e1, e2, whole)
            (link d free (
              rw place (
                Linked-update vq.desc d vq.free_head v free (ground (arith, q.once d, held))
                  q.linked)));
      free_count = omega (arith, q.free_count, e3, q.all_count, q.small, length-remove d out held);
      all_count = omega (arith, q.all_count, e4, length-remove d out held);
      once = λ x. rw e4 (omega (arith, q.once x, count-remove x d out held));
      small = rw e4 q.small;
    }

-- A queue that keeps its descriptors apart, with a device that reports only descriptors it has, does so
-- after `virtq_get_used`, which returns nothing exactly where the device has used no further buffer;
-- otherwise it returns the entry at its place in the used ring, whose descriptor becomes the first
-- free one, and no other descriptor changes.
pub virtq_get_used-Got :
    (vq : Virtqueue) (free out : List ℕ)
    → IsQueue vq free out
    → (vq.last_used_idx ≢ vq.used_idx
        → 0 < count (vq.used_ring (slot vq.size vq.last_used_idx)).id out)
    → Got vq free out (virtq_get_used vq)
unfolding virtq_get_used
virtq_get_used-Got vq free out q held = elim (Bool-cases (vq.last_used_idx == vq.used_idx)) [
  | inl same ↦ rw same (idle ((==_iff vq.last_used_idx vq.used_idx).0 same))
  | inr other ↦ rw other (
      let apart = ==_false vq.last_used_idx vq.used_idx other in
      let e = vq.used_ring (slot vq.size vq.last_used_idx) in
      let v : VirtqDesc = record (vq.desc e.id) { next = vq.free_head } in
      got e.id e.len
        (record vq {
          last_used_idx = (vq.last_used_idx + 1) % 2 ^ 16;
          desc = update vq.desc e.id v;
          free_head = e.id % 2 ^ 16;
          num_free = (vq.num_free + 1) % 2 ^ 16;
        })
        apart refl refl (λ e' apart'. ground (arith, apart'))
        (given vq _ e.id free out v q (held apart) refl refl refl refl refl))
]
