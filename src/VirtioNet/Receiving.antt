-- ===== src/VirtioNet/Receiving.antt =====
-- Receiving a frame with the driver of kernel/virtio_net.h.
use simpleos.Common.{
  ℕ, ◌+◌, ◌*◌, ◌%◌, ◌^◌, ◌<◌, ◌≡◌, ◌≢◌, refl, ◌∙◌, arith, Bool, true, false, not, ltb,
  if◌then◌else◌, List, ◌∷◌, Option, ℤ, pos, negsuc, ◌≤◌, ◌-◌, leb, none, some, Bool-cases, inl, inr,
}
use simpleos.Virtio.{Virtqueue, slot, virtq_add_buffer, virtq_get_used}
use simpleos.Virtio.FreeList.{IsQueue, count}
use simpleos.Virtio.Handing.{
  Added, added, Got, got, idle, remove, virtq_add_buffer-Added, virtq_get_used-Got,
}
use simpleos.VirtioNet.{VirtioNet, copy_bytes, packet_len, virtio_write, take_used, virtio_net_recv}
use simpleos.VirtioNet.Sending.{copy_bytes_lem}

-- What `virtio_net_recv` does for a caller with a buffer of `size` bytes. It changes nothing where
-- the device is not ready, or has used no further buffer. Otherwise it takes the descriptor that the
-- device used, copies what stands behind the header of that buffer, at most `size` bytes, returns
-- their number, and hands the same buffer to the device again; `outside` reads behind the array of
-- sixteen buffers, and `negative` is a descriptor that an `int` has no room for.
pub data Received (buf : ℕ → ℕ) (size : ℕ) (dev : VirtioNet) (free out : List ℕ)
    : Option (ℤ × ((ℕ → ℕ) × VirtioNet)) → Type 0 where
  not_ready : dev.initialized ≡ false → Received buf size dev free out (some (negsuc 0, (buf, dev)))
  nothing :
      dev.initialized ≡ true
      → dev.rx_queue.last_used_idx ≡ dev.rx_queue.used_idx
      → Received buf size dev free out (some (pos 0, (buf, dev)))
  negative :
      (d len : ℕ) (vq : Virtqueue)
      → dev.initialized ≡ true
      → dev.rx_queue.used_ring (slot dev.rx_queue.size dev.rx_queue.last_used_idx)
        ≡ record { id = d; len = len }
      → 2 ^ 31 ≤ d
      → IsQueue vq (d ∷ free) (remove d out)
      → Received buf size dev free out (some (pos 0, (buf, record dev { rx_queue = vq })))
  outside :
      (d len : ℕ)
      → dev.initialized ≡ true
      → dev.rx_queue.used_ring (slot dev.rx_queue.size dev.rx_queue.last_used_idx)
        ≡ record { id = d; len = len }
      → 16 ≤ d
      → d < 2 ^ 31
      → Received buf size dev free out none
  received :
      (d len n : ℕ) (buf' : ℕ → ℕ) (dev' : VirtioNet)
      → dev.initialized ≡ true
      → dev.rx_queue.used_ring (slot dev.rx_queue.size dev.rx_queue.last_used_idx)
        ≡ record { id = d; len = len }
      → d < 16
      → n ≤ size
      → (12 ≤ len → len < 2 ^ 32 → n ≡ (if leb (len - 12) size then len - 12 else size))
      → (len < 12 → n ≡ (if leb (len + 4294967284) size then len + 4294967284 else size))
      → ((j : ℕ) → buf' j ≡ (if ltb j n then dev.rx_buffers d (12 + j) else buf j))
      → dev'.rx_queue.desc d
        ≡ record { addr = dev.rx_at + 2048 * d; len = 2048; flags = 2; next = 0 }
      → IsQueue dev'.rx_queue free (d ∷ remove d out)
      → dev'.packets_rx ≡ (dev.packets_rx + 1) % 2 ^ 64
      → dev'.writes ≡ ((dev.io_base + 16) % 2 ^ 16, 0) ∷ dev.writes
      → Received buf size dev free out (some (pos n, (buf', dev')))

if_ready :
    (buf : ℕ → ℕ) (size : ℕ) (dev : VirtioNet) (free out : List ℕ) (b : Bool)
    {rest : Option (ℤ × ((ℕ → ℕ) × VirtioNet))}
    → dev.initialized ≡ b
    → (dev.initialized ≡ true → Received buf size dev free out rest)
    → Received buf size dev free out (if not b then some (negsuc 0, (buf, dev)) else rest)
if_ready buf size dev free out true e next = next e
if_ready buf size dev free out false e next = not_ready e

-- The descriptor goes out again first.
readded :
    (buf : ℕ → ℕ) (size : ℕ) (dev : VirtioNet) (free out : List ℕ) (d len : ℕ) (vq : Virtqueue)
    (r : Option ℕ × Virtqueue)
    → dev.initialized ≡ true
    → dev.rx_queue.used_ring (slot dev.rx_queue.size dev.rx_queue.last_used_idx)
      ≡ record { id = d; len = len }
    → d < 16
    → Added (dev.rx_at + 2048 * d) 2048 2 vq (remove d out) (d ∷ free) r
    → Received buf size dev free out (
        some (
          pos (packet_len len size),
          (
            copy_bytes (packet_len len size) 0 0 (λ i. dev.rx_buffers d (12 + i)) buf,
            record (virtio_write 16 0 dev) {
              rx_queue = r.1;
              packets_rx = (dev.packets_rx + 1) % 2 ^ 64;
              bytes_rx = (dev.bytes_rx + packet_len len size) % 2 ^ 64;
            },
          ),
        ))
unfolding virtio_write
readded buf size dev free out d len vq _ ready used few (added _ _ vq' written ring idx others q) =
    received d len (packet_len len size) _ _ ready used few (ground arith)
      (λ long word. ground (arith, long, word)) (λ short. ground (arith, short))
      (λ j.
        copy_bytes_lem (packet_len len size) 0 0 (λ i. dev.rx_buffers d (12 + i)) buf j
        ∙ ground arith)
      written q refl refl

taken_used :
    (buf : ℕ → ℕ) (size : ℕ) (dev : VirtioNet) (free out : List ℕ) (r : Option (ℕ × ℕ) × Virtqueue)
    → dev.initialized ≡ true
    → Got dev.rx_queue free out r
    → Received buf size dev free out (take_used buf size dev r)
unfolding take_used
taken_used buf size dev free out _ ready (idle same) = nothing ready same
taken_used buf size dev free out _ ready (got d len vq' apart used idx others q) =
    elim (Bool-cases (leb (2 ^ 31) d)) [
      | inl high ↦ rw high (negative d len vq' ready used (ground (arith, high)) q)
      | inr low ↦ rw low (elim (Bool-cases (leb 16 d)) [
        | inl over ↦ rw over (outside d len ready used (ground (arith, over)) (ground (arith, low)))
        | inr few ↦ rw few (
            readded buf size dev free out d len vq'
              (virtq_add_buffer (dev.rx_at + 2048 * d) 2048 2 vq') ready used (ground (arith, few))
              (virtq_add_buffer-Added (dev.rx_at + 2048 * d) 2048 2 vq' (d ∷ free) (remove d out)
                q))
      ])
    ]

-- With a receive queue that keeps its descriptors apart, and a device that reports only descriptors it
-- has, `virtio_net_recv` does what `Received` says. It changes nothing where it is not ready or no
-- buffer was used. Of one of the sixteen buffers the caller gets what stands behind the twelve bytes of
-- the header, at most as many bytes as it has room for, the number of a buffer with less than a header
-- being counted from 2 ^ 32 downwards, and the same buffer is with the device again. A descriptor from
-- 16 on reads behind `rx_buffers`, and one from 2 ^ 31 on counts as no frame, though it was taken back.
pub virtio_net_recv-Received :
    (buf : ℕ → ℕ) (size : ℕ) (dev : VirtioNet) (free out : List ℕ)
    → IsQueue dev.rx_queue free out
    → (dev.rx_queue.last_used_idx ≢ dev.rx_queue.used_idx
        → 0
          < count
              (dev.rx_queue.used_ring (slot dev.rx_queue.size dev.rx_queue.last_used_idx)).id
              out)
    → Received buf size dev free out (virtio_net_recv buf size dev)
unfolding virtio_net_recv
virtio_net_recv-Received buf size dev free out q held =
    if_ready buf size dev free out dev.initialized refl (λ ready.
      taken_used buf size dev free out (virtq_get_used dev.rx_queue) ready
        (virtq_get_used-Got dev.rx_queue free out q held))
