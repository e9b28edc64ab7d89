-- ===== src/VirtioNet/Sending.antt =====
-- Sending a frame with the driver of kernel/virtio_net.h.
use simpleos.Common.{
  ℕ, zero, suc, ◌+◌, ◌-◌, ◌*◌, ◌%◌, ◌^◌, ◌≤◌, ◌<◌, ◌≡◌, inl, inr, refl, ◌∙◌, arith, Bool, true,
  false, not, ltb, leb, if◌then◌else◌, ◌&&◌, List, [], ◌∷◌, Option, ℤ, pos, negsuc, Bool-cases, ◌≢◌,
  length, ltb→lt,
}
use simpleos.Common.Bytes.{update}
use simpleos.Virtio.{Virtqueue, virtq_add_buffer}
use simpleos.Virtio.FreeList.{IsQueue}
use simpleos.Virtio.Handing.{Added, added, refused, virtq_add_buffer-Added}
use simpleos.VirtioNet.{
  VirtioNet, copy_bytes, clear_header, fill_buffer, virtio_write, virtio_net_send,
}

pub copy_bytes_lem :
    (left i at : ℕ) (src dst : ℕ → ℕ) (j : ℕ)
    → copy_bytes left i at src dst j
      ≡ (if leb (at + i) j && ltb j (at + (i + left)) then src (j - at) else dst j)
unfolding copy_bytes
copy_bytes_lem zero i at src dst j = ground arith
copy_bytes_lem (suc left) i at src dst j =
    copy_bytes_lem left (i + 1) at src (update dst (at + i) (src i)) j ∙ ground arith

-- The buffer holds a header of zeros, the frame behind its twelve bytes, and nothing else is written.
pub fill_buffer_lem :
    (packet : ℕ → ℕ) (len : ℕ) (buf : ℕ → ℕ) (j : ℕ)
    → fill_buffer packet len buf j
      ≡ (if ltb j 10 then 0 else if leb 12 j && ltb j (12 + len) then packet (j - 12) else buf j)
unfolding fill_buffer clear_header
fill_buffer_lem packet len buf j =
    copy_bytes_lem len 0 12 packet (λ k. if ltb k 10 then 0 else buf k) j ∙ ground arith

-- The outcomes of `virtio_net_send`, on queues with these descriptors free and with the device: three
-- refusals, which change nothing, and a frame that stands in the next of the sixteen buffers behind a
-- header, with the first free descriptor at its address, now with the device, which is told.
pub data Sent (packet : ℕ → ℕ) (len : ℕ) (dev : VirtioNet) (free out : List ℕ)
    : ℤ × VirtioNet → Type 0 where
  not_ready : dev.initialized ≡ false → Sent packet len dev free out (negsuc 0, dev)
  too_long : dev.initialized ≡ true → 1514 < len → Sent packet len dev free out (negsuc 1, dev)
  no_room :
      dev.initialized ≡ true
      → len ≤ 1514
      → length free < 2
      → Sent packet len dev free out (negsuc 2, dev)
  sent :
      (d : ℕ) (ds : List ℕ) (dev' : VirtioNet)
      → dev.initialized ≡ true
      → len ≤ 1514
      → free ≡ d ∷ ds
      → 0 < length ds
      → ((j : ℕ) → j < 10 → dev'.tx_buffers dev.tx_buf_idx j ≡ 0)
      → ((i : ℕ) → i < len → dev'.tx_buffers dev.tx_buf_idx (12 + i) ≡ packet i)
      → ((b : ℕ) → b ≢ dev.tx_buf_idx → (j : ℕ) → dev'.tx_buffers b j ≡ dev.tx_buffers b j)
      → dev'.tx_queue.desc d
        ≡ record { addr = dev.tx_at + 2048 * dev.tx_buf_idx; len = 12 + len; flags = 0; next = 0 }
      → IsQueue dev'.tx_queue ds (d ∷ out)
      → dev'.tx_buf_idx ≡ (dev.tx_buf_idx + 1) % 16
      → dev'.packets_tx ≡ (dev.packets_tx + 1) % 2 ^ 64
      → dev'.writes ≡ ((dev.io_base + 16) % 2 ^ 16, 1) ∷ dev.writes
      → Sent packet len dev free out (pos 0, dev')

-- The queue behind the call, by what the call does.
queued :
    (packet : ℕ → ℕ) (len : ℕ) (dev : VirtioNet) (free out : List ℕ) (r : Option ℕ × Virtqueue)
    → dev.initialized ≡ true
    → len ≤ 1514
    → 2 ≤ length free
    → Added (dev.tx_at + 2048 * dev.tx_buf_idx) (12 + len) 0 dev.tx_queue out free r
    → Sent packet len dev free out (
      pos 0,
      record (virtio_write 16 1 dev) {
        tx_buf_idx = (dev.tx_buf_idx + 1) % 16;
        tx_buffers =
            update dev.tx_buffers dev.tx_buf_idx
              (fill_buffer packet len (dev.tx_buffers dev.tx_buf_idx));
        tx_queue = r.1;
        packets_tx = (dev.packets_tx + 1) % 2 ^ 64;
        bytes_tx = (dev.bytes_tx + len) % 2 ^ 64;
      },
    )
unfolding virtio_write
queued packet len dev _ out _ ready short room refused = absurd (omega (arith, room))
queued packet len dev _ out _ ready short room (added d ds vq' written ring idx others q) =
    (let buf = dev.tx_buffers dev.tx_buf_idx in
      sent d ds _ ready short refl (omega (arith, room))
        (λ j low. ground (arith, low, fill_buffer_lem packet len buf j))
        (λ i inside. ground (arith, inside, fill_buffer_lem packet len buf (12 + i)))
        (λ b other j. ground (arith, other)) written q refl refl refl)

-- The first guard.
if_ready :
    (packet : ℕ → ℕ) (len : ℕ) (dev : VirtioNet) (free out : List ℕ) (b : Bool)
    {rest : ℤ × VirtioNet}
    → dev.initialized ≡ b
    → (dev.initialized ≡ true → Sent packet len dev free out rest)
    → Sent packet len dev free out (if not b then (negsuc 0, dev) else rest)
if_ready packet len dev free out true e next = next e
if_ready packet len dev free out false e next = not_ready e

-- With a transmit queue that keeps its descriptors apart, `virtio_net_send` does what `Sent` says: it
-- refuses a frame and changes nothing where the device is not ready, the frame is longer than 1514
-- bytes, or fewer than two descriptors are free; otherwise every byte of the frame stands in the next
-- buffer behind twelve bytes, of which the first ten are zero, no other buffer is written, the descriptor
-- is with the device, the device is told, and the queue still keeps its descriptors apart.
pub virtio_net_send-Sent :
    (packet : ℕ → ℕ) (len : ℕ) (dev : VirtioNet) (free out : List ℕ)
    → IsQueue dev.tx_queue free out
    → Sent packet len dev free out (virtio_net_send packet len dev)
unfolding virtio_net_send
virtio_net_send-Sent packet len dev free out q =
    if_ready packet len dev free out dev.initialized refl (λ ready.
      (elim (Bool-cases (ltb 1514 len)) [
        | inl long ↦ rw long (too_long ready (ltb→lt 1514 len long))
        | inr short ↦ rw short (elim (Bool-cases (ltb dev.tx_queue.num_free 2)) [
          | inl few ↦
              rw few (no_room ready (ground (arith, short)) (ground (arith, few, q.free_count)))
          | inr room ↦ rw room (
              queued packet len dev free out
                (virtq_add_buffer (dev.tx_at + 2048 * dev.tx_buf_idx) (12 + len) 0 dev.tx_queue)
                ready (ground (arith, short)) (ground (arith, room, q.free_count))
                (virtq_add_buffer-Added (dev.tx_at + 2048 * dev.tx_buf_idx) (12 + len) 0
                  dev.tx_queue free out q))
        ])
      ]))

-- How many frames of a list are sent, one after the other.
abbrev pub is_sent : ℤ → ℕ
is_sent (pos n) = 1
is_sent (negsuc n) = 0

unfoldable pub sends : List ((ℕ → ℕ) × ℕ) → VirtioNet → ℕ
sends [] dev = 0
sends ((packet, len) ∷ rest) dev =
    let (code, dev') = virtio_net_send packet len dev in is_sent code + sends rest dev'

send_uses_up :
    (packet : ℕ → ℕ) (len : ℕ) (dev : VirtioNet)
    → (virtio_net_send packet len dev).1.tx_queue.num_free
          + is_sent (virtio_net_send packet len dev).0
        ≤ dev.tx_queue.num_free
      × (is_sent (virtio_net_send packet len dev).0 ≡ 1 → 2 ≤ dev.tx_queue.num_free)
unfolding virtio_net_send virtq_add_buffer
send_uses_up packet len dev = ground arith

is_sent-le : (code : ℤ) → is_sent code ≤ 1
is_sent-le (pos n) = omega arith
is_sent-le (negsuc n) = omega arith

-- Of any frames, fewer are sent than descriptors were free: a send takes a descriptor, and none gives
-- one back.
pub sends-bounded :
    (frames : List ((ℕ → ℕ) × ℕ)) (dev : VirtioNet) → sends frames dev ≤ dev.tx_queue.num_free - 1
unfolding sends
sends-bounded [] dev = omega arith
sends-bounded ((packet, len) ∷ rest) dev =
    let used = send_uses_up packet len dev in
    let code = (virtio_net_send packet len dev).0 in
    grind (
      arith,
      used.0,
      used.1,
      is_sent-le code,
      sends-bounded rest (virtio_net_send packet len dev).1,
    )
