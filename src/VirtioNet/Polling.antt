-- ===== src/VirtioNet/Polling.antt =====
-- The loop that polls for frames in kernel/virtio_net.h ends.
use simpleos.Common.{
  ℕ, zero, suc, ◌+◌, ◌-◌, ◌%◌, ◌^◌, ◌<◌, ◌≡◌, ◌≢◌, refl, arith, ltb, Option, none, some, Bool-cases,
  inl, inr, ℤ, pos, negsuc,
}
use simpleos.Virtio.{Virtqueue, virtq_add_buffer, virtq_get_used}
use simpleos.VirtioNet.{VirtioNet, virtio_write, virtio_net_send, virtio_net_recv, take_used}
use simpleos.Net.{ntohl}
use simpleos.VirtioNet.Replies.{asks_arp, pings, payload_len, ihl, net_process_packet_lem}
use simpleos.VirtioNet.Frames.{
  load16, load32, net_send_arp_reply, net_send_ping_reply, net_process_packet, done, overrun,
  no_fuel, net_poll,
}

-- How many buffers the device has used that the driver has not seen.
abbrev pub pending : Virtqueue → ℕ
pending vq = (vq.used_idx + 2 ^ 16 - vq.last_used_idx) % 2 ^ 16

send-rx_queue :
    (p : ℕ → ℕ) (len : ℕ) (dev : VirtioNet) → (virtio_net_send p len dev).1.rx_queue ≡ dev.rx_queue
unfolding virtio_net_send virtio_write
send-rx_queue p len dev = ground arith

-- Processing a frame leaves the receive queue alone.
data RxKept (dev : VirtioNet) : Option VirtioNet → Type 0 where
  fails : RxKept dev none
  keeps : (dev' : VirtioNet) → dev'.rx_queue ≡ dev.rx_queue → RxKept dev (some dev')

ping-RxKept :
    (ip : ℕ) (mac : ℕ → ℕ) (id seq : ℕ) (src : ℕ → ℕ) (n : ℕ) (dev : VirtioNet)
    → RxKept dev (net_send_ping_reply ip mac id seq src n dev)
unfolding net_send_ping_reply
ping-RxKept ip mac id seq src n dev = elim (Bool-cases (ltb 1514 (14 + 20 + 8 + n))) [
  | inl long ↦ rw long fails
  | inr short ↦ rw short (keeps _ (send-rx_queue _ _ dev))
]

arp-rx_queue :
    (ip : ℕ) (mac : ℕ → ℕ) (dev : VirtioNet)
    → (net_send_arp_reply ip mac dev).rx_queue ≡ dev.rx_queue
unfolding net_send_arp_reply
arp-rx_queue ip mac dev = send-rx_queue _ 42 dev

process-RxKept : (p : ℕ → ℕ) (len : ℕ) (dev : VirtioNet) → RxKept dev (net_process_packet p len dev)
process-RxKept p len dev =
    rw (net_process_packet_lem p len dev) (elim (Bool-cases (asks_arp p len dev)) [
      | inl asks ↦ rw asks (keeps _ (arp-rx_queue (ntohl (load32 p 28)) (λ i. p (22 + i)) dev))
      | inr other ↦ rw other (elim (Bool-cases (pings p len dev)) [
        | inl ping ↦ rw ping (
            ping-RxKept (ntohl (load32 p 26)) (λ i. p (6 + i)) (load16 p (18 + ihl p))
              (load16 p (20 + ihl p)) (λ i. p (22 + ihl p + i)) (payload_len p) dev)
        | inr none_of_it ↦ rw none_of_it (keeps dev refl)
      ])
    ])

-- Indices of 16 bits.
Indices : Virtqueue → Type 0
Indices vq = (vq.used_idx < 2 ^ 16) × (vq.last_used_idx < 2 ^ 16)

-- A call of `virtio_net_recv` that returns a frame has seen one buffer more.
recv-pending :
    (buf buf' : ℕ → ℕ) (size n : ℕ) (dev dev' : VirtioNet)
    → Indices dev.rx_queue
    → virtio_net_recv buf size dev ≡ some (pos (suc n), (buf', dev'))
    → Indices dev'.rx_queue × (pending dev'.rx_queue + 1 ≡ pending dev.rx_queue)
unfolding virtio_net_recv take_used virtq_get_used virtq_add_buffer virtio_write Indices
recv-pending buf buf' size n dev dev' h e = ground (arith, h, e)

done≢no_fuel : (dev : VirtioNet) → done dev ≢ no_fuel
done≢no_fuel dev e = cc

overrun≢no_fuel : overrun ≢ no_fuel
overrun≢no_fuel e = cc

-- The rest of the loop behind a frame that was processed.
processed :
    (fuel : ℕ) (buf : ℕ → ℕ) (dev : VirtioNet) (o : Option VirtioNet)
    → RxKept dev o
    → ((dev' : VirtioNet) → dev'.rx_queue ≡ dev.rx_queue → net_poll fuel buf dev' ≢ no_fuel)
    → elim o [ none ↦ overrun | some dev2 ↦ net_poll fuel buf dev2 ] ≢ no_fuel
processed fuel buf dev _ fails next = overrun≢no_fuel
processed fuel buf dev _ (keeps dev' same) next = next dev' same

-- The loop behind a call of `virtio_net_recv`.
polled :
    (fuel : ℕ) (r : Option (ℤ × ((ℕ → ℕ) × VirtioNet)))
    → ((n : ℕ) (buf : ℕ → ℕ) (dev : VirtioNet)
        → r ≡ some (pos (suc n), (buf, dev))
        → (dev' : VirtioNet) → dev'.rx_queue ≡ dev.rx_queue
        → net_poll fuel buf dev' ≢ no_fuel)
    → elim r [
      | none ↦ overrun
      | some (code, (buf, dev)) ↦ elim code [
        | negsuc _ ↦ done dev
        | pos n ↦ elim n [
          | zero ↦ done dev
          | suc m ↦ elim (net_process_packet buf (suc m) dev) [
            | none ↦ overrun
            | some dev2 ↦ net_poll fuel buf dev2
          ]
        ]
      ]
    ]
      ≢ no_fuel
polled fuel none next = overrun≢no_fuel
polled fuel (some (negsuc n, (buf, dev))) next = done≢no_fuel dev
polled fuel (some (pos zero, (buf, dev))) next = done≢no_fuel dev
polled fuel (some (pos (suc n), (buf, dev))) next =
    processed fuel buf dev (net_process_packet buf (suc n) dev) (process-RxKept buf (suc n) dev)
      (next n buf dev refl)

-- The loop of `net_poll` ends before its fuel is used up, if there is more fuel than buffers that
-- the device has used and the driver has not seen.
pub net_poll-ends :
    (fuel : ℕ) (buf : ℕ → ℕ) (dev : VirtioNet)
    → dev.rx_queue.used_idx < 2 ^ 16
    → dev.rx_queue.last_used_idx < 2 ^ 16
    → pending dev.rx_queue < fuel
    → net_poll fuel buf dev ≢ no_fuel
unfolding net_poll Indices
net_poll-ends zero buf dev used seen enough = absurd (omega (arith, enough))
net_poll-ends (suc fuel) buf dev used seen enough =
    polled fuel (virtio_net_recv buf 1514 dev) (λ n buf1 dev1 e dev' same.
      let step = recv-pending buf buf1 1514 n dev dev1 (used, seen) e in
      net_poll-ends fuel buf1 dev' (rw same step.0.0) (rw same step.0.1)
        (rw same (omega (arith, step.1, enough))))
