-- ===== src/VirtioNet.antt =====
-- The network driver of kernel/virtio_net.h. What the device answers on its ports is a parameter, and
-- the writes to its ports are kept in order, the last one first. Buffers are functions of the index.
pub mod Frames
pub mod Setup
pub mod Sending
pub mod Receiving
pub mod Replies
pub mod Pings
pub mod Polling
pub mod Samples
mod Examples
use simpleos.Common.{
  ℕ, zero, suc, ◌+◌, ◌-◌, ◌*◌, ◌/◌, ◌%◌, ◌^◌, Bool, true, false, not, ltb, leb, ◌==◌, if◌then◌else◌,
  min, ◌&&◌, ◌||◌, List, [], ◌∷◌, ◌++◌, get_or, Option, none, some, ℤ, pos, negsuc,
}
use simpleos.Common.Bytes.{update}
use simpleos.Net.{htons, ntohs, htonl, ntohl, ip_checksum}
use simpleos.Pci.{Pci, PciDevice, pci_find_device, pci_enable_bus_master}
use simpleos.Virtio.{Virtqueue, virtq_add_buffer, virtq_get_used}

-- `virtio_net_device_t` with the variable `tx_buf_idx` of `virtio_net_send` and `our_ip`; `rx_at` and
-- `tx_at` are the addresses of the buffers.
pub record VirtioNet : Type 0 where
  pub pci_dev : Option ℕ
  pub io_base : ℕ
  pub mac : ℕ → ℕ
  pub rx_queue : Virtqueue
  pub tx_queue : Virtqueue
  pub rx_at : ℕ
  pub tx_at : ℕ
  pub rx_buffers : ℕ → ℕ → ℕ
  pub tx_buffers : ℕ → ℕ → ℕ
  pub packets_rx : ℕ
  pub packets_tx : ℕ
  pub bytes_rx : ℕ
  pub bytes_tx : ℕ
  pub initialized : Bool
  pub tx_buf_idx : ℕ
  pub our_ip : ℕ
  pub writes : List (ℕ × ℕ)

-- The size of `virtio_net_hdr_t`, and of the longest frame.
abbrev pub header_len : ℕ
header_len = 12

abbrev pub eth_hlen : ℕ
eth_hlen = 14

abbrev pub eth_frame_len : ℕ
eth_frame_len = 1514

-- `virtio_write8`, `virtio_write16`, `virtio_write32` and `io_wait`.
unfoldable pub virtio_write : ℕ → ℕ → VirtioNet → VirtioNet
virtio_write offset value dev = record dev {
  writes = ((dev.io_base + offset) % 2 ^ 16, value) ∷ dev.writes;
}

unfoldable pub io_wait : VirtioNet → VirtioNet
io_wait dev = record dev { writes = (0x80, 0) ∷ dev.writes }

-- The registers that are written: the features, the status, the queue that has new buffers.
abbrev pub guest_features : ℕ
guest_features = 0x04

abbrev pub queue_notify : ℕ
queue_notify = 0x10

abbrev pub status : ℕ
status = 0x12

-- The device's answers on its ports, and what a register of the PCI bus makes of a word.
module _ (input : ℕ → ℕ) (accept : ℕ → ℕ → ℕ → ℕ) where
  -- The part of `virtio_net_init` behind the checks.
  unfoldable pub start_device : VirtioNet → VirtioNet
  start_device dev =
      let dev1 = io_wait (virtio_write status 0 dev) in
      let dev2 = io_wait (virtio_write status 1 dev1) in
      let dev3 = io_wait (virtio_write status 3 dev2) in
      let dev4 = io_wait (virtio_write guest_features 32 dev3) in
      let dev5 = record dev4 {
        mac = λ i. if ltb i 6 then input ((dev.io_base + 0x14 + i) % 2 ^ 16) else dev4.mac i;
      } in
      record (virtio_write status 7 dev5) { initialized = true }

  -- The device at entry `index` of the list, whose first base address register is `bar0`.
  unfoldable pub attach : ℕ → PciDevice → ℕ → Pci → VirtioNet → ℤ × (Pci × VirtioNet)
  attach index entry bar0 s dev =
      let base = bar0 % 2 ^ 16 / 4 * 4 in
      if bar0 % 2 == 0
      then (negsuc 1, (s, record dev { pci_dev = some index }))
      else if base == 0
      then (negsuc 2, (s, record dev { pci_dev = some index; io_base = base }))
      else (
        pos 0,
        (
          pci_enable_bus_master accept entry s,
          start_device (record dev { pci_dev = some index; io_base = base }),
        ),
      )

  unfoldable pub virtio_net_init : PciDevice → Pci → VirtioNet → ℤ × (Pci × VirtioNet)
  virtio_net_init blank s dev = elim (pci_find_device 0x1AF4 0x1000 s) [
    | none ↦ (negsuc 0, (s, dev))
    | some index ↦
        let entry = get_or s.devices index blank in attach index entry (get_or entry.bar 0 0) s dev
  ]

-- `dst[at + i] = src[i]`, from round `i` on.
unfoldable pub copy_bytes : ℕ → ℕ → ℕ → (ℕ → ℕ) → (ℕ → ℕ) → ℕ → ℕ
copy_bytes zero i at src dst = dst
copy_bytes (suc left) i at src dst = copy_bytes left (i + 1) at src (update dst (at + i) (src i))

-- The fields of `virtio_net_hdr_t` that are set; `num_buffers` behind them is not.
unfoldable pub clear_header : (ℕ → ℕ) → ℕ → ℕ
clear_header buf j = if ltb j 10 then 0 else buf j

unfoldable pub fill_buffer : (ℕ → ℕ) → ℕ → (ℕ → ℕ) → ℕ → ℕ
fill_buffer packet len buf = copy_bytes len 0 header_len packet (clear_header buf)

unfoldable pub virtio_net_send : (ℕ → ℕ) → ℕ → VirtioNet → ℤ × VirtioNet
virtio_net_send packet len dev =
    if not dev.initialized
    then (negsuc 0, dev)
    else if ltb eth_frame_len len
    then (negsuc 1, dev)
    else if ltb dev.tx_queue.num_free 2
    then (negsuc 2, dev)
    else (let index = dev.tx_buf_idx in
        let (_, queue) =
          virtq_add_buffer (dev.tx_at + 2048 * index) (header_len + len) 0 dev.tx_queue in
        (
          pos 0,
          record (virtio_write queue_notify 1 dev) {
            tx_buf_idx = (index + 1) % 16;
            tx_buffers =
                update dev.tx_buffers index (fill_buffer packet len (dev.tx_buffers index));
            tx_queue = queue;
            packets_tx = (dev.packets_tx + 1) % 2 ^ 64;
            bytes_tx = (dev.bytes_tx + len) % 2 ^ 64;
          },
        ))

-- What is copied to the caller, whose buffer has `buf_size` bytes: `len - 12` on 32-bit words.
abbrev pub packet_len : ℕ → ℕ → ℕ
packet_len len buf_size = min ((len + 2 ^ 32 - header_len) % 2 ^ 32) buf_size

-- The part of `virtio_net_recv` behind the call of `virtq_get_used`: the value returned, the caller's
-- buffer, and the device. A number of 2 ^ 31 or more is a negative `desc_id`; a buffer behind the
-- sixteen of `rx_buffers` is `none`. Its caller `net_poll` has room for 1514 bytes, so that what is read
-- stands in the 2048 bytes of a buffer.
unfoldable pub take_used :
    (ℕ → ℕ) → ℕ → VirtioNet → Option (ℕ × ℕ) × Virtqueue → Option (ℤ × ((ℕ → ℕ) × VirtioNet))
take_used buf buf_size dev (none, queue) = some (pos 0, (buf, record dev { rx_queue = queue }))
take_used buf buf_size dev (some (desc_id, len), queue) =
    let count = packet_len len buf_size in
    let (_, queue1) = virtq_add_buffer (dev.rx_at + 2048 * desc_id) 2048 2 queue in
    if leb (2 ^ 31) desc_id
    then some (pos 0, (buf, record dev { rx_queue = queue }))
    else if leb 16 desc_id
    then none
    else some (
      pos count,
      (
        copy_bytes count 0 0 (λ i. dev.rx_buffers desc_id (header_len + i)) buf,
        record (virtio_write queue_notify 0 dev) {
          rx_queue = queue1;
          packets_rx = (dev.packets_rx + 1) % 2 ^ 64;
          bytes_rx = (dev.bytes_rx + count) % 2 ^ 64;
        },
      ),
    )

unfoldable pub virtio_net_recv : (ℕ → ℕ) → ℕ → VirtioNet → Option (ℤ × ((ℕ → ℕ) × VirtioNet))
virtio_net_recv buf buf_size dev =
    if not dev.initialized
    then some (negsuc 0, (buf, dev))
    else take_used buf buf_size dev (virtq_get_used dev.rx_queue)

unfoldable pub virtio_net_get_mac : VirtioNet → (ℕ → ℕ) → ℕ → ℕ
virtio_net_get_mac dev mac' i = if ltb i 6 then dev.mac i else mac' i

unfoldable pub virtio_net_is_ready : VirtioNet → Bool
virtio_net_is_ready dev = dev.initialized

unfoldable pub virtio_net_get_stats : VirtioNet → ℕ × ℕ × ℕ × ℕ
virtio_net_get_stats dev = (dev.packets_rx, dev.packets_tx, dev.bytes_rx, dev.bytes_tx)

unfoldable pub net_set_ip : ℕ → VirtioNet → VirtioNet
net_set_ip ip dev = record dev { our_ip = ip }
