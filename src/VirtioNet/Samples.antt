-- ===== src/VirtioNet/Samples.antt =====
-- A driver and frames for the tests.
use simpleos.Common.{ℕ, ◌+◌, ◌==◌, if◌then◌else◌, true, false, none, [], ◌∷◌, List, get_or}
use simpleos.Virtio.Samples.{blank_queue, used_queue}
use simpleos.VirtioNet.{VirtioNet}

-- The driver before it is started, and one that is ready, at the address 10.0.2.15.
abbrev pub idle_driver : VirtioNet
idle_driver = record {
  pci_dev = none;
  io_base = 0;
  mac = λ i. 0;
  rx_queue = blank_queue;
  tx_queue = blank_queue;
  rx_at = 0x100000;
  tx_at = 0x108000;
  rx_buffers = λ i j. 0;
  tx_buffers = λ i j. 0;
  packets_rx = 0;
  packets_tx = 0;
  bytes_rx = 0;
  bytes_tx = 0;
  initialized = false;
  tx_buf_idx = 0;
  our_ip = 0x0A00020F;
  writes = [];
}

abbrev pub ready_driver : VirtioNet
ready_driver = record idle_driver {
  io_base = 0xC000;
  mac = λ i. 0x52 + i;
  rx_queue = used_queue;
  tx_queue = used_queue;
  initialized = true;
}

-- What the device answers on its ports.
abbrev pub device_answers : ℕ → ℕ
device_answers port = if port == 0xC014 then 0x52 else 0x54

-- 10.0.2.2 asks for the hardware address of 10.0.2.15.
abbrev arp_bytes : List ℕ
arp_bytes =
    255 ∷ 255 ∷ 255 ∷ 255 ∷ 255 ∷ 255 ∷ 82 ∷ 85 ∷ 10 ∷ 0 ∷ 2 ∷ 2 ∷ 8 ∷ 6 ∷ 0 ∷ 1 ∷ 8 ∷ 0 ∷ 6 ∷ 4 ∷ 0
    ∷ 1 ∷ 82 ∷ 85 ∷ 10 ∷ 0 ∷ 2 ∷ 2 ∷ 10 ∷ 0 ∷ 2 ∷ 2 ∷ 0 ∷ 0 ∷ 0 ∷ 0 ∷ 0 ∷ 0 ∷ 10 ∷ 0 ∷ 2 ∷ 15 ∷ []

abbrev pub arp_request : ℕ → ℕ
arp_request i = get_or arp_bytes i 0

-- A ping from 10.0.2.2 with the total length and two bytes of payload.
abbrev pub ping_bytes : ℕ → ℕ → List ℕ
ping_bytes high low =
    82 ∷ 83 ∷ 84 ∷ 85 ∷ 86 ∷ 87 ∷ 82 ∷ 85 ∷ 10 ∷ 0 ∷ 2 ∷ 2 ∷ 8 ∷ 0 ∷ 69 ∷ 0 ∷ high ∷ low ∷ 0 ∷ 0 ∷ 0
    ∷ 0 ∷ 64 ∷ 1 ∷ 0 ∷ 0 ∷ 10 ∷ 0 ∷ 2 ∷ 2 ∷ 10 ∷ 0 ∷ 2 ∷ 15 ∷ 8 ∷ 0 ∷ 0 ∷ 0 ∷ 0 ∷ 7 ∷ 0 ∷ 1 ∷ 97
    ∷ 98 ∷ []

abbrev pub ping : ℕ → ℕ
ping i = get_or (ping_bytes 0 30) i 0

-- The same ping, which claims a total length of 4096 bytes.
abbrev pub long_ping : ℕ → ℕ
long_ping i = get_or (ping_bytes 16 0) i 0
