-- ===== src/VirtioNet/Setup.antt =====
-- Starting the driver of kernel/virtio_net.h.
use simpleos.Common.{
  ℕ, ◌+◌, ◌*◌, ◌/◌, ◌%◌, ◌^◌, ◌<◌, ◌≡◌, ◌≢◌, refl, arith, true, ◌==◌, List, [], ◌∷◌, ◌++◌, Option,
  none, some, ℤ, pos, negsuc, Bool-cases, inl, inr, get_or, ==_iff, ==_false,
}
use simpleos.Pci.{Pci, PciDevice, pci_find_device, pci_enable_bus_master}
use simpleos.VirtioNet.{VirtioNet, io_wait, virtio_write, start_device, attach, virtio_net_init}

-- The writes that start a device at `base`, the last one first: the reset, the status words 1, 3
-- and 7, with the features between the last two, and the pauses.
abbrev pub handshake : ℕ → List (ℕ × ℕ)
handshake base =
    ((base + 18) % 2 ^ 16, 7)
    ∷ (0x80, 0)
    ∷ ((base + 4) % 2 ^ 16, 32)
    ∷ (0x80, 0)
    ∷ ((base + 18) % 2 ^ 16, 3)
    ∷ (0x80, 0)
    ∷ ((base + 18) % 2 ^ 16, 1)
    ∷ (0x80, 0)
    ∷ ((base + 18) % 2 ^ 16, 0)
    ∷ []

-- A device that has been started: it is at the ports of the first base address register, not at 0; it
-- has the address that the device answers behind its registers; the queues are as they were.
pub record Started (input : ℕ → ℕ) (bar0 : ℕ) (dev dev' : VirtioNet) : Type 0 where
  pub base : dev'.io_base ≡ bar0 % 2 ^ 16 / 4 * 4
  pub base_set : dev'.io_base ≢ 0
  pub ready : dev'.initialized ≡ true
  pub mac : (i : ℕ) → i < 6 → dev'.mac i ≡ input ((dev'.io_base + 20 + i) % 2 ^ 16)
  pub writes : dev'.writes ≡ handshake dev'.io_base ++ dev.writes
  pub rx_queue : dev'.rx_queue ≡ dev.rx_queue
  pub tx_queue : dev'.tx_queue ≡ dev.tx_queue

-- What `virtio_net_init` does.
pub data Initialised (input : ℕ → ℕ) (accept : ℕ → ℕ → ℕ → ℕ) (blank : PciDevice) (s : Pci)
    (dev : VirtioNet) : ℤ × (Pci × VirtioNet) → Type 0 where
  absent :
      pci_find_device 0x1AF4 0x1000 s ≡ none
      → Initialised input accept blank s dev (negsuc 0, (s, dev))
  memory_mapped :
      (i : ℕ)
      → pci_find_device 0x1AF4 0x1000 s ≡ some i
      → get_or (get_or s.devices i blank).bar 0 0 % 2 ≡ 0
      → Initialised input accept blank s dev (negsuc 1, (s, record dev { pci_dev = some i }))
  no_base :
      (i : ℕ)
      → pci_find_device 0x1AF4 0x1000 s ≡ some i
      → get_or (get_or s.devices i blank).bar 0 0 % 2 ≡ 1
      → get_or (get_or s.devices i blank).bar 0 0 % 2 ^ 16 < 4
      → Initialised input accept blank s dev
          (negsuc 2, (s, record dev { pci_dev = some i; io_base = 0 }))
  started :
      (i : ℕ) (dev' : VirtioNet)
      → pci_find_device 0x1AF4 0x1000 s ≡ some i
      → get_or (get_or s.devices i blank).bar 0 0 % 2 ≡ 1
      → dev'.pci_dev ≡ some i
      → Started input (get_or (get_or s.devices i blank).bar 0 0) dev dev'
      → Initialised input accept blank s dev
          (pos 0, (pci_enable_bus_master accept (get_or s.devices i blank) s, dev'))

start_device-Started :
    (input : ℕ → ℕ) (accept : ℕ → ℕ → ℕ → ℕ) (i bar0 : ℕ) (dev : VirtioNet)
    → bar0 % 2 ^ 16 / 4 * 4 ≢ 0
    → Started input bar0 dev (
        start_device input accept
          (record dev { pci_dev = some i; io_base = bar0 % 2 ^ 16 / 4 * 4 }))
unfolding start_device io_wait virtio_write
start_device-Started input accept i bar0 dev set = record {
  base = refl;
  base_set = set;
  ready = refl;
  mac = λ j low. ground (arith, low);
  writes = refl;
  rx_queue = refl;
  tx_queue = refl;
}

start_device-pci_dev :
    (input : ℕ → ℕ) (accept : ℕ → ℕ → ℕ → ℕ) (i base : ℕ) (dev : VirtioNet)
    → (start_device input accept (record dev { pci_dev = some i; io_base = base })).pci_dev ≡ some i
unfolding start_device io_wait virtio_write
start_device-pci_dev input accept i base dev = refl

attach-Initialised :
    (input : ℕ → ℕ) (accept : ℕ → ℕ → ℕ → ℕ) (blank : PciDevice) (s : Pci) (dev : VirtioNet) (i : ℕ)
    → pci_find_device 0x1AF4 0x1000 s ≡ some i
    → Initialised input accept blank s dev (
        attach input accept i
          (get_or s.devices i blank)
          (get_or (get_or s.devices i blank).bar 0 0)
          s
          dev)
unfolding attach
attach-Initialised input accept blank s dev i found =
    let bar0 = get_or (get_or s.devices i blank).bar 0 0 in
    let base = bar0 % 2 ^ 16 / 4 * 4 in
    elim (Bool-cases (bar0 % 2 == 0)) [
      | inl memory ↦ rw memory (memory_mapped i found ((==_iff (bar0 % 2) 0).0 memory))
      | inr ports ↦ rw ports (elim (Bool-cases (base == 0)) [
        | inl none_set ↦
            rw (none_set, (==_iff base 0).0 none_set)
              (no_base i found (ground (arith, ports)) (ground (arith, none_set)))
        | inr set ↦ rw set (
            started i _ found (ground (arith, ports)) (start_device-pci_dev input accept i base dev)
              (start_device-Started input accept i bar0 dev (==_false base 0 set)))
      ])
    ]

init_case :
    (input : ℕ → ℕ) (accept : ℕ → ℕ → ℕ → ℕ) (blank : PciDevice) (s : Pci) (dev : VirtioNet)
    (o : Option ℕ)
    → pci_find_device 0x1AF4 0x1000 s ≡ o
    → Initialised input accept blank s dev (elim o [
      | none ↦ (negsuc 0, (s, dev))
      | some i ↦
          attach input accept i
            (get_or s.devices i blank)
            (get_or (get_or s.devices i blank).bar 0 0)
            s
            dev
    ])
init_case input accept blank s dev none e = absent e
init_case input accept blank s dev (some i) e = attach-Initialised input accept blank s dev i e

-- `virtio_net_init` does what `Initialised` says: it fails with its three codes where no network
-- device is listed, its registers are in memory, or they have no address; otherwise the device has
-- gone through the whole handshake in order, its hardware address is read, and no queue is set up.
pub virtio_net_init-Initialised :
    (input : ℕ → ℕ) (accept : ℕ → ℕ → ℕ → ℕ) (blank : PciDevice) (s : Pci) (dev : VirtioNet)
    → Initialised input accept blank s dev (virtio_net_init input accept blank s dev)
unfolding virtio_net_init
virtio_net_init-Initialised input accept blank s dev =
    init_case input accept blank s dev (pci_find_device 0x1AF4 0x1000 s) refl
