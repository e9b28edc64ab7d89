-- ===== src/Pci/Addresses.antt =====
-- The addresses of registers in kernel/pci.h.
use simpleos.Common.{ℕ, ◌*◌, ◌/◌, ◌%◌, ◌^◌, ◌<◌, ◌≡◌, arith}
use simpleos.Pci.{pci_address}

-- The bus, the device, the function and the register's word can be read from the address; it is a
-- 32-bit word with the enable bit and without the two lowest bits.
pub pci_address_lem :
    (bus device func offset : ℕ)
    → bus < 256
    → device < 32
    → func < 8
    → offset < 256
    → (pci_address bus device func offset / 2 ^ 31 ≡ 1)
      × (pci_address bus device func offset / 2 ^ 16 % 2 ^ 8 ≡ bus)
      × (pci_address bus device func offset / 2 ^ 11 % 2 ^ 5 ≡ device)
      × (pci_address bus device func offset / 2 ^ 8 % 2 ^ 3 ≡ func)
      × (pci_address bus device func offset % 2 ^ 8 ≡ offset / 4 * 4)
unfolding pci_address
pci_address_lem bus device func offset b d f o = (
  omega (arith, b, d, f, o),
  omega (arith, b, d, f, o),
  omega (arith, b, d, f, o),
  omega (arith, b, d, f, o),
  omega (arith, b, d, f, o),
)
