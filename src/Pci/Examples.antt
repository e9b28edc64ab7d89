-- ===== src/Pci/Examples.antt =====
-- The theorems on the PCI configuration space at concrete inputs.
use simpleos.Common.{
  ℕ, ◌*◌, ◌/◌, ◌%◌, ◌^◌, ◌≤◌, ◌≡◌, ◌≢◌, arith, refl, length, take, some, ◌==◌, if◌then◌else◌,
}
use simpleos.Pci.{
  Pci, pci_address, pci_read8, pci_read16, read_bars, pci_read32, pci_enable_bus_master,
  pci_enumerate, pci_find_device, pci_find_class, find_device, scan_devices, device_round,
  pci_device_exists, scan_functions, function_round, add_device, pci_get_device_info,
}
use simpleos.Pci.Scan.{found_devices, pci_enumerate-found}
use simpleos.Pci.Registers.{command_status, pci_enable_bus_master-status}
use simpleos.Pci.Addresses.{pci_address_lem}
use simpleos.Pci.Devices.{Search, has_ids, has_class, pci_find_device-Search}
use simpleos.Pci.Samples.{sample_pci, sample_config, network_device}

-- Three functions are found, the network device third.
three_found : (pci_enumerate sample_pci).0 ≡ 3
unfolding pci_enumerate scan_devices device_round pci_device_exists scan_functions function_round
    add_device pci_get_device_info read_bars pci_read8 pci_read16 pci_read32 pci_address
three_found = refl

network_third : pci_find_device 0x1AF4 0x1000 (pci_enumerate sample_pci).1 ≡ some 2
unfolding pci_find_device find_device pci_enumerate scan_devices device_round pci_device_exists
    scan_functions function_round add_device pci_get_device_info read_bars pci_read8 pci_read16
    pci_read32 pci_address
network_third = refl

pci_enumerate-found_example :
    ((pci_enumerate sample_pci).1.devices ≡ take 32 (found_devices sample_pci.config 0 32 0))
    × ((pci_enumerate sample_pci).0 ≡ length (pci_enumerate sample_pci).1.devices)
    × ((pci_enumerate sample_pci).0 ≤ 32)
    × ((pci_enumerate sample_pci).1.config ≡ sample_pci.config)
pci_enumerate-found_example = pci_enumerate-found sample_pci

pci_find_device-Search_example :
    (Search
      (has_ids 0x1AF4 0x1000)
      network_device
      0
      (pci_enumerate sample_pci).1.devices
      (pci_find_device 0x1AF4 0x1000 (pci_enumerate sample_pci).1))
    × (Search
        (has_class 0x1AF4 0x1000)
        network_device
        0
        (pci_enumerate sample_pci).1.devices
        (pci_find_class 0x1AF4 0x1000 (pci_enumerate sample_pci).1))
pci_find_device-Search_example =
    pci_find_device-Search 0x1AF4 0x1000 network_device (pci_enumerate sample_pci).1

pci_address_lem_example :
    (pci_address 0 5 0 0x3D / 2 ^ 31 ≡ 1)
    × (pci_address 0 5 0 0x3D / 2 ^ 16 % 2 ^ 8 ≡ 0)
    × (pci_address 0 5 0 0x3D / 2 ^ 11 % 2 ^ 5 ≡ 5)
    × (pci_address 0 5 0 0x3D / 2 ^ 8 % 2 ^ 3 ≡ 0)
    × (pci_address 0 5 0 0x3D % 2 ^ 8 ≡ 0x3D / 4 * 4)
pci_address_lem_example =
    pci_address_lem 0 5 0 0x3D (omega arith) (omega arith) (omega arith) (omega arith)

-- The network device with every error reported.
abbrev failing_pci : Pci
failing_pci = record sample_pci {
  config = λ a. if a == 2147493892 then 0xFF900101 else sample_config a;
}

-- A register of the device behaves as the bus defines the word of command and status.
abbrev bus_register : ℕ → ℕ → ℕ → ℕ
bus_register a old word = command_status old word

pci_enable_bus_master-status_example :
    ((pci_read16 0 5 0 4 (pci_enable_bus_master bus_register network_device failing_pci)).0
      ≡ 0x0107)
    × ((pci_read16 0 5 0 6 (pci_enable_bus_master bus_register network_device failing_pci)).0
        ≡ 0x0690)
    × ((a : ℕ)
        → a ≢ pci_address 0 5 0 4
        → (pci_enable_bus_master bus_register network_device failing_pci).config a
          ≡ failing_pci.config a)
unfolding pci_address pci_read16
pci_enable_bus_master-status_example =
    pci_enable_bus_master-status bus_register network_device failing_pci (λ old word. refl)
      (omega arith)
