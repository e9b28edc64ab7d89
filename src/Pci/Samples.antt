-- ===== src/Pci/Samples.antt =====
-- A configuration space with three functions, for the tests.
use simpleos.Common.{ℕ, ◌==◌, if◌then◌else◌, []}
use simpleos.Pci.{Pci, PciDevice}
use simpleos.Pci.Scan.{info_of}

-- Device 3 has the functions 0 and 1, device 5 has one function that is the network device.
abbrev pub sample_config : ℕ → ℕ
sample_config a =
    if a == 2147489792
    then 0x12378086
    else if a == 2147489804
    then 0x00800000
    else if a == 2147490048
    then 0x70108086
    else if a == 2147493888
    then 0x10001AF4
    else if a == 2147493892
    then 0x02900001
    else if a == 2147493900
    then 0
    else if a == 2147493904
    then 0x0000C001
    else 0xFFFFFFFF

abbrev pub sample_pci : Pci
sample_pci = record { address = 0; config = sample_config; devices = [] }

-- A register that takes what is written to it.
abbrev pub plain_register : ℕ → ℕ → ℕ → ℕ
plain_register a old word = word

abbrev pub network_device : PciDevice
network_device = info_of sample_config 0 5 0
