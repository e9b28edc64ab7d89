-- ===== src/Pci.antt =====
-- The PCI configuration space and the scan for devices in kernel/pci.h. The configuration space is a
-- word for each address that is written to the port 0xCF8; what a device makes of a word written to
-- its registers is a parameter, since it depends on the register.
pub mod Addresses
pub mod Registers
pub mod Scan
pub mod Devices
pub mod Samples
mod Examples
use simpleos.Common.{
  ℕ, zero, suc, ◌+◌, ◌-◌, ◌*◌, ◌/◌, ◌%◌, ◌^◌, Bool, true, false, not, ◌&&◌, leb, ltb, ◌==◌,
  if◌then◌else◌, List, [], ◌∷◌, ◌++◌, length, get_or, Option, none, some,
}
use Prim.Native.Nat.{bit_or}
use simpleos.Common.Bytes.{update}

-- `pci_device_t`; every entry that is counted is valid.
pub record PciDevice : Type 0 where
  pub bus : ℕ
  pub device : ℕ
  pub function : ℕ
  pub vendor_id : ℕ
  pub device_id : ℕ
  pub class_code : ℕ
  pub subclass : ℕ
  pub prog_if : ℕ
  pub revision : ℕ
  pub interrupt_line : ℕ
  pub interrupt_pin : ℕ
  pub bar : List ℕ
  pub valid : Bool

-- The address port, the registers behind the data port, and `pci_devices` up to `pci_device_count`.
pub record Pci : Type 0 where
  pub address : ℕ
  pub config : ℕ → ℕ
  pub devices : List PciDevice

abbrev pub max_devices : ℕ
max_devices = 32

-- `outl(PCI_CONFIG_ADDR, …)` and `inl(PCI_CONFIG_DATA)`.
abbrev pub select : ℕ → Pci → Pci
select a s = record s { address = a }

abbrev pub data_in : Pci → ℕ
data_in s = s.config s.address

-- The fields that `|` joins have no bit in common, so that it is their sum.
unfoldable pub pci_address : ℕ → ℕ → ℕ → ℕ → ℕ
pci_address bus device func offset =
    2 ^ 31 + bus * 2 ^ 16 + (device % 32) * 2 ^ 11 + (func % 8) * 2 ^ 8 + (offset / 4 % 64) * 4

unfoldable pub pci_read32 : ℕ → ℕ → ℕ → ℕ → Pci → ℕ × Pci
pci_read32 bus device func offset s =
    let s1 = select (pci_address bus device func offset) s in (data_in s1, s1)

unfoldable pub pci_read16 : ℕ → ℕ → ℕ → ℕ → Pci → ℕ × Pci
pci_read16 bus device func offset s =
    let s1 = select (pci_address bus device func offset) s in
    ((data_in s1 / 2 ^ (offset / 2 % 2 * 16)) % 2 ^ 16, s1)

unfoldable pub pci_read8 : ℕ → ℕ → ℕ → ℕ → Pci → ℕ × Pci
pci_read8 bus device func offset s =
    let s1 = select (pci_address bus device func offset) s in
    ((data_in s1 / 2 ^ (offset % 4 * 8)) % 2 ^ 8, s1)

-- The word with the 16 bits at `shift` replaced: `tmp &= ~(0xFFFF << shift)`, and `tmp |= value << shift`
-- on bits that are 0 then.
unfoldable pub replace16 : ℕ → ℕ → ℕ → ℕ
replace16 tmp shift value = tmp - (tmp / 2 ^ shift % 2 ^ 16) * 2 ^ shift + value * 2 ^ shift

-- What the device behind an address makes of its word and a word written to it.
module _ (accept : ℕ → ℕ → ℕ → ℕ) where
  -- `outl(PCI_CONFIG_DATA, value)`.
  abbrev pub data_out : ℕ → Pci → Pci
  data_out value s = record s {
    config = update s.config s.address (accept s.address (s.config s.address) value);
  }

  unfoldable pub pci_write32 : ℕ → ℕ → ℕ → ℕ → ℕ → Pci → Pci
  pci_write32 bus device func offset value s =
      data_out value (select (pci_address bus device func offset) s)

  unfoldable pub pci_write16 : ℕ → ℕ → ℕ → ℕ → ℕ → Pci → Pci
  pci_write16 bus device func offset value s =
      let s1 = select (pci_address bus device func offset) s in
      data_out (replace16 (data_in s1) (offset / 2 % 2 * 16) value) s1

  -- The command register is at 4, and its bits 0 to 2 are set.
  unfoldable pub pci_enable_bus_master : PciDevice → Pci → Pci
  pci_enable_bus_master dev s =
      let (cmd, s1) = pci_read16 dev.bus dev.device dev.function 4 s in
      pci_write16 dev.bus dev.device dev.function 4 (bit_or cmd 7) s1

unfoldable pub pci_device_exists : ℕ → ℕ → ℕ → Pci → Bool × Pci
pci_device_exists bus device func s =
    let (vendor, s1) = pci_read16 bus device func 0 s in (not (vendor == 0xFFFF), s1)

-- The loop over the base address registers, from register `i` on.
unfoldable pub read_bars : ℕ → ℕ → ℕ → ℕ → ℕ → Pci → List ℕ × Pci
read_bars zero i bus device func s = ([], s)
read_bars (suc left) i bus device func s =
    let (bar, s1) = pci_read32 bus device func (0x10 + i * 4) s in
    let (bars, s2) = read_bars left (i + 1) bus device func s1 in (bar ∷ bars, s2)

unfoldable pub pci_get_device_info : ℕ → ℕ → ℕ → Pci → PciDevice × Pci
pci_get_device_info bus device func s =
    let (vendor_id', s1) = pci_read16 bus device func 0 s in
    let (device_id', s2) = pci_read16 bus device func 2 s1 in
    let (class_code', s3) = pci_read8 bus device func 0x0B s2 in
    let (subclass', s4) = pci_read8 bus device func 0x0A s3 in
    let (prog_if', s5) = pci_read8 bus device func 0x09 s4 in
    let (revision', s6) = pci_read8 bus device func 0x08 s5 in
    let (interrupt_line', s7) = pci_read8 bus device func 0x3C s6 in
    let (interrupt_pin', s8) = pci_read8 bus device func 0x3D s7 in
    let (bar', s9) = read_bars 6 0 bus device func s8 in
    (
      record {
        bus = bus;
        device = device;
        function = func;
        vendor_id = vendor_id';
        device_id = device_id';
        class_code = class_code';
        subclass = subclass';
        prog_if = prog_if';
        revision = revision';
        interrupt_line = interrupt_line';
        interrupt_pin = interrupt_pin';
        bar = bar';
        valid = true;
      },
      s9,
    )

-- A function that is there goes to the end of the list.
unfoldable pub add_device : ℕ → ℕ → ℕ → Pci → Pci
add_device bus device func s =
    let (info, s1) = pci_get_device_info bus device func s in
    record s1 { devices = s1.devices ++ (info ∷ []) }

-- One round of the loop over functions, and the rounds left; `full` is the loops' second condition,
-- under which none of them goes on.
abbrev pub full : Pci → Bool
full s = leb max_devices (length s.devices)

unfoldable pub function_round : ℕ → ℕ → ℕ → Pci → Pci
function_round bus device func s =
    if full s
    then s
    else if ltb 0 func
    then (let (exists, s1) = pci_device_exists bus device func s in
        if exists then add_device bus device func s1 else s1)
    else add_device bus device func s

unfoldable pub scan_functions : ℕ → ℕ → ℕ → ℕ → Pci → Pci
scan_functions zero func bus device s = s
scan_functions (suc left) func bus device s =
    scan_functions left (func + 1) bus device (function_round bus device func s)

-- The same for the loop over devices.
unfoldable pub device_round : ℕ → ℕ → Pci → Pci
device_round bus device s =
    if full s
    then s
    else (let (exists, s1) = pci_device_exists bus device 0 s in
        if exists
        then (let (header, s2) = pci_read8 bus device 0 0x0E s1 in
            scan_functions (if leb 128 header then 8 else 1) 0 bus device s2)
        else s1)

unfoldable pub scan_devices : ℕ → ℕ → ℕ → Pci → Pci
scan_devices zero device bus s = s
scan_devices (suc left) device bus s =
    scan_devices left (device + 1) bus (device_round bus device s)

-- One bus is scanned, bus 0.
unfoldable pub pci_enumerate : Pci → ℕ × Pci
pci_enumerate s =
    let s1 = scan_devices 32 0 0 (record s { devices = [] }) in (length s1.devices, s1)

-- The loop of `pci_find_device` and of `pci_find_class` from entry `i` on; a pointer into the array
-- is the entry's index, and null is `none`.
unfoldable pub find_device : ℕ → ℕ → ℕ → List PciDevice → Option ℕ
find_device i vendor_id device_id [] = none
find_device i vendor_id device_id (d ∷ ds) =
    let rest = find_device (i + 1) vendor_id device_id ds in
    if (d.vendor_id == vendor_id) && (d.device_id == device_id) then some i else rest

unfoldable pub pci_find_device : ℕ → ℕ → Pci → Option ℕ
pci_find_device vendor_id device_id s = find_device 0 vendor_id device_id s.devices

unfoldable pub find_class : ℕ → ℕ → ℕ → List PciDevice → Option ℕ
find_class i class_code subclass [] = none
find_class i class_code subclass (d ∷ ds) =
    let rest = find_class (i + 1) class_code subclass ds in
    if (d.class_code == class_code) && (d.subclass == subclass) then some i else rest

unfoldable pub pci_find_class : ℕ → ℕ → Pci → Option ℕ
pci_find_class class_code subclass s = find_class 0 class_code subclass s.devices

-- `none` is a read of `bar` behind its end.
unfoldable pub pci_get_bar_address : PciDevice → ℕ → Option ℕ
pci_get_bar_address dev bar_num =
    if leb 6 bar_num
    then none
    else (let bar' = get_or dev.bar bar_num 0 in
        if bar' % 2 == 1
        then some (bar' / 4 * 4)
        else if bar' / 2 % 4 == 2
        then (if bar_num == 5
            then none
            else some (bar' / 16 * 16 + get_or dev.bar (bar_num + 1) 0 * 2 ^ 32))
        else some (bar' / 16 * 16))
