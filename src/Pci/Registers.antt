-- ===== src/Pci/Registers.antt =====
-- Writing to the registers of the configuration space in kernel/pci.h.
use simpleos.Common.{
  ℕ, ◌+◌, ◌*◌, ◌/◌, ◌%◌, ◌^◌, ◌<◌, ◌≡◌, ◌≢◌, arith, refl, ap, ◌∙◌, ◌==◌, if◌then◌else◌, Bool-cases,
  inl, inr,
}
use simpleos.Common.Masks.{bit_or_digit, bit_or-zero}
use Prim.Native.Nat.{bit_or}
use simpleos.Pci.{
  Pci, PciDevice, pci_enable_bus_master, pci_address, pci_read16, pci_write16, replace16,
}

-- One half of a word is replaced, and the other one stays.
replace16-halves :
    (tmp value : ℕ)
    → tmp < 2 ^ 32
    → value < 2 ^ 16
    → (replace16 tmp 0 value ≡ tmp / 2 ^ 16 * 2 ^ 16 + value)
      × (replace16 tmp 16 value ≡ value * 2 ^ 16 + tmp % 2 ^ 16)
unfolding replace16
replace16-halves tmp value t v = (omega (arith, t, v), omega (arith, t, v))

address-half :
    (bus device func offset other : ℕ)
    → other / 4 ≡ offset / 4
    → pci_address bus device func other ≡ pci_address bus device func offset
unfolding pci_address
address-half bus device func offset other same = omega (arith, same)

bit_or-seven : (x : ℕ) → bit_or x 7 ≡ x / 8 * 8 + 7
bit_or-seven x = omega (
  arith,
  bit_or_digit x 7,
  bit_or_digit (x / 2) 3,
  bit_or_digit (x / 2 / 2) 1,
  bit_or-zero (x / 2 / 2 / 2),
)

-- The word at 4 as the PCI bus defines it: the command register below takes what is written; of the
-- status register above, the bits 8 and 11 to 15 report errors, and a 1 that is written there clears
-- them; no other bit of the status is changed by a write.
abbrev pub error_bit : (old word k : ℕ) → ℕ
error_bit old word k = if word / 2 ^ k % 2 == 1 then 0 else old / 2 ^ k % 2 * 2 ^ k

abbrev pub command_status : (old word : ℕ) → ℕ
command_status old word =
    word % 2 ^ 16
    + old / 2 ^ 16 % 2 ^ 8 * 2 ^ 16
    + error_bit old word 24
    + old / 2 ^ 25 % 4 * 2 ^ 25
    + error_bit old word 27
    + error_bit old word 28
    + error_bit old word 29
    + error_bit old word 30
    + error_bit old word 31

-- An error that is written back as it was read is cleared.
error_bit-back : (old word k : ℕ) → word / 2 ^ k % 2 ≡ old / 2 ^ k % 2 → error_bit old word k ≡ 0
error_bit-back old word k same = elim (Bool-cases (word / 2 ^ k % 2 == 1)) [
  | inl set ↦ rw set refl
  | inr unset ↦
      let clear : old / 2 ^ k % 2 ≡ 0 = ground (arith, unset, same) in
      let none : 0 * 2 ^ k ≡ 0 = omega arith in rw (unset, clear) none
]

command_status-back :
    (old value : ℕ)
    → value < 2 ^ 16
    → command_status old (old / 2 ^ 16 * 2 ^ 16 + value)
      ≡ value + old / 2 ^ 16 % 2 ^ 8 * 2 ^ 16 + old / 2 ^ 25 % 4 * 2 ^ 25
command_status-back old value v =
    let word = old / 2 ^ 16 * 2 ^ 16 + value in
    rw
      (
        error_bit-back old word 24 (omega (arith, v)),
        error_bit-back old word 27 (omega (arith, v)),
        error_bit-back old word 28 (omega (arith, v)),
        error_bit-back old word 29 (omega (arith, v)),
        error_bit-back old word 30 (omega (arith, v)),
        error_bit-back old word 31 (omega (arith, v)),
      )
      (omega (arith, v))

-- On a device whose word at 4 behaves as the PCI bus defines it, input and output, memory and bus
-- mastering are enabled afterwards and the other bits of the command are as before; but every error that
-- the status register reported is cleared, whatever it was, the other bits of the status being as
-- before. No register elsewhere is written.
pub pci_enable_bus_master-status :
    (accept : ℕ → ℕ → ℕ → ℕ) (dev : PciDevice) (s : Pci)
    → ((old word : ℕ)
        → accept (pci_address dev.bus dev.device dev.function 4) old word ≡ command_status old word)
    → s.config (pci_address dev.bus dev.device dev.function 4) < 2 ^ 32
    → (let s' = pci_enable_bus_master accept dev s in
        let command = (pci_read16 dev.bus dev.device dev.function 4 s).0 in
        let status = (pci_read16 dev.bus dev.device dev.function 6 s).0 in
        ((pci_read16 dev.bus dev.device dev.function 4 s').0 ≡ command / 8 * 8 + 7)
        × ((pci_read16 dev.bus dev.device dev.function 6 s').0
            ≡ status % 2 ^ 8 + status / 2 ^ 9 % 4 * 2 ^ 9)
        × ((a : ℕ) → a ≢ pci_address dev.bus dev.device dev.function 4 → s'.config a ≡ s.config a))
unfolding pci_enable_bus_master pci_read16 pci_write16
pci_enable_bus_master-status accept dev s takes word =
    let at = pci_address dev.bus dev.device dev.function 4 in
    let old = s.config at in
    let command = old / 2 ^ 0 % 2 ^ 16 in
    let value = bit_or command 7 in
    let seven : value ≡ command / 8 * 8 + 7 = bit_or-seven command in
    let short : value < 2 ^ 16 = omega (arith, seven) in
    let written : (pci_enable_bus_master accept dev s).config at
        ≡ value + old / 2 ^ 16 % 2 ^ 8 * 2 ^ 16 + old / 2 ^ 25 % 4 * 2 ^ 25 =
      ap (λ w. w) (ground (arith, takes old (replace16 old 0 value)))
      ∙ ap (λ w. command_status old w) (replace16-halves old value word short).0
      ∙ command_status-back old value short in
    let other : pci_address dev.bus dev.device dev.function 6 ≡ at =
      address-half dev.bus dev.device dev.function 4 6 refl in
    (
      omega (arith, written, seven, short),
      rw other (omega (arith, written, short)),
      λ a apart. ground (arith, apart),
    )
