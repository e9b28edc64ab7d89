-- ===== src/Pci/Scan.antt =====
-- The scan of kernel/pci.h finds the functions that answer, in order, up to 32 of them.
use simpleos.Common.{
  ℕ, zero, suc, ◌+◌, ◌*◌, ◌/◌, ◌%◌, ◌^◌, ◌≤◌, ◌<◌, Bool, true, false, not, ◌&&◌, ◌||◌, leb, ◌==◌,
  if◌then◌else◌, List, [], ◌∷◌, ◌++◌, length, take, length-append, length-take, append-nil, ◌≡◌,
  refl, sym, ap, ◌∙◌, subst, arith, Bool-cases, inl, inr,
}
use simpleos.Pci.{
  PciDevice, Pci, select, full, pci_address, pci_read8, pci_read16, pci_read32, read_bars,
  pci_get_device_info, pci_device_exists, add_device, function_round, scan_functions, device_round,
  scan_devices, pci_enumerate,
}

-- The fields of the word of a register, read from the configuration space as it is.
abbrev pub field16 : (ℕ → ℕ) → ℕ → ℕ → ℕ → ℕ → ℕ
field16 config bus device func offset =
    config (pci_address bus device func offset) / 2 ^ (offset / 2 % 2 * 16) % 2 ^ 16

abbrev pub field8 : (ℕ → ℕ) → ℕ → ℕ → ℕ → ℕ → ℕ
field8 config bus device func offset =
    config (pci_address bus device func offset) / 2 ^ (offset % 4 * 8) % 2 ^ 8

abbrev pub info_of : (ℕ → ℕ) → ℕ → ℕ → ℕ → PciDevice
info_of config bus' device' func = record {
  bus = bus';
  device = device';
  function = func;
  vendor_id = field16 config bus' device' func 0;
  device_id = field16 config bus' device' func 2;
  class_code = field8 config bus' device' func 11;
  subclass = field8 config bus' device' func 10;
  prog_if = field8 config bus' device' func 9;
  revision = field8 config bus' device' func 8;
  interrupt_line = field8 config bus' device' func 60;
  interrupt_pin = field8 config bus' device' func 61;
  bar =
      config (pci_address bus' device' func 16)
      ∷ config (pci_address bus' device' func 20)
      ∷ config (pci_address bus' device' func 24)
      ∷ config (pci_address bus' device' func 28)
      ∷ config (pci_address bus' device' func 32)
      ∷ config (pci_address bus' device' func 36)
      ∷ [];
  valid = true;
}

add_device_lem :
    (bus device func : ℕ) (s : Pci)
    → add_device bus device func s ≡ record s {
      address = pci_address bus device func 36;
      devices = s.devices ++ (info_of s.config bus device func ∷ []);
    }
unfolding add_device pci_get_device_info read_bars pci_read8 pci_read16 pci_read32
add_device_lem bus device func s = refl

-- Does a function answer: a word of ones is what the bus reads where no device is.
abbrev pub present : (ℕ → ℕ) → ℕ → ℕ → ℕ → Bool
present config bus device func = not (field16 config bus device func 0 == 0xFFFF)

-- The device has more functions than function 0.
abbrev pub multi : (ℕ → ℕ) → ℕ → ℕ → Bool
multi config bus device = leb 128 (field8 config bus device 0 14)

-- Function 0 of the device answers; another function also answers itself, and the device says that
-- it has more than one.
abbrev pub answers : (ℕ → ℕ) → ℕ → ℕ → ℕ → Bool
answers config bus device func =
    present config bus device 0
    && ((func == 0) || (multi config bus device && present config bus device func))

-- The `left` functions from `func` on that answer, and those of the `left` devices from `device` on.
abbrev pub found_functions : (ℕ → ℕ) → ℕ → ℕ → ℕ → ℕ → List PciDevice
found_functions config bus device zero func = []
found_functions config bus device (suc left) func =
    (if answers config bus device func then info_of config bus device func ∷ [] else [])
    ++ found_functions config bus device left (func + 1)

abbrev pub found_devices : (ℕ → ℕ) → ℕ → ℕ → ℕ → List PciDevice
found_devices config bus zero device = []
found_devices config bus (suc left) device =
    found_functions config bus device 8 0 ++ found_devices config bus left (device + 1)

-- A part of the scan that finds `ds`: the list takes them as far as there is room.
pub record Scanned (ds : List PciDevice) (s s' : Pci) : Type 0 where
  pub config : s'.config ≡ s.config
  pub devices : s'.devices ≡ take 32 (s.devices ++ ds)

take-take_append :
    {A : Type 0} → (n : ℕ) (xs ys : List A) → take n (take n xs ++ ys) ≡ take n (xs ++ ys)
take-take_append zero xs ys = refl
take-take_append (suc n) [] ys = refl
take-take_append (suc n) (x ∷ xs) ys = ap (λ zs. x ∷ zs) (take-take_append n xs ys)

take-append_fits : {A : Type 0} → (n : ℕ) (xs : List A) → length xs ≤ n → take n (xs ++ []) ≡ xs
take-append_fits zero [] h = refl
take-append_fits zero (x ∷ xs) h = absurd (omega (arith, h))
take-append_fits (suc n) [] h = refl
take-append_fits (suc n) (x ∷ xs) h = ap (λ zs. x ∷ zs) (take-append_fits n xs (omega (arith, h)))

take-append_full : {A : Type 0} → (n : ℕ) (xs ys : List A) → length xs ≡ n → take n (xs ++ ys) ≡ xs
take-append_full zero [] ys h = refl
take-append_full zero (x ∷ xs) ys h = absurd (omega (arith, h))
take-append_full (suc n) [] ys h = absurd (omega (arith, h))
take-append_full (suc n) (x ∷ xs) ys h =
    ap (λ zs. x ∷ zs) (take-append_full n xs ys (omega (arith, h)))

append_assoc : {A : Type 0} → (xs ys zs : List A) → (xs ++ ys) ++ zs ≡ xs ++ (ys ++ zs)
append_assoc [] ys zs = refl
append_assoc (x ∷ xs) ys zs = ap (λ ws. x ∷ ws) (append_assoc xs ys zs)

Scanned-then :
    (ds es : List PciDevice) (s s' s'' : Pci)
    → Scanned ds s s'
    → Scanned es s' s''
    → Scanned (ds ++ es) s s''
Scanned-then ds es s s' s'' p q = record {
  config = q.config ∙ p.config;
  devices =
      q.devices
      ∙ ap (λ l. take 32 (l ++ es)) p.devices
      ∙ take-take_append 32 (s.devices ++ ds) es
      ∙ ap (take 32) (append_assoc s.devices ds es);
}

Scanned-length : (ds : List PciDevice) (s s' : Pci) → Scanned ds s s' → length s'.devices ≤ 32
Scanned-length ds s s' p = rw p.devices (omega (arith, length-take 32 (s.devices ++ ds)))

-- Nothing is found, whatever the address port is left at.
Scanned-none : (s : Pci) (a : ℕ) → length s.devices ≤ 32 → Scanned [] s (select a s)
Scanned-none s a room = record { config = refl; devices = sym (take-append_fits 32 s.devices room) }

Scanned-full :
    (ds : List PciDevice) (s : Pci) → length s.devices ≤ 32 → full s ≡ true → Scanned ds s s
Scanned-full ds s room full' = record {
  config = refl;
  devices = sym (take-append_full 32 s.devices ds (ground (arith, room, full')));
}

add_device-Scanned :
    (bus device func : ℕ) (s : Pci) (a : ℕ)
    → full s ≡ false
    → Scanned (info_of s.config bus device func ∷ []) s (add_device bus device func (select a s))
add_device-Scanned bus device func s a free =
    rw (add_device_lem bus device func (select a s)) (record {
      config = refl;
      devices =
          let ds = s.devices ++ (info_of s.config bus device func ∷ []) in
          sym (
            ap (take 32) (sym (append-nil ds))
            ∙ take-append_fits 32 ds (
                ground
                  (arith, free, length-append s.devices (info_of s.config bus device func ∷ []))));
    })

-- One round over a function: what is found of it once function 0 has answered.
abbrev round_found : (ℕ → ℕ) → ℕ → ℕ → ℕ → List PciDevice
round_found config bus device func =
    if (func == 0) || present config bus device func
    then info_of config bus device func ∷ []
    else []

function_round-Scanned :
    (bus device func : ℕ) (s : Pci)
    → length s.devices ≤ 32
    → Scanned (round_found s.config bus device func) s (function_round bus device func s)
unfolding function_round pci_device_exists pci_read16
function_round-Scanned bus device func s room = elim (Bool-cases (full s)) [
  | inl full' ↦ rw full' (Scanned-full (round_found s.config bus device func) s room full')
  | inr free ↦ rw free (
      ground (
        arith,
        add_device-Scanned bus device func s s.address free,
        add_device-Scanned bus device func s (pci_address bus device func 0) free,
        Scanned-none s (pci_address bus device func 0) room,
      ))
]

abbrev rounds_found : (ℕ → ℕ) → ℕ → ℕ → ℕ → ℕ → List PciDevice
rounds_found config bus device zero func = []
rounds_found config bus device (suc left) func =
    round_found config bus device func ++ rounds_found config bus device left (func + 1)

scan_functions-Scanned :
    (left bus device func : ℕ) (s : Pci)
    → length s.devices ≤ 32
    → Scanned (rounds_found s.config bus device left func) s (scan_functions left func bus device s)
unfolding scan_functions
scan_functions-Scanned zero bus device func s room = Scanned-none s s.address room
scan_functions-Scanned (suc left) bus device func s room =
    let s1 = function_round bus device func s in
    let p : Scanned (round_found s.config bus device func) s s1 =
      function_round-Scanned bus device func s room in
    Scanned-then (round_found s.config bus device func)
      (rounds_found s.config bus device left (func + 1)) s s1
      (scan_functions left (func + 1) bus device s1) p
      (subst
        (λ c.
          Scanned (rounds_found c bus device left (func + 1)) s1
            (scan_functions left (func + 1) bus device s1))
        p.config
        (scan_functions-Scanned left bus device (func + 1) s1
          (Scanned-length (round_found s.config bus device func) s s1 p)))

-- The functions of a device that does not answer, of one with a single function, and of another.
found_functions-absent :
    (config : ℕ → ℕ) (bus device left func : ℕ)
    → present config bus device 0 ≡ false
    → found_functions config bus device left func ≡ []
found_functions-absent config bus device zero func gone = refl
found_functions-absent config bus device (suc left) func gone =
    rw gone (found_functions-absent config bus device left (func + 1) gone)

found_functions-later :
    (config : ℕ → ℕ) (bus device left func : ℕ)
    → multi config bus device ≡ false
    → 0 < func
    → found_functions config bus device left func ≡ []
found_functions-later config bus device zero func single later = refl
found_functions-later config bus device (suc left) func single later =
    ground (arith, single, later, found_functions-later config bus device left (func + 1) single)

found_functions-multi :
    (config : ℕ → ℕ) (bus device left func : ℕ)
    → present config bus device 0 ≡ true
    → multi config bus device ≡ true
    → found_functions config bus device left func ≡ rounds_found config bus device left func
found_functions-multi config bus device zero func here more = refl
found_functions-multi config bus device (suc left) func here more =
    rw (here, more)
      (ap (λ ds. round_found config bus device func ++ ds)
        (found_functions-multi config bus device left (func + 1) here more))

-- The functions of a device, by what the loop's bound is.
found_functions-rounds :
    (config : ℕ → ℕ) (bus device : ℕ)
    → present config bus device 0 ≡ true
    → found_functions config bus device 8 0
      ≡ rounds_found config bus device (if multi config bus device then 8 else 1) 0
found_functions-rounds config bus device here = elim (Bool-cases (multi config bus device)) [
  | inl more ↦
      found_functions-multi config bus device 8 0 here more
      ∙ ap (λ n. rounds_found config bus device n 0) (ap (λ b. if b then 8 else 1) (sym more))
  | inr single ↦
      ap
        (λ ds. (if answers config bus device 0 then info_of config bus device 0 ∷ [] else []) ++ ds)
        (found_functions-later config bus device 7 1 single (omega arith))
      ∙ rw (here, single) refl
]

-- A device, from a list with room left.
answering-Scanned :
    (bus device : ℕ) (s : Pci)
    → length s.devices ≤ 32
    → present s.config bus device 0 ≡ true
    → Scanned (found_functions s.config bus device 8 0) s (
        scan_functions
          (if multi s.config bus device then 8 else 1)
          0
          bus
          device
          (select (pci_address bus device 0 14) s))
answering-Scanned bus device s room here =
    let s1 = select (pci_address bus device 0 14) s in
    let p =
      scan_functions-Scanned (if multi s.config bus device then 8 else 1) bus device 0 s1 room in
    rw (found_functions-rounds s.config bus device here)
      (record { config = p.config; devices = p.devices })

device_round-Scanned :
    (bus device : ℕ) (s : Pci)
    → length s.devices ≤ 32
    → Scanned (found_functions s.config bus device 8 0) s (device_round bus device s)
unfolding device_round pci_device_exists pci_read8 pci_read16
device_round-Scanned bus device s room = elim (Bool-cases (full s)) [
  | inl full' ↦ rw full' (Scanned-full (found_functions s.config bus device 8 0) s room full')
  | inr free ↦ rw free (elim (Bool-cases (present s.config bus device 0)) [
    | inl here ↦
        subst
          (λ b. Scanned (found_functions s.config bus device 8 0) s (
            if b
            then scan_functions (if multi s.config bus device then 8 else 1) 0 bus device
                (select (pci_address bus device 0 14) s)
            else select (pci_address bus device 0 0) s))
          (sym here) (answering-Scanned bus device s room here)
    | inr gone ↦
        rw (found_functions-absent s.config bus device 8 0 gone)
          (rw gone (Scanned-none s (pci_address bus device 0 0) room))
  ])
]

scan_devices-Scanned :
    (left bus device : ℕ) (s : Pci)
    → length s.devices ≤ 32
    → Scanned (found_devices s.config bus left device) s (scan_devices left device bus s)
unfolding scan_devices
scan_devices-Scanned zero bus device s room = Scanned-none s s.address room
scan_devices-Scanned (suc left) bus device s room =
    let s1 = device_round bus device s in
    let found = found_functions s.config bus device 8 0 in
    let p : Scanned found s s1 = device_round-Scanned bus device s room in
    Scanned-then found (found_devices s.config bus left (device + 1)) s s1
      (scan_devices left (device + 1) bus s1) p
      (subst
        (λ c.
          Scanned (found_devices c bus left (device + 1)) s1
            (scan_devices left (device + 1) bus s1))
        p.config (scan_devices-Scanned left bus (device + 1) s1 (Scanned-length found s s1 p)))

-- `pci_enumerate` forgets the devices it knew, lists the first 32 functions of bus 0 that answer, in
-- the order of devices and functions, with what their registers say, returns how many these are, and
-- leaves the configuration space as it is.
pub pci_enumerate-found :
    (s : Pci)
    → ((pci_enumerate s).1.devices ≡ take 32 (found_devices s.config 0 32 0))
      × ((pci_enumerate s).0 ≡ length (pci_enumerate s).1.devices)
      × ((pci_enumerate s).0 ≤ 32)
      × ((pci_enumerate s).1.config ≡ s.config)
unfolding pci_enumerate
pci_enumerate-found s =
    let s0 = record s { devices = [] } in
    let p : Scanned (found_devices s.config 0 32 0) s0 (scan_devices 32 0 0 s0) =
      scan_devices-Scanned 32 0 0 s0 (omega arith) in
    (
      p.devices,
      refl,
      Scanned-length (found_devices s.config 0 32 0) s0 (scan_devices 32 0 0 s0) p,
      p.config,
    )
