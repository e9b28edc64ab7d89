-- ===== src/Pci/Devices.antt =====
-- Finding a device in the list of kernel/pci.h, and the addresses in its registers.
use simpleos.Common.{
  ℕ, zero, suc, ◌+◌, ◌-◌, ◌<◌, ◌≤◌, ◌≡◌, inl, inr, arith, refl, ◌==◌, if◌then◌else◌, ◌&&◌, Bool,
  true, false, List, [], ◌∷◌, Option, none, some, get_or, length, Bool-cases,
}
use simpleos.Pci.{PciDevice, Pci, find_device, pci_find_device, find_class, pci_find_class}

-- What a search of a list for an entry that passes a test returns: the index of the first such entry,
-- or nothing where none passes.
abbrev pub first : (PciDevice → Bool) → ℕ → List PciDevice → Option ℕ
first test i [] = none
first test i (d ∷ ds) = if test d then some i else first test (i + 1) ds

pub record Found (test : PciDevice → Bool) (base : PciDevice) (n : ℕ) (ds : List PciDevice) (k : ℕ)
    : Type 0 where
  pub low : n ≤ k
  pub inside : k < n + length ds
  pub passes : test (get_or ds (k - n) base) ≡ true
  pub before : (j : ℕ) → j < k - n → test (get_or ds j base) ≡ false

-- A search of a list whose first entry has index `n`: an index, with what makes it the first one, or
-- nothing, and then no entry passes.
pub data Search (test : PciDevice → Bool) (base : PciDevice) (n : ℕ) (ds : List PciDevice)
    : Option ℕ → Type 0 where
  found : (k : ℕ) → Found test base n ds k → Search test base n ds (some k)
  missing : ((j : ℕ) → j < length ds → test (get_or ds j base) ≡ false) → Search test base n ds none

later_entry :
    (test : PciDevice → Bool) (base d : PciDevice) (ds : List PciDevice) (m : ℕ)
    → test d ≡ false
    → ((j : ℕ) → j < m → test (get_or ds j base) ≡ false)
    → (j : ℕ) → j < suc m
    → test (get_or (d ∷ ds) j base) ≡ false
later_entry test base d ds m other all zero low = other
later_entry test base d ds m other all (suc j) low = all j (omega (arith, low))

Found-skip :
    (test : PciDevice → Bool) (base : PciDevice) (n : ℕ) (d : PciDevice) (ds : List PciDevice)
    (k : ℕ)
    → test d ≡ false
    → Found test base (n + 1) ds k
    → Found test base n (d ∷ ds) k
Found-skip test base n d ds k other f =
    let step : k - n ≡ suc (k - (n + 1)) = omega (arith, f.low) in
    record {
      low = omega (arith, f.low);
      inside = omega (arith, f.inside);
      passes = rw step f.passes;
      before = rw step (later_entry test base d ds (k - (n + 1)) other f.before);
    }

Search-skip :
    (test : PciDevice → Bool) (base : PciDevice) (n : ℕ) (d : PciDevice) (ds : List PciDevice)
    (o : Option ℕ)
    → test d ≡ false
    → Search test base (n + 1) ds o
    → Search test base n (d ∷ ds) o
Search-skip test base n d ds _ other (found k f) = found k (Found-skip test base n d ds k other f)
Search-skip test base n d ds _ other (missing all) =
    missing (later_entry test base d ds (length ds) other all)

Search-here :
    (test : PciDevice → Bool) (base : PciDevice) (n : ℕ) (d : PciDevice) (ds : List PciDevice)
    → test d ≡ true
    → Search test base n (d ∷ ds) (some n)
Search-here test base n d ds here = found n (record {
  low = omega arith;
  inside = omega arith;
  passes = let none_before : n - n ≡ 0 = omega arith in rw none_before here;
  before = λ j low. absurd (omega (arith, low));
})

first-Search :
    (test : PciDevice → Bool) (base : PciDevice) (n : ℕ) (ds : List PciDevice)
    → Search test base n ds (first test n ds)
first-Search test base n [] = missing (λ j low. absurd (omega (arith, low)))
first-Search test base n (d ∷ ds) = elim (Bool-cases (test d)) [
  | inl here ↦ rw here (Search-here test base n d ds here)
  | inr other ↦ rw other (
      Search-skip test base n d ds (first test (n + 1) ds) other
        (first-Search test base (n + 1) ds))
]

abbrev pub has_ids : ℕ → ℕ → PciDevice → Bool
has_ids vendor_id device_id d = (d.vendor_id == vendor_id) && (d.device_id == device_id)

abbrev pub has_class : ℕ → ℕ → PciDevice → Bool
has_class class_code subclass d = (d.class_code == class_code) && (d.subclass == subclass)

find_device-first :
    (n vendor_id device_id : ℕ) (ds : List PciDevice)
    → find_device n vendor_id device_id ds ≡ first (has_ids vendor_id device_id) n ds
unfolding find_device
find_device-first n vendor_id device_id [] = refl
find_device-first n vendor_id device_id (d ∷ ds) =
    rw (find_device-first (n + 1) vendor_id device_id ds) refl

find_class-first :
    (n class_code subclass : ℕ) (ds : List PciDevice)
    → find_class n class_code subclass ds ≡ first (has_class class_code subclass) n ds
unfolding find_class
find_class-first n class_code subclass [] = refl
find_class-first n class_code subclass (d ∷ ds) =
    rw (find_class-first (n + 1) class_code subclass ds) refl

-- Both searches return the index of the first entry that has the two numbers asked for, and null if
-- no entry has them.
pub pci_find_device-Search :
    (a b : ℕ) (base : PciDevice) (s : Pci)
    → (Search (has_ids a b) base 0 s.devices (pci_find_device a b s))
      × (Search (has_class a b) base 0 s.devices (pci_find_class a b s))
unfolding pci_find_device pci_find_class
pci_find_device-Search a b base s = (
  rw (find_device-first 0 a b s.devices) (first-Search (has_ids a b) base 0 s.devices),
  rw (find_class-first 0 a b s.devices) (first-Search (has_class a b) base 0 s.devices),
)
