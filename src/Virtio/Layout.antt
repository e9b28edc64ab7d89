-- ===== src/Virtio/Layout.antt =====
-- Where the parts of a virtqueue of kernel/virtio_net.h lie in its memory.
use native.Mathlib.Nat.{one-le-pow, mod-mod_of_dvd, dvd_of_mod-eq-zero, mod-add-mod}
use simpleos.Common.Bytes.{passes, passes_at}
use simpleos.Common.{true, refl, ==_iff, ap, sym, ℕ, ◌+◌, ◌*◌, ◌%◌, ◌^◌, ◌≤◌, ◌≡◌, ◌==◌, arith, ◌∙◌}
use simpleos.Common.Masks.{bit_and-low}
use simpleos.Virtio.{Virtqueue, slot, virtq_size, used_offset, virtq_init}

-- The descriptor table, the available ring and the used ring follow each other without overlap, and
-- end within the number of bytes that `virtq_size` returns; the used ring begins on a page if the
-- memory does, and a queue of 256 descriptors fits into the 4 pages set aside for it.
pub virtq_init-layout :
    (size mem : ℕ) (vq : Virtqueue)
    → ((virtq_init size mem vq).desc_at + 16 * size ≤ (virtq_init size mem vq).avail_at)
      × ((virtq_init size mem vq).avail_at + 2 * (2 + size) ≤ (virtq_init size mem vq).used_at)
      × ((virtq_init size mem vq).used_at + (4 + 8 * size) ≤ mem + virtq_size size)
      × (mem % 4096 ≡ 0 → (virtq_init size mem vq).used_at % 4096 ≡ 0)
      × (size ≤ 256 → virtq_size size ≤ 4096 * 4)
unfolding virtq_init used_offset virtq_size
virtq_init-layout size mem vq =
    (omega arith, omega arith, omega arith, λ h. omega (arith, h), λ h. omega (arith, h))

power_table : passes (λ k. 2 ^ 16 % 2 ^ k == 0) 17 ≡ true
unfolding passes
power_table = refl

divides : (k : ℕ) → k ≤ 16 → 2 ^ 16 % 2 ^ k ≡ 0
divides k small =
    (==_iff (2 ^ 16 % 2 ^ k) 0).0
      (passes_at (λ k. 2 ^ 16 % 2 ^ k == 0) 17 (omega (arith, small)) power_table)

-- In a queue whose size is a power of two, an index that counts up modulo 2 ^ 16 walks through the
-- ring: its slot is its remainder, and that of the next index is the next slot, also where the index
-- starts over at 0.
pub slot-ring :
    (k i : ℕ)
    → k ≤ 16
    → (slot (2 ^ k) i ≡ i % 2 ^ k)
      × (slot (2 ^ k) ((i + 1) % 2 ^ 16) ≡ (slot (2 ^ k) i + 1) % 2 ^ k)
slot-ring k i small =
    let plain : (j : ℕ) → slot (2 ^ k) j ≡ j % 2 ^ k =
      λ j. ground (arith, bit_and-low k j, one-le-pow k 2 (omega arith)) in
    (
      plain i,
      plain ((i + 1) % 2 ^ 16)
          ∙ mod-mod_of_dvd (2 ^ k) (i + 1) (dvd_of_mod-eq-zero (2 ^ k) (divides k small))
          ∙ sym (mod-add-mod i (2 ^ k) 1)
          ∙ ap (λ m. (m + 1) % 2 ^ k) (sym (plain i)),
    )
