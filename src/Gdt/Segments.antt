-- ===== src/Gdt/Segments.antt =====
-- What the descriptors that kernel/cpu/gdt.c writes say.
use simpleos.Common.{ℕ, ◌+◌, ◌*◌, ◌/◌, ◌%◌, ◌^◌, ◌<◌, ◌≡◌, refl, arith}
use simpleos.Gdt.{
  Descriptor, Gdt, gdt_set_entry, clear_descriptors, set_segments, set_tss, load_task, gdt_init,
}

-- The base and the limit that the processor reads, and the base of a descriptor of two entries.
abbrev pub base_of : Descriptor → ℕ
base_of d = d.base_low + d.base_mid * 2 ^ 16 + d.base_high * 2 ^ 24

abbrev pub limit_of : Descriptor → ℕ
limit_of d = d.limit_low + (d.granularity % 16) * 2 ^ 16

abbrev pub long_base : Descriptor → Descriptor → ℕ
long_base low high = base_of low + high.limit_low * 2 ^ 32 + high.base_low * 2 ^ 48

-- A segment as the processor reads it: its access byte, base, limit, and the flags.
abbrev pub segment : Descriptor → ℕ × ℕ × ℕ × ℕ
segment d = (d.access, base_of d, limit_of d, d.granularity / 16)

-- After `gdt_init`, entry 0 is null; entries 1 to 4 are kernel code, kernel data, user code and user
-- data over the whole address space, the two code segments in long mode; and entries 5 and 6 describe
-- a task state segment at the given address, of the size of the structure, which the task register
-- selects and the processor has marked as busy.
pub gdt_init-segment :
    (gdt_base tss_base : ℕ) (g : Gdt)
    → tss_base < 2 ^ 64
    → (let e = (gdt_init gdt_base tss_base g).entries in
        (segment (e 0) ≡ (0, 0, 0, 0))
        × (segment (e 1) ≡ (0x9A, 0, 0xFFFFF, 0xA))
        × (segment (e 2) ≡ (0x92, 0, 0xFFFFF, 0x8))
        × (segment (e 3) ≡ (0xFA, 0, 0xFFFFF, 0xA))
        × (segment (e 4) ≡ (0xF2, 0, 0xFFFFF, 0x8))
        × ((e 5).access ≡ 0x8B)
        × (limit_of (e 5) + 1 ≡ 104)
        × (long_base (e 5) (e 6) ≡ tss_base)
        × ((gdt_init gdt_base tss_base g).task_selector / 8 ≡ 5))
unfolding gdt_init load_task set_tss set_segments gdt_set_entry clear_descriptors
gdt_init-segment gdt_base tss_base g h =
    (refl, refl, refl, refl, refl, refl, refl, omega (arith, h), refl)
