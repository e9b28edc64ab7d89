-- ===== src/Gdt/Examples.antt =====
-- The theorems about kernel/cpu/gdt.c at a concrete state.
use simpleos.Common.{◌+◌, ◌/◌, ◌≡◌, arith}
use simpleos.Gdt.{Gdt, no_descriptor, gdt_init}
use simpleos.Gdt.Segments.{segment, limit_of, long_base, gdt_init-segment}

abbrev empty_gdt : Gdt
empty_gdt = record {
  entries = λ _. no_descriptor;
  tss = record { rsp0 = 0; stacks = λ _. 0; iomap_base = 0 };
  limit = 0;
  base = 0;
  code_selector = 0;
  data_selector = 0;
  task_selector = 0;
}

abbrev loaded : Gdt
loaded = gdt_init 0x7000 0xFFFF800000123456 empty_gdt

gdt_init-segment_example :
    (segment (loaded.entries 0) ≡ (0, 0, 0, 0))
    × (segment (loaded.entries 1) ≡ (0x9A, 0, 0xFFFFF, 0xA))
    × (segment (loaded.entries 2) ≡ (0x92, 0, 0xFFFFF, 0x8))
    × (segment (loaded.entries 3) ≡ (0xFA, 0, 0xFFFFF, 0xA))
    × (segment (loaded.entries 4) ≡ (0xF2, 0, 0xFFFFF, 0x8))
    × ((loaded.entries 5).access ≡ 0x8B)
    × (limit_of (loaded.entries 5) + 1 ≡ 104)
    × (long_base (loaded.entries 5) (loaded.entries 6) ≡ 0xFFFF800000123456)
    × (loaded.task_selector / 8 ≡ 5)
gdt_init-segment_example = gdt_init-segment 0x7000 0xFFFF800000123456 empty_gdt (omega arith)
