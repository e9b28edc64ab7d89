-- ===== src/Gdt.antt =====
-- The global descriptor table and the task state segment, kernel/cpu/gdt.c. The addresses of the two
-- are given by the linker, as arguments. The instructions that load the registers are recorded by what
-- the registers hold then.
pub mod Segments
mod Examples
use Prim.Native.Nat.{bit_or}
use simpleos.Common.{ℕ, zero, suc, ◌+◌, ◌-◌, ◌*◌, ◌/◌, ◌%◌, ◌^◌, ◌==◌, if◌then◌else◌}
use simpleos.Common.Bytes.{update}

pub record Descriptor : Type 0 where
  pub limit_low : ℕ
  pub base_low : ℕ
  pub base_mid : ℕ
  pub access : ℕ
  pub granularity : ℕ
  pub base_high : ℕ

-- The fields that the kernel uses, and the others: the stacks from 1 on, with the interrupt stacks.
pub record Tss : Type 0 where
  pub rsp0 : ℕ
  pub stacks : ℕ → ℕ
  pub iomap_base : ℕ

-- The two tables, the limit and base of the table, and the selectors of code, data and task.
pub record Gdt : Type 0 where
  pub entries : ℕ → Descriptor
  pub tss : Tss
  pub limit : ℕ
  pub base : ℕ
  pub code_selector : ℕ
  pub data_selector : ℕ
  pub task_selector : ℕ

abbrev pub gdt_kernel_code : ℕ
gdt_kernel_code = 1

abbrev pub gdt_kernel_data : ℕ
gdt_kernel_data = 2

abbrev pub gdt_user_code : ℕ
gdt_user_code = 3

abbrev pub gdt_user_data : ℕ
gdt_user_data = 4

abbrev pub gdt_tss_low : ℕ
gdt_tss_low = 5

abbrev pub gdt_tss_high : ℕ
gdt_tss_high = 6

-- `sizeof(tss)`: the structure is packed.
abbrev pub tss_size : ℕ
tss_size = 104

abbrev pub no_descriptor : Descriptor
no_descriptor = record {
  limit_low = 0;
  base_low = 0;
  base_mid = 0;
  access = 0;
  granularity = 0;
  base_high = 0;
}

unfoldable pub gdt_set_entry : ℕ → ℕ → ℕ → ℕ → ℕ → (ℕ → Descriptor) → ℕ → Descriptor
gdt_set_entry index base limit access flags entries = update entries index (record {
  limit_low = limit % 2 ^ 16;
  base_low = base % 2 ^ 16;
  base_mid = (base / 2 ^ 16) % 2 ^ 8;
  access = access;
  granularity = bit_or ((limit / 2 ^ 16) % 16) (((flags % 2 ^ 8) / 16) * 16);
  base_high = (base / 2 ^ 24) % 2 ^ 8;
})

-- The loop that clears the table, from entry `i` on.
unfoldable pub clear_descriptors : ℕ → ℕ → (ℕ → Descriptor) → ℕ → Descriptor
clear_descriptors zero i entries = entries
clear_descriptors (suc rounds) i entries =
    clear_descriptors rounds (i + 1) (update entries i no_descriptor)

-- The null descriptor and the four segments.
unfoldable pub set_segments : (ℕ → Descriptor) → ℕ → Descriptor
set_segments entries =
    let entries1 = gdt_set_entry 0 0 0 0 0 entries in
    let entries2 = gdt_set_entry gdt_kernel_code 0 0xFFFFF 0x9A 0xA0 entries1 in
    let entries3 = gdt_set_entry gdt_kernel_data 0 0xFFFFF 0x92 0x80 entries2 in
    let entries4 = gdt_set_entry gdt_user_code 0 0xFFFFF 0xFA 0xA0 entries3 in
    gdt_set_entry gdt_user_data 0 0xFFFFF 0xF2 0x80 entries4

-- The two entries of the task state segment; the second is written as two words of 32 bits.
unfoldable pub set_tss : ℕ → (ℕ → Descriptor) → ℕ → Descriptor
set_tss tss_base entries =
    update
      (update entries gdt_tss_low (record {
        limit_low = (tss_size - 1) % 2 ^ 16;
        base_low = tss_base % 2 ^ 16;
        base_mid = (tss_base / 2 ^ 16) % 2 ^ 8;
        access = 0x89;
        granularity = ((tss_size - 1) / 2 ^ 16) % 16;
        base_high = (tss_base / 2 ^ 24) % 2 ^ 8;
      }))
      gdt_tss_high
      (record {
        limit_low = (tss_base / 2 ^ 32) % 2 ^ 16;
        base_low = (tss_base / 2 ^ 48) % 2 ^ 16;
        base_mid = 0;
        access = 0;
        granularity = 0;
        base_high = 0;
      })

-- `ltr`: the processor marks the task state segment as busy.
unfoldable pub load_task : ℕ → (ℕ → Descriptor) → ℕ → Descriptor
load_task selector entries =
    update entries (selector / 8)
      (record (entries (selector / 8)) { access = bit_or (entries (selector / 8)).access 2 })

unfoldable pub gdt_init : ℕ → ℕ → Gdt → Gdt
gdt_init gdt_base tss_base g = record {
  entries =
      load_task (gdt_tss_low * 8)
        (set_tss tss_base (set_segments (clear_descriptors 7 0 g.entries)));
  tss = record { rsp0 = 0; stacks = λ _. 0; iomap_base = tss_size };
  limit = 7 * 8 - 1;
  base = gdt_base;
  code_selector = 0x08;
  data_selector = 0x10;
  task_selector = gdt_tss_low * 8;
}

unfoldable pub gdt_set_tss_stack : ℕ → Gdt → Gdt
gdt_set_tss_stack stack g = record g { tss = record g.tss { rsp0 = stack } }
