-- ===== src/Vmm.antt =====
-- The virtual memory manager, kernel/mm/vmm.c. Memory is a map from addresses to the 64-bit words that
-- stand there: entry `i` of the table at `base` is the word at `base + 8 * i`. A null pointer is 0.
pub mod Tables
pub mod Walk
pub mod Create
pub mod Search
pub mod Mapping
pub mod Spaces
pub mod Samples
mod Examples
use Prim.Native.Nat.{bit_or}
use simpleos.Common.{
  ◌&&◌, not, ℕ, zero, suc, ◌+◌, ◌-◌, ◌*◌, ◌/◌, ◌%◌, ◌^◌, Bool, true, false, ltb, ◌==◌,
  if◌then◌else◌, List, [], ◌∷◌, Option, none, some,
}
use simpleos.Common.Bytes.{update}
use simpleos.Pmm.{Pmm, alloc_page, free_page}

abbrev pub Words : Type 0
Words = ℕ → ℕ

-- The root table, the register CR3, the physical pages, memory, and the addresses whose translation was
-- invalidated, the last one first.
pub record Vmm : Type 0 where
  pub kernel_pml4 : ℕ
  pub cr3 : ℕ
  pub pmm : Pmm
  pub words : Words
  pub invalidated : List ℕ

abbrev pub present_bit : ℕ
present_bit = 1

abbrev pub writable_bit : ℕ
writable_bit = 2

-- `entry & VMM_PRESENT` and `entry & ~0xFFF`.
abbrev pub present : ℕ → Bool
present entry = entry % 2 == 1

abbrev pub page_of : ℕ → ℕ
page_of entry = (entry / 4096) * 4096

abbrev pub pml4_index : ℕ → ℕ
pml4_index virt = (virt / 2 ^ 39) % 512

abbrev pub pdpt_index : ℕ → ℕ
pdpt_index virt = (virt / 2 ^ 30) % 512

abbrev pub pd_index : ℕ → ℕ
pd_index virt = (virt / 2 ^ 21) % 512

abbrev pub pt_index : ℕ → ℕ
pt_index virt = (virt / 2 ^ 12) % 512

-- `&table->entries[index]`.
abbrev pub entry_at : ℕ → ℕ → ℕ
entry_at table index = table + 8 * index

-- `for (i = first; i < 512; i++) entries[i] = 0;`, with `rounds` entries left.
unfoldable pub clear_entries : ℕ → ℕ → ℕ → Words → Words
clear_entries zero table i w = w
clear_entries (suc rounds) table i w =
    clear_entries rounds table (i + 1) (update w (entry_at table i) 0)

-- The page taken, none being null, and cleared.
abbrev pub clear_page : Option ℕ × Pmm → Vmm → ℕ × Vmm
clear_page (none, pmm1) s = (0, record s { pmm = pmm1 })
clear_page (some page, pmm1) s =
    (page, record s { pmm = pmm1; words = clear_entries 512 page 0 s.words })

unfoldable pub vmm_alloc_page_table : Vmm → ℕ × Vmm
vmm_alloc_page_table s = clear_page (alloc_page s.pmm) s

-- The table below an entry if the entry is present, and else the table just made, with the entry set to
-- it; 0 if there is no page for it.
abbrev pub link_table : ℕ → ℕ × Vmm → Vmm → ℕ × Vmm
link_table at (table, s1) s =
    if present (s.words at) then (page_of (s.words at), s) else if table == 0 then (0, s1) else (
      table,
      record s1 { words = update s1.words at (bit_or (bit_or table present_bit) writable_bit) },
    )

unfoldable pub enter_table : ℕ → Vmm → ℕ × Vmm
enter_table at s = link_table at (vmm_alloc_page_table s) s

-- No table came back where the entry, which had none, should get one; a present entry always has one.
abbrev pub no_table : ℕ → Vmm → ℕ → Bool
no_table at s table = not (present (s.words at)) && (table == 0)

-- The address of the last entry; 0 if a table is missing.
unfoldable pub vmm_get_or_create_entry : ℕ → Vmm → ℕ × Vmm
vmm_get_or_create_entry virt s =
    let (pdpt, s1) = enter_table (entry_at s.kernel_pml4 (pml4_index virt)) s in
    let (pd, s2) = enter_table (entry_at pdpt (pdpt_index virt)) s1 in
    let (pt, s3) = enter_table (entry_at pd (pd_index virt)) s2 in
    if s.kernel_pml4 == 0
    then (0, s)
    else if no_table (entry_at s.kernel_pml4 (pml4_index virt)) s pdpt
    then (0, s1)
    else if no_table (entry_at pdpt (pdpt_index virt)) s1 pd
    then (0, s2)
    else if no_table (entry_at pd (pd_index virt)) s2 pt
    then (0, s3)
    else (entry_at pt (pt_index virt), s3)

-- A write to the last entry, if there is one, and the invalidation.
abbrev pub set_entry : ℕ → ℕ → ℕ × Vmm → Vmm
set_entry virt value (at, s) =
    if at == 0
    then s
    else record s { words = update s.words at value; invalidated = virt ∷ s.invalidated }

unfoldable pub vmm_map_page : ℕ → ℕ → ℕ → Vmm → Vmm
vmm_map_page virt phys flags s =
    set_entry virt (bit_or (bit_or (page_of phys) flags) present_bit)
      (vmm_get_or_create_entry virt s)

unfoldable pub vmm_unmap_page : ℕ → Vmm → Vmm
vmm_unmap_page virt s = set_entry virt 0 (vmm_get_or_create_entry virt s)

unfoldable pub vmm_get_physical : ℕ → Vmm → ℕ
vmm_get_physical virt s =
    let pml4_entry = s.words (entry_at s.kernel_pml4 (pml4_index virt)) in
    let pdpt_entry = s.words (entry_at (page_of pml4_entry) (pdpt_index virt)) in
    let pd_entry = s.words (entry_at (page_of pdpt_entry) (pd_index virt)) in
    let pt_entry = s.words (entry_at (page_of pd_entry) (pt_index virt)) in
    if s.kernel_pml4 == 0
    then 0
    else if not (present pml4_entry)
    then 0
    else if not (present pdpt_entry)
    then 0
    else if not (present pd_entry)
    then 0
    else if not (present pt_entry)
    then 0
    else bit_or (page_of pt_entry) (virt % 4096)

unfoldable pub vmm_get_kernel_pml4 : Vmm → ℕ
vmm_get_kernel_pml4 s = s.kernel_pml4

-- `none` is the halt for want of a page.
abbrev pub install_root : Option ℕ × Pmm → Vmm → Option Vmm
install_root (none, pmm1) s = none
install_root (some page, pmm1) s = some (record s {
  pmm = pmm1;
  kernel_pml4 = page;
  words = clear_entries 512 page 0 s.words;
  cr3 = page;
})

unfoldable pub vmm_init : Vmm → Option Vmm
vmm_init s =
    if s.cr3 == 0
    then install_root (alloc_page s.pmm) s
    else some (record s { kernel_pml4 = s.cr3 })

-- `for (i = 256; i < 512; i++) new->entries[i] = kernel->entries[i];`
unfoldable pub copy_entries : ℕ → ℕ → ℕ → ℕ → Words → Words
copy_entries zero new kernel i w = w
copy_entries (suc rounds) new kernel i w =
    copy_entries rounds new kernel (i + 1) (update w (entry_at new i) (w (entry_at kernel i)))

unfoldable pub share_kernel : ℕ × Vmm → ℕ × Vmm
share_kernel (new, s) =
    if (new == 0)
    then (0, s)
    else if s.kernel_pml4 == 0
    then (new, s)
    else (new, record s { words = copy_entries 256 new s.kernel_pml4 256 s.words })

unfoldable pub vmm_create_address_space : Vmm → ℕ × Vmm
vmm_create_address_space s = share_kernel (vmm_alloc_page_table s)

unfoldable pub vmm_switch_address_space : ℕ → Vmm → Vmm
vmm_switch_address_space pml4 s = if pml4 == 0 then s else record s { cr3 = pml4 }

-- `for (i = 0; i < 256; i++) if (entries[i] & VMM_PRESENT) entries[i] = 0;`
unfoldable pub drop_entries : ℕ → ℕ → ℕ → Words → Words
drop_entries zero table i w = w
drop_entries (suc rounds) table i w =
    drop_entries rounds table (i + 1)
      (if present (w (entry_at table i)) then update w (entry_at table i) 0 else w)

unfoldable pub vmm_destroy_address_space : ℕ → Vmm → Vmm
vmm_destroy_address_space pml4 s =
    if pml4 == 0
    then s
    else record s { words = drop_entries 256 pml4 0 s.words; pmm = free_page s.pmm pml4 }
