-- ===== src/Vmm/Examples.antt =====
-- Small runs of kernel/mm/vmm.c, and its theorems at concrete states.
use simpleos.Common.{ℕ, ◌+◌, ◌%◌, ◌≡◌, ◌||◌, not, arith, true, ◌==◌, if◌then◌else◌}
use simpleos.Vmm.{
  vmm_map_page, vmm_get_physical, vmm_get_or_create_entry, page_of, vmm_create_address_space,
  vmm_destroy_address_space,
}
use simpleos.Vmm.Tables.{Places, IsTables}
use simpleos.Vmm.Walk.{page_number}
use simpleos.Vmm.Create.{NoneFree}
use simpleos.Vmm.Mapping.{vmm_get_physical-map_page}
use simpleos.Pmm.Invariant.{used}
use simpleos.Vmm.Spaces.{
  CreatedSpace, vmm_create_address_space-CreatedSpace, vmm_destroy_address_space-create,
}
use simpleos.Vmm.Samples.{empty_space, root_only, empty_space-IsTables}

vmm_get_physical-map_page_example :
    (m' : Places) × IsTables m' (vmm_map_page 0x8000 0x300000 2 empty_space)
    × ((vmm_get_or_create_entry 0x8000 empty_space).0 == 0 ≡ true
        → NoneFree (vmm_map_page 0x8000 0x300000 2 empty_space).pmm)
    × ((v : ℕ)
        → vmm_get_physical v (vmm_map_page 0x8000 0x300000 2 empty_space) ≡ (
            if ((vmm_get_or_create_entry 0x8000 empty_space).0 == 0)
              || not (page_number v == page_number 0x8000)
            then vmm_get_physical v empty_space
            else page_of 0x300000 + v % 4096))
vmm_get_physical-map_page_example =
    vmm_get_physical-map_page root_only empty_space 0x8000 0x300000 2 empty_space-IsTables
      (omega arith)

vmm_create_address_space-CreatedSpace_example :
    CreatedSpace empty_space (vmm_create_address_space empty_space)
vmm_create_address_space-CreatedSpace_example =
    vmm_create_address_space-CreatedSpace empty_space-IsTables

vmm_destroy_address_space-create_example :
    used
      (vmm_destroy_address_space
        (vmm_create_address_space empty_space).0
        (vmm_create_address_space empty_space).1).pmm
      512
    ≡ used empty_space.pmm 512
vmm_destroy_address_space-create_example =
    vmm_destroy_address_space-create empty_space-IsTables 512 (omega arith)
