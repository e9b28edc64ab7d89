-- ===== src/Process/Examples.antt =====
-- Small runs of kernel/proc/process.c, and its theorems at concrete states.
use simpleos.Common.{ℕ, pos, ◌≡◌, ◌<◌, refl, true, [], ◌∷◌, arith}
use simpleos.Pmm.{
  max_pages, free_pages, free_run, free_if_used, mark_free, bitmap_test, bitmap_clear, alloc_pages,
  alloc_pages_loop, first_used,
}
use simpleos.Common.Bytes.{bit_of, clear_bit}
use simpleos.Pmm.Invariant.{used}
use simpleos.Pmm.Samples.{some_free, some_free-IsValid}
use simpleos.Process.{
  Table, process_create_kernel_thread, process_destroy, process_get, alloc_process_slot, find_slot,
}
use simpleos.Process.Slots.{IsNumbered, IsFirst, live_with, free, process_get-IsFirst}
use simpleos.Process.Thread.{
  CreatedThread, process_create_kernel_thread-CreatedThread,
  process_create_kernel_thread-IsNumbered, process_get-create, process_destroy-create,
}
use simpleos.Process.Samples.{empty_table, empty_table-IsNumbered}

abbrev made : ℕ × Table
made = process_create_kernel_thread (b't' ∷ []) 0x5000 (pos 3) empty_table

made_first : made.0 ≡ 1
unfolding process_create_kernel_thread alloc_process_slot find_slot alloc_pages alloc_pages_loop
    first_used free_pages free_run free_if_used mark_free bitmap_test bitmap_clear clear_bit bit_of
made_first = refl

made_some : 0 < made.0
made_some = omega (arith, made_first)

process_create_kernel_thread-CreatedThread_example :
    CreatedThread (b't' ∷ []) 0x5000 (pos 3) empty_table made
process_create_kernel_thread-CreatedThread_example =
    process_create_kernel_thread-CreatedThread (b't' ∷ []) 0x5000 (pos 3) empty_table
      some_free-IsValid

process_create_kernel_thread-IsNumbered_example : IsNumbered made.1
process_create_kernel_thread-IsNumbered_example =
    process_create_kernel_thread-IsNumbered (b't' ∷ []) 0x5000 (pos 3) empty_table some_free-IsValid
      empty_table-IsNumbered (omega arith)

process_get-create_example : process_get 1 made.1 ≡ made.0
process_get-create_example =
    process_get-create (b't' ∷ []) 0x5000 (pos 3) empty_table some_free-IsValid
      empty_table-IsNumbered (omega arith) made_some

process_destroy-create_example :
    (free (process_destroy made.0 made.1).processes made.0 ≡ true)
    × ((q : ℕ) → q < max_pages → used (process_destroy made.0 made.1).vmm.pmm q ≡ used some_free q)
process_destroy-create_example =
    process_destroy-create (b't' ∷ []) 0x5000 (pos 3) empty_table some_free-IsValid made_some

process_get-IsFirst_example : IsFirst (live_with 1 made.1.processes) 1 64 (process_get 1 made.1)
process_get-IsFirst_example = process_get-IsFirst 1 made.1
