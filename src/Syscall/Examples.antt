-- ===== src/Syscall/Examples.antt =====
-- The theorems about kernel/syscall/syscall.c at concrete arguments.
use simpleos.Common.{◌≡◌, some}
use simpleos.Syscall.{syscall_dispatch}
use simpleos.Syscall.Dispatch.{syscall_dispatch-result}

-- A write of 12 bytes to descriptor 1.
syscall_dispatch-result_example : syscall_dispatch 1 1 0x5000 12 0 0 ≡ some 12
syscall_dispatch-result_example = syscall_dispatch-result 1 1 0x5000 12 0 0
