-- ===== src/Syscall/Dispatch.antt =====
-- What every system call of kernel/syscall/syscall.c comes to.
use simpleos.Common.{ℕ, ◌≡◌, arith, ◌&&◌, ◌||◌, ◌==◌, if◌then◌else◌, Option, none, some}
use simpleos.Syscall.{
  syscall_dispatch, syscall_table, sys_read, sys_write, sys_exit, sys_yield, sys_sleep, sys_getpid,
  minus_one,
}

-- The numbers that have a result at all, and it.
abbrev pub result : ℕ → ℕ → ℕ → Option ℕ
result num arg1 arg3 =
    if num == 2
    then none
    else if (num == 3) || (num == 4)
    then some 0
    else if num == 5
    then some 1
    else if (num == 1) && (arg1 == 1)
    then some arg3
    else some minus_one

-- For every number and all arguments: exit (2) never returns; yield (3) and sleep (4) return 0; getpid
-- (5) returns 1; a write (1) to descriptor 1 returns its count; and every other call, a read, a write to
-- another descriptor, or a number without a handler, returns -1.
pub syscall_dispatch-result :
    (num arg1 arg2 arg3 arg4 arg5 : ℕ)
    → syscall_dispatch num arg1 arg2 arg3 arg4 arg5 ≡ result num arg1 arg3
unfolding syscall_dispatch syscall_table sys_read sys_write sys_exit sys_yield sys_sleep sys_getpid
syscall_dispatch-result num arg1 arg2 arg3 arg4 arg5 = ground arith
