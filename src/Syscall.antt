-- ===== src/Syscall.antt =====
-- The system calls, kernel/syscall/syscall.c. Values are 64-bit words, so that -1 is `minus_one`. A
-- handler that halts for good has no result, which is `none`.
pub mod Dispatch
mod Examples
use Prim.Native.Nat.{bit_or}
use simpleos.Common.{
  ℕ, ◌+◌, ◌-◌, ◌*◌, ◌/◌, ◌%◌, ◌^◌, Bool, true, false, leb, ltb, ◌==◌, if◌then◌else◌, Option, none,
  some,
}
use simpleos.Common.Bytes.{update}

abbrev pub minus_one : ℕ
minus_one = 2 ^ 64 - 1

abbrev pub syscall_max : ℕ
syscall_max = 16

abbrev pub msr_efer : ℕ
msr_efer = 0xC0000080

abbrev pub msr_star : ℕ
msr_star = 0xC0000081

abbrev pub msr_lstar : ℕ
msr_lstar = 0xC0000082

abbrev pub msr_sfmask : ℕ
msr_sfmask = 0xC0000084

-- The model-specific registers: `wrmsr` writes the two halves of a word.
abbrev pub Registers : Type 0
Registers = ℕ → ℕ

abbrev pub wrmsr : ℕ → ℕ → Registers → Registers
wrmsr msr value registers =
    update registers msr (((value / 2 ^ 32) % 2 ^ 32) * 2 ^ 32 + value % 2 ^ 32)

-- `syscall_init`, with the address of the entry point, which is assembly.
unfoldable pub syscall_init : ℕ → Registers → Registers
syscall_init syscall_entry registers =
    let efer = bit_or (registers msr_efer) 1 in
    let star = bit_or (0x18 * 2 ^ 48) (0x08 * 2 ^ 32) in
    wrmsr msr_sfmask 0x200
      (wrmsr msr_lstar syscall_entry (wrmsr msr_star star (wrmsr msr_efer efer registers)))

abbrev pub Handler : Type 0
Handler = ℕ → ℕ → ℕ → ℕ → ℕ → Option ℕ

unfoldable pub sys_read : Handler
sys_read fd buf count unused1 unused2 = some minus_one

unfoldable pub sys_write : Handler
sys_write fd buf count unused1 unused2 = if fd == 1 then some count else some minus_one

unfoldable pub sys_exit : Handler
sys_exit status unused1 unused2 unused3 unused4 = none

unfoldable pub sys_yield : Handler
sys_yield unused1 unused2 unused3 unused4 unused5 = some 0

unfoldable pub sys_sleep : Handler
sys_sleep ms unused1 unused2 unused3 unused4 = some 0

unfoldable pub sys_getpid : Handler
sys_getpid unused1 unused2 unused3 unused4 unused5 = some 1

-- The entries that are not listed are null.
unfoldable pub syscall_table : ℕ → Option Handler
syscall_table num =
    if num == 0
    then some sys_read
    else if num == 1
    then some sys_write
    else if num == 2
    then some sys_exit
    else if num == 3
    then some sys_yield
    else if num == 4
    then some sys_sleep
    else if num == 5
    then some sys_getpid
    else none

abbrev pub call_handler : Option Handler → Handler
call_handler none a b c d e = some minus_one
call_handler (some handler) a b c d e = handler a b c d e

unfoldable pub syscall_dispatch : ℕ → Handler
syscall_dispatch num arg1 arg2 arg3 arg4 arg5 =
    if leb syscall_max num
    then some minus_one
    else call_handler (syscall_table num) arg1 arg2 arg3 arg4 arg5
