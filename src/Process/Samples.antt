-- ===== src/Process/Samples.antt =====
-- A table of kernel/proc/process.c for the tests: no process, and free pages from 2 MiB on.
use simpleos.Common.{pos, true≢false, []}
use simpleos.Vmm.Samples.{empty_space}
use simpleos.Process.{Process, Table, unused}
use simpleos.Process.Slots.{IsNumbered}

abbrev pub no_process : Process
no_process = record {
  pid = 0;
  state = unused;
  priority = pos 0;
  context = 0;
  kernel_stack = 0;
  kernel_stack_top = 0;
  page_table = 0;
  brk = 0;
  time_slice = 0;
  total_time = 0;
  wake_time = 0;
  parent = 0;
  exit_code = pos 0;
  next = 0;
  prev = 0;
  name = [];
}

abbrev pub empty_table : Table
empty_table = record {
  processes = λ _. no_process;
  current_process = 0;
  next_pid = 1;
  vmm = empty_space;
  rsp0 = 0;
}

pub empty_table-IsNumbered : IsNumbered empty_table
empty_table-IsNumbered = record {
  given = λ p low high used. absurd (true≢false used);
  own = λ p p' low high low' high' used used' e. absurd (true≢false used);
}
