-- ===== src/Process.antt =====
-- The process table, kernel/proc/process.c. A pointer to the process in slot `i` is `i + 1`, and 0 is
-- the null pointer; there are 64 slots.
pub mod Slots
pub mod Thread
pub mod Samples
mod Examples
use simpleos.Common.{
  ℕ, zero, suc, ◌+◌, ◌-◌, ◌*◌, ◌/◌, ◌%◌, ◌^◌, Bool, true, false, not, ◌&&◌, ◌||◌, ltb, leb, ◌==◌,
  if◌then◌else◌, List, [], ◌∷◌, Option, none, some, take, ℤ, pos, negsuc,
}
use simpleos.Common.Bytes.{update}
use simpleos.Pmm.{Pmm, page_size, alloc_pages, free_pages}
use simpleos.Vmm.{Vmm, Words, vmm_destroy_address_space}

abbrev pub max_processes : ℕ
max_processes = 64

abbrev pub kernel_stack_size : ℕ
kernel_stack_size = 8192

pub data ProcState : Type 0 where
  unused ready running blocked zombie : ProcState

abbrev pub is_unused : ProcState → Bool
is_unused unused = true
is_unused ready = false
is_unused running = false
is_unused blocked = false
is_unused zombie = false

abbrev pub is_running : ProcState → Bool
is_running unused = false
is_running ready = false
is_running running = true
is_running blocked = false
is_running zombie = false

abbrev pub is_blocked : ProcState → Bool
is_blocked unused = false
is_blocked ready = false
is_blocked running = false
is_blocked blocked = true
is_blocked zombie = false

pub record Process : Type 0 where
  pub pid : ℕ
  pub state : ProcState
  pub priority : ℤ
  pub context : ℕ
  pub kernel_stack : ℕ
  pub kernel_stack_top : ℕ
  pub page_table : ℕ
  pub brk : ℕ
  pub time_slice : ℕ
  pub total_time : ℕ
  pub wake_time : ℕ
  pub parent : ℕ
  pub exit_code : ℤ
  pub next : ℕ
  pub prev : ℕ
  pub name : List ℕ

-- The table, the current process, the next identifier, memory with its pages, and the stack that the
-- task state segment holds for ring 0.
pub record Table : Type 0 where
  pub processes : ℕ → Process
  pub current_process : ℕ
  pub next_pid : ℕ
  pub vmm : Vmm
  pub rsp0 : ℕ

abbrev pub Procs : Type 0
Procs = ℕ → Process

-- The loop of `process_init` from pointer `p` on.
unfoldable pub clear_slots : ℕ → ℕ → Procs → Procs
clear_slots zero p procs = procs
clear_slots (suc rounds) p procs =
    clear_slots rounds (p + 1) (update procs p (record (procs p) { state = unused; pid = 0 }))

unfoldable pub process_init : Table → Table
process_init t = record t {
  processes = clear_slots max_processes 1 t.processes;
  current_process = 0;
  next_pid = 1;
}

-- The first free slot from pointer `p` on, 0 for none.
unfoldable pub find_slot : ℕ → ℕ → Procs → ℕ
find_slot zero p procs = 0
find_slot (suc rounds) p procs =
    let rest = find_slot rounds (p + 1) procs in if is_unused (procs p).state then p else rest

unfoldable pub alloc_process_slot : Procs → ℕ
alloc_process_slot procs = find_slot max_processes 1 procs

-- `*--sp = value;`
abbrev pub push : ℕ → ℕ × Words → ℕ × Words
push value (sp, w) = (sp - 8, update w (sp - 8) value)

-- The first context of a thread: the entry point to return to, and six registers.
unfoldable pub initial_stack : ℕ → ℕ → Words → ℕ × Words
initial_stack top entry w =
    push 0 (push 0 (push 0 (push 0 (push 0 (push 0 (push entry (top, w)))))))

-- The rest of `process_create_kernel_thread`, once there are a slot and a stack.
unfoldable pub start_thread : ℕ → ℕ → List ℕ → ℕ → ℤ → Table → Table
start_thread proc stack name entry priority t =
    let top = stack + kernel_stack_size in
    let (sp, w) = initial_stack top entry t.vmm.words in
    record t {
      processes = update t.processes proc (record (t.processes proc) {
        pid = t.next_pid;
        state = ready;
        priority = priority;
        page_table = 0;
        parent = t.current_process;
        exit_code = pos 0;
        total_time = 0;
        time_slice = 10;
        wake_time = 0;
        next = 0;
        prev = 0;
        name = take 31 name;
        kernel_stack = stack;
        kernel_stack_top = top;
        context = sp;
      });
      next_pid = (t.next_pid + 1) % 2 ^ 64;
      vmm = record t.vmm { words = w };
    }

abbrev pub with_stack : ℕ → List ℕ → ℕ → ℤ → Table → Option ℕ × Pmm → ℕ × Table
with_stack proc name entry priority t (none, pmm1) =
    (0, record t { vmm = record t.vmm { pmm = pmm1 } })
with_stack proc name entry priority t (some stack, pmm1) = (
  proc,
  start_thread proc stack name entry priority (record t { vmm = record t.vmm { pmm = pmm1 } }),
)

unfoldable pub process_create_kernel_thread : List ℕ → ℕ → ℤ → Table → ℕ × Table
process_create_kernel_thread name entry priority t =
    let proc = alloc_process_slot t.processes in
    if proc == 0
    then (0, t)
    else with_stack proc name entry priority t
        (alloc_pages t.vmm.pmm (kernel_stack_size / page_size))

unfoldable pub process_create : List ℕ → ℕ → ℤ → Table → ℕ × Table
process_create name entry priority t = process_create_kernel_thread name entry priority t

-- What `process_exit` has done when it halts for good.
unfoldable pub process_exit : ℤ → Table → Table
process_exit code t =
    let p = t.current_process in
    if p == 0 then t else record t {
      processes =
          update t.processes p (record (t.processes p) { state = zombie; exit_code = code });
    }

unfoldable pub process_destroy : ℕ → Table → Table
process_destroy p t =
    let proc = t.processes p in
    let vmm1 = if proc.kernel_stack == 0 then t.vmm else record t.vmm {
      pmm = free_pages t.vmm.pmm proc.kernel_stack (kernel_stack_size / page_size);
    } in
    let vmm2 =
      if proc.page_table == 0 then vmm1 else vmm_destroy_address_space proc.page_table vmm1 in
    if (p == 0) || is_unused proc.state then t else record t {
      vmm = vmm2;
      processes = update t.processes p (record proc { state = unused; pid = 0 });
    }

unfoldable pub process_current : Table → ℕ
process_current t = t.current_process

-- The first process from pointer `p` on that is in use and has the identifier.
unfoldable pub find_pid : ℕ → ℕ → ℕ → Procs → ℕ
find_pid zero p pid procs = 0
find_pid (suc rounds) p pid procs =
    let rest = find_pid rounds (p + 1) pid procs in
    if not (is_unused (procs p).state) && ((procs p).pid == pid) then p else rest

unfoldable pub process_get : ℕ → Table → ℕ
process_get pid t = find_pid max_processes 1 pid t.processes

unfoldable pub process_get_table : Table → Procs × ℕ
process_get_table t = (t.processes, max_processes)

unfoldable pub process_set_current : ℕ → Table → Table
process_set_current p t =
    if p == 0
    then record t { current_process = p }
    else record t { current_process = p; rsp0 = (t.processes p).kernel_stack_top }
