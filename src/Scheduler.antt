-- ===== src/Scheduler.antt =====
-- The scheduler, kernel/proc/scheduler.c: 32 ready queues, linked through the processes, with a bit for
-- each that is not empty; the sleep queue; and the switches between processes. `bit i` of
-- `ready_bitmap` is the value of the bitmap at `i`. A call of context_switch, which is assembly, is
-- recorded with the two processes, the last switch first.
pub mod Queue
pub mod Invariant
pub mod Adding
pub mod Removing
pub mod Choice
pub mod Schedule
pub mod Faults
pub mod Sleeping
pub mod Insertion
pub mod Samples
mod Examples
use simpleos.Common.{
  ℕ, zero, suc, ◌+◌, ◌-◌, ◌*◌, ◌/◌, ◌%◌, ◌^◌, Bool, true, false, not, ◌&&◌, ◌||◌, ltb, leb, ◌==◌,
  if◌then◌else◌, List, [], ◌∷◌, ℤ, pos, negsuc,
}
use simpleos.Common.Bytes.{update}
use simpleos.Process.{
  Process, Procs, Table, ProcState, unused, ready, running, blocked, zombie, is_unused, is_running,
  is_blocked, max_processes, process_init, process_create_kernel_thread, process_current,
  process_set_current,
}
use simpleos.Vmm.{vmm_switch_address_space}

abbrev pub priority_levels : ℕ
priority_levels = 32

abbrev pub time_slice_base : ℕ
time_slice_base = 5

pub record Scheduler : Type 0 where
  pub ready_queues : ℕ → ℕ
  pub ready_bitmap : ℕ → Bool
  pub sleep_queue : ℕ
  pub scheduler_running : Bool
  pub current_tick : ℕ
  pub idle_proc : ℕ
  pub table : Table
  pub timer_set : Bool
  pub switches : List (ℕ × ℕ)

abbrev pub procs_of : Scheduler → Procs
procs_of s = s.table.processes

abbrev pub with_procs : Procs → Scheduler → Scheduler
with_procs procs s = record s { table = record s.table { processes = procs } }

-- `if (prio < 0) prio = 0; if (prio >= SCHED_PRIORITY_LEVELS) prio = SCHED_PRIORITY_LEVELS - 1;`
abbrev pub clamp : ℤ → ℕ
clamp (negsuc n) = 0
clamp (pos n) = if leb priority_levels n then priority_levels - 1 else n

abbrev pub set_next : ℕ → ℕ → Procs → Procs
set_next p q procs = update procs p (record (procs p) { next = q })

abbrev pub set_prev : ℕ → ℕ → Procs → Procs
set_prev p q procs = update procs p (record (procs p) { prev = q })

abbrev pub set_state : ℕ → ProcState → Procs → Procs
set_state p state procs = update procs p (record (procs p) { state = state })

-- `while (tail->next) tail = tail->next;`, with fuel: a queue has at most 64 processes.
unfoldable pub find_tail : ℕ → Procs → ℕ → ℕ
find_tail zero procs tail = tail
find_tail (suc fuel) procs tail =
    let rest = find_tail fuel procs (procs tail).next in
    if (procs tail).next == 0 then tail else rest

-- The end of `scheduler_add`.
abbrev pub make_ready : ℕ → ℕ → Procs → Procs
make_ready p prio procs =
    update procs p
      (record (procs p) { state = ready; time_slice = time_slice_base + (priority_levels - prio) })

unfoldable pub scheduler_add : ℕ → Scheduler → Scheduler
scheduler_add p s =
    let prio = clamp (procs_of s p).priority in
    let procs1 = set_prev p 0 (set_next p 0 (procs_of s)) in
    let tail = find_tail max_processes procs1 (s.ready_queues prio) in
    if (p == 0) || is_unused (procs_of s p).state
    then s
    else if s.ready_queues prio == 0
    then with_procs (make_ready p prio procs1) (record s {
      ready_queues = update s.ready_queues prio p;
      ready_bitmap = update s.ready_bitmap prio true;
    })
    else with_procs (make_ready p prio (set_prev p tail (set_next tail p procs1))) s

-- Taking a process out of its list: what the neighbours point to, and then the process.
abbrev pub unlink : ℕ → Procs → Procs
unlink p procs =
    let before = (procs p).prev in
    let after = (procs p).next in
    let procs1 = if before == 0 then procs else set_next before after procs in
    let procs2 = if after == 0 then procs1 else set_prev after before procs1 in
    set_prev p 0 (set_next p 0 procs2)

unfoldable pub scheduler_remove : ℕ → Scheduler → Scheduler
scheduler_remove p s =
    let prio = clamp (procs_of s p).priority in
    let queues =
      if (procs_of s p).prev == 0
      then update s.ready_queues prio (procs_of s p).next
      else s.ready_queues in
    if p == 0
    then s
    else with_procs (unlink p (procs_of s)) (record s {
      ready_queues = queues;
      ready_bitmap = if queues prio == 0 then update s.ready_bitmap prio false else s.ready_bitmap;
    })

-- `__builtin_ctz`: the lowest bit set from `i` on, and the head of its queue; the idle process if there
-- is none.
unfoldable pub lowest_queue : ℕ → ℕ → Scheduler → ℕ
lowest_queue zero i s = s.idle_proc
lowest_queue (suc rounds) i s =
    let rest = lowest_queue rounds (i + 1) s in if s.ready_bitmap i then s.ready_queues i else rest

unfoldable pub find_next_process : Scheduler → ℕ
find_next_process s = lowest_queue priority_levels 0 s

-- `scheduler_init`, with the entry point of the idle thread.
unfoldable pub scheduler_init : ℕ → Scheduler → Scheduler
scheduler_init idle_entry s =
    let (idle, table) =
      process_create_kernel_thread (b'i' ∷ b'd' ∷ b'l' ∷ b'e' ∷ []) idle_entry (pos 31)
        (process_init s.table) in
    let s1 = record s {
      ready_queues = λ i. if ltb i priority_levels then 0 else s.ready_queues i;
      ready_bitmap = λ i. false;
      sleep_queue = 0;
      scheduler_running = false;
      current_tick = 0;
      idle_proc = idle;
      table = table;
    } in
    if idle == 0 then s1 else with_procs (set_state idle ready (procs_of s1)) s1

-- The end of `schedule`: the current process, its address space, and the switch.
unfoldable pub resume : ℕ → ℕ → Scheduler → Scheduler
resume current next s =
    let table = process_set_current next s.table in
    record s {
      table = record table {
        vmm = vmm_switch_address_space (procs_of s next).page_table table.vmm;
      };
      switches = (current, next) ∷ s.switches;
    }

-- The switch to another process.
unfoldable pub switch_to : ℕ → ℕ → Scheduler → Scheduler
switch_to current next s =
    let s1 =
      if not (current == 0) && is_running (procs_of s current).state
      then scheduler_add current (with_procs (set_state current ready (procs_of s)) s)
      else s in
    let s2 = scheduler_remove next s1 in
    resume current next (with_procs (set_state next running (procs_of s2)) s2)

unfoldable pub schedule : Scheduler → Scheduler
schedule s =
    let current = process_current s.table in
    let next = find_next_process s in
    if next == 0 then s else if current == next then s else switch_to current next s

-- The `while` loop of `scheduler_tick`, with a round for each process that may sleep.
unfoldable pub wake : ℕ → Scheduler → Scheduler
wake zero s = s
wake (suc rounds) s =
    let p = s.sleep_queue in
    let after = (procs_of s p).next in
    let procs1 = if after == 0 then procs_of s else set_prev after 0 (procs_of s) in
    let woken =
      scheduler_add p
        (with_procs (set_prev p 0 (set_next p 0 procs1)) (record s { sleep_queue = after })) in
    let rest = wake rounds woken in
    if not (p == 0) && leb (procs_of s p).wake_time s.current_tick then rest else s

-- The time slice of the current process.
unfoldable pub count_tick : ℕ → Scheduler → Scheduler
count_tick current s =
    let proc = procs_of s current in
    let s1 =
      with_procs
        (update (procs_of s) current (record proc {
          total_time = (proc.total_time + 1) % 2 ^ 64;
          time_slice = proc.time_slice - 1;
        }))
        s in
    if not (current == 0) && is_running proc.state
    then (if proc.time_slice - 1 == 0 then schedule s1 else s1)
    else s

unfoldable pub scheduler_tick : Scheduler → Scheduler
scheduler_tick s =
    let s1 = wake max_processes (record s { current_tick = (s.current_tick + 1) % 2 ^ 64 }) in
    count_tick (process_current s1.table) s1

unfoldable pub scheduler_block : ℕ → Scheduler → Scheduler
scheduler_block given s =
    let p = if given == 0 then process_current s.table else given in
    let s1 = scheduler_remove p (with_procs (set_state p blocked (procs_of s)) s) in
    if p == 0 then s else if p == process_current s1.table then schedule s1 else s1

unfoldable pub scheduler_unblock : ℕ → Scheduler → Scheduler
scheduler_unblock p s =
    if (p == 0) || not (is_blocked (procs_of s p).state) then s else scheduler_add p s

unfoldable pub scheduler_yield : Scheduler → Scheduler
scheduler_yield s =
    let p = process_current s.table in
    schedule (
      if p == 0
      then s
      else with_procs (update (procs_of s) p (record (procs_of s p) { time_slice = 0 })) s)

-- The place in the sleep queue: the last process that wakes no later, with fuel.
unfoldable pub find_place : ℕ → Procs → ℕ → ℕ → ℕ
find_place zero procs wake_time place = place
find_place (suc fuel) procs wake_time place =
    let after = (procs place).next in
    let rest = find_place fuel procs wake_time after in
    if not (after == 0) && leb (procs after).wake_time wake_time then rest else place

unfoldable pub insert_sleeper : ℕ → Scheduler → Scheduler
insert_sleeper p s =
    let procs = procs_of s in
    let head = s.sleep_queue in
    let first = set_prev p 0 (set_next p head procs) in
    let place = find_place max_processes procs (procs p).wake_time head in
    let after = (procs place).next in
    let linked = set_prev p place (set_next p after procs) in
    if (head == 0) || ltb (procs p).wake_time (procs head).wake_time
    then with_procs (if head == 0 then first else set_prev head p first)
        (record s { sleep_queue = p })
    else with_procs (set_next place p (if after == 0 then linked else set_prev after p linked)) s

unfoldable pub scheduler_sleep : ℕ → Scheduler → Scheduler
scheduler_sleep ticks s =
    let p = process_current s.table in
    let asleep =
      with_procs
        (update (procs_of s) p (record (procs_of s p) {
          wake_time = (s.current_tick + ticks) % 2 ^ 64;
          state = blocked;
        }))
        s in
    if p == 0 then s else schedule (insert_sleeper p (scheduler_remove p asleep))

unfoldable pub scheduler_start : Scheduler → Scheduler
scheduler_start s = schedule (record s { scheduler_running = true; timer_set = true })
