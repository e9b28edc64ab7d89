-- ===== src/Scheduler/Examples.antt =====
-- Small runs of kernel/proc/scheduler.c, and its theorems at concrete states.
use simpleos.Common.{ℕ, sym, true, true≢false, ◌≤◌, ◌≡◌, ◌≢◌, ◌<◌, refl, arith, [], ◌∷◌}
use simpleos.Common.Bytes.{update}
use simpleos.Process.{ready, blocked, process_current}
use simpleos.Scheduler.{
  procs_of, with_procs, set_state, scheduler_add, scheduler_remove, find_next_process, schedule,
  Scheduler, insert_sleeper,
}
use simpleos.Scheduler.Queue.{Chain, has}
use simpleos.Scheduler.Invariant.{IsQueues}
use simpleos.Scheduler.Adding.{Added, relinked, scheduler_add-IsQueues}
use simpleos.Scheduler.Removing.{scheduler_remove-IsQueues}
use simpleos.Scheduler.Choice.{find_next_process-first}
use simpleos.Scheduler.Schedule.{IsSwitched, schedule-IsSwitched}
use simpleos.Scheduler.Insertion.{IsSorted, insert_sleeper-IsSorted}
use simpleos.Scheduler.Faults.{remove-forgets, schedule-forgets}
use simpleos.Scheduler.Samples.{
  two_ready, one_queue, two_ready-IsQueues, none_ready, none_ready-IsQueues,
}

lower_empty : (j : ℕ) → j < 3 → one_queue j ≡ []
lower_empty j h = ground (arith, h)

others_empty : (j : ℕ) → j ≢ 3 → one_queue j ≡ []
others_empty j h = ground (arith, h)

scheduler_add-IsQueues_example :
    IsQueues (update one_queue 31 (4 ∷ [])) (scheduler_add 4 (two_ready 5))
    × Added
        (two_ready-IsQueues 5)
        4
        (omega arith)
        (omega arith)
        refl
        (procs_of (scheduler_add 4 (two_ready 5)))
scheduler_add-IsQueues_example =
    scheduler_add-IsQueues (two_ready-IsQueues 5) 4 (omega arith) (omega arith) refl refl

scheduler_remove-IsQueues_example :
    IsQueues (update one_queue 3 (2 ∷ [])) (scheduler_remove 3 (two_ready 5))
    × ((x : ℕ)
        → procs_of (scheduler_remove 3 (two_ready 5)) x
          ≡ relinked (procs_of (two_ready 5) x) (procs_of (scheduler_remove 3 (two_ready 5)) x))
scheduler_remove-IsQueues_example = scheduler_remove-IsQueues (two_ready-IsQueues 5) 3 refl

find_next_process-first_example : find_next_process (two_ready 5) ≡ 2
find_next_process-first_example =
    find_next_process-first (two_ready-IsQueues 5) 3 2 (3 ∷ []) (omega arith) refl lower_empty

schedule-IsSwitched_example : IsSwitched one_queue 1 2 3 (two_ready 5) (schedule (two_ready 5))
unfolding process_current
schedule-IsSwitched_example =
    schedule-IsSwitched (two_ready-IsQueues 5) 1 2 (3 ∷ []) 3 refl (omega arith) (omega arith) refl
      (omega arith) refl lower_empty

remove-forgets_example :
    (find_next_process (
        scheduler_remove 1
          (with_procs (set_state 1 blocked (procs_of (two_ready 3))) (two_ready 3)))
      ≡ 4)
    × ((procs_of
          (scheduler_remove 1
            (with_procs (set_state 1 blocked (procs_of (two_ready 3))) (two_ready 3)))
          2).state
        ≡ ready)
remove-forgets_example =
    remove-forgets (two_ready-IsQueues 3) 1 2 (omega arith) refl refl refl
      (λ j h other. others_empty j other) refl

schedule-forgets_example :
    (process_current (schedule (none_ready 31)).table ≡ 4)
    × ((find_next_process (schedule (none_ready 31)) ≡ 4)
        × ((procs_of (schedule (none_ready 31)) 1).state ≡ ready))
unfolding process_current
schedule-forgets_example =
    schedule-forgets (none_ready-IsQueues 31) (λ j h. refl) 1 refl (omega arith) refl refl
      (omega arith) (omega arith) refl refl refl

-- Processes 2 and 3 sleep, and process 1 joins them.
abbrev two_asleep : Scheduler
two_asleep = record (two_ready 5) { sleep_queue = 2 }

same_time :
    (y : ℕ)
    → has y (3 ∷ []) ≡ true
    → (procs_of two_asleep 2).wake_time ≤ (procs_of two_asleep y).wake_time
same_time y inside = omega arith

insert_sleeper-IsSorted_example :
    Chain
      (procs_of (insert_sleeper 1 two_asleep))
      0
      (insert_sleeper 1 two_asleep).sleep_queue
      (2 ∷ 3 ∷ 1 ∷ [])
    × IsSorted (procs_of two_asleep) (2 ∷ 3 ∷ 1 ∷ [])
    × ((x : ℕ)
        → procs_of (insert_sleeper 1 two_asleep) x
          ≡ relinked (procs_of two_asleep x) (procs_of (insert_sleeper 1 two_asleep) x))
insert_sleeper-IsSorted_example =
    insert_sleeper-IsSorted two_asleep 1 (omega arith) (2 ∷ 3 ∷ [])
      (refl, omega arith, refl, (refl, omega arith, refl, refl)) (refl, (refl, tt)) (omega arith)
      refl (same_time, ((λ y inside. absurd (true≢false (sym inside))), tt))
