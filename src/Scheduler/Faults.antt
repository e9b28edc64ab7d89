-- ===== src/Scheduler/Faults.antt =====
-- Where kernel/proc/scheduler.c loses processes: `scheduler_remove` of one that stands in no queue.
use simpleos.Common.{
  ℕ, ◌<◌, ◌≡◌, ◌≢◌, refl, arith, true, false, not, ◌==◌, ==_false, if◌then◌else◌, List, [], ap, sym,
  ◌∙◌, subst, Bool-cases, inl, inr,
}
use simpleos.Process.{ready, running, blocked, is_unused, is_running, process_current}
use simpleos.Scheduler.{
  Scheduler, procs_of, with_procs, clamp, set_state, scheduler_add, scheduler_remove, switch_to,
  resume, schedule, find_next_process,
}
use simpleos.Scheduler.Queue.{Chain, has, has-ne}
use simpleos.Scheduler.Invariant.{IsQueues, is_nil, clamp-lt}
use simpleos.Scheduler.Adding.{not_null}
use simpleos.Scheduler.Choice.{find_next_process-idle, lowest_queue-none}
use simpleos.Scheduler.Schedule.{
  set_state-other, resume-processes, resume-current, schedule-switch_to, not_ready_out,
}

-- `scheduler_remove` of a process with no links empties the queue of its priority.
record IsForgotten (p : ℕ) (s s' : Scheduler) : Type 0 where
  heads :
      (j : ℕ)
      → s'.ready_queues j ≡ (if clamp (procs_of s p).priority == j then 0 else s.ready_queues j)
  marks :
      (j : ℕ)
      → s'.ready_bitmap j ≡ (if clamp (procs_of s p).priority == j then false else s.ready_bitmap j)
  states : (x : ℕ) → (procs_of s' x).state ≡ (procs_of s x).state
  idle : s'.idle_proc ≡ s.idle_proc

remove-IsForgotten :
    (p : ℕ) (s : Scheduler)
    → 0 < p
    → (procs_of s p).prev ≡ 0
    → (procs_of s p).next ≡ 0
    → IsForgotten p s (scheduler_remove p s)
unfolding scheduler_remove
remove-IsForgotten p s some_p no_prev no_next = rw (not_null p some_p) record {
  heads = λ j. ground (arith, no_prev, no_next);
  marks = λ j. ground (arith, no_prev, no_next);
  states = λ x. ground (arith, no_prev, no_next);
  idle = refl;
}

-- `scheduler_block` and `scheduler_sleep` call `scheduler_remove` for the process that runs, which is in
-- no queue, when they have made it blocked. Then, on well-formed queues, with no process of another
-- priority ready, the scheduler finds only the idle process, although every process of
-- the queue of that priority is still ready: the queue is forgotten.
pub remove-forgets :
    {q : ℕ → List ℕ} {s : Scheduler}
    → IsQueues q s
    → (p x : ℕ) → 0 < p
    → (procs_of s p).prev ≡ 0
    → (procs_of s p).next ≡ 0
    → is_running (procs_of s p).state ≡ true
    → ((j : ℕ) → j < 32 → j ≢ clamp (procs_of s p).priority → q j ≡ [])
    → has x (q (clamp (procs_of s p).priority)) ≡ true
    → (let s' = scheduler_remove p (with_procs (set_state p blocked (procs_of s)) s) in
        (find_next_process s' ≡ s.idle_proc) × ((procs_of s' x).state ≡ ready))
unfolding find_next_process
remove-forgets {q} {s} v p x some_p no_prev no_next runs alone inside =
    (let s0 = with_procs (set_state p blocked (procs_of s)) s in
      let level = clamp (procs_of s p).priority in
      let same : (procs_of s0 p).priority ≡ (procs_of s p).priority = ground arith in
      let f = remove-IsForgotten p s0 some_p (ground (arith, no_prev)) (ground (arith, no_next)) in
      let out = not_ready_out v p runs level (clamp-lt (procs_of s p).priority) in
      let kept : (procs_of s0 x).state ≡ (procs_of s x).state =
        ground (arith, has-ne p x (q level) out inside) in
      (
        lowest_queue-none 32 0 (scheduler_remove p s0) (λ j h.
              f.marks j
              ∙ ap (λ l. if l == j then false else s.ready_bitmap j) (ap clamp same)
              ∙ cleared s level j
                  (λ other. v.bits j h ∙ ap (λ ps. not (is_nil ps)) (alone j h other)))
            ∙ f.idle,
        f.states x ∙ kept ∙ v.states level x (clamp-lt (procs_of s p).priority) inside,
      ))
  where
    cleared :
        (s : Scheduler) (level j : ℕ)
        → (j ≢ level → s.ready_bitmap j ≡ false)
        → (if level == j then false else s.ready_bitmap j) ≡ false
    cleared s level j other = elim (Bool-cases (level == j)) [
      | inl here ↦ rw here refl
      | inr apart ↦ rw apart (other (λ e. ==_false level j apart (sym e)))
    ]

-- `scheduler_add` to an empty queue.
record IsAlone (p : ℕ) (s s' : Scheduler) : Type 0 where
  marks :
      (j : ℕ)
      → s'.ready_bitmap j ≡ (if clamp (procs_of s p).priority == j then true else s.ready_bitmap j)
  others : (x : ℕ) → x ≢ p → procs_of s' x ≡ procs_of s x
  waits : (procs_of s' p).state ≡ ready
  idle : s'.idle_proc ≡ s.idle_proc

add-IsAlone :
    (p : ℕ) (s : Scheduler)
    → 0 < p
    → is_unused (procs_of s p).state ≡ false
    → s.ready_queues (clamp (procs_of s p).priority) ≡ 0
    → IsAlone p s (scheduler_add p s)
unfolding scheduler_add
add-IsAlone p s some_p used empty =
    rw (not_null p some_p, used, ap (λ n. n == 0) empty)
      record {
        marks = λ j. refl;
        others = λ x other. ground (arith, other);
        waits = ground arith;
        idle = refl;
      }

-- The switch to an idle process that is in no queue, from a process of the same priority.
module _ (s : Scheduler) (c idle : ℕ) (some_c : 0 < c)
    (runs : is_running (procs_of s c).state ≡ true) (level : clamp (procs_of s c).priority ≡ 31)
    (empty : s.ready_queues 31 ≡ 0) (some_idle : 0 < idle) (other : idle ≢ c)
    (no_prev : (procs_of s idle).prev ≡ 0) (no_next : (procs_of s idle).next ≡ 0)
    (idle_level : clamp (procs_of s idle).priority ≡ 31)
    (clear : (j : ℕ) → j < 32 → s.ready_bitmap j ≡ false) where
  abbrev s0 : Scheduler
  s0 = with_procs (set_state c ready (procs_of s)) s

  abbrev s1 : Scheduler
  s1 = scheduler_add c s0

  same_priority : (procs_of s0 c).priority ≡ (procs_of s c).priority
  same_priority = ground arith

  level0 : clamp (procs_of s0 c).priority ≡ 31
  level0 = ap clamp same_priority ∙ level

  alone : IsAlone c s0 s1
  alone = add-IsAlone c s0 some_c (ground arith) (ap s.ready_queues level0 ∙ empty)

  idle_same : procs_of s1 idle ≡ procs_of s idle
  idle_same = alone.others idle other ∙ set_state-other c ready (procs_of s) idle other

  forgotten : IsForgotten idle s1 (scheduler_remove idle s1)
  forgotten =
      remove-IsForgotten idle s1 some_idle (ap (λ r. r.prev) idle_same ∙ no_prev)
        (ap (λ r. r.next) idle_same ∙ no_next)

  idle_level1 : clamp (procs_of s1 idle).priority ≡ 31
  idle_level1 = ap (λ r. clamp r.priority) idle_same ∙ idle_level

  clear_after : (j : ℕ) → j < 32 → (scheduler_remove idle s1).ready_bitmap j ≡ false
  clear_after j h =
      forgotten.marks j
      ∙ ap (λ l. if l == j then false else s1.ready_bitmap j) idle_level1
      ∙ ap (λ b. if 31 == j then false else b)
          (alone.marks j ∙ ap (λ l. if l == j then true else s.ready_bitmap j) level0)
      ∙ ground (arith, clear j h)

  switch_to-resume :
      switch_to c idle s
      ≡ resume c idle (
          with_procs
            (set_state idle running (procs_of (scheduler_remove idle s1)))
            (scheduler_remove idle s1))
  unfolding switch_to
  switch_to-resume = rw (not_null c some_c, runs) refl

  abbrev s3 : Scheduler
  s3 =
      with_procs (set_state idle running (procs_of (scheduler_remove idle s1)))
        (scheduler_remove idle s1)

  found : find_next_process (resume c idle s3) ≡ s.idle_proc
  unfolding find_next_process resume
  found =
      lowest_queue-none 32 0 (resume c idle s3) (λ j h. clear_after j h)
      ∙ forgotten.idle
      ∙ alone.idle

  forgets :
      (process_current (switch_to c idle s).table ≡ idle)
      × ((find_next_process (switch_to c idle s) ≡ s.idle_proc)
          × ((procs_of (switch_to c idle s) c).state ≡ ready))
  forgets =
      subst
        (λ s'.
          (process_current s'.table ≡ idle)
          × ((find_next_process s' ≡ s.idle_proc) × ((procs_of s' c).state ≡ ready)))
        (sym switch_to-resume)
        (
          resume-current c idle s3,
          (
            found,
            ap (λ procs. (procs c).state) (resume-processes c idle s3)
                ∙ ap (λ r. r.state)
                    (set_state-other idle running (procs_of (scheduler_remove idle s1)) c
                      (λ e. other (sym e)))
                ∙ forgotten.states c
                ∙ alone.waits,
          ),
        )

-- With no process ready, `schedule` runs the idle process although the current one could run on. If
-- that one has the lowest priority, which is that of the idle process, then it is in no queue
-- afterwards: taking the idle process, which is in no queue, out of the queue empties it. The
-- scheduler finds only the idle process from then on.
pub schedule-forgets :
    {q : ℕ → List ℕ} {s : Scheduler}
    → IsQueues q s
    → ((j : ℕ) → j < 32 → q j ≡ [])
    → (c : ℕ) → process_current s.table ≡ c
    → 0 < c
    → is_running (procs_of s c).state ≡ true
    → clamp (procs_of s c).priority ≡ 31
    → 0 < s.idle_proc
    → s.idle_proc ≢ c
    → (procs_of s s.idle_proc).prev ≡ 0
    → (procs_of s s.idle_proc).next ≡ 0
    → clamp (procs_of s s.idle_proc).priority ≡ 31
    → (process_current (schedule s).table ≡ s.idle_proc)
      × ((find_next_process (schedule s) ≡ s.idle_proc) × ((procs_of (schedule s) c).state ≡ ready))
schedule-forgets {q} {s} v empty c now some_c runs lowest some_idle other no_prev no_next
      idle_level =
    subst
      (λ s'.
        (process_current s'.table ≡ s.idle_proc)
        × ((find_next_process s' ≡ s.idle_proc) × ((procs_of s' c).state ≡ ready)))
      (sym
        (schedule-switch_to c s.idle_proc s some_idle other now (find_next_process-idle v empty)))
      (forgets s c s.idle_proc some_c runs lowest
        (subst (λ ps. Chain (procs_of s) 0 (s.ready_queues 31) ps) (empty 31 (omega arith))
          (v.chains 31 (omega arith)))
        some_idle other no_prev no_next idle_level
        (λ j h. v.bits j h ∙ ap (λ ps. not (is_nil ps)) (empty j h)))
