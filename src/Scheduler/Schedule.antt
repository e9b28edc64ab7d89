-- ===== src/Scheduler/Schedule.antt =====
-- `schedule` of kernel/proc/scheduler.c, when a process runs and others are ready.
use simpleos.Common.{
  ℕ, ◌≤◌, ◌<◌, ◌≡◌, ◌≢◌, refl, arith, true, false, ◌==◌, ==_iff, ==_false, List, [], ◌∷◌, ◌++◌, ap,
  sym, ◌∙◌, subst, true≢false, Bool-cases, inl, inr,
}
use simpleos.Common.Bytes.{update}
use simpleos.Process.{
  Procs, Table, ProcState, unused, ready, running, blocked, zombie, is_unused, is_running,
  process_current, process_set_current, max_processes,
}
use simpleos.Scheduler.{
  Scheduler, procs_of, with_procs, clamp, set_state, scheduler_add, scheduler_remove, resume,
  switch_to, schedule, find_next_process,
}
use simpleos.Scheduler.Queue.{==_ne, Chain, Chain-frame, has, erase}
use simpleos.Scheduler.Invariant.{IsQueues, has-erase, only_queue, member_pos, clamp-lt, has-snoc}
use simpleos.Scheduler.Adding.{Added, relinked, scheduler_add-IsQueues, not_null}
use simpleos.Scheduler.Removing.{scheduler_remove-IsQueues}
use simpleos.Scheduler.Choice.{find_next_process-first}

-- A change that spares the queues and the processes in them.
pub IsQueues-frame :
    (q : ℕ → List ℕ) (s s' : Scheduler)
    → ((i : ℕ) → s'.ready_queues i ≡ s.ready_queues i)
    → ((i : ℕ) → s'.ready_bitmap i ≡ s.ready_bitmap i)
    → ((i x : ℕ) → i < 32 → has x (q i) ≡ true → procs_of s' x ≡ procs_of s x)
    → IsQueues q s
    → IsQueues q s'
IsQueues-frame q s s' heads marks same v = record {
  chains = λ i h.
      subst (λ head. Chain (procs_of s') 0 head (q i)) (sym (heads i))
        (Chain-frame (procs_of s) (procs_of s') 0 (s.ready_queues i) (q i)
          (λ x inside. (ap (λ r. r.next) (same i x h inside), ap (λ r. r.prev) (same i x h inside)))
          (v.chains i h));
  distinct = v.distinct;
  levels = λ i x h inside. ap (λ r. clamp r.priority) (same i x h inside) ∙ v.levels i x h inside;
  states = λ i x h inside. ap (λ r. r.state) (same i x h inside) ∙ v.states i x h inside;
  slots = v.slots;
  bits = λ i h. marks i ∙ v.bits i h;
}

-- The state of a process that is in no queue.
pub set_state-IsQueues :
    (q : ℕ → List ℕ) (s : Scheduler) (p : ℕ) (state : ProcState)
    → ((i : ℕ) → i < 32 → has p (q i) ≡ false)
    → IsQueues q s
    → IsQueues q (with_procs (set_state p state (procs_of s)) s)
set_state-IsQueues q s p state out v =
    IsQueues-frame q s (with_procs (set_state p state (procs_of s)) s) (λ i. refl) (λ i. refl)
      (λ i x h inside.
        ground
          (arith, inside, out i h, λ (e : x ≡ p). sym inside ∙ ap (λ y. has y (q i)) e ∙ out i h))
      v

pub set_state-other :
    (p : ℕ) (state : ProcState) (procs : Procs) (x : ℕ)
    → x ≢ p
    → set_state p state procs x ≡ procs x
set_state-other p state procs x other = ground (arith, other)

-- A process that is not ready is in no queue.
pub not_ready_out :
    {q : ℕ → List ℕ} {s : Scheduler}
    → IsQueues q s
    → (p : ℕ) → is_running (procs_of s p).state ≡ true
    → (i : ℕ) → i < 32
    → has p (q i) ≡ false
not_ready_out {q} {s} v p state i h = elim (Bool-cases (has p (q i))) [
  | inl inside ↦ absurd (true≢false (sym state ∙ ap is_running (v.states i p h inside)))
  | inr out ↦ out
]

-- The queues once `c` is behind the others of level `l`, and `r` has left level `i`.
abbrev pub turned : ℕ → ℕ → ℕ → ℕ → (ℕ → List ℕ) → ℕ → List ℕ
turned c l r i q = let longer = update q l (q l ++ (c ∷ [])) in update longer i (erase r (longer i))

-- `r`, first of level `i`, runs in place of `c`, which is ready.
pub record IsSwitched (q : ℕ → List ℕ) (c r i : ℕ) (s s' : Scheduler) : Type 0 where
  pub queues : IsQueues (turned c (clamp (procs_of s c).priority) r i q) s'
  pub current : process_current s'.table ≡ r
  pub recorded : s'.switches ≡ (c, r) ∷ s.switches
  pub runs : (procs_of s' r).state ≡ running
  pub waits : (procs_of s' c).state ≡ ready
  pub others : (x : ℕ) → x ≢ c → x ≢ r → procs_of s' x ≡ relinked (procs_of s x) (procs_of s' x)

set_current-processes : (p : ℕ) (t : Table) → (process_set_current p t).processes ≡ t.processes
unfolding process_set_current
set_current-processes p t = elim (Bool-cases (p == 0)) [
  | inl here ↦ rw here refl
  | inr apart ↦ rw apart refl
]

set_current-current : (p : ℕ) (t : Table) → process_current (process_set_current p t) ≡ p
unfolding process_set_current process_current
set_current-current p t = elim (Bool-cases (p == 0)) [
  | inl here ↦ rw here refl
  | inr apart ↦ rw apart refl
]

pub resume-processes : (c r : ℕ) (s : Scheduler) → procs_of (resume c r s) ≡ procs_of s
unfolding resume
resume-processes c r s = set_current-processes r s.table

pub resume-current : (c r : ℕ) (s : Scheduler) → process_current (resume c r s).table ≡ r
unfolding resume process_set_current process_current
resume-current c r s = set_current-current r s.table

resume-IsQueues :
    (q : ℕ → List ℕ) (c r : ℕ) (s : Scheduler) → IsQueues q s → IsQueues q (resume c r s)
unfolding resume
resume-IsQueues q c r s v =
    IsQueues-frame q s (resume c r s) (λ i. refl) (λ i. refl)
      (λ i x h inside. ap (λ procs. procs x) (resume-processes c r s)) v

resume-switches : (c r : ℕ) (s : Scheduler) → (resume c r s).switches ≡ (c, r) ∷ s.switches
unfolding resume
resume-switches c r s = refl

pub is_unused-running : (state : ProcState) → is_running state ≡ true → is_unused state ≡ false
is_unused-running unused e = absurd (true≢false (sym e))
is_unused-running ready e = refl
is_unused-running running e = refl
is_unused-running blocked e = refl
is_unused-running zombie e = refl

scheduler_add-switches : (p : ℕ) (s : Scheduler) → (scheduler_add p s).switches ≡ s.switches
unfolding scheduler_add
scheduler_add-switches p s = ground arith

scheduler_remove-switches : (p : ℕ) (s : Scheduler) → (scheduler_remove p s).switches ≡ s.switches
unfolding scheduler_remove
scheduler_remove-switches p s = ground arith

pub schedule-switch_to :
    (c r : ℕ) (s : Scheduler)
    → 0 < r
    → r ≢ c
    → process_current s.table ≡ c
    → find_next_process s ≡ r
    → schedule s ≡ switch_to c r s
unfolding schedule
schedule-switch_to c r s some_r other now found =
    rw (now, found, not_null r some_r, ==_ne c r (λ e. other (sym e))) refl

-- `c` runs, and `r` is ready at level `i`.
module _ {q : ℕ → List ℕ} {s : Scheduler} (v : IsQueues q s) (c r i : ℕ) (some_c : 0 < c)
    (slot : c ≤ max_processes) (runs : is_running (procs_of s c).state ≡ true) (h : i < 32)
    (inside : has r (q i) ≡ true) where
  abbrev level : ℕ
  level = clamp (procs_of s c).priority

  abbrev s0 : Scheduler
  s0 = with_procs (set_state c ready (procs_of s)) s

  out : (j : ℕ) → j < 32 → has c (q j) ≡ false
  out = not_ready_out v c runs

  pub not_current : r ≢ c
  not_current e = true≢false (sym inside ∙ ap (λ x. has x (q i)) e ∙ out i h)

  v0 : IsQueues q s0
  v0 = set_state-IsQueues q s c ready out v

  same_priority : (procs_of s0 c).priority ≡ (procs_of s c).priority
  same_priority = ground arith

  same_level : clamp (procs_of s0 c).priority ≡ level
  same_level = ap clamp same_priority

  abbrev longer : ℕ → List ℕ
  longer = update q level (q level ++ (c ∷ []))

  abbrev s1 : Scheduler
  s1 = scheduler_add c s0

  used : is_unused (procs_of s0 c).state ≡ false
  used = ground arith

  added :
      IsQueues
        (update q (clamp (procs_of s0 c).priority) (q (clamp (procs_of s0 c).priority) ++ (c ∷ [])))
        s1
      × Added v0 c some_c slot
          (out (clamp (procs_of s0 c).priority) (clamp-lt (procs_of s0 c).priority))
          (procs_of s1)
  added =
      scheduler_add-IsQueues v0 c some_c slot
        (out (clamp (procs_of s0 c).priority) (clamp-lt (procs_of s0 c).priority)) used

  v1 : IsQueues longer s1
  v1 = subst (λ l. IsQueues (update q l (q l ++ (c ∷ []))) s1) same_level added.0

  inside1 : has r (longer i) ≡ true
  inside1 = elim (Bool-cases (level == i)) [
    | inl here ↦
        ground
          (arith, here, has-snoc r c (q level), inside, ap (λ j. has r (q j)) ((==_iff _ _).0 here))
    | inr apart ↦ ground (arith, apart, inside)
  ]

  level1 : clamp (procs_of s1 r).priority ≡ i
  level1 = v1.levels i r h inside1

  abbrev s2 : Scheduler
  s2 = scheduler_remove r s1

  removed :
      IsQueues (turned c level r i q) s2
      × ((x : ℕ) → procs_of s2 x ≡ relinked (procs_of s1 x) (procs_of s2 x))
  removed =
      (let there : has r (longer (clamp (procs_of s1 r).priority)) ≡ true =
          ap (λ j. has r (longer j)) level1 ∙ inside1 in
        let both = scheduler_remove-IsQueues v1 r there in
        (subst (λ l. IsQueues (update longer l (erase r (longer l))) s2) level1 both.0, both.1))

  out2 : (j : ℕ) → j < 32 → has r (turned c level r i q j) ≡ false
  out2 j less = elim (Bool-cases (i == j)) [
    | inl here ↦ rw here (has-erase r r (longer i) (v1.distinct i h) ∙ ground arith)
    | inr apart ↦ rw apart (only_queue v1 j r less (λ e. ==_false i j apart (sym level1 ∙ e)))
  ]

  abbrev s3 : Scheduler
  s3 = with_procs (set_state r running (procs_of s2)) s2

  final : procs_of (resume c r s3) ≡ set_state r running (procs_of s2)
  final = resume-processes c r s3

  resume-IsSwitched : IsSwitched q c r i s (resume c r s3)
  resume-IsSwitched = record {
    queues = resume-IsQueues _ c r s3 (set_state-IsQueues _ s2 r running out2 removed.0);
    current = resume-current c r s3;
    recorded =
        resume-switches c r s3
        ∙ ap (λ l. (c, r) ∷ l) (scheduler_remove-switches r s1 ∙ scheduler_add-switches c s0);
    runs = ap (λ procs. (procs r).state) final ∙ ground arith;
    waits =
        ap (λ procs. (procs c).state) final
        ∙ ap (λ r. r.state) (set_state-other r running (procs_of s2) c (λ e. not_current (sym e)))
        ∙ ap (λ r. r.state) (removed.1 c)
        ∙ ap (λ r. r.state) added.1.1;
    others = λ x other other'.
        ap (λ procs. procs x) final
        ∙ set_state-other r running (procs_of s2) x other'
        ∙ removed.1 x
        ∙ ap (λ o. relinked o (procs_of s2 x))
            (added.1.0 x other
              ∙ ap (λ o. relinked o (procs_of s1 x)) (set_state-other c ready (procs_of s) x other))
        ∙ ap (relinked (procs_of s x))
            (sym (ap (λ procs. procs x) final ∙ set_state-other r running (procs_of s2) x other'));
  }

  pub switch_to-IsSwitched : IsSwitched q c r i s (switch_to c r s)
  unfolding switch_to
  switch_to-IsSwitched = rw (not_null c some_c, runs) resume-IsSwitched

  schedule_found :
      process_current s.table ≡ c → find_next_process s ≡ r → IsSwitched q c r i s (schedule s)
  schedule_found now found =
      subst (IsSwitched q c r i s)
        (sym (schedule-switch_to c r s (member_pos v i r h inside) not_current now found))
        switch_to-IsSwitched

-- `schedule` while a process runs and others are ready: the first process of the queue with the
-- highest priority of those that are not empty becomes the current one, leaves its queue and runs; the
-- process that ran is ready, at the end of the queue of its priority; one switch, from that process to
-- this one, is made; of every other process only links change, and the queues stay well formed. The
-- priority of the process that ran plays no part in the choice.
pub schedule-IsSwitched :
    {q : ℕ → List ℕ} {s : Scheduler}
    → IsQueues q s
    → (c r : ℕ) (rs : List ℕ) (i : ℕ) → process_current s.table ≡ c
    → 0 < c
    → c ≤ max_processes
    → is_running (procs_of s c).state ≡ true
    → i < 32
    → q i ≡ r ∷ rs
    → ((j : ℕ) → j < i → q j ≡ [])
    → IsSwitched q c r i s (schedule s)
schedule-IsSwitched v c r rs i now some_c slot runs h e below =
    schedule_found v c r i some_c slot runs h (ap (has r) e ∙ ground arith) now
      (find_next_process-first v i r rs h e below)
