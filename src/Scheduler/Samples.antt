-- ===== src/Scheduler/Samples.antt =====
-- States of kernel/proc/scheduler.c for the tests: process 1 runs, 4 is the idle process.
use simpleos.Common.{
  ℕ, pos, ◌≡◌, refl, sym, arith, Bool, true, false, ◌||◌, ◌==◌, ==_iff, if◌then◌else◌, List, [],
  ◌∷◌, Bool-cases, inl, inr, ap, ◌∙◌, true≢false,
}
use simpleos.Process.{Procs, ready, running}
use simpleos.Process.Samples.{no_process, empty_table}
use simpleos.Scheduler.{Scheduler, clamp}
use simpleos.Scheduler.Queue.{has}
use simpleos.Scheduler.Invariant.{IsQueues}

-- The processes, of which 1 has priority `priority`.
abbrev procs : ℕ → Procs
procs priority p =
    if p == 1
    then record no_process { state = running; priority = pos priority }
    else if p == 2
    then record no_process { state = ready; priority = pos 3; next = 3 }
    else if p == 3
    then record no_process { state = ready; priority = pos 3; prev = 2 }
    else if p == 4
    then record no_process { state = ready; priority = pos 31 }
    else no_process

abbrev state : ℕ → (ℕ → ℕ) → (ℕ → Bool) → Scheduler
state priority queues bitmap = record {
  ready_queues = queues;
  ready_bitmap = bitmap;
  sleep_queue = 0;
  scheduler_running = true;
  current_tick = 0;
  idle_proc = 4;
  table = record empty_table { processes = procs priority; current_process = 1 };
  timer_set = true;
  switches = [];
}

-- No process waits.
abbrev pub none_ready : ℕ → Scheduler
none_ready priority = state priority (λ _. 0) (λ _. false)

abbrev pub no_queue : ℕ → List ℕ
no_queue i = []

pub none_ready-IsQueues : (priority : ℕ) → IsQueues no_queue (none_ready priority)
none_ready-IsQueues priority = record {
  chains = λ i h. refl;
  distinct = λ i h. tt;
  levels = λ i p h inside. absurd (true≢false (sym inside));
  states = λ i p h inside. absurd (true≢false (sym inside));
  slots = λ i p h inside. absurd (true≢false (sym inside));
  bits = λ i h. refl;
}

-- Processes 2 and 3 wait at level 3.
abbrev pub two_ready : ℕ → Scheduler
two_ready priority = state priority (λ i. if 3 == i then 2 else 0) (λ i. 3 == i)

abbrev pub one_queue : ℕ → List ℕ
one_queue i = if 3 == i then 2 ∷ 3 ∷ [] else []

inside_queue : (i p : ℕ) → has p (one_queue i) ≡ true → (i ≡ 3) × (((p == 2) || (p == 3)) ≡ true)
inside_queue i p inside = elim (Bool-cases (3 == i)) [
  | inl here ↦ (sym ((==_iff 3 i).0 here), ground (arith, inside, here))
  | inr apart ↦ absurd (ground (arith, inside, apart))
]

level_of : (priority p : ℕ) → ((p == 2) || (p == 3)) ≡ true → clamp (procs priority p).priority ≡ 3
level_of priority p two = elim (Bool-cases (p == 2)) [
  | inl here ↦ ap (λ x. clamp (procs priority x).priority) ((==_iff p 2).0 here)
  | inr apart ↦
      ap (λ x. clamp (procs priority x).priority) ((==_iff p 3).0 (ground (arith, two, apart)))
]

state_of : (priority p : ℕ) → ((p == 2) || (p == 3)) ≡ true → (procs priority p).state ≡ ready
state_of priority p two = ground (arith, two)

pub two_ready-IsQueues : (priority : ℕ) → IsQueues one_queue (two_ready priority)
two_ready-IsQueues priority = record {
  chains = λ i h. elim (Bool-cases (3 == i)) [
    | inl here ↦ rw here (refl, omega arith, refl, (refl, omega arith, refl, refl))
    | inr apart ↦ rw apart refl
  ];
  distinct = λ i h. elim (Bool-cases (3 == i)) [
    | inl here ↦ rw here (refl, (refl, tt))
    | inr apart ↦ rw apart tt
  ];
  levels = λ i p h inside.
      level_of priority p (inside_queue i p inside).1 ∙ sym (inside_queue i p inside).0;
  states = λ i p h inside. state_of priority p (inside_queue i p inside).1;
  slots = λ i p h inside. ground (arith, (inside_queue i p inside).1);
  bits = λ i h. elim (Bool-cases (3 == i)) [ inl here ↦ rw here refl | inr apart ↦ rw apart refl ];
}
