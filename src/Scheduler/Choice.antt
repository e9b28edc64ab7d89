-- ===== src/Scheduler/Choice.antt =====
-- `find_next_process` of kernel/proc/scheduler.c on well-formed queues.
use simpleos.Common.{
  ℕ, zero, suc, ◌+◌, ◌≤◌, ◌<◌, ◌≡◌, refl, arith, true, false, not, ◌==◌, List, [], ◌∷◌, ap, ◌∙◌,
  subst, Bool-cases, inl, inr, ==_iff, ==_false,
}
use simpleos.Scheduler.{Scheduler, procs_of, find_next_process, lowest_queue}
use simpleos.Scheduler.Queue.{Chain}
use simpleos.Scheduler.Invariant.{IsQueues, is_nil}

lowest_queue-first :
    (rounds i k : ℕ) (s : Scheduler)
    → i ≤ k
    → k < i + rounds
    → s.ready_bitmap k ≡ true
    → ((j : ℕ) → j < k → s.ready_bitmap j ≡ false)
    → lowest_queue rounds i s ≡ s.ready_queues k
unfolding lowest_queue
lowest_queue-first zero i k s low high set below = absurd (omega (arith, low, high))
lowest_queue-first (suc rounds) i k s low high set below = elim (Bool-cases (i == k)) [
  | inl here ↦
      (let same = (==_iff i k).0 here in rw (ap s.ready_bitmap same ∙ set) (ap s.ready_queues same))
  | inr apart ↦
      (let other = ==_false i k apart in
        rw (below i (omega (arith, low, other))) (
          lowest_queue-first rounds (i + 1) k s (omega (arith, low, other)) (omega (arith, high))
            set below))
]

pub lowest_queue-none :
    (rounds i : ℕ) (s : Scheduler)
    → ((j : ℕ) → j < i + rounds → s.ready_bitmap j ≡ false)
    → lowest_queue rounds i s ≡ s.idle_proc
unfolding lowest_queue
lowest_queue-none zero i s none_set = refl
lowest_queue-none (suc rounds) i s none_set =
    rw (none_set i (omega arith))
      (lowest_queue-none rounds (i + 1) s (λ j h. none_set j (omega (arith, h))))

module _ {q : ℕ → List ℕ} {s : Scheduler} (v : IsQueues q s) where
  -- On well-formed queues, the next process is the first of the queue with the highest priority (the
  -- lowest number) of those that are not empty.
  pub find_next_process-first :
      (i r : ℕ) (rs : List ℕ)
      → i < 32
      → q i ≡ r ∷ rs
      → ((j : ℕ) → j < i → q j ≡ [])
      → find_next_process s ≡ r
  unfolding find_next_process
  find_next_process-first i r rs h e below =
      lowest_queue-first 32 0 i s (omega arith) h (v.bits i h ∙ ap (λ ps. not (is_nil ps)) e)
        (λ j less. v.bits j (omega (arith, h, less)) ∙ ap (λ ps. not (is_nil ps)) (below j less))
      ∙ (subst (λ ps. Chain (procs_of s) 0 (s.ready_queues i) ps) e (v.chains i h)).0

  -- With no ready process it is the idle process.
  pub find_next_process-idle : ((j : ℕ) → j < 32 → q j ≡ []) → find_next_process s ≡ s.idle_proc
  unfolding find_next_process
  find_next_process-idle empty =
      lowest_queue-none 32 0 s (λ j h. v.bits j h ∙ ap (λ ps. not (is_nil ps)) (empty j h))
