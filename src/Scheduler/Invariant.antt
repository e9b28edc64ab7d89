-- ===== src/Scheduler/Invariant.antt =====
-- The ready queues of kernel/proc/scheduler.c as lists of processes.
use simpleos.Common.{
  ℤ, pos, negsuc, ℕ, zero, suc, ◌+◌, ◌≤◌, ◌<◌, ◌≡◌, ◌≢◌, refl, arith, Bool, true, false, not, ◌&&◌,
  ◌||◌, ◌==◌, List, [], ◌∷◌, ◌++◌, length, Bool-cases, inl, inr, ap, sym, ◌∙◌,
}
use simpleos.Process.{ready, max_processes}
use simpleos.Scheduler.{Scheduler, procs_of, clamp}
use simpleos.Scheduler.Queue.{Chain, has, Distinct, erase, has-pos}

abbrev pub is_nil : List ℕ → Bool
is_nil [] = true
is_nil (p ∷ ps) = false

-- The queue of each priority is a list of different processes of the table, ready and of that
-- priority; its bit says that it is not empty.
pub record IsQueues (q : ℕ → List ℕ) (s : Scheduler) : Type 0 where
  pub chains : (i : ℕ) → i < 32 → Chain (procs_of s) 0 (s.ready_queues i) (q i)
  pub distinct : (i : ℕ) → i < 32 → Distinct (q i)
  pub levels : (i p : ℕ) → i < 32 → has p (q i) ≡ true → clamp (procs_of s p).priority ≡ i
  pub states : (i p : ℕ) → i < 32 → has p (q i) ≡ true → (procs_of s p).state ≡ ready
  pub slots : (i p : ℕ) → i < 32 → has p (q i) ≡ true → p ≤ max_processes
  pub bits : (i : ℕ) → i < 32 → s.ready_bitmap i ≡ not (is_nil (q i))

pub has-erase :
    (x p : ℕ) (ps : List ℕ) → Distinct ps → has x (erase p ps) ≡ (not (x == p) && has x ps)
has-erase x p [] distinct = ground arith
has-erase x p (r ∷ rs) (apart, distinct) =
    ground (arith, has-erase x p rs distinct, apart, λ (e : x ≡ r). ap (λ y. has y rs) e ∙ apart)

pub Distinct-erase : (p : ℕ) (ps : List ℕ) → Distinct ps → Distinct (erase p ps)
Distinct-erase p [] distinct = tt
Distinct-erase p (r ∷ rs) (apart, distinct) = elim (Bool-cases (p == r)) [
  | inl here ↦ rw here distinct
  | inr later ↦
      rw later (has-erase r p rs distinct ∙ ground (arith, apart), Distinct-erase p rs distinct)
]

length-erase : (p : ℕ) (ps : List ℕ) → length ps ≤ length (erase p ps) + 1
length-erase p [] = omega arith
length-erase p (r ∷ rs) = ground (arith, length-erase p rs)

-- Different numbers from 1 to `n` are at most `n`.
pub length-Distinct :
    (n : ℕ) (ps : List ℕ)
    → Distinct ps
    → ((p : ℕ) → has p ps ≡ true → (0 < p) × (p ≤ n))
    → length ps ≤ n
length-Distinct n [] distinct small = omega arith
length-Distinct zero (r ∷ rs) distinct small = absurd (omega (arith, small r (ground arith)))
length-Distinct (suc n) (r ∷ rs) distinct small = omega (
  arith,
  length-erase (suc n) (r ∷ rs),
  length-Distinct n (erase (suc n) (r ∷ rs)) (Distinct-erase (suc n) (r ∷ rs) distinct) (λ p inside.
      (let was = sym (has-erase p (suc n) (r ∷ rs) distinct) ∙ inside in
        ground (arith, was, small p))),
)

pub has-snoc : (x p : ℕ) (ps : List ℕ) → has x (ps ++ (p ∷ [])) ≡ (has x ps || (x == p))
has-snoc x p [] = ground arith
has-snoc x p (r ∷ rs) = ground (arith, has-snoc x p rs)

pub Distinct-snoc :
    (p : ℕ) (ps : List ℕ) → Distinct ps → has p ps ≡ false → Distinct (ps ++ (p ∷ []))
Distinct-snoc p [] distinct out = (refl, tt)
Distinct-snoc p (r ∷ rs) (apart, distinct) out = (
  has-snoc r p rs ∙ ground (arith, apart, out),
  Distinct-snoc p rs distinct (ground (arith, out)),
)

module _ {q : ℕ → List ℕ} {s : Scheduler} (v : IsQueues q s) where
  pub member_pos : (i p : ℕ) → i < 32 → has p (q i) ≡ true → 0 < p
  member_pos i p h inside = has-pos (procs_of s) 0 (s.ready_queues i) p (q i) (v.chains i h) inside

  -- A queue has at most as many processes as the table has slots.
  pub length-queue : (i : ℕ) → i < 32 → length (q i) ≤ max_processes
  length-queue i h =
      length-Distinct max_processes (q i) (v.distinct i h)
        (λ p inside. (member_pos i p h inside, v.slots i p h inside))

  -- A process in a queue is in that of its priority.
  pub only_queue : (i p : ℕ) → i < 32 → clamp (procs_of s p).priority ≢ i → has p (q i) ≡ false
  only_queue i p h other = elim (Bool-cases (has p (q i))) [
    | inl inside ↦ absurd (other (v.levels i p h inside))
    | inr out ↦ out
  ]

pub clamp-lt : (priority : ℤ) → clamp priority < 32
clamp-lt (pos n) = ground arith
clamp-lt (negsuc n) = omega arith
