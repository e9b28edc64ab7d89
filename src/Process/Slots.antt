-- ===== src/Process/Slots.antt =====
-- The searches of kernel/proc/process.c through the table, and the identifiers of the processes.
use simpleos.Common.{
  ℕ, zero, suc, ◌+◌, ◌≤◌, ◌<◌, ◌≡◌, refl, arith, Bool, true, false, not, ◌&&◌, ltb, ◌==◌, ==_iff,
  ==_false, if◌then◌else◌, Bool-cases, inl, inr, ap, sym, ◌∙◌, true≢false,
}
use simpleos.Common.Bytes.{update}
use simpleos.Process.{
  Procs, Table, max_processes, unused, is_unused, find_slot, alloc_process_slot, find_pid,
  process_get, process_init, clear_slots,
}

abbrev pub free : Procs → ℕ → Bool
free procs p = is_unused (procs p).state

abbrev pub live_with : ℕ → Procs → ℕ → Bool
live_with pid procs p = not (free procs p) && ((procs p).pid == pid)

-- The first pointer from `lo` on, before `lo + rounds`, that the test holds of, or 0 if there is none.
pub data IsFirst (test : ℕ → Bool) (lo rounds r : ℕ) : Type 0 where
  first :
      lo ≤ r
      → r < lo + rounds
      → test r ≡ true
      → ((p : ℕ) → lo ≤ p → p < r → test p ≡ false)
      → IsFirst test lo rounds r
  nowhere : r ≡ 0 → ((p : ℕ) → lo ≤ p → p < lo + rounds → test p ≡ false) → IsFirst test lo rounds r

earlier :
    (test : ℕ → Bool) (lo rounds r : ℕ)
    → test lo ≡ false
    → IsFirst test (lo + 1) rounds r
    → IsFirst test lo (suc rounds) r
earlier test lo rounds r out (first low high here before) =
    first (omega (arith, low)) (omega (arith, high)) here (λ p a b. elim (Bool-cases (lo == p)) [
      | inl same ↦ ap test (sym ((==_iff lo p).0 same)) ∙ out
      | inr apart ↦ before p (omega (arith, a, ==_false lo p apart)) b
    ])
earlier test lo rounds r out (nowhere null nobody) = nowhere null (λ p a b.
    elim (Bool-cases (lo == p)) [
      | inl same ↦ ap test (sym ((==_iff lo p).0 same)) ∙ out
      | inr apart ↦ nobody p (omega (arith, a, ==_false lo p apart)) (omega (arith, b))
    ])

find_slot-IsFirst :
    (rounds lo : ℕ) (procs : Procs) → IsFirst (free procs) lo rounds (find_slot rounds lo procs)
unfolding find_slot
find_slot-IsFirst zero lo procs = nowhere refl (λ p a b. absurd (omega (arith, a, b)))
find_slot-IsFirst (suc rounds) lo procs = elim (Bool-cases (free procs lo)) [
  | inl here ↦
      rw here (first (omega arith) (omega arith) here (λ p a b. absurd (omega (arith, a, b))))
  | inr used ↦
      rw used (earlier (free procs) lo rounds _ used (find_slot-IsFirst rounds (lo + 1) procs))
]

find_pid-IsFirst :
    (rounds lo pid : ℕ) (procs : Procs)
    → IsFirst (live_with pid procs) lo rounds (find_pid rounds lo pid procs)
unfolding find_pid
find_pid-IsFirst zero lo pid procs = nowhere refl (λ p a b. absurd (omega (arith, a, b)))
find_pid-IsFirst (suc rounds) lo pid procs = elim (Bool-cases (live_with pid procs lo)) [
  | inl here ↦
      rw here (first (omega arith) (omega arith) here (λ p a b. absurd (omega (arith, a, b))))
  | inr apart ↦
      rw apart (
        earlier (live_with pid procs) lo rounds _ apart
          (find_pid-IsFirst rounds (lo + 1) pid procs))
]

-- `alloc_process_slot` returns the first slot that is not in use, and null just if all 64 are.
pub alloc_process_slot-IsFirst :
    (procs : Procs) → IsFirst (free procs) 1 max_processes (alloc_process_slot procs)
unfolding alloc_process_slot
alloc_process_slot-IsFirst procs = find_slot-IsFirst max_processes 1 procs

-- `process_get` returns the first process in use with the identifier, and null just if there is none.
pub process_get-IsFirst :
    (pid : ℕ) (t : Table) → IsFirst (live_with pid t.processes) 1 max_processes (process_get pid t)
unfolding process_get
process_get-IsFirst pid t = find_pid-IsFirst max_processes 1 pid t.processes

-- The processes in use have identifiers that were given out, each its own.
pub record IsNumbered (t : Table) : Type 0 where
  pub given :
      (p : ℕ)
      → 0 < p
      → p ≤ max_processes
      → free t.processes p ≡ false
      → (t.processes p).pid < t.next_pid
  pub own :
      (p p' : ℕ)
      → 0 < p
      → p ≤ max_processes
      → 0 < p'
      → p' ≤ max_processes
      → free t.processes p ≡ false
      → free t.processes p' ≡ false
      → (t.processes p).pid ≡ (t.processes p').pid
      → p ≡ p'

clear_slots-free :
    (rounds lo p : ℕ) (procs : Procs)
    → free (clear_slots rounds lo procs) p
      ≡ (if ltb p lo then free procs p else if ltb p (lo + rounds) then true else free procs p)
unfolding clear_slots
clear_slots-free zero lo p procs = ground arith
clear_slots-free (suc rounds) lo p procs =
    clear_slots-free rounds (lo + 1) p
      (update procs lo (record (procs lo) { state = unused; pid = 0 }))
    ∙ ground (arith, λ (e : lo ≡ p). ap (free procs) e)

-- `process_init` frees all slots, so that the processes in use are numbered.
pub process_init-IsNumbered : (t : Table) → IsNumbered (process_init t)
unfolding process_init
process_init-IsNumbered t = record {
  given = λ p low high used. absurd (true≢false (sym (all_free p low high) ∙ used));
  own = λ p p' low high low' high' used used' e.
      absurd (true≢false (sym (all_free p low high) ∙ used));
}
  where
    all_free :
        (p : ℕ)
        → 0 < p
        → p ≤ max_processes
        → free (clear_slots max_processes 1 t.processes) p ≡ true
    all_free p low high = clear_slots-free max_processes 1 p t.processes ∙ ground (arith, low, high)

by_search :
    {t : Table}
    → IsNumbered t
    → (p r : ℕ) → 0 < p
    → p ≤ max_processes
    → free t.processes p ≡ false
    → IsFirst (live_with (t.processes p).pid t.processes) 1 max_processes r
    → r ≡ p
by_search {t} v p r low high used (first low' high' here before) =
    v.own r p (omega (arith, low')) (omega (arith, high')) low high (ground (arith, here)) used
      (ground (arith, here))
by_search {t} v p r low high used (nowhere null nobody) =
    absurd (
      true≢false (sym (ground (arith, used)) ∙ nobody p (omega (arith, low)) (omega (arith, high))))

-- When the processes are numbered, looking up the identifier of a process in use gives that process.
pub process_get-pid :
    {t : Table}
    → IsNumbered t
    → (p : ℕ) → 0 < p
    → p ≤ max_processes
    → free t.processes p ≡ false
    → process_get (t.processes p).pid t ≡ p
process_get-pid {t} v p low high used =
    by_search v p (process_get (t.processes p).pid t) low high used
      (process_get-IsFirst (t.processes p).pid t)
