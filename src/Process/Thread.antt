-- ===== src/Process/Thread.antt =====
-- `process_create_kernel_thread` and `process_destroy` of kernel/proc/process.c.
use simpleos.Common.{
  ℕ, ℤ, pos, ◌+◌, ◌-◌, ◌*◌, ◌%◌, ◌^◌, ◌≤◌, ◌<◌, ◌≡◌, ◌≢◌, refl, arith, true, false, ◌==◌, ==_iff,
  ==_false, if◌then◌else◌, List, Option, take, Bool-cases, inl, inr, ap, sym, ◌∙◌, subst,
}
use simpleos.Common.Bytes.{update}
use simpleos.Pmm.{Pmm, page_size, max_pages, alloc_pages, free_pages}
use simpleos.Pmm.Invariant.{used, IsValid}
use simpleos.Pmm.Runs.{
  AllocPages, IsFirstRun, Takes, found, full, rejected, alloc_pages-AllocPages, free_pages-Frees,
  IsFreeRun,
}
use simpleos.Vmm.{Words}
use simpleos.Process.{
  is_unused, Process, Procs, Table, ready, max_processes, kernel_stack_size, initial_stack,
  start_thread, with_stack, alloc_process_slot, process_create_kernel_thread, process_destroy,
  process_get,
}
use simpleos.Process.Slots.{
  IsFirst, first, nowhere, free, alloc_process_slot-IsFirst, IsNumbered, process_get-pid,
}

-- Word `i` of the context below the top of a stack: six registers, and the address to return to.
abbrev pub context_word : ℕ → ℕ → ℕ
context_word entry i = if i == 6 then entry else 0

-- The process of a new thread with its context at `c`.
abbrev pub thread_at : List ℕ → ℤ → ℕ → Table → Process → ℕ → Process
thread_at name priority page t old c = record old {
  pid = t.next_pid;
  state = ready;
  priority = priority;
  context = c;
  kernel_stack = page * page_size;
  kernel_stack_top = page * page_size + kernel_stack_size;
  page_table = 0;
  time_slice = 10;
  total_time = 0;
  wake_time = 0;
  parent = t.current_process;
  exit_code = pos 0;
  next = 0;
  prev = 0;
  name = take 31 name;
}

-- A new thread in slot `p`, on a stack from page `page` on.
pub record IsStarted (name : List ℕ) (entry : ℕ) (priority : ℤ) (t t' : Table) (p page : ℕ)
    : Type 0 where
  pub stack : IsFirstRun t.vmm.pmm 2 page
  pub taken : Takes t.vmm.pmm t'.vmm.pmm page 2
  pub others : (x : ℕ) → x ≢ p → t'.processes x ≡ t.processes x
  pub fields :
      t'.processes p
      ≡ thread_at name priority page t (t.processes p) (page * page_size + kernel_stack_size - 56)
  pub words :
      (i : ℕ) → i < 7 → t'.vmm.words ((t'.processes p).context + 8 * i) ≡ context_word entry i
  pub elsewhere : (a : ℕ) → a < page * page_size → t'.vmm.words a ≡ t.vmm.words a
  pub counted : t'.next_pid ≡ (t.next_pid + 1) % 2 ^ 64

-- What making a thread may come to.
pub data CreatedThread (name : List ℕ) (entry : ℕ) (priority : ℤ) (t : Table) (r : ℕ × Table)
    : Type 0 where
  no_slot :
      r.0 ≡ 0
      → ((p : ℕ) → 1 ≤ p → p < 1 + max_processes → free t.processes p ≡ false)
      → r.1 ≡ t
      → CreatedThread name entry priority t r
  no_stack :
      r.0 ≡ 0
      → ((p : ℕ) → 512 ≤ p → p + 2 ≤ max_pages → ¬ IsFreeRun t.vmm.pmm p 2)
      → r.1 ≡ t
      → CreatedThread name entry priority t r
  started :
      (page : ℕ)
      → 0 < r.0
      → r.0 ≤ max_processes
      → free t.processes r.0 ≡ true
      → IsStarted name entry priority t r.1 r.0 page
      → CreatedThread name entry priority t r

at_itself : (f : Procs) (p : ℕ) (x : Process) → update f p x p ≡ x
at_itself f p x = ground arith

initial_context : (top entry : ℕ) (w : Words) → (initial_stack top entry w).0 ≡ top - 56
unfolding initial_stack
initial_context top entry w = omega arith

initial_words :
    (top entry i : ℕ) (w : Words)
    → 56 ≤ top
    → i < 7
    → (initial_stack top entry w).1 (top - 56 + 8 * i) ≡ context_word entry i
unfolding initial_stack
initial_words top entry i w room h = ground (arith, room, h)

initial_elsewhere :
    (top entry a : ℕ) (w : Words) → a + 56 < top → (initial_stack top entry w).1 a ≡ w a
unfolding initial_stack
initial_elsewhere top entry a w below = ground (arith, below)

start_thread-IsStarted :
    (name : List ℕ) (entry : ℕ) (priority : ℤ) (t : Table) (p page : ℕ) (pmm1 : Pmm)
    → IsFirstRun t.vmm.pmm 2 page
    → Takes t.vmm.pmm pmm1 page 2
    → IsStarted name entry priority t
        (start_thread p
          (page * page_size)
          name
          entry
          priority
          (record t { vmm = record t.vmm { pmm = pmm1 } }))
        p
        page
unfolding start_thread
start_thread-IsStarted name entry priority t p page pmm1 run takes = record {
  stack = run;
  taken = takes;
  others = λ x other. ground (arith, other);
  fields =
      at_itself t.processes p _
      ∙ ap (thread_at name priority page t (t.processes p))
          (initial_context (page * page_size + kernel_stack_size) entry t.vmm.words);
  words = λ i h.
      ap
        (λ a.
          (initial_stack (page * page_size + kernel_stack_size) entry t.vmm.words).1 (a + 8 * i))
        (ap (λ r. r.context) (at_itself t.processes p _)
          ∙ initial_context (page * page_size + kernel_stack_size) entry t.vmm.words)
      ∙ initial_words (page * page_size + kernel_stack_size) entry i t.vmm.words (omega arith) h;
  elsewhere = λ a below.
      initial_elsewhere (page * page_size + kernel_stack_size) entry a t.vmm.words
        (omega (arith, below));
  counted = refl;
}

by_stack :
    (name : List ℕ) (entry : ℕ) (priority : ℤ) (t : Table) (p : ℕ)
    → 0 < p
    → p ≤ max_processes
    → free t.processes p ≡ true
    → (r : Option ℕ × Pmm) → AllocPages t.vmm.pmm 2 r
    → CreatedThread name entry priority t (with_stack p name entry priority t r)
by_stack name entry priority t p low high slot (o, pmm1) (found page run e takes) = rw e (
    started page low high slot (start_thread-IsStarted name entry priority t p page pmm1 run takes))
by_stack name entry priority t p low high slot (o, pmm1) (full e same none_free) =
    rw e (no_stack refl none_free (ap (λ x. record t { vmm = record t.vmm { pmm = x } }) same))
by_stack name entry priority t p low high slot (o, pmm1) (rejected wrong e same) =
    absurd (ground (arith, wrong))

by_slot :
    (name : List ℕ) (entry : ℕ) (priority : ℤ) (t : Table)
    → IsValid t.vmm.pmm
    → IsFirst (free t.processes) 1 max_processes (alloc_process_slot t.processes)
    → CreatedThread name entry priority t (process_create_kernel_thread name entry priority t)
unfolding process_create_kernel_thread
by_slot name entry priority t v (nowhere null nobody) =
    rw (ap (λ n. n == 0) null) (no_slot refl nobody refl)
by_slot name entry priority t v (first low high slot before) =
    rw (some_slot (alloc_process_slot t.processes) low) (
      by_stack name entry priority t (alloc_process_slot t.processes) low (omega (arith, high)) slot
        (alloc_pages t.vmm.pmm 2) (alloc_pages-AllocPages 2 v))
  where
    some_slot : (p : ℕ) → 1 ≤ p → (p == 0) ≡ false
    some_slot p low = ground (arith, low)

-- `process_create_kernel_thread` makes a ready process with the next identifier in a slot that was
-- free, on the lowest two free pages that follow each other; below their end stand the entry point
-- and six zero registers, where the context points, and no word before these pages changes. It
-- returns null, and changes nothing, when no slot is free or there are no such pages.
pub process_create_kernel_thread-CreatedThread :
    (name : List ℕ) (entry : ℕ) (priority : ℤ) (t : Table)
    → IsValid t.vmm.pmm
    → CreatedThread name entry priority t (process_create_kernel_thread name entry priority t)
process_create_kernel_thread-CreatedThread name entry priority t v =
    by_slot name entry priority t v (alloc_process_slot-IsFirst t.processes)

-- The new process is numbered with the others.
started-IsNumbered :
    {name : List ℕ} {entry : ℕ} {priority : ℤ} {t t' : Table} {p page : ℕ}
    → IsNumbered t
    → t.next_pid + 1 < 2 ^ 64
    → IsStarted name entry priority t t' p page
    → IsNumbered t'
started-IsNumbered {t = t} {t' = t'} {p = p} v room made = record {
  given = λ x low high used. elim (Bool-cases (x == p)) [
    | inl here ↦ omega (arith, next, ap (λ y. (t'.processes y).pid) ((==_iff x p).0 here), new_pid)
    | inr apart ↦ omega (arith, next, old_pid x apart, v.given x low high (old_used x apart used))
  ];
  own = λ x y low high low' high' used used' e. elim (Bool-cases (x == p)) [
    | inl here ↦ elim (Bool-cases (y == p)) [
      | inl here' ↦ (==_iff x p).0 here ∙ sym ((==_iff y p).0 here')
      | inr apart' ↦ absurd (
          omega (
            arith,
            ap (λ z. (t'.processes z).pid) ((==_iff x p).0 here),
            new_pid,
            e,
            old_pid y apart',
            v.given y low' high' (old_used y apart' used'),
          ))
    ]
    | inr apart ↦ elim (Bool-cases (y == p)) [
      | inl here' ↦ absurd (
          omega (
            arith,
            ap (λ z. (t'.processes z).pid) ((==_iff y p).0 here'),
            new_pid,
            e,
            old_pid x apart,
            v.given x low high (old_used x apart used),
          ))
      | inr apart' ↦
          v.own x y low high low' high' (old_used x apart used) (old_used y apart' used')
            (sym (old_pid x apart) ∙ e ∙ old_pid y apart')
    ]
  ];
}
  where
    next : t'.next_pid ≡ t.next_pid + 1
    next = omega (arith, made.counted, room)

    new_pid : (t'.processes p).pid ≡ t.next_pid
    new_pid = ap (λ r. r.pid) made.fields

    old_pid : (x : ℕ) → (x == p) ≡ false → (t'.processes x).pid ≡ (t.processes x).pid
    old_pid x apart = ap (λ r. r.pid) (made.others x (==_false x p apart))

    old_used : (x : ℕ) → (x == p) ≡ false → free t'.processes x ≡ false → free t.processes x ≡ false
    old_used x apart used =
        ap (λ r. is_unused r.state) (sym (made.others x (==_false x p apart))) ∙ used

-- While identifiers are left, making a thread keeps the processes numbered, whatever comes of it.
pub process_create_kernel_thread-IsNumbered :
    (name : List ℕ) (entry : ℕ) (priority : ℤ) (t : Table)
    → IsValid t.vmm.pmm
    → IsNumbered t
    → t.next_pid + 1 < 2 ^ 64
    → IsNumbered (process_create_kernel_thread name entry priority t).1
process_create_kernel_thread-IsNumbered name entry priority t v n room =
    by_outcome (process_create_kernel_thread name entry priority t)
      (process_create_kernel_thread-CreatedThread name entry priority t v)
  where
    by_outcome : (r : ℕ × Table) → CreatedThread name entry priority t r → IsNumbered r.1
    by_outcome (p, t') (no_slot null nobody same) = subst IsNumbered (sym same) n
    by_outcome (p, t') (no_stack null nobody same) = subst IsNumbered (sym same) n
    by_outcome (p, t') (started page low high slot made) = started-IsNumbered n room made

some_process : (r : ℕ) → 0 < r → r ≢ 0
some_process r h = omega (arith, h)

-- A thread that was made is found by its identifier, which is the next one that the table had.
pub process_get-create :
    (name : List ℕ) (entry : ℕ) (priority : ℤ) (t : Table)
    → IsValid t.vmm.pmm
    → IsNumbered t
    → t.next_pid + 1 < 2 ^ 64
    → 0 < (process_create_kernel_thread name entry priority t).0
    → (let (p, t') = process_create_kernel_thread name entry priority t in
        process_get t.next_pid t' ≡ p)
process_get-create name entry priority t v n room some_p =
    by_outcome (process_create_kernel_thread name entry priority t) some_p
      (process_create_kernel_thread-CreatedThread name entry priority t v)
  where
    by_outcome :
        (r : ℕ × Table)
        → 0 < r.0
        → CreatedThread name entry priority t r
        → process_get t.next_pid r.1 ≡ r.0
    by_outcome (p, t') some_p (no_slot null nobody same) = absurd (some_process p some_p null)
    by_outcome (p, t') some_p (no_stack null nobody same) = absurd (some_process p some_p null)
    by_outcome (p, t') some_p (started page low high slot made) =
        ap (λ pid. process_get pid t') (sym (ap (λ r. r.pid) made.fields))
        ∙ process_get-pid (started-IsNumbered n room made) p low high
            (ap (λ r. is_unused r.state) made.fields)

destroyed :
    {name : List ℕ} {entry : ℕ} {priority : ℤ} {t t' : Table} {p page : ℕ}
    → 0 < p
    → IsStarted name entry priority t t' p page
    → (free (process_destroy p t').processes p ≡ true)
      × ((q : ℕ) → q < max_pages → used (process_destroy p t').vmm.pmm q ≡ used t.vmm.pmm q)
unfolding process_destroy
destroyed {t = t} {t' = t'} {p = p} {page = page} low made =
    (let null : (p == 0) ≡ false = ground (arith, low) in
      let live : is_unused (t'.processes p).state ≡ false =
        ap (λ r. is_unused r.state) made.fields in
      let stack : (t'.processes p).kernel_stack ≡ page * 4096 =
        ap (λ r. r.kernel_stack) made.fields in
      let some_stack : ((t'.processes p).kernel_stack == 0) ≡ false =
        ground (arith, stack, made.stack.above) in
      let no_table : (t'.processes p).page_table ≡ 0 = ap (λ r. r.page_table) made.fields in
      rw (null, live, some_stack, ap (λ n. n == 0) no_table)
        (
          ground arith,
          λ q h.
              ap (λ a. used (free_pages t'.vmm.pmm a 2) q) stack
              ∙ (free_pages-Frees (page * 4096) 2 made.taken.valid).marks q h
              ∙ ground (arith, made.taken.marks q, made.stack.free q),
        ))

-- Destroying a thread that was just made frees its slot, and leaves the pages in use as they were
-- before it was made.
pub process_destroy-create :
    (name : List ℕ) (entry : ℕ) (priority : ℤ) (t : Table)
    → IsValid t.vmm.pmm
    → 0 < (process_create_kernel_thread name entry priority t).0
    → (let (p, t') = process_create_kernel_thread name entry priority t in
        (free (process_destroy p t').processes p ≡ true)
        × ((q : ℕ) → q < max_pages → used (process_destroy p t').vmm.pmm q ≡ used t.vmm.pmm q))
process_destroy-create name entry priority t v some_p =
    by_outcome (process_create_kernel_thread name entry priority t) some_p
      (process_create_kernel_thread-CreatedThread name entry priority t v)
  where
    by_outcome :
        (r : ℕ × Table)
        → 0 < r.0
        → CreatedThread name entry priority t r
        → (free (process_destroy r.0 r.1).processes r.0 ≡ true)
          × ((q : ℕ) → q < max_pages → used (process_destroy r.0 r.1).vmm.pmm q ≡ used t.vmm.pmm q)
    by_outcome (p, t') some_p (no_slot null nobody same) = absurd (some_process p some_p null)
    by_outcome (p, t') some_p (no_stack null nobody same) = absurd (some_process p some_p null)
    by_outcome (p, t') some_p (started page low high slot made) = destroyed low made
