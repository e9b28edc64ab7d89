-- ===== src/Scheduler/Insertion.antt =====
-- `insert_sleeper`, the part of `scheduler_sleep` of kernel/proc/scheduler.c that fills the sleep queue.
use simpleos.Common.{
  ℕ, ◌≤◌, ◌<◌, ◌≡◌, ◌≢◌, refl, arith, true, false, ◌||◌, ltb, ◌==◌, ==_iff, if◌then◌else◌, List, [],
  ◌∷◌, length, true≢false, subst, Bool-cases, inl, inr, ap, sym, ◌∙◌,
}
use simpleos.Process.{Procs, max_processes}
use simpleos.Scheduler.{Scheduler, procs_of, set_next, set_prev, find_place, insert_sleeper}
use simpleos.Scheduler.Queue.{Chain, Chain-frame, has, has-ne, Distinct, next_inside}
use simpleos.Scheduler.Adding.{relinked}
use simpleos.Scheduler.Sleeping.{
  by_time, Inserted, Chain-by_time, find_place-inside, not_behind, not_head,
}

-- No process wakes before one that stands in front of it.
abbrev pub IsSorted : Procs → List ℕ → Type 0
IsSorted procs [] = Unit {0}
IsSorted procs (x ∷ xs) =
    ((y : ℕ) → has y xs ≡ true → (procs x).wake_time ≤ (procs y).wake_time) × IsSorted procs xs

has-by_time :
    (procs : Procs) (p x : ℕ) (xs : List ℕ) → has x (by_time procs p xs) ≡ ((x == p) || has x xs)
has-by_time procs p x [] = ground arith
has-by_time procs p x (y ∷ ys) = ground (arith, has-by_time procs p x ys)

-- In front of `p`, and of the others, stands one that wakes no later.
later_than :
    (procs : Procs) (w p y : ℕ) (xs : List ℕ)
    → w ≤ (procs p).wake_time
    → ((z : ℕ) → has z xs ≡ true → w ≤ (procs z).wake_time)
    → has y (by_time procs p xs) ≡ true
    → w ≤ (procs y).wake_time
later_than procs w p y xs first rest inside = elim (Bool-cases (y == p)) [
  | inl here ↦ subst (λ z. w ≤ (procs z).wake_time) (sym ((==_iff y p).0 here)) first
  | inr apart ↦ rest y (ground (arith, has-by_time procs p y xs, inside, apart))
]

by_time-IsSorted :
    (procs : Procs) (p : ℕ) (xs : List ℕ) → IsSorted procs xs → IsSorted procs (by_time procs p xs)
by_time-IsSorted procs p [] sorted = ((λ y inside. absurd (true≢false (sym inside))), tt)
by_time-IsSorted procs p (x ∷ xs) (first, sorted) =
    elim (Bool-cases (ltb (procs p).wake_time (procs x).wake_time)) [
      | inl before ↦ rw before (
        (λ y inside. elim (Bool-cases (y == x)) [
          | inl here ↦
              subst (λ z. (procs p).wake_time ≤ (procs z).wake_time) (sym ((==_iff y x).0 here))
                (ground (arith, before))
          | inr apart ↦ ground (arith, before, first y (ground (arith, inside, apart)))
        ]),
        (first, sorted),
      )
      | inr behind ↦ rw behind (
        (λ y inside.
            later_than procs (procs x).wake_time p y xs (ground (arith, behind)) first inside),
        by_time-IsSorted procs p xs sorted,
      )
    ]

pub relinked-insert_sleeper :
    (p : ℕ) (s : Scheduler) (x : ℕ)
    → procs_of (insert_sleeper p s) x ≡ relinked (procs_of s x) (procs_of (insert_sleeper p s) x)
unfolding insert_sleeper
relinked-insert_sleeper p s x = ground arith

-- The processes once `p` is behind `place`.
abbrev linked_in : Procs → ℕ → ℕ → Procs
linked_in procs p place =
    let after = (procs place).next in
    let linked = set_prev p place (set_next p after procs) in
    set_next place p (if after == 0 then linked else set_prev after p linked)

-- Between a place in the list and the process behind it.
linked-Inserted :
    (procs : Procs) (p place : ℕ)
    → place ≢ p
    → 0 < p
    → p ≢ (procs place).next
    → place ≢ (procs place).next
    → Inserted procs (linked_in procs p place) p place
linked-Inserted procs p place other some_p apart apart' = record {
  next_p = ground (arith, other, apart, apart');
  prev_p = ground (arith, other, apart, apart');
  next_place = ground (arith, other, apart, apart');
  nexts = λ x not_p not_place. ground (arith, not_p, not_place, other, apart, apart');
  prevs = λ x some_x not_p. ground (arith, some_x, not_p, other, apart, apart');
}

next_apart :
    (procs : Procs) (before h x : ℕ) (xs : List ℕ)
    → Chain procs before h xs
    → Distinct xs
    → has x xs ≡ true
    → x ≢ (procs x).next
next_apart procs before h x [] chain distinct inside = absurd (true≢false (sym inside))
next_apart procs before h x (y ∷ ys) (e, some_y, back, rest) (apart, distinct) inside =
    elim (Bool-cases (x == y)) [
      | inl here ↦
          subst (λ z. z ≢ (procs z).next) (sym ((==_iff x y).0 here))
            (not_head procs y (procs y).next y ys rest some_y apart)
      | inr later ↦
          next_apart procs y (procs y).next x ys rest distinct (ground (arith, inside, later))
    ]

-- `p` in front of all.
Chain-front :
    (procs : Procs) (p y : ℕ) (ys : List ℕ)
    → Chain procs 0 y (y ∷ ys)
    → Distinct (y ∷ ys)
    → 0 < p
    → has p (y ∷ ys) ≡ false
    → Chain (set_prev y p (set_prev p 0 (set_next p y procs))) 0 p (p ∷ y ∷ ys)
Chain-front procs p y ys (e, some_y, back, rest) (apart, distinct) some_p out =
    (let procs' = set_prev y p (set_prev p 0 (set_next p y procs)) in
      let not_p : y ≢ p = has-ne p y (y ∷ ys) out (ground arith) in
      let kept : (procs' y).next ≡ (procs y).next = ground (arith, not_p) in
      (
        refl,
        some_p,
        ground (arith, not_p),
        (
          ground (arith, not_p),
          some_y,
          ground arith,
          subst (λ n. Chain procs' y n ys) (sym kept)
              (Chain-frame procs procs' y (procs y).next ys
                (λ r inside. ground (
                  arith,
                  has-ne p r (y ∷ ys) out (ground (arith, inside)),
                  has-ne y r ys apart inside,
                ))
                rest),
        ),
      ))

module _ (s : Scheduler) (p : ℕ) (some_p : 0 < p) where
  by_list :
      (xs : List ℕ)
      → Chain (procs_of s) 0 s.sleep_queue xs
      → Distinct xs
      → length xs ≤ max_processes
      → has p xs ≡ false
      → Chain
          (procs_of (insert_sleeper p s))
          0
          (insert_sleeper p s).sleep_queue
          (by_time (procs_of s) p xs)
  unfolding insert_sleeper
  by_list [] chain distinct few out =
      rw (ap (λ n. n == 0) chain) (refl, some_p, ground arith, ground (arith, chain))
  by_list (y ∷ ys) chain distinct few out =
      (let procs = procs_of s in
        let head = s.sleep_queue in
        let some_head : (head == 0) ≡ false = ground (arith, chain.0, chain.1) in
        let at_y : Chain procs 0 y (y ∷ ys) = subst (λ h. Chain procs 0 h (y ∷ ys)) chain.0 chain in
        elim (Bool-cases (ltb (procs p).wake_time (procs y).wake_time)) [
          | inl before ↦
              rw
                (
                  some_head,
                  ap (λ h. ltb (procs p).wake_time (procs h).wake_time) chain.0 ∙ before,
                  before,
                )
                (subst
                  (λ h. Chain (set_prev h p (set_prev p 0 (set_next p h procs))) 0 p (p ∷ y ∷ ys))
                  (sym chain.0) (Chain-front procs p y ys at_y distinct some_p out))
          | inr behind ↦
              (let place = find_place max_processes procs (procs p).wake_time head in
                let same : place ≡ find_place max_processes procs (procs p).wake_time y =
                  ap (find_place max_processes procs (procs p).wake_time) chain.0 in
                let inside : has place (y ∷ ys) ≡ true =
                  ap (λ x. has x (y ∷ ys)) same
                  ∙ find_place-inside max_processes procs (procs p).wake_time 0 y ys at_y in
                let apart =
                  not_behind procs p (procs place).next (y ∷ ys) some_p out
                    (next_inside procs 0 y place (y ∷ ys) at_y inside) in
                let i =
                  linked-Inserted procs p place (has-ne p place (y ∷ ys) out inside) some_p apart
                    (next_apart procs 0 y place (y ∷ ys) at_y distinct inside) in
                rw
                  (
                    some_head,
                    ap (λ h. ltb (procs p).wake_time (procs h).wake_time) chain.0 ∙ behind,
                    behind,
                  )
                  (subst (λ h. Chain (linked_in procs p place) 0 h (y ∷ by_time procs p ys))
                    (sym chain.0)
                    (Chain-by_time max_processes procs (linked_in procs p place) p 0 y ys at_y
                      distinct (omega (arith, few)) some_p out
                      (subst (Inserted procs (linked_in procs p place) p) same i))))
        ])

  -- A process that is put into the sleep queue comes before the first that wakes later, and behind the
  -- others: the queue stays a list linked both ways, in the order of the times; of every process only
  -- links change.
  pub insert_sleeper-IsSorted :
      (xs : List ℕ)
      → Chain (procs_of s) 0 s.sleep_queue xs
      → Distinct xs
      → length xs ≤ max_processes
      → has p xs ≡ false
      → IsSorted (procs_of s) xs
      → Chain
          (procs_of (insert_sleeper p s))
          0
          (insert_sleeper p s).sleep_queue
          (by_time (procs_of s) p xs)
        × IsSorted (procs_of s) (by_time (procs_of s) p xs)
        × ((x : ℕ)
            → procs_of (insert_sleeper p s) x
              ≡ relinked (procs_of s x) (procs_of (insert_sleeper p s) x))
  insert_sleeper-IsSorted xs chain distinct few out sorted = (
    by_list xs chain distinct few out,
    by_time-IsSorted (procs_of s) p xs sorted,
    relinked-insert_sleeper p s,
  )
