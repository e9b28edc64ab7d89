-- ===== src/Scheduler/Adding.antt =====
-- `scheduler_add` of kernel/proc/scheduler.c.
use simpleos.Common.{
  ℕ, ◌+◌, ◌-◌, ◌≤◌, ◌<◌, ◌≡◌, ◌≢◌, refl, arith, Bool, true, false, not, ◌==◌, ==_iff, ==_false,
  List, [], ◌∷◌, ◌++◌, length, true≢false, subst, Bool-cases, inl, inr, ap, sym, ◌∙◌,
}
use simpleos.Common.Bytes.{update}
use simpleos.Process.{Process, Procs, ready, is_unused, max_processes}
use simpleos.Scheduler.{
  Scheduler, procs_of, with_procs, clamp, set_next, set_prev, make_ready, find_tail, scheduler_add,
  time_slice_base, priority_levels,
}
use simpleos.Scheduler.Queue.{
  Chain, Chain-frame, has, Distinct, last_of, last_of-inside, find_tail-last, Chain-snoc,
}
use simpleos.Scheduler.Invariant.{IsQueues, is_nil, has-snoc, Distinct-snoc, length-queue, clamp-lt}

-- Only the links of a process are others.
abbrev pub relinked : Process → Process → Process
relinked old new = record old { next = new.next; prev = new.prev }

-- The processes after `p` was put behind a queue of priority `prio`.
abbrev pub joined : ℕ → ℕ → ℕ → Procs → Procs
joined p prio tail procs =
    make_ready p prio (set_prev p tail (set_next tail p (set_prev p 0 (set_next p 0 procs))))

pub not_null : (p : ℕ) → 0 < p → (p == 0) ≡ false
not_null p h = ground (arith, h)

is_nil-snoc : (p : ℕ) (ps : List ℕ) → is_nil (ps ++ (p ∷ [])) ≡ false
is_nil-snoc p [] = refl
is_nil-snoc p (r ∷ rs) = refl

module _ {q : ℕ → List ℕ} {s : Scheduler} (v : IsQueues q s) (p : ℕ) (some_p : 0 < p)
    (slot : p ≤ max_processes) (out : has p (q (clamp (procs_of s p).priority)) ≡ false) where
  abbrev level : ℕ
  level = clamp (procs_of s p).priority

  level-lt : level < 32
  level-lt = clamp-lt (procs_of s p).priority

  not_here : (i x : ℕ) → i < 32 → has x (q i) ≡ true → x ≢ p
  not_here i x h inside e =
      (let same : i ≡ level =
          sym (v.levels i x h inside) ∙ ap (λ y. clamp (procs_of s y).priority) e in
        true≢false (sym inside ∙ ap (λ j. has x (q j)) same ∙ ap (λ y. has y (q level)) e ∙ out))

  elsewhere : (i x y : ℕ) → i < 32 → i ≢ level → has x (q i) ≡ true → has y (q level) ≡ true → x ≢ y
  elsewhere i x y h other inside there e = other (
      sym (v.levels i x h inside)
      ∙ ap (λ z. clamp (procs_of s z).priority) e
      ∙ v.levels level y level-lt there)

  abbrev longer : ℕ → List ℕ
  longer = update q level (q level ++ (p ∷ []))

  -- The queues after the processes became `procs'`, in which the list of this priority has `p` behind it.
  module _ (procs' : Procs) (queues : ℕ → ℕ) (bitmap : ℕ → Bool)
      (others : (x : ℕ) → x ≢ p → procs' x ≡ relinked (procs_of s x) (procs' x))
      (this : procs' p ≡ record (relinked (procs_of s p) (procs' p)) {
        state = ready;
        time_slice = time_slice_base + (priority_levels - level);
      })
      (links : (i x : ℕ)
        → i < 32
        → i ≢ level
        → has x (q i) ≡ true
        → ((procs' x).next ≡ (procs_of s x).next) × ((procs' x).prev ≡ (procs_of s x).prev))
      (chain : Chain procs' 0 (queues level) (q level ++ (p ∷ [])))
      (heads : (i : ℕ) → i ≢ level → queues i ≡ s.ready_queues i) (bit : bitmap level ≡ true)
      (rest : (i : ℕ) → i ≢ level → bitmap i ≡ s.ready_bitmap i) where
    abbrev after : Scheduler
    after = with_procs procs' (record s { ready_queues = queues; ready_bitmap = bitmap })

    has-longer : (i x : ℕ) → has x (longer i) ≡ true → x ≢ p → has x (q i) ≡ true
    has-longer i x inside other = elim (Bool-cases (level == i)) [
      | inl here ↦ ground (arith, inside, other, here, (==_iff _ _).0 here, has-snoc x p (q level))
      | inr apart ↦ ground (arith, inside, apart)
    ]

    longer_level : (i : ℕ) → has p (longer i) ≡ true → i < 32 → i ≡ level
    longer_level i inside h = elim (Bool-cases (level == i)) [
      | inl here ↦ sym ((==_iff _ _).0 here)
      | inr apart ↦ absurd (not_here i p h (ground (arith, inside, apart)) refl)
    ]

    after-IsQueues : IsQueues longer after
    after-IsQueues = record {
      chains = λ i h. elim (Bool-cases (level == i)) [
        | inl here ↦ rw here (
            subst (λ j. Chain procs' 0 (queues j) (q level ++ (p ∷ []))) ((==_iff _ _).0 here)
              chain)
        | inr apart ↦ rw apart (
            let other : i ≢ level = λ e. ==_false _ _ apart (sym e) in
            subst (λ head. Chain procs' 0 head (q i)) (sym (heads i other))
              (Chain-frame (procs_of s) procs' 0 (s.ready_queues i) (q i)
                (λ x inside. links i x h other inside) (v.chains i h)))
      ];
      distinct = λ i h. elim (Bool-cases (level == i)) [
        | inl here ↦ rw here (Distinct-snoc p (q level) (v.distinct level level-lt) out)
        | inr apart ↦ rw apart (v.distinct i h)
      ];
      levels = λ i x h inside. elim (Bool-cases (x == p)) [
        | inl here ↦
            (let same = (==_iff _ _).0 here in
              ap (λ y. clamp (procs' y).priority) same
              ∙ ap (λ r. clamp r.priority) this
              ∙ sym (longer_level i (ap (λ y. has y (longer i)) (sym same) ∙ inside) h))
        | inr apart ↦
            ap (λ r. clamp r.priority) (others x (==_false _ _ apart))
            ∙ v.levels i x h (has-longer i x inside (==_false _ _ apart))
      ];
      states = λ i x h inside. elim (Bool-cases (x == p)) [
        | inl here ↦ ap (λ y. (procs' y).state) ((==_iff _ _).0 here) ∙ ap (λ r. r.state) this
        | inr apart ↦
            ap (λ r. r.state) (others x (==_false _ _ apart))
            ∙ v.states i x h (has-longer i x inside (==_false _ _ apart))
      ];
      slots = λ i x h inside. elim (Bool-cases (x == p)) [
        | inl here ↦ omega (arith, (==_iff _ _).0 here, slot)
        | inr apart ↦ v.slots i x h (has-longer i x inside (==_false _ _ apart))
      ];
      bits = λ i h. elim (Bool-cases (level == i)) [
        | inl here ↦
            rw here
              (ap bitmap (sym ((==_iff _ _).0 here)) ∙ bit ∙ ap not (sym (is_nil-snoc p (q level))))
        | inr apart ↦ rw apart (rest i (λ e. ==_false _ _ apart (sym e)) ∙ v.bits i h)
      ];
    }

  -- What `scheduler_add` does to a process that is not `p`, and to `p`.
  abbrev pub Added : Procs → Type 0
  Added procs' =
      ((x : ℕ) → x ≢ p → procs' x ≡ relinked (procs_of s x) (procs' x))
      × (procs' p ≡ record (relinked (procs_of s p) (procs' p)) {
        state = ready;
        time_slice = time_slice_base + (priority_levels - level);
      })

  -- The queue of the priority was empty.
  add_empty :
      q level ≡ []
      → (let s' =
            with_procs (make_ready p level (set_prev p 0 (set_next p 0 (procs_of s)))) (record s {
              ready_queues = update s.ready_queues level p;
              ready_bitmap = update s.ready_bitmap level true;
            }) in
          IsQueues longer s' × Added (procs_of s'))
  add_empty e =
      (let procs' = make_ready p level (set_prev p 0 (set_next p 0 (procs_of s))) in
        (
          after-IsQueues procs' (update s.ready_queues level p) (update s.ready_bitmap level true)
              (λ x other. ground (arith, other)) (ground arith)
              (λ i x h other inside. ground (arith, not_here i x h inside))
              (subst (λ ps. Chain procs' 0 (update s.ready_queues level p level) (ps ++ (p ∷ [])))
                (sym e) (ground arith, some_p, ground arith, ground arith))
              (λ i other. ground (arith, other)) (ground arith) (λ i other. ground (arith, other)),
          ((λ x other. ground (arith, other)), ground arith),
        ))

  -- The queue had a process `r` in front, and others behind it.
  add_behind :
      (r : ℕ) (rs : List ℕ)
      → q level ≡ r ∷ rs
      → (let s' = with_procs (joined p level (last_of r rs) (procs_of s)) s in
          IsQueues longer s' × Added (procs_of s'))
  add_behind r rs e =
      (let tail = last_of r rs in
        let procs' = joined p level tail (procs_of s) in
        let was : Chain (procs_of s) 0 (s.ready_queues level) (r ∷ rs) =
          subst (λ ps. Chain (procs_of s) 0 (s.ready_queues level) ps) e
            (v.chains level level-lt) in
        let there : has tail (q level) ≡ true = ap (has tail) e ∙ last_of-inside r rs in
        let not_tail : p ≢ tail = λ same. not_here level tail level-lt there (sym same) in
        let members = λ (x : ℕ) (inside : has x (r ∷ rs) ≡ true).
          not_here level x level-lt (ap (has x) e ∙ inside) in
        (
          after-IsQueues procs' s.ready_queues s.ready_bitmap (λ x other. ground (arith, other))
              (ground (arith, not_tail))
              (λ i x h other inside.
                ground (arith, not_here i x h inside, elsewhere i x tail h other inside there))
              (subst (λ ps. Chain procs' 0 (s.ready_queues level) (ps ++ (p ∷ []))) (sym e)
                (subst (λ head. Chain procs' 0 head (r ∷ (rs ++ (p ∷ [])))) (sym was.0)
                  (Chain-snoc (procs_of s) procs' 0 r p rs
                    (subst (λ head. Chain (procs_of s) 0 head (r ∷ rs)) was.0 was)
                    (subst Distinct e (v.distinct level level-lt)) some_p (ground (arith, not_tail))
                    (ground (arith, not_tail)) (ground (arith, not_tail))
                    (λ x inside other. ground (arith, other, members x inside))
                    (λ x inside. ground (arith, members x inside)))))
              (λ i other. refl) (v.bits level level-lt ∙ ap (λ ps. not (is_nil ps)) e)
              (λ i other. refl),
          ((λ x other. ground (arith, other)), ground (arith, not_tail)),
        ))

  -- The walk to the end of the queue, behind which the links of `p` were cleared.
  tail_found :
      (r : ℕ) (rs : List ℕ)
      → q level ≡ r ∷ rs
      → find_tail max_processes (set_prev p 0 (set_next p 0 (procs_of s))) (s.ready_queues level)
        ≡ last_of r rs
  tail_found r rs e =
      (let procs1 = set_prev p 0 (set_next p 0 (procs_of s)) in
        let was : Chain (procs_of s) 0 (s.ready_queues level) (r ∷ rs) =
          subst (λ ps. Chain (procs_of s) 0 (s.ready_queues level) ps) e
            (v.chains level level-lt) in
        let now =
          Chain-frame (procs_of s) procs1 0 (s.ready_queues level) (r ∷ rs)
            (λ x inside. ground (arith, not_here level x level-lt (ap (has x) e ∙ inside))) was in
        ap (find_tail max_processes procs1) was.0
        ∙ find_tail-last max_processes procs1 0 r rs
            (subst (λ head. Chain procs1 0 head (r ∷ rs)) was.0 now)
            (omega (arith, length-queue v level level-lt, ap length e)))

  by_queue :
      is_unused (procs_of s p).state ≡ false
      → (ps : List ℕ) → q level ≡ ps
      → IsQueues longer (scheduler_add p s) × Added (procs_of (scheduler_add p s))
  unfolding scheduler_add
  by_queue used [] e =
      (let empty : (s.ready_queues level == 0) ≡ true = ground (
        arith,
        subst (λ ps. Chain (procs_of s) 0 (s.ready_queues level) ps) e (v.chains level level-lt),
      ) in
        rw (not_null p some_p, used, empty) (add_empty e))
  by_queue used (r ∷ rs) e =
      (let was : Chain (procs_of s) 0 (s.ready_queues level) (r ∷ rs) =
          subst (λ ps. Chain (procs_of s) 0 (s.ready_queues level) ps) e
            (v.chains level level-lt) in
        let some_head : (s.ready_queues level == 0) ≡ false = ground (arith, was.0, was.1) in
        rw (not_null p some_p, used, some_head, tail_found r rs e) (add_behind r rs e))

  -- `scheduler_add` of a process of the table that is in no queue puts it at the end of the queue of its
  -- priority, makes it ready and gives it the time slice of that priority; of every other process only
  -- links change, and the queues stay well formed.
  pub scheduler_add-IsQueues :
      is_unused (procs_of s p).state ≡ false
      → IsQueues longer (scheduler_add p s) × Added (procs_of (scheduler_add p s))
  scheduler_add-IsQueues used = by_queue used (q level) refl
