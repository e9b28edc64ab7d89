-- ===== src/Scheduler/Removing.antt =====
-- `scheduler_remove` of kernel/proc/scheduler.c, for a process that stands in its ready queue.
use simpleos.Common.{
  ℕ, ◌<◌, ◌≡◌, ◌≢◌, ◌⊎◌, refl, arith, true, false, not, ◌==◌, ==_iff, ==_false, if◌then◌else◌, List,
  [], ◌∷◌, true≢false, subst, Bool-cases, inl, inr, ap, sym, ◌∙◌,
}
use simpleos.Common.Bytes.{update}
use simpleos.Process.{Procs}
use simpleos.Scheduler.{Scheduler, procs_of, clamp, unlink, scheduler_remove}
use simpleos.Scheduler.Queue.{
  Chain, Chain-frame, Chain-erase, Unlinked, has, erase, next_inside, prev_inside, head_prev,
}
use simpleos.Scheduler.Invariant.{IsQueues, is_nil, has-erase, Distinct-erase, clamp-lt, member_pos}
use simpleos.Scheduler.Adding.{relinked, not_null}

unlink-Unlinked : (p : ℕ) (procs : Procs) → Unlinked procs (unlink p procs) p
unlink-Unlinked p procs = record {
  nexts = λ x some_x other. ground (arith, some_x, other);
  prevs = λ x some_x other. ground (arith, some_x, other);
}

pub unlink-relinked :
    (p : ℕ) (procs : Procs) (x : ℕ) → unlink p procs x ≡ relinked (procs x) (unlink p procs x)
unlink-relinked p procs x = ground arith

-- A list begins with no process just if it is empty.
pub head_nil :
    (procs : Procs) (before h : ℕ) (ps : List ℕ) → Chain procs before h ps → (h == 0) ≡ is_nil ps
head_nil procs before h [] chain = ground (arith, chain)
head_nil procs before h (r ∷ rs) chain = ground (arith, chain.0, chain.1)

some_inside : (p : ℕ) (ps : List ℕ) → has p ps ≡ true → is_nil ps ≡ false
some_inside p [] inside = absurd (true≢false (sym inside))
some_inside p (r ∷ rs) inside = refl

module _ {q : ℕ → List ℕ} {s : Scheduler} (v : IsQueues q s) (p : ℕ)
    (inside : has p (q (clamp (procs_of s p).priority)) ≡ true) where
  abbrev level : ℕ
  level = clamp (procs_of s p).priority

  level-lt : level < 32
  level-lt = clamp-lt (procs_of s p).priority

  abbrev procs' : Procs
  procs' = unlink p (procs_of s)

  abbrev queues : ℕ → ℕ
  queues =
      if (procs_of s p).prev == 0
      then update s.ready_queues level (procs_of s p).next
      else s.ready_queues

  abbrev shorter : ℕ → List ℕ
  shorter = update q level (erase p (q level))

  chain : Chain (procs_of s) 0 (s.ready_queues level) (q level)
  chain = v.chains level level-lt

  zero_outside : has 0 (q level) ≡ false
  zero_outside = elim (Bool-cases (has 0 (q level))) [
    | inl there ↦ absurd (omega (arith, member_pos v level 0 level-lt there))
    | inr out ↦ out
  ]

  -- The process has none before it just if it is the first.
  first_lem : (s.ready_queues level == p) ≡ ((procs_of s p).prev == 0)
  first_lem = elim (Bool-cases (s.ready_queues level == p)) [
    | inl here ↦
        here
        ∙ ground (
          arith,
          ap (λ x. (procs_of s x).prev) (sym ((==_iff _ _).0 here))
              ∙ head_prev (procs_of s) 0 (s.ready_queues level) p (q level) chain inside,
        )
    | inr later ↦
        later
        ∙ ground (
          arith,
          member_pos v level (procs_of s p).prev level-lt (
              prev_inside (procs_of s) 0 (s.ready_queues level) p (q level) chain inside
                (==_false _ _ later)),
        )
  ]

  new_head :
      queues level
      ≡ (if s.ready_queues level == p then (procs_of s p).next else s.ready_queues level)
  new_head = ground (arith, first_lem)

  erased_list : Chain procs' 0 (queues level) (erase p (q level))
  erased_list =
      subst (λ h. Chain procs' 0 h (erase p (q level))) (sym new_head)
        (Chain-erase (procs_of s) procs' 0 (s.ready_queues level) p (q level)
          (unlink-Unlinked p (procs_of s)) chain inside zero_outside (v.distinct level level-lt))

  -- A process of another queue is neither this one nor one of its neighbours.
  apart_from :
      (i x y : ℕ) → i < 32 → i ≢ level → has x (q i) ≡ true → has y (q level) ≡ true → x ≢ y
  apart_from i x y h other here there e = other (
      sym (v.levels i x h here)
      ∙ ap (λ z. clamp (procs_of s z).priority) e
      ∙ v.levels level y level-lt there)

  not_next :
      (i x : ℕ)
      → i < 32
      → i ≢ level
      → has x (q i) ≡ true
      → ((procs_of s p).next ≡ 0)
        ⊎ ((0 < (procs_of s p).next) × (has (procs_of s p).next (q level) ≡ true))
      → x ≢ (procs_of s p).next
  not_next i x h other here (inl none_left) = omega (arith, none_left, member_pos v i x h here)
  not_next i x h other here (inr (some_next, there)) =
      apart_from i x (procs_of s p).next h other here there

  not_prev : (i x : ℕ) → i < 32 → i ≢ level → has x (q i) ≡ true → x ≢ (procs_of s p).prev
  not_prev i x h other here = elim (Bool-cases (s.ready_queues level == p)) [
    | inl first ↦ omega (arith, member_pos v i x h here, (==_iff _ _).0 (sym first_lem ∙ first))
    | inr later ↦ apart_from i x (procs_of s p).prev h other here (
        prev_inside (procs_of s) 0 (s.ready_queues level) p (q level) chain inside
          (==_false _ _ later))
  ]

  same_links :
      (i x : ℕ)
      → i < 32
      → i ≢ level
      → has x (q i) ≡ true
      → ((procs' x).next ≡ (procs_of s x).next) × ((procs' x).prev ≡ (procs_of s x).prev)
  same_links i x h other here =
      (let some_x = member_pos v i x h here in
        let not_p = apart_from i x p h other here inside in
        let u = unlink-Unlinked p (procs_of s) in
        (
          u.nexts x some_x not_p ∙ ground (arith, not_prev i x h other here),
          u.prevs x some_x not_p
              ∙ ground (
                arith,
                not_next i x h other here
                    (next_inside (procs_of s) 0 (s.ready_queues level) p (q level) chain inside),
              ),
        ))

  other_heads : (i : ℕ) → i ≢ level → queues i ≡ s.ready_queues i
  other_heads i other = ground (arith, other)

  has-shorter : (i x : ℕ) → i < 32 → has x (shorter i) ≡ true → has x (q i) ≡ true
  has-shorter i x h there = elim (Bool-cases (level == i)) [
    | inl here ↦ ground (
      arith,
      there,
      here,
      (==_iff _ _).0 here,
      has-erase x p (q level) (v.distinct level level-lt),
    )
    | inr apart ↦ ground (arith, there, apart)
  ]

  new_bits :
      (i : ℕ)
      → i < 32
      → (if queues level == 0 then update s.ready_bitmap level false else s.ready_bitmap) i
        ≡ not (is_nil (shorter i))
  new_bits i h = elim (Bool-cases (level == i)) [
    | inl here ↦ ground (
      arith,
      here,
      head_nil procs' 0 (queues level) (erase p (q level)) erased_list,
      v.bits level level-lt,
      ap s.ready_bitmap ((==_iff _ _).0 here),
      some_inside p (q level) inside,
    )
    | inr apart ↦ ground (arith, apart, v.bits i h)
  ]

  -- `scheduler_remove` of a process that stands in the queue of its priority takes it out of that queue,
  -- whether it is the first, the last or between others, and clears its links; the bit of the queue is
  -- cleared just if the queue is empty then. Of every other process only links change, and the queues
  -- stay well formed.
  pub scheduler_remove-IsQueues :
      IsQueues shorter (scheduler_remove p s)
      × ((x : ℕ)
          → procs_of (scheduler_remove p s) x
            ≡ relinked (procs_of s x) (procs_of (scheduler_remove p s) x))
  unfolding scheduler_remove
  scheduler_remove-IsQueues = rw (not_null p (member_pos v level p level-lt inside)) (
    record {
      chains = λ i h. elim (Bool-cases (level == i)) [
        | inl here ↦ rw here (
            subst (λ j. Chain procs' 0 (queues j) (erase p (q level))) ((==_iff _ _).0 here)
              erased_list)
        | inr apart ↦ rw apart (
            let other : i ≢ level = λ e. ==_false _ _ apart (sym e) in
            subst (λ head. Chain procs' 0 head (q i)) (sym (other_heads i other))
              (Chain-frame (procs_of s) procs' 0 (s.ready_queues i) (q i)
                (λ x here. same_links i x h other here) (v.chains i h)))
      ];
      distinct = λ i h. elim (Bool-cases (level == i)) [
        | inl here ↦ rw here (Distinct-erase p (q level) (v.distinct level level-lt))
        | inr apart ↦ rw apart (v.distinct i h)
      ];
      levels = λ i x h there.
          ap (λ r. clamp r.priority) (unlink-relinked p (procs_of s) x)
          ∙ v.levels i x h (has-shorter i x h there);
      states = λ i x h there.
          ap (λ r. r.state) (unlink-relinked p (procs_of s) x)
          ∙ v.states i x h (has-shorter i x h there);
      slots = λ i x h there. v.slots i x h (has-shorter i x h there);
      bits = λ i h. new_bits i h;
    },
    unlink-relinked p (procs_of s),
  )
