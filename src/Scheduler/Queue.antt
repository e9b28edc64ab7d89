-- ===== src/Scheduler/Queue.antt =====
-- Lists of processes linked through their fields, in kernel/proc/scheduler.c.
use simpleos.Common.{
  ℕ, zero, suc, ◌<◌, ◌≡◌, ◌≢◌, ◌⊎◌, inl, inr, refl, arith, Bool, true, false, ◌||◌, ◌==◌, ==_iff,
  ==_false, if◌then◌else◌, List, [], ◌∷◌, ◌++◌, length, true≢false, subst, Bool-cases, ap, sym, ◌∙◌,
}
use simpleos.Process.{Procs}
use simpleos.Scheduler.{find_tail}

-- From `head` on the processes are those of the list, each pointing to the next one and to the one
-- before, and the last one to none.
abbrev pub Chain : Procs → ℕ → ℕ → List ℕ → Type 0
Chain procs before head [] = head ≡ 0
Chain procs before head (p ∷ ps) =
    (head ≡ p) × (0 < p) × ((procs p).prev ≡ before) × Chain procs p (procs p).next ps

abbrev pub has : ℕ → List ℕ → Bool
has p [] = false
has p (q ∷ qs) = (p == q) || has p qs

abbrev pub Distinct : List ℕ → Type 0
Distinct [] = Unit {0}
Distinct (p ∷ ps) = (has p ps ≡ false) × Distinct ps

abbrev pub erase : ℕ → List ℕ → List ℕ
erase p [] = []
erase p (q ∷ qs) = if p == q then qs else q ∷ erase p qs

abbrev pub last_of : ℕ → List ℕ → ℕ
last_of p [] = p
last_of p (q ∷ qs) = last_of q qs

-- A change that spares the links of the list.
pub Chain-frame :
    (procs procs' : Procs) (before head : ℕ) (ps : List ℕ)
    → ((p : ℕ)
        → has p ps ≡ true
        → ((procs' p).next ≡ (procs p).next) × ((procs' p).prev ≡ (procs p).prev))
    → Chain procs before head ps
    → Chain procs' before head ps
Chain-frame procs procs' before head [] same chain = chain
Chain-frame procs procs' before head (p ∷ ps) same (e, some_p, back, rest) =
    (let (next, prev) = same p (ground arith) in
      (
        e,
        some_p,
        prev ∙ back,
        subst (λ n. Chain procs' p n ps) (sym next)
            (Chain-frame procs procs' p (procs p).next ps
              (λ q inside. same q (ground (arith, inside))) rest),
      ))

-- The walk to the end of a list finds its last process, if there is fuel for the others.
pub find_tail-last :
    (fuel : ℕ) (procs : Procs) (before p : ℕ) (ps : List ℕ)
    → Chain procs before p (p ∷ ps)
    → length ps < fuel
    → find_tail fuel procs p ≡ last_of p ps
unfolding find_tail
find_tail-last zero procs before p ps chain h = elim h [ ]
find_tail-last (suc fuel) procs before p [] (e, some_p, back, rest) h = ground (arith, rest)
find_tail-last (suc fuel) procs before p (q ∷ qs) (e, some_p, back, (e', some_q, back_q, more)) h =
    ground (
      arith,
      e',
      some_q,
      ap (find_tail fuel procs) e'
          ∙ find_tail-last fuel procs p q qs (refl, some_q, back_q, more) (omega (arith, h)),
    )

pub last_of-inside : (q : ℕ) (qs : List ℕ) → has (last_of q qs) (q ∷ qs) ≡ true
last_of-inside q [] = ground arith
last_of-inside q (r ∷ rs) = ground (arith, last_of-inside r rs)

not_last : (q r : ℕ) (rs : List ℕ) → has q (r ∷ rs) ≡ false → q ≢ last_of r rs
not_last q r rs apart e =
    true≢false (sym (last_of-inside r rs) ∙ ap (λ x. has x (r ∷ rs)) (sym e) ∙ apart)

-- A process behind the last one.
pub Chain-snoc :
    (procs procs' : Procs) (before q p : ℕ) (qs : List ℕ)
    → Chain procs before q (q ∷ qs)
    → Distinct (q ∷ qs)
    → 0 < p
    → (procs' p).next ≡ 0
    → (procs' p).prev ≡ last_of q qs
    → (procs' (last_of q qs)).next ≡ p
    → ((x : ℕ) → has x (q ∷ qs) ≡ true → x ≢ last_of q qs → (procs' x).next ≡ (procs x).next)
    → ((x : ℕ) → has x (q ∷ qs) ≡ true → (procs' x).prev ≡ (procs x).prev)
    → Chain procs' before q (q ∷ (qs ++ (p ∷ [])))
Chain-snoc procs procs' before q p [] (e, some_q, back, rest) distinct some_p end back_p link nexts
      prevs =
    (refl, some_q, prevs q (ground arith) ∙ back, (link, some_p, back_p, end))
Chain-snoc procs procs' before q p (r ∷ rs) (e, some_q, back, (e', some_r, back_r, rest))
      (apart, distinct) some_p end back_p link nexts prevs =
    (let next = nexts q (ground arith) (λ same. not_last q r rs apart same) in
      (
        refl,
        some_q,
        prevs q (ground arith) ∙ back,
        subst (λ n. Chain procs' q n (r ∷ (rs ++ (p ∷ [])))) (sym (next ∙ e'))
            (Chain-snoc procs procs' q r p rs (refl, some_r, back_r, rest) distinct some_p end
              back_p link (λ x inside other. nexts x (ground (arith, inside)) other)
              (λ x inside. prevs x (ground (arith, inside)))),
      ))

-- What taking a process out of its list does to the links of the others.
pub record Unlinked (procs procs' : Procs) (p : ℕ) : Type 0 where
  pub nexts :
      (x : ℕ)
      → 0 < x
      → x ≢ p
      → (procs' x).next ≡ (if x == (procs p).prev then (procs p).next else (procs x).next)
  pub prevs :
      (x : ℕ)
      → 0 < x
      → x ≢ p
      → (procs' x).prev ≡ (if x == (procs p).next then (procs p).prev else (procs x).prev)

-- The head of a list, and what is known of it.
head_inside :
    (procs : Procs) (before h : ℕ) (ps : List ℕ)
    → Chain procs before h ps
    → (h ≡ 0) ⊎ ((0 < h) × (has h ps ≡ true))
head_inside procs before h [] chain = inl chain
head_inside procs before h (r ∷ rs) (e, some_r, back, rest) =
    inr (omega (arith, e, some_r), ground (arith, e))

pub head_prev :
    (procs : Procs) (before h x : ℕ) (ps : List ℕ)
    → Chain procs before h ps
    → has x ps ≡ true
    → (procs h).prev ≡ before
head_prev procs before h x [] chain inside = absurd (true≢false (sym inside))
head_prev procs before h x (r ∷ rs) (e, some_r, back, rest) inside =
    ap (λ y. (procs y).prev) e ∙ back

pub has-pos :
    (procs : Procs) (before h x : ℕ) (ps : List ℕ)
    → Chain procs before h ps
    → has x ps ≡ true
    → 0 < x
has-pos procs before h x [] chain inside = absurd (true≢false (sym inside))
has-pos procs before h x (r ∷ rs) (e, some_r, back, rest) inside =
    ground (arith, some_r, inside, has-pos procs r (procs r).next x rs rest)

pub has-ne : (a x : ℕ) (xs : List ℕ) → has a xs ≡ false → has x xs ≡ true → x ≢ a
has-ne a x xs out inside e = true≢false (sym inside ∙ ap (λ y. has y xs) e ∙ out)

-- The process behind one of the list is in the list, or there is none.
within_tail :
    (q n : ℕ) (qs : List ℕ)
    → (n ≡ 0) ⊎ ((0 < n) × (has n qs ≡ true))
    → (n ≡ 0) ⊎ ((0 < n) × (has n (q ∷ qs) ≡ true))
within_tail q n qs (inl e) = inl e
within_tail q n qs (inr (some_n, inside)) = inr (some_n, ground (arith, inside))

pub next_inside :
    (procs : Procs) (before h p : ℕ) (ps : List ℕ)
    → Chain procs before h ps
    → has p ps ≡ true
    → ((procs p).next ≡ 0) ⊎ ((0 < (procs p).next) × (has (procs p).next ps ≡ true))
next_inside procs before h p [] chain inside = absurd (true≢false (sym inside))
next_inside procs before h p (q ∷ qs) (e, some_q, back, rest) inside = elim (Bool-cases (p == q)) [
  | inl here ↦
      subst
        (λ x. ((procs x).next ≡ 0) ⊎ ((0 < (procs x).next) × (has (procs x).next (q ∷ qs) ≡ true)))
        (sym ((==_iff p q).0 here))
        (within_tail q (procs q).next qs (head_inside procs q (procs q).next qs rest))
  | inr later ↦
      within_tail q (procs p).next qs
        (next_inside procs q (procs q).next p qs rest (ground (arith, inside, later)))
]

-- The process before one of the list, but for the first, is in the list.
pub prev_inside :
    (procs : Procs) (before h p : ℕ) (ps : List ℕ)
    → Chain procs before h ps
    → has p ps ≡ true
    → h ≢ p
    → has (procs p).prev ps ≡ true
prev_inside procs before h p [] chain inside other = absurd (true≢false (sym inside))
prev_inside procs before h p (q ∷ qs) (e, some_q, back, rest) inside other =
    (let later : has p qs ≡ true = ground (arith, inside, other, e) in
      elim (Bool-cases ((procs q).next == p)) [
        | inl here ↦ ground (
          arith,
          ap (λ x. (procs x).prev) (sym ((==_iff _ _).0 here))
              ∙ head_prev procs q (procs q).next p qs rest later,
        )
        | inr further ↦
            ground
              (arith, prev_inside procs q (procs q).next p qs rest later (==_false _ _ further))
      ])

-- The first process of a list is taken out.
Chain-tail :
    (procs procs' : Procs) (before p : ℕ) (ps : List ℕ)
    → Unlinked procs procs' p
    → (procs p).prev ≡ before
    → Chain procs p (procs p).next ps
    → has p ps ≡ false
    → has before ps ≡ false
    → Distinct ps
    → Chain procs' before (procs p).next ps
Chain-tail procs procs' before p [] u back chain apart apart' distinct = chain
Chain-tail procs procs' before p (q ∷ qs) u back (e, some_q, back_q, rest) apart apart' distinct =
    (let next : (procs' q).next ≡ (procs q).next =
        u.nexts q some_q (λ x. absurd (ground (arith, x, apart))) ∙ ground (arith, apart', back) in
      (
        e,
        some_q,
        u.prevs q some_q (λ x. absurd (ground (arith, x, apart))) ∙ ground (arith, e, back),
        subst (λ n. Chain procs' q n qs) (sym next)
            (Chain-frame procs procs' q (procs q).next qs
              (λ x inside.
                (let some_x = has-pos procs q (procs q).next x qs rest inside in
                  let not_p = has-ne p x qs (ground (arith, apart)) inside in
                  let not_q = has-ne q x qs distinct.0 inside in
                  let not_before = has-ne before x qs (ground (arith, apart')) inside in
                  (
                    u.nexts x some_x not_p ∙ ground (arith, not_before, back),
                    u.prevs x some_x not_p ∙ ground (arith, not_q, e),
                  )))
              rest),
      ))

==_sym : (p q : ℕ) → (p == q) ≡ true → (q == p) ≡ true
==_sym p q e = ground (arith, e)

pub ==_ne : (p q : ℕ) → p ≢ q → (p == q) ≡ false
==_ne p q e = ground (arith, e)

-- The links of a process before the one taken out.
module _ (procs procs' : Procs) (p q : ℕ) (qs : List ℕ) (u : Unlinked procs procs' p)
    (some_q : 0 < q) (other : q ≢ p) (rest : Chain procs q (procs q).next qs)
    (inside : has p qs ≡ true) (apart : has q qs ≡ false) where
  not_next :
      ((procs p).next ≡ 0) ⊎ ((0 < (procs p).next) × (has (procs p).next qs ≡ true))
      → q ≢ (procs p).next
  not_next (inl none_left) = omega (arith, none_left, some_q)
  not_next (inr (some_next, inside')) = λ e. has-ne q (procs p).next qs apart inside' (sym e)

  prev_earlier : (procs' q).prev ≡ (procs q).prev
  prev_earlier =
      u.prevs q some_q other
      ∙ ground (arith, not_next (next_inside procs q (procs q).next p qs rest inside))

  next_earlier : (procs' q).next ≡ (if (procs q).next == p then (procs p).next else (procs q).next)
  next_earlier = elim (Bool-cases ((procs q).next == p)) [
    | inl here ↦
        u.nexts q some_q other
        ∙ ground (
          arith,
          here,
          ap (λ x. (procs x).prev) (sym ((==_iff _ _).0 here))
              ∙ head_prev procs q (procs q).next p qs rest inside,
        )
    | inr further ↦
        u.nexts q some_q other
        ∙ ground (
          arith,
          further,
          has-ne q (procs p).prev qs apart
              (prev_inside procs q (procs q).next p qs rest inside (==_false _ _ further)),
        )
  ]

-- Where the list begins once the process is taken out, and the list then.
pub Chain-erase :
    (procs procs' : Procs) (before h p : ℕ) (ps : List ℕ)
    → Unlinked procs procs' p
    → Chain procs before h ps
    → has p ps ≡ true
    → has before ps ≡ false
    → Distinct ps
    → Chain procs' before (if h == p then (procs p).next else h) (erase p ps)
Chain-erase procs procs' before h p [] u chain inside out distinct =
    absurd (true≢false (sym inside))
Chain-erase procs procs' before h p (q ∷ qs) u (e, some_q, back, rest) inside out distinct =
    elim (Bool-cases (p == q)) [
      | inl here ↦
          (let same = (==_iff p q).0 here in
            rw (ap (λ x. x == p) e ∙ ==_sym p q here, here)
              (Chain-tail procs procs' before p qs u (ap (λ x. (procs x).prev) same ∙ back)
                (subst (λ x. Chain procs x (procs x).next qs) (sym same) rest)
                (ap (λ x. has x qs) same ∙ distinct.0) (ground (arith, out)) distinct.1))
      | inr later ↦
          (let other = ==_false p q later in
            let further : has p qs ≡ true = ground (arith, inside, later) in
            let not_p : q ≢ p = λ x. other (sym x) in
            rw (ap (λ x. x == p) e ∙ ==_ne q p not_p, later)
              (
                e,
                some_q,
                prev_earlier procs procs' p q qs u some_q not_p rest further distinct.0 ∙ back,
                subst (λ n. Chain procs' q n (erase p qs))
                    (sym (next_earlier procs procs' p q qs u some_q not_p rest further distinct.0))
                    (Chain-erase procs procs' q (procs q).next p qs u rest further distinct.0
                      distinct.1),
              ))
    ]
