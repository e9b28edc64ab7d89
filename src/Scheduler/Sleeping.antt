-- ===== src/Scheduler/Sleeping.antt =====
-- The sleep queue of kernel/proc/scheduler.c.
use simpleos.Common.{
  ℕ, zero, suc, ◌<◌, ◌≡◌, ◌≢◌, ◌⊎◌, refl, arith, true, false, not, ◌&&◌, ltb, leb, ◌==◌,
  if◌then◌else◌, List, [], ◌∷◌, length, subst, Bool-cases, inl, inr, ap, sym, ◌∙◌,
}
use simpleos.Process.{Procs}
use simpleos.Scheduler.{find_place}
use simpleos.Scheduler.Queue.{Chain, Chain-frame, has, has-ne, has-pos, Distinct, next_inside}

-- The list with `p` before the first process that wakes later.
abbrev pub by_time : Procs → ℕ → List ℕ → List ℕ
by_time procs p [] = p ∷ []
by_time procs p (x ∷ xs) =
    let later = by_time procs p xs in
    if ltb (procs p).wake_time (procs x).wake_time then p ∷ x ∷ xs else x ∷ later

-- What putting `p` behind `place` does to the links.
pub record Inserted (procs procs' : Procs) (p place : ℕ) : Type 0 where
  pub next_p : (procs' p).next ≡ (procs place).next
  pub prev_p : (procs' p).prev ≡ place
  pub next_place : (procs' place).next ≡ p
  pub nexts : (x : ℕ) → x ≢ p → x ≢ place → (procs' x).next ≡ (procs x).next
  pub prevs :
      (x : ℕ)
      → 0 < x
      → x ≢ p
      → (procs' x).prev ≡ (if x == (procs place).next then p else (procs x).prev)

-- The place is in the list.
pub find_place-inside :
    (fuel : ℕ) (procs : Procs) (w before x : ℕ) (xs : List ℕ)
    → Chain procs before x (x ∷ xs)
    → has (find_place fuel procs w x) (x ∷ xs) ≡ true
unfolding find_place
find_place-inside zero procs w before x xs chain = ground arith
find_place-inside (suc fuel) procs w before x [] (e, some_x, back, rest) = ground (arith, rest)
find_place-inside (suc fuel) procs w before x (y ∷ ys)
      (e, some_x, back, (e', some_y, back_y, rest)) =
    ground (
      arith,
      ap (find_place fuel procs w) e',
      find_place-inside fuel procs w x y ys (refl, some_y, back_y, rest),
    )

-- The walk ends before a process that wakes later, and at the end; it goes on otherwise.
stays :
    (fuel : ℕ) (procs : Procs) (w x : ℕ)
    → (not ((procs x).next == 0) && leb (procs (procs x).next).wake_time w) ≡ false
    → find_place (suc fuel) procs w x ≡ x
unfolding find_place
stays fuel procs w x e = rw e refl

moves :
    (fuel : ℕ) (procs : Procs) (w x y : ℕ)
    → (procs x).next ≡ y
    → 0 < y
    → leb (procs y).wake_time w ≡ true
    → find_place (suc fuel) procs w x ≡ find_place fuel procs w y
unfolding find_place
moves fuel procs w x y e some_y h =
    (let goes_on : (not (y == 0) && leb (procs y).wake_time w) ≡ true = ground (arith, some_y, h) in
      rw (ap (λ n. not (n == 0) && leb (procs n).wake_time w) e ∙ goes_on)
        (ap (find_place fuel procs w) e))

-- The processes behind the place.
pub relink :
    (procs procs' : Procs) (p x : ℕ) (zs : List ℕ)
    → Chain procs x (procs x).next zs
    → Distinct zs
    → has p zs ≡ false
    → has x zs ≡ false
    → Inserted procs procs' p x
    → Chain procs' p (procs x).next zs
relink procs procs' p x [] chain distinct out apart i = chain
relink procs procs' p x (z ∷ zs) (e, some_z, back, rest) (apart_z, distinct) out apart i =
    (let not_p : z ≢ p = has-ne p z (z ∷ zs) out (ground arith) in
      let not_x : z ≢ x = has-ne x z (z ∷ zs) apart (ground arith) in
      (
        e,
        some_z,
        i.prevs z some_z not_p ∙ ground (arith, e),
        subst (λ n. Chain procs' z n zs) (sym (i.nexts z not_p not_x))
            (Chain-frame procs procs' z (procs z).next zs
              (λ r inside.
                (let some_r = has-pos procs z (procs z).next r zs rest inside in
                  let r_not_p : r ≢ p = has-ne p r (z ∷ zs) out (ground (arith, inside)) in
                  let r_not_x : r ≢ x = has-ne x r (z ∷ zs) apart (ground (arith, inside)) in
                  let r_not_z : r ≢ z = has-ne z r zs apart_z inside in
                  (
                    i.nexts r r_not_p r_not_x,
                    i.prevs r some_r r_not_p ∙ ground (arith, e, r_not_z),
                  )))
              rest),
      ))

pub not_head :
    (procs : Procs) (before n x : ℕ) (zs : List ℕ)
    → Chain procs before n zs
    → 0 < x
    → has x zs ≡ false
    → x ≢ n
not_head procs before n x [] chain some_x out = omega (arith, chain, some_x)
not_head procs before n x (z ∷ zs) chain some_x out = ground (arith, chain.0, out)

-- The process before the first, when the place is further on, is not touched.
pub not_behind :
    (procs : Procs) (x n : ℕ) (zs : List ℕ)
    → 0 < x
    → has x zs ≡ false
    → (n ≡ 0) ⊎ ((0 < n) × (has n zs ≡ true))
    → x ≢ n
not_behind procs x n zs some_x apart (inl none_left) = omega (arith, none_left, some_x)
not_behind procs x n zs some_x apart (inr (some_n, inside)) =
    λ e. has-ne x n zs apart inside (sym e)

insert_here :
    (procs procs' : Procs) (p before x : ℕ) (zs : List ℕ)
    → Chain procs before x (x ∷ zs)
    → Distinct (x ∷ zs)
    → 0 < p
    → has p (x ∷ zs) ≡ false
    → Inserted procs procs' p x
    → Chain procs' before x (x ∷ p ∷ zs)
insert_here procs procs' p before x zs (e, some_x, back, rest) (apart, distinct) some_p out i =
    (let not_p : x ≢ p = has-ne p x (x ∷ zs) out (ground arith) in
      let not_next : x ≢ (procs x).next = not_head procs x (procs x).next x zs rest some_x apart in
      (
        refl,
        some_x,
        i.prevs x some_x not_p ∙ ground (arith, not_next, back),
        (
          i.next_place,
          some_p,
          i.prev_p,
          subst (λ n. Chain procs' p n zs) (sym i.next_p)
              (relink procs procs' p x zs rest distinct (ground (arith, out)) apart i),
        ),
      ))

-- The walk to the place, and the list once `p` is behind it.
pub Chain-by_time :
    (fuel : ℕ) (procs procs' : Procs) (p before x : ℕ) (xs : List ℕ)
    → Chain procs before x (x ∷ xs)
    → Distinct (x ∷ xs)
    → length xs < fuel
    → 0 < p
    → has p (x ∷ xs) ≡ false
    → Inserted procs procs' p (find_place fuel procs (procs p).wake_time x)
    → Chain procs' before x (x ∷ by_time procs p xs)
Chain-by_time zero procs procs' p before x xs chain distinct h some_p out i = elim h [ ]
Chain-by_time (suc fuel) procs procs' p before x [] (e, some_x, back, rest) distinct h some_p out
      i =
    (let at =
        stays fuel procs (procs p).wake_time x
          (ap (λ n. not (n == 0) && leb (procs n).wake_time (procs p).wake_time) rest) in
      insert_here procs procs' p before x [] (e, some_x, back, rest) distinct some_p out
        (subst (Inserted procs procs' p) at i))
Chain-by_time (suc fuel) procs procs' p before x (y ∷ ys)
      (e, some_x, back, (e', some_y, back_y, rest)) (apart, distinct) h some_p out i =
    elim (Bool-cases (ltb (procs p).wake_time (procs y).wake_time)) [
      | inl later ↦
          (let stop : (not ((procs x).next == 0)
                  && leb (procs (procs x).next).wake_time (procs p).wake_time)
                ≡ false =
              ap (λ n. not (n == 0) && leb (procs n).wake_time (procs p).wake_time) e'
              ∙ past (procs y).wake_time (procs p).wake_time y later in
            rw later (
              insert_here procs procs' p before x (y ∷ ys)
                (e, some_x, back, (e', some_y, back_y, rest)) (apart, distinct) some_p out
                (subst (Inserted procs procs' p) (stays fuel procs (procs p).wake_time x stop) i)))
      | inr earlier ↦
          (let w = (procs p).wake_time in
            let place = find_place fuel procs w y in
            let i' : Inserted procs procs' p place =
              subst (Inserted procs procs' p)
                (moves fuel procs w x y e' some_y (ground (arith, earlier))) i in
            let chain_y : Chain procs x y (y ∷ ys) = (refl, some_y, back_y, rest) in
            let inside = find_place-inside fuel procs w x y ys chain_y in
            let not_p : x ≢ p = has-ne p x (x ∷ y ∷ ys) out (ground arith) in
            let not_place : x ≢ place = λ same. has-ne x place (y ∷ ys) apart inside (sym same) in
            let not_after =
              not_behind procs x (procs place).next (y ∷ ys) some_x apart
                (next_inside procs x y place (y ∷ ys) chain_y inside) in
            rw earlier (
              refl,
              some_x,
              i'.prevs x some_x not_p
                  ∙ prev_kept x (procs place).next p (procs x).prev not_after
                  ∙ back,
              subst (λ n. Chain procs' x n (y ∷ by_time procs p ys))
                  (sym (i'.nexts x not_p not_place ∙ e'))
                  (Chain-by_time fuel procs procs' p x y ys chain_y distinct (omega (arith, h))
                    some_p (ground (arith, out)) i'),
            ))
    ]
  where
    past : (a b y : ℕ) → ltb b a ≡ true → (not (y == 0) && leb a b) ≡ false
    past a b y later = ground (arith, later)

    prev_kept : (x n p old : ℕ) → x ≢ n → (if x == n then p else old) ≡ old
    prev_kept x n p old other = ground (arith, other)
