-- ===== src/Pmm/Runs.antt =====
-- `pmm_alloc_pages` and `pmm_free_pages` of kernel/mm/pmm.c.
use simpleos.Common.{
  ℕ, zero, suc, ◌+◌, ◌*◌, ◌/◌, ◌≤◌, ◌<◌, ◌≡◌, ◌⊎◌, refl, arith, ◌==◌, if◌then◌else◌, Bool-cases,
  inl, inr, Option, none, some, ltb, leb, Option-cases, ◌||◌,
}
use simpleos.Pmm.{
  Pmm, max_pages, kernel_pages, page_size, first_used, mark_used, mark_run, alloc_pages_loop,
  alloc_pages, free_if_used, free_run, free_pages,
}
use simpleos.Pmm.Count.{count-eq}
use simpleos.Pmm.Invariant.{
  used, within, IsValid, used-mark_used, used_pages-mark_used, mark_used-IsValid,
  free_if_used-IsValid, used-mark_free,
}
use simpleos.Pmm.Single.{used-one}

-- The `n` pages from `p` on are free.
abbrev pub IsFreeRun : Pmm → ℕ → ℕ → Type 0
IsFreeRun s p n = (q : ℕ) → p ≤ q → q < p + n → used s q ≡ 0

-- The effect of taking the `n` pages from `p` on.
pub record Takes (s t : Pmm) (p n : ℕ) : Type 0 where
  pub marks : (q : ℕ) → used t q ≡ (if within p n q then 1 else used s q)
  pub counts : t.used_pages ≡ s.used_pages + n
  pub valid : IsValid t

-- `p` is the lowest start above the kernel of `n` free managed pages.
pub record IsFirstRun (s : Pmm) (n p : ℕ) : Type 0 where
  pub above : kernel_pages ≤ p
  pub below : p + n ≤ max_pages
  pub free : IsFreeRun s p n
  pub lowest : (q : ℕ) → kernel_pages ≤ q → q < p → ¬ IsFreeRun s q n

-- What an allocation of `n` contiguous pages may come to.
pub data AllocPages (s : Pmm) (n : ℕ) (r : Option ℕ × Pmm) : Type 0 where
  found :
      (p : ℕ) → IsFirstRun s n p → r.0 ≡ some (p * page_size) → Takes s r.1 p n → AllocPages s n r
  full :
      r.0 ≡ none
      → r.1 ≡ s
      → ((p : ℕ) → kernel_pages ≤ p → p + n ≤ max_pages → ¬ IsFreeRun s p n)
      → AllocPages s n r
  rejected : (n ≡ 0) ⊎ (256 < n) → r.0 ≡ none → r.1 ≡ s → AllocPages s n r

first_used-none :
    (s : Pmm) (p rounds i q : ℕ)
    → first_used s.bitmap p rounds i ≡ none
    → p + i ≤ q
    → q < p + i + rounds
    → used s q ≡ 0
unfolding first_used
first_used-none s p zero i q e lo hi = absurd (omega arith)
first_used-none s p (suc rounds) i q e lo hi = ground (arith, first_used-none s p rounds (i + 1) q)

first_used-some :
    (s : Pmm) (p rounds i k : ℕ)
    → first_used s.bitmap p rounds i ≡ some k
    → (k < i + rounds) × (used s (p + k) ≡ 1)
unfolding first_used
first_used-some s p zero i k e = absurd (cc)
first_used-some s p (suc rounds) i k e =
    ground (arith, first_used-some s p rounds (i + 1) k, used-one s (p + i))

mark_run-Takes :
    (n p : ℕ) {s : Pmm}
    → IsValid s
    → p + n ≤ max_pages
    → IsFreeRun s p n
    → Takes s (mark_run n p s) p n
unfolding mark_run
mark_run-Takes zero p v h free = record {
  marks = λ q. ground arith;
  counts = omega arith;
  valid = v;
}
mark_run-Takes (suc n) p {s} v h free =
    let here = free p (omega arith) (omega arith) in
    let next =
      mark_run-Takes n (p + 1) {s = mark_used s p} (mark_used-IsValid v p (omega arith) here)
        (omega arith) (λ q lo hi. ground (arith, used-mark_used v p (omega arith) q, free q)) in
    record {
      marks = λ q. ground (arith, next.marks q, used-mark_used v p (omega arith) q);
      counts = omega (arith, next.counts, used_pages-mark_used v p (omega arith) here);
      valid = next.valid;
    }

module _ {s : Pmm} (n : ℕ) (v : IsValid s) (some_pages : 0 < n) where
  -- A used page inside the window at `p` rules out every window that reaches it.
  skip :
      (p i : ℕ)
      → i < n
      → used s (p + i) ≡ 1
      → ((q : ℕ) → kernel_pages ≤ q → q < p → ¬ IsFreeRun s q n)
      → (q : ℕ) → kernel_pages ≤ q
      → q < p + i + 1
      → ¬ IsFreeRun s q n
  skip p i h busy before q lo hi free = elim (Bool-cases (ltb q p)) [
    | inl e ↦ before q lo (ground arith) free
    | inr e ↦ absurd (ground (arith, free (p + i)))
  ]

  alloc_pages_loop-AllocPages :
      (fuel p : ℕ)
      → max_pages ≤ p + fuel
      → kernel_pages ≤ p
      → ((q : ℕ) → kernel_pages ≤ q → q < p → ¬ IsFreeRun s q n)
      → AllocPages s n (alloc_pages_loop fuel n p s)
  unfolding alloc_pages_loop
  alloc_pages_loop-AllocPages zero p e lo before =
      full refl refl (λ q a b. before q a (omega arith))
  alloc_pages_loop-AllocPages (suc fuel) p e lo before = elim (Bool-cases (leb (p + n) max_pages)) [
    | inr past ↦ rw (past, alloc_pages_loop) (full refl refl (λ q a b. before q a (ground arith)))
    | inl fits ↦ elim (Option-cases (first_used s.bitmap p n 0)) [
      | inl none_used ↦
          let free : IsFreeRun s p n =
            λ q a b. first_used-none s p n 0 q none_used (omega arith) (omega arith) in
          rw (fits, none_used, alloc_pages_loop)
            (found p (record { above = lo; below = ground arith; free = free; lowest = before })
              refl (mark_run-Takes n p v (ground arith) free))
      | inr (i, e') ↦
          let hit = first_used-some s p n 0 i e' in
          rw (fits, e', alloc_pages_loop)
            (alloc_pages_loop-AllocPages fuel (p + i + 1) (omega arith) (omega arith)
              (skip p i (omega arith) hit.1 before))
    ]
  ]

-- On a valid state and for any count `pmm_alloc_pages` returns the lowest run of that many free
-- pages from 2 MiB up, marks exactly those pages and counts them; or it returns NULL and changes
-- nothing, which for a count from 1 to 256 happens only when there is no such run.
pub alloc_pages-AllocPages : {s : Pmm} (n : ℕ) → IsValid s → AllocPages s n (alloc_pages s n)
unfolding alloc_pages
alloc_pages-AllocPages {s} n v = elim (Bool-cases ((n == 0) || ltb 256 n)) [
  | inl bad ↦ rw bad (rejected (ground arith) refl refl)
  | inr good ↦ rw good (
      alloc_pages_loop-AllocPages n v (ground arith) max_pages kernel_pages (omega arith)
        (omega arith) (λ q lo hi. absurd (omega arith)))
]

-- The effect of freeing the `n` pages from `p` on.
pub record Frees (s t : Pmm) (p n : ℕ) : Type 0 where
  pub marks : (q : ℕ) → q < max_pages → used t q ≡ (if within p n q then 0 else used s q)
  pub valid : IsValid t

used-free_if_used :
    {s : Pmm} (v : IsValid s) (p : ℕ)
    → p < max_pages
    → (q : ℕ) → used (free_if_used s p) q ≡ (if p == q then 0 else used s q)
unfolding free_if_used
used-free_if_used {s} v p h q = ground (arith, used-mark_free v p h q)

pub free_run-Frees : (n p : ℕ) {s : Pmm} → IsValid s → Frees s (free_run n p s) p n
unfolding free_run
free_run-Frees zero p v = record { marks = λ q h. ground arith; valid = v }
free_run-Frees (suc n) p {s} v = elim (Bool-cases (ltb p max_pages)) [
  | inr past ↦ rw (past, free_run) (record { marks = λ q h. ground arith; valid = v })
  | inl inside ↦
      let h : p < max_pages = ground arith in
      let next = free_run-Frees n (p + 1) {s = free_if_used s p} (free_if_used-IsValid v p h) in
      rw (inside, free_run)
        (record {
          marks = λ q hq. ground (arith, next.marks q hq, used-free_if_used v p h q);
          valid = next.valid;
        })
]

-- `pmm_free_pages` leaves free the managed pages among the `count` from the address on, leaves every
-- other page as it was, and keeps the invariant, so that the counter still counts the used pages.
pub free_pages-Frees :
    {s : Pmm} (addr count : ℕ)
    → IsValid s
    → Frees s (free_pages s addr count) (addr / page_size) count
unfolding free_pages
free_pages-Frees addr count v = free_run-Frees count (addr / page_size) v

-- The counter of a valid state is determined by its pages.
used_pages-eq :
    {s t : Pmm}
    → IsValid s
    → IsValid t
    → ((q : ℕ) → q < max_pages → used t q ≡ used s q)
    → t.used_pages ≡ s.used_pages
used_pages-eq {s} {t} v w h =
    omega (arith, v.counted, w.counted, count-eq max_pages (used t) (used s) h)

free_after-AllocPages :
    {s t : Pmm} (n addr : ℕ)
    → IsValid s
    → AllocPages s n (some addr, t)
    → ((q : ℕ) → q < max_pages → used (free_pages t addr n) q ≡ used s q)
      × ((free_pages t addr n).used_pages ≡ s.used_pages)
free_after-AllocPages n addr v (full e _ _) = absurd (cc)
free_after-AllocPages n addr v (rejected _ e _) = absurd (cc)
free_after-AllocPages {s} {t} n addr v (found p first e takes) =
    let here : addr / page_size ≡ p = ground arith in
    let frees = free_pages-Frees addr n takes.valid in
    let same : (q : ℕ) → q < max_pages → used (free_pages t addr n) q ≡ used s q =
      λ q h. ground (arith, frees.marks q h, takes.marks q, first.free q) in
    (same, used_pages-eq v frees.valid same)

-- On a valid state, freeing the pages that an allocation returned restores the state of every
-- managed page and the counter.
pub free_pages-alloc_pages :
    {s t : Pmm} (n addr : ℕ)
    → IsValid s
    → alloc_pages s n ≡ (some addr, t)
    → ((q : ℕ) → q < max_pages → used (free_pages t addr n) q ≡ used s q)
      × ((free_pages t addr n).used_pages ≡ s.used_pages)
free_pages-alloc_pages n addr v e =
    free_after-AllocPages n addr v (rw e at (alloc_pages-AllocPages n v))
