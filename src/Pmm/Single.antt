-- ===== src/Pmm/Single.antt =====
-- `pmm_alloc_page` and `pmm_free_page` of kernel/mm/pmm.c.
use simpleos.Common.{
  ℕ, zero, suc, ◌+◌, ◌-◌, ◌*◌, ◌/◌, ◌≤◌, ◌<◌, ◌≡◌, refl, arith, ◌==◌, if◌then◌else◌, Bool-cases,
  inl, inr, Option, none, some, false, ltb,
}
use simpleos.Pmm.{
  Pmm, max_pages, kernel_pages, page_size, mark_used, alloc_page_loop, alloc_page, free_page,
}
use simpleos.Pmm.Bitmap.{test-lt}
use simpleos.Pmm.Invariant.{
  used, IsValid, used-mark_used, used-mark_free, used_pages-mark_used, used_pages-mark_free,
  mark_used-IsValid, mark_free-IsValid,
}

-- `p` is the lowest free page above the kernel.
pub record IsFirstFree (s : Pmm) (p : ℕ) : Type 0 where
  pub above : kernel_pages ≤ p
  pub below : p < max_pages
  pub free : used s p ≡ 0
  pub lowest : (q : ℕ) → kernel_pages ≤ q → q < p → used s q ≡ 1

-- What an allocation of one page may come to.
pub data AllocPage (s : Pmm) (r : Option ℕ × Pmm) : Type 0 where
  found :
      (p : ℕ)
      → IsFirstFree s p
      → r.0 ≡ some (p * page_size)
      → ((q : ℕ) → used r.1 q ≡ (if p == q then 1 else used s q))
      → r.1.used_pages ≡ s.used_pages + 1
      → IsValid r.1
      → AllocPage s r
  full :
      r.0 ≡ none
      → r.1 ≡ s
      → ((q : ℕ) → kernel_pages ≤ q → q < max_pages → used s q ≡ 1)
      → AllocPage s r

pub used-one : (s : Pmm) (q : ℕ) → (used s q == 0) ≡ false → used s q ≡ 1
used-one s q h = ground (arith, test-lt s.bitmap q)

module _ {s : Pmm} (v : IsValid s) where
  take_first : (p : ℕ) → IsFirstFree s p → AllocPage s (some (p * page_size), mark_used s p)
  take_first p f =
      found p f refl (used-mark_used v p f.below) (used_pages-mark_used v p f.below f.free)
        (mark_used-IsValid v p f.below f.free)

  extend_busy :
      (page : ℕ)
      → ((q : ℕ) → kernel_pages ≤ q → q < page → used s q ≡ 1)
      → used s page ≡ 1
      → (q : ℕ) → kernel_pages ≤ q
      → q < page + 1
      → used s q ≡ 1
  extend_busy page busy here q lo hi = elim (Bool-cases (page == q)) [
    | inl e ↦ ground arith
    | inr e ↦ busy q lo (ground arith)
  ]

  alloc_page_loop-AllocPage :
      (rounds page : ℕ)
      → page + rounds ≡ max_pages
      → kernel_pages ≤ page
      → ((q : ℕ) → kernel_pages ≤ q → q < page → used s q ≡ 1)
      → AllocPage s (alloc_page_loop rounds page s)
  unfolding alloc_page_loop
  alloc_page_loop-AllocPage zero page e lo busy = full refl refl (λ q a b. busy q a (omega arith))
  alloc_page_loop-AllocPage (suc rounds) page e lo busy = elim (Bool-cases (used s page == 0)) [
    | inl free ↦
        rw (free, alloc_page_loop)
          (take_first page
            (record { above = lo; below = omega arith; free = ground arith; lowest = busy }))
    | inr taken ↦
        rw (taken, alloc_page_loop)
          (alloc_page_loop-AllocPage rounds (page + 1) (omega arith) (omega arith)
            (extend_busy page busy (used-one s page taken)))
  ]

  -- On a valid state `pmm_alloc_page` hands out the lowest free page from 2 MiB up, marks that page
  -- and no other, counts it, and keeps the invariant; it returns NULL, and changes nothing, only
  -- when every page from 2 MiB up is in use.
  pub alloc_page-AllocPage : AllocPage s (alloc_page s)
  unfolding alloc_page
  alloc_page-AllocPage =
      alloc_page_loop-AllocPage (max_pages - kernel_pages) kernel_pages refl (omega arith)
        (λ q lo hi. absurd (omega arith))

  -- `pmm_free_page` clears the page of the address if that is a managed page in use, and counts it
  -- off; any other address changes nothing. The invariant is kept either way.
  pub free_page_lem :
      (addr : ℕ)
      → ((q : ℕ)
          → q < max_pages
          → used (free_page s addr) q ≡ (if addr / page_size == q then 0 else used s q))
        × ((free_page s addr).used_pages
              + (if ltb (addr / page_size) max_pages then used s (addr / page_size) else 0)
            ≡ s.used_pages)
        × IsValid (free_page s addr)
  unfolding free_page
  free_page_lem addr =
      let p = addr / page_size in
      ground (
        arith,
        used-mark_free v p,
        used_pages-mark_free v p,
        mark_free-IsValid v p,
        test-lt s.bitmap p,
      )
