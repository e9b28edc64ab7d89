-- ===== src/Vmm/Spaces.antt =====
-- New address spaces in kernel/mm/vmm.c, and their end.
use simpleos.Common.{
  ℕ, zero, suc, ◌+◌, ◌*◌, ◌/◌, ◌≤◌, ◌<◌, ◌≡◌, ◌≢◌, refl, arith, false, ◌&&◌, ltb, leb, ◌==◌,
  if◌then◌else◌, Option, ap, sym, ◌∙◌,
}
use simpleos.Common.Bytes.{update}
use simpleos.Pmm.{Pmm, alloc_page, free_page, max_pages, kernel_pages}
use simpleos.Pmm.Invariant.{used, IsValid}
use simpleos.Pmm.Single.{AllocPage, found, full, alloc_page-AllocPage, free_page_lem}
use simpleos.Vmm.{
  Vmm, Words, entry_at, clear_entries, clear_page, copy_entries, share_kernel, vmm_alloc_page_table,
  vmm_create_address_space, vmm_destroy_address_space,
}
use simpleos.Vmm.Tables.{
  Places, IsTables, entry_at-table, entry_at-index, clears-inside, clears-outside,
  clear_entries_lem,
}
use simpleos.Vmm.Create.{NoneFree}

abbrev IsAligned : ℕ → Type 0
IsAligned t = t ≡ (t / 4096) * 4096

-- Copying entries of another table.
copy_entries-inside :
    (rounds new kernel i j : ℕ) (w : Words)
    → IsAligned new
    → IsAligned kernel
    → new ≢ kernel
    → i + rounds ≤ 512
    → j < 512
    → copy_entries rounds new kernel i w (entry_at new j)
      ≡ (if leb i j && ltb j (i + rounds) then w (entry_at kernel j) else w (entry_at new j))
unfolding copy_entries
copy_entries-inside zero new kernel i j w al al' other fits h = ground arith
copy_entries-inside (suc rounds) new kernel i j w al al' other fits h =
    copy_entries-inside rounds new kernel (i + 1) j
      (update w (entry_at new i) (w (entry_at kernel i))) al al' other (omega (arith, fits)) h
    ∙ ground (
      arith,
      fits,
      h,
      λ (e : entry_at new i ≡ entry_at new j).
          entry_at-index new new i j al al (omega (arith, fits)) h e,
      λ (e : entry_at new i ≡ entry_at kernel j).
          other (entry_at-table new kernel i j al al' (omega (arith, fits)) h e),
      λ (e : i ≡ j). ap (λ x. w (entry_at kernel x)) e,
    )

copy_entries-outside :
    (rounds new kernel i a : ℕ) (w : Words)
    → IsAligned new
    → i + rounds ≤ 512
    → a / 4096 ≢ new / 4096
    → copy_entries rounds new kernel i w a ≡ w a
unfolding copy_entries
copy_entries-outside zero new kernel i a w al fits apart = refl
copy_entries-outside (suc rounds) new kernel i a w al fits apart =
    copy_entries-outside rounds new kernel (i + 1) a
      (update w (entry_at new i) (w (entry_at kernel i))) al (omega (arith, fits)) apart
    ∙ ground (arith, al, fits, λ (e : entry_at new i ≡ a). apart (omega (arith, e, al, fits)))

-- What making an address space may come to.
pub data CreatedSpace (s : Vmm) (r : ℕ × Vmm) : Type 0 where
  no_page : r.0 ≡ 0 → NoneFree s.pmm → r.1 ≡ s → CreatedSpace s r
  created :
      (p : ℕ)
      → kernel_pages ≤ p
      → p < max_pages
      → used s.pmm p ≡ 0
      → r.0 ≡ p * 4096
      → ((j : ℕ)
          → j < 512
          → r.1.words (entry_at r.0 j)
            ≡ (if ltb j 256 then 0 else s.words (entry_at s.kernel_pml4 j)))
      → ((a : ℕ) → a / 4096 ≢ p → r.1.words a ≡ s.words a)
      → ((q : ℕ) → used r.1.pmm q ≡ (if p == q then 1 else used s.pmm q))
      → IsValid r.1.pmm
      → CreatedSpace s r

root_apart :
    {m : Places} {s : Vmm} → IsTables m s → (p : ℕ) → used s.pmm p ≡ 0 → s.kernel_pml4 / 4096 ≢ p
root_apart {s = s} t p free e =
    (let in_use = t.taken s.kernel_pml4 (omega (arith, t.root_level)) in
      absurd (omega (arith, in_use, free, ap (used s.pmm) e)))

page_not_null : (p : ℕ) → kernel_pages ≤ p → (p * 4096 == 0) ≡ false
page_not_null p low = ground (arith, low)

root_not_null : {m : Places} {s : Vmm} → IsTables m s → (s.kernel_pml4 == 0) ≡ false
root_not_null {s = s} t = ground (arith, t.above s.kernel_pml4 (omega (arith, t.root_level)))

-- The words of the new table, on page `p`.
module _ {m : Places} {s : Vmm} (t : IsTables m s) (p : ℕ) where
  abbrev new_words : Words
  new_words = copy_entries 256 (p * 4096) s.kernel_pml4 256 (clear_entries 512 (p * 4096) 0 s.words)

  shared_others : (a : ℕ) → a / 4096 ≢ p → new_words a ≡ s.words a
  shared_others a apart =
      copy_entries-outside 256 (p * 4096) s.kernel_pml4 256 a
        (clear_entries 512 (p * 4096) 0 s.words) (omega arith) (omega arith) (omega (arith, apart))
      ∙ ground (
        arith,
        clear_entries_lem 512 (p * 4096) 0 s.words a,
        clears-outside 512 (p * 4096) 0 a (omega arith) (omega arith) (omega (arith, apart)),
      )

  module _ (low : kernel_pages ≤ p) (free : used s.pmm p ≡ 0) where
    root_page : IsAligned s.kernel_pml4
    root_page = t.aligned s.kernel_pml4 (omega (arith, t.root_level))

    kernel_kept :
        (j : ℕ)
        → j < 512
        → clear_entries 512 (p * 4096) 0 s.words (entry_at s.kernel_pml4 j)
          ≡ s.words (entry_at s.kernel_pml4 j)
    kernel_kept j h = ground (
      arith,
      clear_entries_lem 512 (p * 4096) 0 s.words (entry_at s.kernel_pml4 j),
      clears-outside 512 (p * 4096) 0 (entry_at s.kernel_pml4 j) (omega arith) (omega arith)
          (λ e. root_apart t p free (omega (arith, e, h, root_page))),
    )

    shared_words :
        (j : ℕ)
        → j < 512
        → new_words (entry_at (p * 4096) j)
          ≡ (if ltb j 256 then 0 else s.words (entry_at s.kernel_pml4 j))
    shared_words j h =
        copy_entries-inside 256 (p * 4096) s.kernel_pml4 256 j
          (clear_entries 512 (p * 4096) 0 s.words) (omega arith) root_page
          (λ e. root_apart t p free (omega (arith, e))) (omega arith) h
        ∙ ground (
          arith,
          h,
          kernel_kept j h,
          clear_entries_lem 512 (p * 4096) 0 s.words (entry_at (p * 4096) j),
          clears-inside 512 (p * 4096) 0 j (omega arith) (omega (arith, h)),
        )

by_page :
    {m : Places} {s : Vmm}
    → IsTables m s
    → (r : Option ℕ × Pmm) → AllocPage s.pmm r
    → CreatedSpace s (share_kernel (clear_page r s))
unfolding share_kernel
by_page {s = s} t (o, pmm1) (full e same none_free) =
    rw e (no_page refl none_free (ap (λ x. record s { pmm = x }) same))
by_page {s = s} t (o, pmm1) (found p first e marked counted valid) =
    rw (e, page_not_null p first.above, root_not_null t)
      (created p first.above first.below first.free refl (shared_words t p first.above first.free)
        (shared_others t p) marked valid)

-- `vmm_create_address_space` makes a table on a page that was free, with an empty lower half and the
-- upper half of the root table, and changes no word of another page; or no page from 2 MiB up is
-- free, and it returns null and changes nothing.
pub vmm_create_address_space-CreatedSpace :
    {m : Places} {s : Vmm} → IsTables m s → CreatedSpace s (vmm_create_address_space s)
unfolding vmm_create_address_space vmm_alloc_page_table
vmm_create_address_space-CreatedSpace {s = s} t =
    by_page t (alloc_page s.pmm) (alloc_page-AllocPage t.pages)

by_outcome :
    {s : Vmm}
    → (r : ℕ × Vmm) → CreatedSpace s r
    → (q : ℕ) → q < max_pages
    → used (vmm_destroy_address_space r.0 r.1).pmm q ≡ used s.pmm q
unfolding vmm_destroy_address_space
by_outcome {s} (new, s1) (no_page null none_free same) q h =
    rw (ap (λ n. n == 0) null) (ap (λ x. used x.pmm q) same)
by_outcome {s} (new, s1) (created p low below free at shared others marked valid) q h =
    rw (ap (λ n. n == 0) at ∙ page_not_null p low) (
      ap (λ n. used (free_page s1.pmm n) q) at
      ∙ (free_page_lem valid (p * 4096)).0 q h
      ∙ ground (arith, marked q, free, λ (e : p ≡ q). ap (used s.pmm) (sym e)))

-- Making an address space and destroying it leaves the same pages in use as before.
pub vmm_destroy_address_space-create :
    {m : Places} {s : Vmm}
    → IsTables m s
    → (q : ℕ) → q < max_pages
    → (let (new, s1) = vmm_create_address_space s in
        used (vmm_destroy_address_space new s1).pmm q ≡ used s.pmm q)
vmm_destroy_address_space-create {s = s} t q h =
    by_outcome (vmm_create_address_space s) (vmm_create_address_space-CreatedSpace t) q h
