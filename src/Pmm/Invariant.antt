-- ===== src/Pmm/Invariant.antt =====
-- The invariant of kernel/mm/pmm.c, and that marking one page keeps it.
use simpleos.Common.{ℕ, ◌+◌, ◌<◌, ◌≡◌, arith, ◌==◌, if◌then◌else◌, Bool, ◌&&◌, leb, ltb}
use simpleos.Pmm.{Pmm, max_pages, bitmap_test, mark_used, mark_free, free_if_used}
use simpleos.Pmm.Bitmap.{
  IsBytes, bitmap_set-IsBytes, bitmap_clear-IsBytes, test-set, test-clear, test-lt,
}
use simpleos.Pmm.Count.{count, count-change, count-le}

-- Is a page in use?
abbrev pub used : Pmm → ℕ → ℕ
used s q = bitmap_test s.bitmap q

-- The cells are bytes, and the counter is the number of pages in use.
pub record IsValid (s : Pmm) : Type 0 where
  pub bytes : IsBytes s.bitmap
  pub total : s.total_pages ≡ max_pages
  pub counted : s.used_pages ≡ count max_pages (used s)

-- Page `q` is one of the `n` pages from `lo` on.
abbrev pub within : ℕ → ℕ → ℕ → Bool
within lo n q = leb lo q && ltb q (lo + n)

pub used_pages-le : {s : Pmm} → IsValid s → s.used_pages < max_pages + 1
used_pages-le {s} v = omega (arith, v.counted, count-le max_pages (used s) (test-lt s.bitmap))

module _ {s : Pmm} (v : IsValid s) (p : ℕ) (h : p < max_pages) where
  pub used-mark_used : (q : ℕ) → used (mark_used s p) q ≡ (if p == q then 1 else used s q)
  unfolding mark_used
  used-mark_used q = test-set s.bitmap p v.bytes q h

  pub used-mark_free : (q : ℕ) → used (mark_free s p) q ≡ (if p == q then 0 else used s q)
  unfolding mark_free
  used-mark_free q = test-clear s.bitmap p v.bytes q h

  pub mark_used-count :
      used s p ≡ 0 → count max_pages (used (mark_used s p)) ≡ count max_pages (used s) + 1
  mark_used-count free = omega (
    arith,
    count-change max_pages p 1 (used s) (used (mark_used s p)) h (λ q l. used-mark_used q),
  )

  pub mark_free-count :
      used s p ≡ 1 → count max_pages (used (mark_free s p)) + 1 ≡ count max_pages (used s)
  mark_free-count busy = omega (
    arith,
    count-change max_pages p 0 (used s) (used (mark_free s p)) h (λ q l. used-mark_free q),
  )

module _ {s : Pmm} (v : IsValid s) (p : ℕ) (h : p < max_pages) where
  pub used_pages-mark_used : used s p ≡ 0 → (mark_used s p).used_pages ≡ s.used_pages + 1
  unfolding mark_used
  used_pages-mark_used free = omega (arith, used_pages-le v)

  pub used_pages-mark_free : used s p ≡ 1 → (mark_free s p).used_pages + 1 ≡ s.used_pages
  unfolding mark_free
  used_pages-mark_free busy = omega (arith, v.counted, used_pages-le v, mark_free-count v p h busy)

  pub mark_used-IsValid : used s p ≡ 0 → IsValid (mark_used s p)
  unfolding mark_used
  mark_used-IsValid free = record {
    bytes = bitmap_set-IsBytes s.bitmap p v.bytes;
    total = v.total;
    counted = omega (arith, v.counted, used_pages-le v, mark_used-count v p h free);
  }

  pub mark_free-IsValid : used s p ≡ 1 → IsValid (mark_free s p)
  unfolding mark_free
  mark_free-IsValid busy = record {
    bytes = bitmap_clear-IsBytes s.bitmap p v.bytes;
    total = v.total;
    counted = omega (arith, v.counted, used_pages-le v, mark_free-count v p h busy);
  }

  -- Freeing or taking a page whatever its state.
  pub free_if_used-IsValid : IsValid (free_if_used s p)
  unfolding free_if_used
  free_if_used-IsValid = ground (arith, mark_free-IsValid, test-lt s.bitmap p)
