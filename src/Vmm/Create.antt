-- ===== src/Vmm/Create.antt =====
-- Entering a table in kernel/mm/vmm.c, and making it if it is missing.
use Prim.Native.Nat.{bit_or}
use simpleos.Common.{
  ℕ, suc, ◌+◌, ◌-◌, ◌*◌, ◌/◌, ◌≤◌, ◌<◌, ◌≡◌, ◌≢◌, refl, arith, Bool, true, false, ◌==◌, ==_iff,
  ==_false, subst, if◌then◌else◌, Option, Bool-cases, inl, inr, ap, sym, ◌∙◌, true≢false,
}
use simpleos.Common.Bytes.{update}
use simpleos.Common.Masks.{bit_or-flags, bit_or-page, bit_or-zero, bit_or_digit}
use simpleos.Pmm.{Pmm, alloc_page, max_pages, kernel_pages}
use simpleos.Pmm.Invariant.{used, IsValid}
use simpleos.Pmm.Single.{AllocPage, found, full, alloc_page-AllocPage}
use simpleos.Vmm.{
  Vmm, entry_at, clear_entries, clear_page, link_table, enter_table, vmm_alloc_page_table, present,
  page_of,
}
use simpleos.Vmm.Tables.{
  Places, IsTables, entry_at-table, entry_at-index, clears-inside, clears-outside,
  clear_entries_lem,
}
use simpleos.Vmm.Walk.{translate, translate-entered}

one_page : (p : ℕ) → bit_or (p * 4096) 1 / 4096 ≡ p
one_page p = omega (arith, bit_or-flags p 1 (omega arith))

-- The entry that is written for a new table: present, with the page of the table.
entry_page : (p : ℕ) → page_of (bit_or (bit_or (p * 4096) 1) 2) ≡ p * 4096
entry_page p =
    omega
      (arith, bit_or-page (bit_or (p * 4096) 1) 2, ap (λ x. bit_or x 0) (one_page p), bit_or-zero p)

entry_present : (p : ℕ) → present (bit_or (bit_or (p * 4096) 1) 2) ≡ true
entry_present p = ground (arith, bit_or-flags p 1, bit_or_digit (bit_or (p * 4096) 1) 2)

-- A state with at least the same tables, and the same translations.
pub record Grown (m m' : Places) (s s' : Vmm) : Type 0 where
  pub tables : IsTables m' s'
  pub root : s'.kernel_pml4 ≡ s.kernel_pml4
  pub levels : (t : ℕ) → 0 < m.level t → m'.level t ≡ m.level t
  pub prefixes : (t : ℕ) → 0 < m.level t → m'.prefix t ≡ m.prefix t
  pub translates :
      (n t v : ℕ) → m.level t ≡ suc n → translate n s'.words t v ≡ translate n s.words t v
  pub kept :
      (t i : ℕ)
      → 1 < m.level t
      → i < 512
      → present (s.words (entry_at t i)) ≡ true
      → s'.words (entry_at t i) ≡ s.words (entry_at t i)

-- No page from 2 MiB up is free.
abbrev pub NoneFree : Pmm → Type 0
NoneFree pmm = (q : ℕ) → kernel_pages ≤ q → q < max_pages → used pmm q ≡ 1

-- What entering the table below entry `i` of table `t` may come to.
pub data Entered (m : Places) (s : Vmm) (t i : ℕ) (r : ℕ × Vmm) : Type 0 where
  missing :
      present (s.words (entry_at t i)) ≡ false
      → r.0 ≡ 0
      → NoneFree r.1.pmm
      → Grown m m s r.1
      → Entered m s t i r
  entered :
      (m' : Places)
      → Grown m m' s r.1
      → 0 < r.0
      → m'.level r.0 + 1 ≡ m.level t
      → m'.prefix r.0 ≡ m.prefix t * 512 + i
      → present (r.1.words (entry_at t i)) ≡ true
      → page_of (r.1.words (entry_at t i)) ≡ r.0
      → Entered m s t i r

-- A state that differs in the page allocator alone, with the same pages in use.
same_pages :
    (m : Places) (s : Vmm) (pmm1 : Pmm)
    → IsTables m s
    → pmm1 ≡ s.pmm
    → Grown m m s (record s { pmm = pmm1 })
same_pages m s pmm1 v e =
    subst (λ p. Grown m m s (record s { pmm = p })) (sym e)
      (record {
        tables = v;
        root = refl;
        levels = λ t h. refl;
        prefixes = λ t h. refl;
        translates = λ n t a h. refl;
        kept = λ t i lt hi there. refl;
      })

-- A new table on the free page `p`, below entry `i` of table `t`.
module _ (m : Places) (s : Vmm) (v : IsTables m s) (t i p : ℕ) (pmm1 : Pmm) (lt : 1 < m.level t)
    (hi : i < 512) (absent : present (s.words (entry_at t i)) ≡ false) (low : kernel_pages ≤ p)
    (free : used s.pmm p ≡ 0)
    (marked : (q : ℕ) → used pmm1 q ≡ (if p == q then 1 else used s.pmm q))
    (valid : IsValid pmm1) where
  abbrev table : ℕ
  table = p * 4096

  abbrev entry : ℕ
  entry = bit_or (bit_or table 1) 2

  abbrev after : Vmm
  after = record s {
    pmm = pmm1;
    words = update (clear_entries 512 table 0 s.words) (entry_at t i) entry;
  }

  abbrev places : Places
  places = record {
    level = update m.level table (m.level t - 1);
    prefix = update m.prefix table (m.prefix t * 512 + i);
  }

  -- No table stood on the page.
  table-new : (a : ℕ) → 0 < m.level a → a / 4096 ≢ p
  table-new a la e = ground (arith, v.taken a la, free, ap (used s.pmm) e)

  old_words :
      (a j : ℕ)
      → 0 < m.level a
      → j < 512
      → entry_at a j ≢ entry_at t i
      → after.words (entry_at a j) ≡ s.words (entry_at a j)
  old_words a j la hj other = ground (
    arith,
    clear_entries_lem 512 table 0 s.words (entry_at a j),
    clears-outside 512 table 0 (entry_at a j) (omega arith) (omega arith)
        (λ e. table-new a la (omega (arith, e, v.aligned a la, hj))),
  )

  new_words : (j : ℕ) → j < 512 → present (after.words (entry_at table j)) ≡ false
  new_words j hj = ground (
    arith,
    clear_entries_lem 512 table 0 s.words (entry_at table j),
    clears-inside 512 table 0 j (omega arith) (omega (arith, hj)),
    λ (e : entry_at t i ≡ entry_at table j).
        table-new t (omega (arith, lt)) (omega (arith, e, hj, hi, v.aligned t (omega (arith, lt)))),
  )

  entry_there : after.words (entry_at t i) ≡ entry
  entry_there = ground arith

  -- The place of a table that was there before.
  place_old :
      (a : ℕ) → 0 < m.level a → (places.level a ≡ m.level a) × (places.prefix a ≡ m.prefix a)
  place_old a la = ground (arith, λ (e : table ≡ a). table-new a la (omega (arith, e)))

  place_new : (places.level table ≡ m.level t - 1) × (places.prefix table ≡ m.prefix t * 512 + i)
  place_new = ground arith

  -- A present entry above the last level: the new one, or an old one of an old table.
  data Present (a j : ℕ) : Type 0 where
    new_entry : a ≡ t → j ≡ i → after.words (entry_at a j) ≡ entry → Present a j
    old_entry : 1 < m.level a → after.words (entry_at a j) ≡ s.words (entry_at a j) → Present a j

  clash : (a j : ℕ) → table ≡ a → j < 512 → present (after.words (entry_at a j)) ≡ true → ⊥
  clash a j e hj there =
      true≢false
        (sym there ∙ ap (λ b. present (after.words (entry_at b j))) (sym e) ∙ new_words j hj)

  old_level : (a : ℕ) → 1 < places.level a → table ≢ a → 0 < m.level a
  old_level a la apart = ground (arith, la, apart)

  which_entry :
      (a j : ℕ)
      → 1 < places.level a
      → j < 512
      → present (after.words (entry_at a j)) ≡ true
      → Present a j
  which_entry a j la hj there = elim (Bool-cases (table == a)) [
    | inl same ↦ absurd (clash a j ((==_iff _ _).0 same) hj there)
    | inr apart ↦ elim (Bool-cases (entry_at a j == entry_at t i)) [
      | inl here ↦
          new_entry
            (entry_at-table a t j i (v.aligned a (old_level a la (==_false _ _ apart)))
              (v.aligned t (omega (arith, lt))) hj hi ((==_iff _ _).0 here))
            (entry_at-index a t j i (v.aligned a (old_level a la (==_false _ _ apart)))
              (v.aligned t (omega (arith, lt))) hj hi ((==_iff _ _).0 here))
            (ap after.words ((==_iff _ _).0 here) ∙ entry_there)
      | inr other ↦
          old_entry (ground (arith, la, apart))
            (old_words a j (old_level a la (==_false _ _ apart)) hj (==_false _ _ other))
    ]
  ]

  by_entry :
      (a j : ℕ)
      → 1 < places.level a
      → j < 512
      → present (after.words (entry_at a j)) ≡ true
      → Present a j
      → (places.level (page_of (after.words (entry_at a j))) + 1 ≡ places.level a)
        × (places.prefix (page_of (after.words (entry_at a j))) ≡ places.prefix a * 512 + j)
  by_entry a j la hj there (new_entry ea ej e) =
      (let child : page_of (after.words (entry_at a j)) ≡ table = ap page_of e ∙ entry_page p in
        let old = place_old t (omega (arith, lt)) in
        (
          omega (arith, ap places.level child, place_new.0, old.0, ap places.level ea, lt),
          omega (arith, ap places.prefix child, place_new.1, old.1, ap places.prefix ea, ej),
        ))
  by_entry a j la hj there (old_entry la' e) =
      (let x = s.words (entry_at a j) in
        let child : page_of (after.words (entry_at a j)) ≡ page_of x = ap page_of e in
        let was = sym (ap present e) ∙ there in
        let down = v.level_below a j la' hj was in
        let place = v.prefix_below a j la' hj was in
        let old = place_old a (omega (arith, la')) in
        let below = place_old (page_of x) (omega (arith, down, la')) in
        (
          omega (arith, ap places.level child, below.0, old.0, down),
          omega (arith, ap places.prefix child, below.1, old.1, place),
        ))

  level_after :
      (a j : ℕ)
      → 1 < places.level a
      → j < 512
      → present (after.words (entry_at a j)) ≡ true
      → (places.level (page_of (after.words (entry_at a j))) + 1 ≡ places.level a)
        × (places.prefix (page_of (after.words (entry_at a j))) ≡ places.prefix a * 512 + j)
  level_after a j la hj there = by_entry a j la hj there (which_entry a j la hj there)

  after-IsTables : IsTables places after
  after-IsTables = record {
    root_level = (place_old s.kernel_pml4 (omega (arith, v.root_level))).0 ∙ v.root_level;
    root_prefix = (place_old s.kernel_pml4 (omega (arith, v.root_level))).1 ∙ v.root_prefix;
    aligned = λ a la. ground (arith, v.aligned a);
    taken = λ a la. ground (arith, v.taken a, marked (a / 4096));
    above = λ a la. ground (arith, v.above a, low);
    level_below = λ a j la hj there. (level_after a j la hj there).0;
    prefix_below = λ a j la hj there. (level_after a j la hj there).1;
    pages = valid;
  }

  after-Grown : Grown m places s after
  after-Grown = record {
    tables = after-IsTables;
    root = refl;
    levels = λ a la. (place_old a la).0;
    prefixes = λ a la. (place_old a la).1;
    translates = λ n a x la.
        translate-entered m s v after.words t i (omega (arith, lt)) hi old_words n a x lt absent
          (ap present entry_there ∙ entry_present p)
          (λ j hj.
            ap (λ c. present (after.words (entry_at c j))) (ap page_of entry_there ∙ entry_page p)
            ∙ new_words j hj)
          la;
    kept = λ a j la hj there.
        old_words a j (omega (arith, la)) hj
          (λ e. true≢false (sym there ∙ ap (λ x. present (s.words x)) e ∙ absent));
  }

  after-Entered : Entered m s t i (table, after)
  after-Entered =
      entered places after-Grown (omega (arith, low)) (omega (arith, place_new.0, lt)) place_new.1
        (ap present entry_there ∙ entry_present p) (ap page_of entry_there ∙ entry_page p)

not_null : (p : ℕ) → kernel_pages ≤ p → false ≡ (p * 4096 == 0)
not_null p low = ground (arith, low)

-- The entry is not present: a page is asked for.
link_new :
    (m : Places) (s : Vmm) (t i : ℕ)
    → IsTables m s
    → 1 < m.level t
    → i < 512
    → present (s.words (entry_at t i)) ≡ false
    → (r : Option ℕ × Pmm) → AllocPage s.pmm r
    → Entered m s t i (link_table (entry_at t i) (clear_page r s) s)
link_new m s t i v lt hi absent (o, pmm1) (found p first e marked counted valid) =
    rw (e, absent)
      (subst
        (λ (b : Bool). Entered m s t i (
          if b
          then (0, record s { pmm = pmm1; words = clear_entries 512 (p * 4096) 0 s.words })
          else (p * 4096, after m s v t i p pmm1 lt hi absent first.above first.free marked valid)))
        (not_null p first.above)
        (after-Entered m s v t i p pmm1 lt hi absent first.above first.free marked valid))
link_new m s t i v lt hi absent (o, pmm1) (full e same none_free) =
    rw (e, absent)
      (missing absent refl (subst NoneFree (sym same) none_free) (same_pages m s pmm1 v same))

-- Entering a table gives the table of the entry, an old one or a new empty one, and changes no
-- translation; or no page is left, and nothing changes.
pub enter_table-Entered :
    (m : Places) (s : Vmm) (t i : ℕ)
    → IsTables m s
    → 1 < m.level t
    → i < 512
    → Entered m s t i (enter_table (entry_at t i) s)
unfolding enter_table vmm_alloc_page_table
enter_table-Entered m s t i v lt hi = elim (Bool-cases (present (s.words (entry_at t i)))) [
  | inl there ↦ rw there (
      entered m (same_pages m s s.pmm v refl)
        (v.above (page_of (s.words (entry_at t i)))
          (omega (arith, v.level_below t i lt hi there, lt)))
        (v.level_below t i lt hi there) (v.prefix_below t i lt hi there) there refl)
  | inr absent ↦ link_new m s t i v lt hi absent (alloc_page s.pmm) (alloc_page-AllocPage v.pages)
]
