-- ===== src/Vmm/Mapping.antt =====
-- Mapping and unmapping a page in kernel/mm/vmm.c.
use Prim.Native.Nat.{bit_or}
use simpleos.Common.{
  ℕ, zero, suc, ◌+◌, ◌/◌, ◌%◌, ◌<◌, ◌≡◌, ◌≢◌, refl, arith, Bool, true, false, not, ◌||◌, ◌==◌,
  ==_iff, ==_false, subst, if◌then◌else◌, List, ◌∷◌, Bool-cases, inl, inr, ap, sym, ◌∙◌, true≢false,
}
use simpleos.Common.Bytes.{update}
use simpleos.Common.Masks.{bit_or-flags, bit_or-page, bit_or-zero, bit_or-present}
use simpleos.Vmm.{
  Vmm, entry_at, vmm_get_or_create_entry, vmm_map_page, vmm_get_physical, set_entry, present,
  page_of,
}
use simpleos.Vmm.Tables.{Places, IsTables, entry_at-table}
use simpleos.Vmm.Walk.{
  translate, Leads, index_at, indices_above, page_number, translate-other, translate-last,
  vmm_get_physical-translate,
}
use simpleos.Vmm.Create.{NoneFree, Grown}
use simpleos.Vmm.Search.{Located, nowhere, located, not_zero, vmm_get_or_create_entry-Located}

-- What is translated after the last entry of the page of `v` was set to `x`, if it was found.
abbrev pub remapped : Bool → ℕ → ℕ → ℕ → ℕ → ℕ
remapped lost v x old v' =
    if lost || not (page_number v' == page_number v)
    then old
    else if present x
    then bit_or (page_of x) (v' % 4096)
    else 0

root_not_null : {m : Places} {s : Vmm} → IsTables m s → (s.kernel_pml4 == 0) ≡ false
root_not_null {s} t = not_zero s.kernel_pml4 (t.above s.kernel_pml4 (omega (arith, t.root_level)))

physical :
    {m : Places} {s : Vmm}
    → IsTables m s
    → (v : ℕ) → vmm_get_physical v s ≡ translate 3 s.words s.kernel_pml4 v
physical {s} t v =
    vmm_get_physical-translate v s
    ∙ ap (λ b. if b then 0 else translate 3 s.words s.kernel_pml4 v) (root_not_null t)

-- More tables, the same translations.
physical-Grown :
    {m m' : Places} {s s' : Vmm}
    → IsTables m s
    → Grown m m' s s'
    → (v : ℕ) → vmm_get_physical v s' ≡ vmm_get_physical v s
physical-Grown {s} {s'} t g v =
    physical g.tables v
    ∙ ap (λ root. translate 3 s'.words root v) g.root
    ∙ g.translates 3 s.kernel_pml4 v t.root_level
    ∙ sym (physical t v)

-- Addresses of one page have the same indices, and the same way.
same_index : (k v v' : ℕ) → k < 4 → page_number v' ≡ page_number v → index_at k v ≡ index_at k v'
same_index zero v v' h e = omega (arith, e)
same_index (suc zero) v v' h e = omega (arith, e)
same_index (suc (suc zero)) v v' h e = omega (arith, e)
same_index (suc (suc (suc zero))) v v' h e = omega (arith, e)
same_index (suc (suc (suc (suc k)))) v v' h e = absurd (omega (arith, h))

Leads-same :
    (n : ℕ) (w : ℕ → ℕ) (t v v' last : ℕ)
    → n < 4
    → page_number v' ≡ page_number v
    → Leads n w t v last
    → Leads n w t v' last
Leads-same zero w t v v' last h e way = way
Leads-same (suc n) w t v v' last h e (there, way) =
    subst
      (λ i. (present (w (entry_at t i)) ≡ true) × Leads n w (page_of (w (entry_at t i))) v' last)
      (same_index (suc n) v v' h e)
      (
        there,
        Leads-same n w (page_of (w (entry_at t (index_at (suc n) v)))) v v' last (omega (arith, h))
            e way,
      )

-- The write to entry `i` of the table `t` of the last level.
module _ (m : Places) (s : Vmm) (tables : IsTables m s) (v t x : ℕ) (log : List ℕ)
    (level : m.level t ≡ 1) (prefix : m.prefix t ≡ indices_above 0 v)
    (leads : Leads 3 s.words s.kernel_pml4 v t) where
  abbrev slot : ℕ
  slot = entry_at t (index_at 0 v)

  abbrev written : Vmm
  written = record s { words = update s.words slot x; invalidated = log }

  other_words :
      (a j : ℕ)
      → 0 < m.level a
      → j < 512
      → entry_at a j ≢ slot
      → written.words (entry_at a j) ≡ s.words (entry_at a j)
  other_words a j la hj apart = ground (arith, apart)

  upper_words :
      (a j : ℕ) → 1 < m.level a → j < 512 → written.words (entry_at a j) ≡ s.words (entry_at a j)
  upper_words a j la hj = other_words a j (omega (arith, la)) hj (λ e. absurd (
      omega (
        arith,
        la,
        level,
        ap m.level (
            entry_at-table a t j (index_at 0 v) (tables.aligned a (omega (arith, la)))
              (tables.aligned t (omega (arith, level))) hj (omega arith) e),
      )))

  written-IsTables : IsTables m written
  written-IsTables = record {
    root_level = tables.root_level;
    root_prefix = tables.root_prefix;
    aligned = tables.aligned;
    taken = tables.taken;
    above = tables.above;
    level_below = λ a j la hj there.
        (let e = upper_words a j la hj in
          ap (λ w. m.level (page_of w) + 1) e
          ∙ tables.level_below a j la hj (sym (ap present e) ∙ there));
    prefix_below = λ a j la hj there.
        (let e = upper_words a j la hj in
          ap (λ w. m.prefix (page_of w)) e
          ∙ tables.prefix_below a j la hj (sym (ap present e) ∙ there));
    pages = tables.pages;
  }

  slot_written : written.words slot ≡ x
  slot_written = ground arith

  written-physical :
      (v' : ℕ) → vmm_get_physical v' written ≡ remapped false v x (vmm_get_physical v' s) v'
  written-physical v' = elim (Bool-cases (page_number v' == page_number v)) [
    | inl same ↦ rw same (
        physical written-IsTables v'
        ∙ translate-last m s tables written.words t (index_at 0 v) (omega (arith, level))
            (omega arith) other_words 3 s.kernel_pml4 v' level tables.root_level
            (Leads-same 3 s.words s.kernel_pml4 v v' t (omega arith) ((==_iff _ _).0 same) leads)
            (same_index 0 v v' (omega arith) ((==_iff _ _).0 same))
        ∙ ap (λ y. if present y then bit_or (page_of y) (v' % 4096) else 0) slot_written)
    | inr apart ↦ rw apart (
        physical written-IsTables v'
        ∙ translate-other m s tables written.words t (index_at 0 v) (omega (arith, level))
            (omega arith) other_words 3 s.kernel_pml4 v' v level prefix refl tables.root_level
            (omega arith) tables.root_prefix (==_false _ _ apart)
        ∙ sym (physical tables v'))
  ]

-- Setting the last entry of the page of `v`, wherever the search ended.
pub set_entry_lem :
    (m : Places) (s : Vmm) (v x : ℕ) (r : ℕ × Vmm)
    → IsTables m s
    → Located m s v r
    → (m' : Places) × IsTables m' (set_entry v x r)
      × ((r.0 == 0) ≡ true → NoneFree (set_entry v x r).pmm)
      × ((v' : ℕ)
          → vmm_get_physical v' (set_entry v x r)
            ≡ remapped (r.0 == 0) v x (vmm_get_physical v' s) v')
set_entry_lem m s v x (at, s1) t (nowhere e none_free m' g) =
    (m', rw e g.tables, λ z. rw e none_free, rw e (λ v'. physical-Grown t g v'))
set_entry_lem m s v x (at, s1) t (located m' last g e level prefix leads) =
    (let some_slot = not_zero at (omega (arith, e, g.tables.above last (omega (arith, level)))) in
      let log = v ∷ s1.invalidated in
      (
        m',
        rw some_slot (
            subst (λ a. IsTables m' (record s1 { words = update s1.words a x; invalidated = log }))
              (sym e) (written-IsTables m' s1 g.tables v last x log level prefix leads)),
        λ z. absurd (true≢false (sym z ∙ some_slot)),
        λ v'. rw some_slot (
            subst
              (λ a.
                vmm_get_physical v' (record s1 { words = update s1.words a x; invalidated = log })
                ≡ remapped false v x (vmm_get_physical v' s) v')
              (sym e)
              (written-physical m' s1 g.tables v last x log level prefix leads v'
                ∙ ap (λ old. remapped false v x old v') (physical-Grown t g v'))),
      ))

one_of : (phys flags : ℕ) → flags < 4096 → bit_or (page_of phys) flags / 4096 ≡ phys / 4096
one_of phys flags h = omega (arith, bit_or-flags (phys / 4096) flags h, h)

-- The address of a mapped page: its flags below 4096 leave no trace in it.
mapped_page :
    (phys flags : ℕ)
    → flags < 4096
    → page_of (bit_or (bit_or (page_of phys) flags) 1) ≡ page_of phys
mapped_page phys flags h = omega (
  arith,
  bit_or-page (bit_or (page_of phys) flags) 1,
  ap (λ y. bit_or y 0) (one_of phys flags h),
  bit_or-zero (phys / 4096),
)

mapped_value :
    (phys flags v : ℕ)
    → flags < 4096
    → (let x = bit_or (bit_or (page_of phys) flags) 1 in
        (if present x then bit_or (page_of x) (v % 4096) else 0) ≡ page_of phys + v % 4096)
mapped_value phys flags v h =
    (let x = bit_or (bit_or (page_of phys) flags) 1 in
      ap (λ b. if b then bit_or (page_of x) (v % 4096) else 0)
        (ap (λ d. d == 1) (bit_or-present (bit_or (page_of phys) flags)))
      ∙ bit_or-flags (x / 4096) (v % 4096) (omega arith)
      ∙ ap (λ p. p + v % 4096) (mapped_page phys flags h))

-- `vmm_map_page` on a tree of tables gives a tree of tables, and every address of the page of `virt` is
-- then translated to its place in the page of `phys`, while every other address of the 48-bit space is
-- translated as before. It changes no translation when a table is missing and no page is left for it,
-- which happens only when all pages from 2 MiB up are in use. The flags are the low twelve.
pub vmm_get_physical-map_page :
    (m : Places) (s : Vmm) (virt phys flags : ℕ)
    → IsTables m s
    → flags < 4096
    → (let lost = (vmm_get_or_create_entry virt s).0 == 0 in
        let s' = vmm_map_page virt phys flags s in
        (m' : Places) × IsTables m' s'
        × (lost ≡ true → NoneFree s'.pmm)
        × ((v : ℕ)
            → vmm_get_physical v s' ≡ (
                if lost || not (page_number v == page_number virt)
                then vmm_get_physical v s
                else page_of phys + v % 4096)))
unfolding vmm_map_page
vmm_get_physical-map_page m s virt phys flags t h =
    (let x = bit_or (bit_or (page_of phys) flags) 1 in
      let r = vmm_get_or_create_entry virt s in
      let (m', tables, lost, physical) =
        set_entry_lem m s virt x r t (vmm_get_or_create_entry-Located m s virt t) in
      (
        m',
        tables,
        lost,
        λ v.
            physical v
            ∙ ap
                (λ y.
                  if (r.0 == 0) || not (page_number v == page_number virt)
                  then vmm_get_physical v s
                  else y)
                (mapped_value phys flags v h),
      ))
