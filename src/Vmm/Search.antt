-- ===== src/Vmm/Search.antt =====
-- Searching the last entry of an address in kernel/mm/vmm.c.
use simpleos.Common.{
  ℕ, ◌<◌, ◌≡◌, refl, arith, true, false, ◌==◌, subst, if◌then◌else◌, ap, sym, ◌∙◌,
}
use simpleos.Vmm.{
  Vmm, entry_at, enter_table, no_table, vmm_get_or_create_entry, present, page_of, pml4_index,
  pdpt_index, pd_index, pt_index,
}
use simpleos.Vmm.Tables.{Places, IsTables}
use simpleos.Vmm.Walk.{Leads, index_at, indices_above, indices_above-step}
use simpleos.Vmm.Create.{NoneFree, Grown, Entered, missing, entered, enter_table-Entered}

Grown-trans :
    {m m' m'' : Places} {s s' s'' : Vmm} → Grown m m' s s' → Grown m' m'' s' s'' → Grown m m'' s s''
Grown-trans g h = record {
  tables = h.tables;
  root = h.root ∙ g.root;
  levels = λ t l. h.levels t (omega (arith, g.levels t l, l)) ∙ g.levels t l;
  prefixes = λ t l. h.prefixes t (omega (arith, g.levels t l, l)) ∙ g.prefixes t l;
  translates = λ n t v l.
      h.translates n t v (omega (arith, g.levels t (omega (arith, l)), l)) ∙ g.translates n t v l;
  kept = λ t i l hi there.
      h.kept t i (omega (arith, g.levels t (omega (arith, l)), l)) hi
        (ap present (g.kept t i l hi there) ∙ there)
      ∙ g.kept t i l hi there;
}

-- What the search for the last entry of an address may come to.
pub data Located (m : Places) (s : Vmm) (v : ℕ) (r : ℕ × Vmm) : Type 0 where
  nowhere : r.0 ≡ 0 → NoneFree r.1.pmm → (m' : Places) → Grown m m' s r.1 → Located m s v r
  located :
      (m' : Places) (t : ℕ)
      → Grown m m' s r.1
      → r.0 ≡ entry_at t (index_at 0 v)
      → m'.level t ≡ 1
      → m'.prefix t ≡ indices_above 0 v
      → Leads 3 r.1.words r.1.kernel_pml4 v t
      → Located m s v r

-- The entries found so far on the way of an address, at tables of the levels 4, 3 and 2.
abbrev step3 : ℕ → Vmm → ℕ → ℕ × Vmm → ℕ × Vmm
step3 v s pd r =
    if no_table (entry_at pd (pd_index v)) s r.0 then (0, r.1) else (entry_at r.0 (pt_index v), r.1)

abbrev step2 : ℕ → Vmm → ℕ → ℕ × Vmm → ℕ × Vmm
step2 v s pdpt r =
    if no_table (entry_at pdpt (pdpt_index v)) s r.0
    then (0, r.1)
    else step3 v r.1 r.0 (enter_table (entry_at r.0 (pd_index v)) r.1)

abbrev step1 : ℕ → Vmm → ℕ × Vmm → ℕ × Vmm
step1 v s r =
    if no_table (entry_at s.kernel_pml4 (pml4_index v)) s r.0
    then (0, r.1)
    else step2 v r.1 r.0 (enter_table (entry_at r.0 (pdpt_index v)) r.1)

index3 : (v : ℕ) → pml4_index v ≡ index_at 3 v
index3 v = omega arith

index2 : (v : ℕ) → pdpt_index v ≡ index_at 2 v
index2 v = omega arith

index1 : (v : ℕ) → pd_index v ≡ index_at 1 v
index1 v = omega arith

pub not_zero : (n : ℕ) → 0 < n → (n == 0) ≡ false
not_zero n h = ground (arith, h)

has_table : (at : ℕ) (s : Vmm) (table : ℕ) → 0 < table → no_table at s table ≡ false
has_table at s table pos = ground (arith, pos)

lacks_table :
    (at : ℕ) (s : Vmm) (table : ℕ)
    → present (s.words at) ≡ false
    → table ≡ 0
    → no_table at s table ≡ true
lacks_table at s table absent none = rw (absent, none) refl

-- Entry `i` of table `t` is present and leads to table `c`.
abbrev Child : Vmm → ℕ → ℕ → ℕ → Type 0
Child s t i c = (present (s.words (entry_at t i)) ≡ true) × (page_of (s.words (entry_at t i)) ≡ c)

Child-kept :
    {m m' : Places} {s s' : Vmm} (t i c : ℕ)
    → Grown m m' s s'
    → 1 < m.level t
    → i < 512
    → Child s t i c
    → Child s' t i c
Child-kept t i c g lt hi (there, page) =
    (let same = g.kept t i lt hi there in (ap present same ∙ there, ap page_of same ∙ page))

-- The way from the root over three children.
way :
    (s : Vmm) (v pdpt pd pt : ℕ)
    → Child s s.kernel_pml4 (pml4_index v) pdpt
    → Child s pdpt (pdpt_index v) pd
    → Child s pd (pd_index v) pt
    → Leads 3 s.words s.kernel_pml4 v pt
way s v pdpt pd pt a b c =
    rw (← index3 v, ← index2 v, ← index1 v)
      (
        a.0,
        subst
            (λ t.
              (present (s.words (entry_at t (pdpt_index v))) ≡ true)
              × Child s (page_of (s.words (entry_at t (pdpt_index v)))) (pd_index v) pt)
            (sym a.1) (b.0, subst (λ t. Child s t (pd_index v) pt) (sym b.1) c),
      )

Located-step3 :
    (m m2 : Places) (s s2 : Vmm) (v pdpt pd : ℕ) (r : ℕ × Vmm)
    → Grown m m2 s s2
    → m2.level s2.kernel_pml4 ≡ 4
    → m2.level pdpt ≡ 3
    → m2.level pd ≡ 2
    → m2.prefix pd ≡ indices_above 1 v
    → Child s2 s2.kernel_pml4 (pml4_index v) pdpt
    → Child s2 pdpt (pdpt_index v) pd
    → Entered m2 s2 pd (pd_index v) r
    → Located m s v (step3 v s2 pd r)
Located-step3 m m2 s s2 v pdpt pd r g l4 l3 l2 p a b (missing absent e none_free grown) =
    rw (lacks_table (entry_at pd (pd_index v)) s2 r.0 absent e)
      (nowhere refl none_free m2 (Grown-trans g grown))
Located-step3 m m2 s s2 v pdpt pd r g l4 l3 l2 p a b
      (entered m' grown pos level prefix there page) =
    rw (has_table (entry_at pd (pd_index v)) s2 r.0 pos) (
      located m' r.0 (Grown-trans g grown) refl (omega (arith, level, l2))
        (omega (arith, prefix, p, indices_above-step 0 v (omega arith), index1 v))
        (way r.1 v pdpt pd r.0
          (subst (λ root. Child r.1 root (pml4_index v) pdpt) (sym grown.root)
            (Child-kept s2.kernel_pml4 (pml4_index v) pdpt grown (omega (arith, l4)) (omega arith)
              a))
          (Child-kept pdpt (pdpt_index v) pd grown (omega (arith, l3)) (omega arith) b)
          (there, page)))

Located-step2 :
    (m m1 : Places) (s s1 : Vmm) (v pdpt : ℕ) (r : ℕ × Vmm)
    → Grown m m1 s s1
    → m1.level s1.kernel_pml4 ≡ 4
    → m1.level pdpt ≡ 3
    → m1.prefix pdpt ≡ indices_above 2 v
    → Child s1 s1.kernel_pml4 (pml4_index v) pdpt
    → Entered m1 s1 pdpt (pdpt_index v) r
    → Located m s v (step2 v s1 pdpt r)
Located-step2 m m1 s s1 v pdpt r g l4 l3 p a (missing absent e none_free grown) =
    rw (lacks_table (entry_at pdpt (pdpt_index v)) s1 r.0 absent e)
      (nowhere refl none_free m1 (Grown-trans g grown))
Located-step2 m m1 s s1 v pdpt r g l4 l3 p a (entered m' grown pos level prefix there page) =
    rw (has_table (entry_at pdpt (pdpt_index v)) s1 r.0 pos) (
      Located-step3 m m' s r.1 v pdpt r.0 (enter_table (entry_at r.0 (pd_index v)) r.1)
        (Grown-trans g grown)
        (ap m'.level grown.root ∙ grown.levels s1.kernel_pml4 (omega (arith, l4)) ∙ l4)
        (grown.levels pdpt (omega (arith, l3)) ∙ l3) (omega (arith, level, l3))
        (omega (arith, prefix, p, indices_above-step 1 v (omega arith), index2 v))
        (subst (λ root. Child r.1 root (pml4_index v) pdpt) (sym grown.root)
          (Child-kept s1.kernel_pml4 (pml4_index v) pdpt grown (omega (arith, l4)) (omega arith) a))
        (there, page)
        (enter_table-Entered m' r.1 r.0 (pd_index v) grown.tables (omega (arith, level, l3))
          (omega arith)))

Located-step1 :
    (m : Places) (s : Vmm) (v : ℕ) (r : ℕ × Vmm)
    → IsTables m s
    → Entered m s s.kernel_pml4 (pml4_index v) r
    → Located m s v (step1 v s r)
Located-step1 m s v r t (missing absent e none_free grown) =
    rw (lacks_table (entry_at s.kernel_pml4 (pml4_index v)) s r.0 absent e)
      (nowhere refl none_free m grown)
Located-step1 m s v r t (entered m' grown pos level prefix there page) =
    rw (has_table (entry_at s.kernel_pml4 (pml4_index v)) s r.0 pos) (
      Located-step2 m m' s r.1 v r.0 (enter_table (entry_at r.0 (pdpt_index v)) r.1) grown
        (ap m'.level grown.root
          ∙ grown.levels s.kernel_pml4 (omega (arith, t.root_level))
          ∙ t.root_level)
        (omega (arith, level, t.root_level)) (omega (arith, prefix, t.root_prefix))
        (subst (λ root. Child r.1 root (pml4_index v) r.0) (sym grown.root) (there, page))
        (enter_table-Entered m' r.1 r.0 (pdpt_index v) grown.tables
          (omega (arith, level, t.root_level)) (omega arith)))

pub vmm_get_or_create_entry-Located :
    (m : Places) (s : Vmm) (v : ℕ) → IsTables m s → Located m s v (vmm_get_or_create_entry v s)
unfolding vmm_get_or_create_entry
vmm_get_or_create_entry-Located m s v t =
    rw (not_zero s.kernel_pml4 (t.above s.kernel_pml4 (omega (arith, t.root_level)))) (
      Located-step1 m s v (enter_table (entry_at s.kernel_pml4 (pml4_index v)) s) t (
        enter_table-Entered m s s.kernel_pml4 (pml4_index v) t (omega (arith, t.root_level))
          (omega arith)))
