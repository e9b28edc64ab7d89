-- ===== src/Vmm/Walk.antt =====
-- Walking down the tables of kernel/mm/vmm.c, by the number of levels below the table.
use Prim.Native.Nat.{bit_or}
use simpleos.Common.{
  ℕ, zero, suc, ◌+◌, ◌*◌, ◌/◌, ◌%◌, ◌^◌, ◌<◌, ◌≡◌, ◌≢◌, refl, arith, true, false, not, ◌==◌, ==_iff,
  ==_false, if◌then◌else◌, Bool-cases, inl, inr, ap, sym, ◌∙◌,
}
use simpleos.Vmm.{
  Vmm, Words, entry_at, present, page_of, vmm_get_physical, pml4_index, pdpt_index, pd_index,
}
use simpleos.Vmm.Tables.{Places, IsTables, entry_at-table, entry_at-index}

-- The page number of an address without the indices of `n` levels, and the index at such a level.
abbrev pub levels_up : ℕ → ℕ → ℕ
levels_up zero v = v / 2 ^ 12
levels_up (suc n) v = levels_up n v / 512

abbrev pub index_at : ℕ → ℕ → ℕ
index_at n v = levels_up n v % 512

-- The indices above a level as one number.
abbrev pub indices_above : ℕ → ℕ → ℕ
indices_above zero v = (v / 2 ^ 21) % 2 ^ 27
indices_above (suc zero) v = (v / 2 ^ 30) % 2 ^ 18
indices_above (suc (suc zero)) v = (v / 2 ^ 39) % 2 ^ 9
indices_above (suc (suc (suc n))) v = 0

pub indices_above-step :
    (n v : ℕ) → n < 3 → indices_above n v ≡ indices_above (suc n) v * 512 + index_at (suc n) v
indices_above-step zero v h = omega arith
indices_above-step (suc zero) v h = omega arith
indices_above-step (suc (suc zero)) v h = omega arith
indices_above-step (suc (suc (suc n))) v h = absurd (omega (arith, h))

-- The page of an address among the 2 ^ 36 that four levels reach.
abbrev pub page_number : ℕ → ℕ
page_number v = (v / 2 ^ 12) % 2 ^ 36

unfoldable pub translate : ℕ → Words → ℕ → ℕ → ℕ
translate zero w t v =
    let e = w (entry_at t (index_at zero v)) in
    if present e then bit_or (page_of e) (v % 4096) else 0
translate (suc n) w t v =
    let e = w (entry_at t (index_at (suc n) v)) in
    let rest = translate n w (page_of e) v in if present e then rest else 0

-- The four reads, by the indices of the upper three levels.
reads_as :
    (a a' b b' c c' v : ℕ) (s : Vmm)
    → a ≡ a'
    → b ≡ b'
    → c ≡ c'
    → (let pml4_entry = s.words (entry_at s.kernel_pml4 a) in
        let pdpt_entry = s.words (entry_at (page_of pml4_entry) b) in
        let pd_entry = s.words (entry_at (page_of pdpt_entry) c) in
        let pt_entry = s.words (entry_at (page_of pd_entry) (index_at 0 v)) in
        (if s.kernel_pml4 == 0
          then 0
          else if not (present pml4_entry)
          then 0
          else if not (present pdpt_entry)
          then 0
          else if not (present pd_entry)
          then 0
          else if not (present pt_entry)
          then 0
          else bit_or (page_of pt_entry) (v % 4096))
        ≡ (if s.kernel_pml4 == 0
            then 0
            else if present (s.words (entry_at s.kernel_pml4 a'))
            then (if present (s.words (entry_at (page_of (s.words (entry_at s.kernel_pml4 a'))) b'))
                then (if present (
                      s.words (
                        entry_at
                          (page_of
                            (s.words (entry_at (page_of (s.words (entry_at s.kernel_pml4 a'))) b')))
                          c'))
                    then translate 0 s.words
                        (page_of (
                          s.words (
                            entry_at
                              (page_of (
                                s.words
                                  (entry_at (page_of (s.words (entry_at s.kernel_pml4 a'))) b')))
                              c')))
                        v
                    else 0)
                else 0)
            else 0))
unfolding translate
reads_as a a' b b' c c' v s ea eb ec = rw (ea, eb, ec) (ground arith)

-- `vmm_get_physical` is the walk from the root.
pub vmm_get_physical-translate :
    (v : ℕ) (s : Vmm)
    → vmm_get_physical v s ≡ (if s.kernel_pml4 == 0 then 0 else translate 3 s.words s.kernel_pml4 v)
unfolding vmm_get_physical translate
vmm_get_physical-translate v s =
    reads_as (pml4_index v) (index_at 3 v) (pdpt_index v) (index_at 2 v) (pd_index v) (index_at 1 v)
      v s (omega arith) (omega arith) (omega arith)

-- From `t` all entries on the way of an address are present, and lead to `last`.
abbrev pub Leads : ℕ → Words → ℕ → ℕ → ℕ → Type 0
Leads zero w t v last = t ≡ last
Leads (suc n) w t v last =
    (present (w (entry_at t (index_at (suc n) v))) ≡ true)
    × Leads n w (page_of (w (entry_at t (index_at (suc n) v)))) v last

-- A table without a present entry translates nothing.
pub translate-empty :
    (n : ℕ) (w : Words) (t v : ℕ)
    → ((j : ℕ) → j < 512 → present (w (entry_at t j)) ≡ false)
    → translate n w t v ≡ 0
unfolding translate
translate-empty zero w t v empty = ground (arith, empty (index_at zero v) (omega arith))
translate-empty (suc n) w t v empty = ground (arith, empty (index_at (suc n) v) (omega arith))

same_page :
    (v v0 : ℕ)
    → indices_above 0 v ≡ indices_above 0 v0
    → index_at 0 v ≡ index_at 0 v0
    → page_number v ≡ page_number v0
same_page v v0 p i = omega (arith, p, i)

-- Memory `w'` in which, of all entries of tables, only entry `i0` of table `t0` may be another.
module _ (m : Places) (s : Vmm) (tables : IsTables m s) (w' : Words) (t0 i0 : ℕ)
    (known : 0 < m.level t0) (small : i0 < 512)
    (same : (a j : ℕ)
      → 0 < m.level a
      → j < 512
      → entry_at a j ≢ entry_at t0 i0
      → w' (entry_at a j) ≡ s.words (entry_at a j)) where
  -- Another table has other entries.
  elsewhere : (t j : ℕ) → 0 < m.level t → j < 512 → t ≢ t0 → entry_at t j ≢ entry_at t0 i0
  elsewhere t j lt hj apart e =
      apart (entry_at-table t t0 j i0 (tables.aligned t lt) (tables.aligned t0 known) hj small e)

  same_level :
      (t j : ℕ)
      → 0 < m.level t
      → j < 512
      → m.level t ≢ m.level t0
      → w' (entry_at t j) ≡ s.words (entry_at t j)
  same_level t j lt hj apart = same t j lt hj (elsewhere t j lt hj (λ e. apart (ap m.level e)))

  -- A new entry of the last level does not change the translation of another page.
  pub translate-other :
      (n t v v0 : ℕ)
      → m.level t0 ≡ 1
      → m.prefix t0 ≡ indices_above 0 v0
      → i0 ≡ index_at 0 v0
      → m.level t ≡ suc n
      → n < 4
      → m.prefix t ≡ indices_above n v
      → page_number v ≢ page_number v0
      → translate n w' t v ≡ translate n s.words t v
  unfolding translate
  translate-other zero t v v0 l0 p0 e0 lt hn pt apart =
      (let e = same t (index_at zero v) (omega (arith, lt)) (omega arith) (λ e. apart (
          same_page v v0
            (omega (
              arith,
              p0,
              pt,
              ap m.prefix (
                  entry_at-table t t0 (index_at zero v) i0 (tables.aligned t (omega (arith, lt)))
                    (tables.aligned t0 known) (omega arith) small e),
            ))
            (omega (
              arith,
              e0,
              entry_at-index t t0 (index_at zero v) i0 (tables.aligned t (omega (arith, lt)))
                  (tables.aligned t0 known) (omega arith) small e,
            )))) in
        ap (λ x. if present x then bit_or (page_of x) (v % 4096) else 0) e)
  translate-other (suc n) t v v0 l0 p0 e0 lt hn pt apart =
      (let i = index_at (suc n) v in
        let x = s.words (entry_at t i) in
        let e = same_level t i (omega (arith, lt)) (omega arith) (omega (arith, lt, l0)) in
        elim (Bool-cases (present x)) [
          | inl there ↦
              ap (λ y. if present y then translate n w' (page_of y) v else 0) e
              ∙ ap (λ r. if present x then r else 0)
                  (translate-other n (page_of x) v v0 l0 p0 e0
                    (omega
                      (arith, lt, tables.level_below t i (omega (arith, lt)) (omega arith) there))
                    (omega (arith, hn))
                    (omega (
                      arith,
                      pt,
                      hn,
                      indices_above-step n v (omega (arith, hn)),
                      tables.prefix_below t i (omega (arith, lt)) (omega arith) there,
                    ))
                    apart)
          | inr absent ↦
              ap (λ y. if present y then translate n w' (page_of y) v else 0) e ∙ rw absent refl
        ])

  -- It gives the translation of the pages that the entry is for.
  pub translate-last :
      (n t v : ℕ)
      → m.level t0 ≡ 1
      → m.level t ≡ suc n
      → Leads n s.words t v t0
      → i0 ≡ index_at 0 v
      → translate n w' t v ≡ (
          if present (w' (entry_at t0 i0))
          then bit_or (page_of (w' (entry_at t0 i0))) (v % 4096)
          else 0)
  unfolding translate
  translate-last zero t v l0 lt leads e0 =
      (let e = ap (λ j. entry_at t0 j) (sym e0) in
        ap (λ a. if present (w' a) then bit_or (page_of (w' a)) (v % 4096) else 0)
          (ap (λ u. entry_at u (index_at zero v)) leads ∙ e))
  translate-last (suc n) t v l0 lt leads e0 =
      (let i = index_at (suc n) v in
        let e = same_level t i (omega (arith, lt)) (omega arith) (omega (arith, lt, l0)) in
        ap (λ y. if present y then translate n w' (page_of y) v else 0) e
        ∙ ap (λ b. if b then translate n w' (page_of (s.words (entry_at t i))) v else 0) leads.0
        ∙ translate-last n (page_of (s.words (entry_at t i))) v l0
            (omega (arith, lt, tables.level_below t i (omega (arith, lt)) (omega arith) leads.0))
            leads.1 e0)

  -- At the new entry: nothing was translated, and nothing is.
  entered_here :
      (n t v : ℕ)
      → entry_at t (index_at (suc n) v) ≡ entry_at t0 i0
      → present (s.words (entry_at t0 i0)) ≡ false
      → present (w' (entry_at t0 i0)) ≡ true
      → ((j : ℕ) → j < 512 → present (w' (entry_at (page_of (w' (entry_at t0 i0))) j)) ≡ false)
      → translate (suc n) w' t v ≡ translate (suc n) s.words t v
  unfolding translate
  entered_here n t v here before after empty =
      ap (λ a. if present (w' a) then translate n w' (page_of (w' a)) v else 0) here
      ∙ ap (λ b. if b then translate n w' (page_of (w' (entry_at t0 i0))) v else 0) after
      ∙ translate-empty n w' (page_of (w' (entry_at t0 i0))) v empty
      ∙ sym (
          ap (λ a. if present (s.words a) then translate n s.words (page_of (s.words a)) v else 0)
            here
          ∙ ap (λ b. if b then translate n s.words (page_of (s.words (entry_at t0 i0))) v else 0)
              before)

  -- At another entry: the walk goes on at the same table.
  entered_other :
      (n t v : ℕ)
      → m.level t ≡ suc (suc n)
      → entry_at t (index_at (suc n) v) ≢ entry_at t0 i0
      → ((c : ℕ) → m.level c ≡ suc n → translate n w' c v ≡ translate n s.words c v)
      → translate (suc n) w' t v ≡ translate (suc n) s.words t v
  unfolding translate
  entered_other n t v lt other rest =
      (let i = index_at (suc n) v in
        let x = s.words (entry_at t i) in
        let e = same t i (omega (arith, lt)) (omega arith) other in
        elim (Bool-cases (present x)) [
          | inl there ↦
              ap (λ y. if present y then translate n w' (page_of y) v else 0) e
              ∙ ap (λ r. if present x then r else 0)
                  (rest (page_of x) (
                    omega
                      (arith, lt, tables.level_below t i (omega (arith, lt)) (omega arith) there)))
          | inr absent ↦
              ap (λ y. if present y then translate n w' (page_of y) v else 0) e ∙ rw absent refl
        ])

  -- A new empty table below an entry that was not present changes no translation.
  pub translate-entered :
      (n t v : ℕ)
      → 1 < m.level t0
      → present (s.words (entry_at t0 i0)) ≡ false
      → present (w' (entry_at t0 i0)) ≡ true
      → ((j : ℕ) → j < 512 → present (w' (entry_at (page_of (w' (entry_at t0 i0))) j)) ≡ false)
      → m.level t ≡ suc n
      → translate n w' t v ≡ translate n s.words t v
  unfolding translate
  translate-entered zero t v l0 before after empty lt =
      (let e =
          same_level t (index_at zero v) (omega (arith, lt)) (omega arith)
            (omega (arith, lt, l0)) in
        ap (λ x. if present x then bit_or (page_of x) (v % 4096) else 0) e)
  translate-entered (suc n) t v l0 before after empty lt =
      (let i = index_at (suc n) v in
        elim (Bool-cases (entry_at t i == entry_at t0 i0)) [
          | inl here ↦ entered_here n t v ((==_iff _ _).0 here) before after empty
          | inr other ↦
              entered_other n t v lt (==_false _ _ other)
                (λ c lc. translate-entered n c v l0 before after empty lc)
        ])
