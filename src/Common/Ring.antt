-- ===== src/Common/Ring.antt =====
-- The list that a circular array holds: `count` cells from `start` on, the last cell followed by
-- cell 0. It is the abstract view of the keyboard's buffer and of the shell's history.
use simpleos.Common.Tests.{Bool-cases, ==_iff, ltb, ◌==◌, if◌then◌else◌}
use simpleos.Common.Lists.{length, get_or}
use simpleos.Common.Bytes.{update}
use Prim.Native.Nat.{ℕ, zero, suc, ◌+◌, ◌-◌, ◌≤◌, ◌<◌}
use mathlib.Core.Path.{◌≡◌, refl, ap, ◌∙◌}
use mathlib.Core.Logic.{◌≢◌, inl, inr}
use mathlib.Core.List.{List, [], ◌∷◌, ◌++◌}
use native.Mathlib.Omega.{arith}

-- The cell of position `i`, for positions up to twice the size.
abbrev pub wrap : ℕ → ℕ → ℕ
wrap size i = if ltb i size then i else i - size

module _ {ℓ} {A : Type ℓ} where
  unfoldable pub slots : (ℕ → A) → ℕ → ℕ → ℕ → List A
  slots f size start zero = []
  slots f size start (suc count) = f (wrap size start) ∷ slots f size (start + 1) count

  pub slots-none : (f : ℕ → A) (size start : ℕ) → slots f size start 0 ≡ []
  unfolding slots
  slots-none f size start = refl

  pub length-slots : (f : ℕ → A) (size start count : ℕ) → length (slots f size start count) ≡ count
  unfolding slots
  length-slots f size start zero = refl
  length-slots f size start (suc count) = ground (arith, length-slots f size (start + 1) count)

  pub slots-snoc :
      (f : ℕ → A) (size start count : ℕ)
      → slots f size start (count + 1)
        ≡ slots f size start count ++ (f (wrap size (start + count)) ∷ [])
  unfolding slots
  slots-snoc f size start zero = ground arith
  slots-snoc f size start (suc count) = ground (arith, slots-snoc f size (start + 1) count)

  -- A write to a cell that is not in the list leaves the list as it was.
  pub slots-update :
      (f : ℕ → A) (size start count j : ℕ) (v : A)
      → ((i : ℕ) → start ≤ i → i < start + count → wrap size i ≢ j)
      → slots (update f j v) size start count ≡ slots f size start count
  unfolding slots
  slots-update f size start zero j v apart = refl
  slots-update f size start (suc count) j v apart = ground (
    arith,
    apart start (omega arith) (omega arith),
    slots-update f size (start + 1) count j v
        (λ i low high. apart i (omega (arith, low)) (omega (arith, high))),
  )

  -- Positions from `size` on are the positions from 0 on.
  pub slots-wrap :
      (f : ℕ → A) (size start count : ℕ)
      → start + count ≤ size
      → slots f size (start + size) count ≡ slots f size start count
  unfolding slots
  slots-wrap f size start zero fits = refl
  slots-wrap f size start (suc count) fits = ground (arith, slots-wrap f size (start + 1) count)

  -- The free cell behind a list that does not fill the array is written without touching the list.
  pub slots-push :
      (f : ℕ → A) (size start count : ℕ) (v : A)
      → start < size
      → count < size
      → slots (update f (wrap size (start + count)) v) size start (count + 1)
        ≡ slots f size start count ++ (v ∷ [])
  slots-push f size start count v hs hc = ground (
    arith,
    slots-snoc (update f (wrap size (start + count)) v) size start count,
    slots-update f size start count (wrap size (start + count)) v (λ i low high. ground arith),
  )

  -- Taking the first element moves the start on, around the end of the array.
  pub slots-pop :
      (f : ℕ → A) (size start count : ℕ)
      → start < size
      → count < size
      → slots f size start (suc count)
        ≡ f start ∷ slots f size (if start + 1 == size then 0 else start + 1) count
  unfolding slots
  slots-pop f size start count hs hc = elim (Bool-cases (start + 1 == size)) [
    | inl last ↦
        ground
          (arith, last, (==_iff (start + 1) size).0 last, slots-wrap f size 0 count (omega arith))
    | inr inner ↦ ground (arith, inner)
  ]

  -- The list is read at the positions from `start` on.
  pub slots-get :
      (f : ℕ → A) (size start count i : ℕ) (d : A)
      → i < count
      → get_or (slots f size start count) i d ≡ f (wrap size (start + i))
  unfolding slots
  slots-get f size start zero i d inside = elim inside [ ]
  slots-get f size start (suc count) zero d inside = ap (λ j. f (wrap size j)) (omega arith)
  slots-get f size start (suc count) (suc i) d inside =
      slots-get f size (start + 1) count i d (omega (arith, inside))
      ∙ ap (λ j. f (wrap size j)) (omega arith)
