-- ===== src/Heap/Segment.antt =====
-- A run of block headers in memory that are laid out one behind the other and doubly linked.
use simpleos.Common.{
  ℕ, ◌+◌, ◌≤◌, ◌<◌, ◌≡◌, ◌≢◌, refl, sym, ◌∙◌, ap, Bool, false, [], ◌∷◌, ◌++◌, arith, ◌==◌,
  Bool-cases, inl, inr,
}
use simpleos.Common.Bytes.{update}
use simpleos.Heap.{Block, Cells, header_size, set_prev}
use simpleos.Heap.Blocks.{Blocks, span}

abbrev pub header : ℕ → Bool → ℕ → ℕ → Block
header n f next prev = record { size = n; free = f; next = next; prev = prev }

-- The address of the first of the blocks `bs` at `a`, and `stop` if there is none.
abbrev pub link : Blocks → ℕ → ℕ → ℕ
link [] a stop = stop
link (b ∷ bs) a stop = a

-- The address of the last of the blocks at `a`, and `prev` if there is none.
abbrev pub last : ℕ → ℕ → Blocks → ℕ
last prev a [] = prev
last prev a ((n, f) ∷ bs) = last a (a + header_size + n) bs

-- From `a` on the headers are those of `bs`; the first points back to `prev`, the last on to `stop`.
abbrev pub Seg : Cells → ℕ → ℕ → Blocks → ℕ → Type 0
Seg c prev a [] stop = Unit {0}
Seg c prev a ((n, f) ∷ bs) stop =
    (c a ≡ header n f (link bs (a + header_size + n) stop) prev)
    × Seg c a (a + header_size + n) bs stop

-- A segment survives any change outside the bytes that it takes up.
pub Seg-frame :
    (c d : Cells) (prev a : ℕ) (bs : Blocks) (stop : ℕ)
    → ((q : ℕ) → a ≤ q → q < a + span bs → d q ≡ c q)
    → Seg c prev a bs stop
    → Seg d prev a bs stop
Seg-frame c d prev a [] stop same s = tt
Seg-frame c d prev a ((n, f) ∷ bs) stop same s = (
  same a (omega arith) (omega arith) ∙ s.0,
  Seg-frame c d a (a + header_size + n) bs stop (λ q lo hi. same q (omega arith) (omega arith)) s.1,
)

pub link-append :
    (xs ys : Blocks) (a b stop : ℕ)
    → b ≡ a + span xs
    → link (xs ++ ys) a stop ≡ link xs a (link ys b stop)
link-append [] [] a b stop e = refl
link-append [] (y ∷ ys) a b stop e = omega arith
link-append (x ∷ xs) ys a b stop e = refl

-- A segment of `xs ++ ys` is one of `xs` and one of `ys`.
pub Seg-left :
    (c : Cells) (prev a b : ℕ) (xs ys : Blocks) (stop : ℕ)
    → b ≡ a + span xs
    → Seg c prev a (xs ++ ys) stop
    → Seg c prev a xs (link ys b stop)
Seg-left c prev a b [] ys stop e s = tt
Seg-left c prev a b ((n, f) ∷ xs) ys stop e s = (
  s.0 ∙ ap (λ k. header n f k prev) (link-append xs ys (a + header_size + n) b stop (omega arith)),
  Seg-left c a (a + header_size + n) b xs ys stop (omega arith) s.1,
)

pub Seg-right :
    (c : Cells) (prev a b : ℕ) (xs ys : Blocks) (stop : ℕ)
    → b ≡ a + span xs
    → Seg c prev a (xs ++ ys) stop
    → Seg c (last prev a xs) b ys stop
Seg-right c prev a b [] ys stop e s = let e' : b ≡ a = omega arith in rw e' s
Seg-right c prev a b ((n, f) ∷ xs) ys stop e s =
    Seg-right c a (a + header_size + n) b xs ys stop (omega arith) s.1

pub Seg-append :
    (c : Cells) (prev a b : ℕ) (xs ys : Blocks) (stop : ℕ)
    → b ≡ a + span xs
    → Seg c prev a xs (link ys b stop)
    → Seg c (last prev a xs) b ys stop
    → Seg c prev a (xs ++ ys) stop
Seg-append c prev a b [] ys stop e s t = let e' : a ≡ b = omega arith in rw e' t
Seg-append c prev a b ((n, f) ∷ xs) ys stop e s t = (
  s.0
      ∙ ap (λ k. header n f k prev)
          (sym (link-append xs ys (a + header_size + n) b stop (omega arith))),
  Seg-append c a (a + header_size + n) b xs ys stop (omega arith) s.1 t,
)

pub update_self {ℓ} : {A : Type ℓ} (c : ℕ → A) (p : ℕ) (v : A) → update c p v p ≡ v
update_self c p v = ground arith

pub update_ne {ℓ} : {A : Type ℓ} (c : ℕ → A) (p q : ℕ) (v : A) → p ≢ q → update c p v q ≡ c q
update_ne c p q v ne = ground arith

pub set_prev_self : (c : Cells) (p v : ℕ) → p ≢ 0 → set_prev c p v p ≡ record (c p) { prev = v }
unfolding set_prev
set_prev_self c p v ne =
    let z : (p == 0) ≡ false = ground arith in rw z (update_self c p (record (c p) { prev = v }))

pub set_prev_ne : (c : Cells) (p q v : ℕ) → p ≢ q → set_prev c p v q ≡ c q
unfolding set_prev
set_prev_ne c p q v ne = elim (Bool-cases (p == 0)) [
  | inl z ↦ rw z
  | inr z ↦ rw z (update_ne c p q (record (c p) { prev = v }) ne)
]

-- Only the first header knows what is before a segment.
pub Seg-set_prev :
    (c : Cells) (prev prev' a : ℕ) (bs : Blocks)
    → a ≢ 0
    → Seg c prev a bs 0
    → Seg (set_prev c (link bs a 0) prev') prev' a bs 0
Seg-set_prev c prev prev' a [] ne s = tt
Seg-set_prev c prev prev' a ((n, f) ∷ bs) ne s = (
  set_prev_self c a prev' ne ∙ ap (λ (h : Block). record h { prev = prev' }) s.0,
  Seg-frame c (set_prev c a prev') a (a + header_size + n) bs 0
      (λ q lo hi. set_prev_ne c a q prev' (omega arith)) s.1,
)

-- The last block of a segment lies in it.
pub last-lt :
    (prev a : ℕ) (xs : Blocks) → xs ≢ [] → (a ≤ last prev a xs) × (last prev a xs < a + span xs)
last-lt prev a [] ne = absurd (ne refl)
last-lt prev a ((n, f) ∷ []) ne = omega arith
last-lt prev a ((n, f) ∷ x ∷ xs) ne =
    omega (arith, last-lt a (a + header_size + n) (x ∷ xs) (λ e. cc))
