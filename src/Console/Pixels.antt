-- ===== src/Console/Pixels.antt =====
-- The pixels of the frame buffer of kernel/kernel.c, and what a filled rectangle does to them.
use simpleos.Common.{
  ℕ, zero, suc, ◌+◌, ◌*◌, ◌/◌, ◌^◌, ◌≤◌, ◌<◌, Bool, leb, ltb, ◌==◌, if◌then◌else◌, ◌&&◌, ◌≡◌, sym,
  ap, ◌∙◌, arith, ◌⊎◌, inr,
}
use native.Mathlib.Nat.{mul-add-div_right, div-eq_of_lt}
use simpleos.Console.{
  Console, index, pixel, write, put_pixel, fill_row, fill_rows, rounds, fill_rect,
}

-- A frame buffer whose visible pixels have indices of their own, below 2 ^ 32.
pub record IsFrame (width height pitch : ℕ) : Type 0 where
  pub narrow : width ≤ pitch
  pub fits : height * pitch ≤ 2 ^ 32

abbrev pub IsScreen : Console → Type 0
IsScreen c = IsFrame c.fb_width c.fb_height c.fb_pitch

row_of : (P x y : ℕ) → x < P → (y * P + x) / P ≡ y
row_of P x y lt = mul-add-div_right (omega (arith, lt)) y x ∙ grind (arith, div-eq_of_lt lt)

pub row_fits : (P H y : ℕ) → y < H → y * P + P ≤ H * P
row_fits P H y lt = grind (arith)

pub index-plain : (P H x y : ℕ) → x < P → y < H → H * P ≤ 2 ^ 32 → index P x y ≡ y * P + x
index-plain P H x y left below fits = ground (arith, left, fits, row_fits P H y below)

index-row :
    (P H x y x' y' : ℕ)
    → x < P
    → y < H
    → x' < P
    → y' < H
    → H * P ≤ 2 ^ 32
    → index P x y ≡ index P x' y'
    → y ≡ y'
index-row P H x y x' y' left below left' below' fits e =
    sym (row_of P x y left)
    ∙ ap (λ i. i / P)
        (sym (index-plain P H x y left below fits) ∙ e ∙ index-plain P H x' y' left' below' fits)
    ∙ row_of P x' y' left'

index-column :
    (P H x y x' y' : ℕ)
    → x < P
    → y < H
    → x' < P
    → y' < H
    → H * P ≤ 2 ^ 32
    → index P x y ≡ index P x' y'
    → x ≡ x'
index-column P H x y x' y' left below left' below' fits e = ground (
  arith,
  index-row P H x y x' y' left below left' below' fits e,
  sym (index-plain P H x y left below fits) ∙ e ∙ index-plain P H x' y' left' below' fits,
)

-- Is `at` one of the `extent` numbers from `from` on?
abbrev pub spans : ℕ → ℕ → ℕ → Bool
spans from extent at = leb from at && ltb at (from + extent)

-- A stretch of a side, empty or inside it.
pub Fits : ℕ → ℕ → ℕ → Type 0
Fits from extent side = (extent ≡ 0) ⊎ (from + extent ≤ side)

pub Fits-next : (from extent side : ℕ) → Fits from (suc extent) side → Fits (from + 1) extent side
unfolding Fits
Fits-next from extent side h = ground (arith, h)

pub Fits-first : (from extent side : ℕ) → Fits from (suc extent) side → from < side
unfolding Fits
Fits-first from extent side h = ground (arith, h)

pub Fits-one : (from side : ℕ) → from < side → Fits from 1 side
unfolding Fits
Fits-one from side h = inr (omega (arith, h))

pub Fits-whole : (extent side : ℕ) → extent ≤ side → Fits 0 extent side
unfolding Fits
Fits-whole extent side h = inr (omega (arith, h))

-- The pixels of a screen `H` rows high.
module _ (P H : ℕ) (fits : H * P ≤ 2 ^ 32) where
  pub pixel-write :
      (fb : ℕ → ℕ) (color x y x' y' : ℕ)
      → x < P
      → y < H
      → x' < P
      → y' < H
      → pixel P (write P x y color fb) x' y'
        ≡ (if (x == x') && (y == y') then color else pixel P fb x' y')
  pixel-write fb color x y x' y' left below left' below' = ground (
    arith,
    index-row P H x y x' y' left below left' below' fits,
    index-column P H x y x' y' left below left' below' fits,
  )

  pixel-fill_row :
      (cols : ℕ) (fb : ℕ → ℕ) (x y color x' y' : ℕ)
      → Fits x cols P
      → y < H
      → x' < P
      → y' < H
      → pixel P (fill_row P cols x y color fb) x' y'
        ≡ (if spans x cols x' && (y == y') then color else pixel P fb x' y')
  unfolding fill_row
  pixel-fill_row zero fb x y color x' y' right below left' below' = ground arith
  pixel-fill_row (suc cols) fb x y color x' y' right below left' below' =
      pixel-fill_row cols (write P x y color fb) (x + 1) y color x' y' (Fits-next x cols P right)
        below left' below'
      ∙ ground
          (arith, pixel-write fb color x y x' y' (Fits-first x cols P right) below left' below')

  pub pixel-fill_rows :
      (cols rows : ℕ) (fb : ℕ → ℕ) (x y color x' y' : ℕ)
      → Fits x cols P
      → Fits y rows H
      → x' < P
      → y' < H
      → pixel P (fill_rows P cols rows x y color fb) x' y'
        ≡ (if spans x cols x' && spans y rows y' then color else pixel P fb x' y')
  unfolding fill_rows
  pixel-fill_rows cols zero fb x y color x' y' right below left' below' = ground arith
  pixel-fill_rows cols (suc rows) fb x y color x' y' right below left' below' =
      pixel-fill_rows cols rows (fill_row P cols x y color fb) x (y + 1) color x' y' right
        (Fits-next y rows H below) left' below'
      ∙ ground (
        arith,
        pixel-fill_row cols fb x y color x' y' right (Fits-first y rows H below) left' below',
      )

-- The loops of `fill_rect` stop at the side of the screen, and where the rectangle ends.
pub rounds-Fits :
    (from extent side wide : ℕ) → side ≤ wide → Fits from (rounds from extent side) wide
unfolding Fits
rounds-Fits from extent side wide h = ground (arith, h)

pub rounds-spans :
    (from extent side at : ℕ)
    → from + extent < 2 ^ 32
    → at < side
    → spans from (rounds from extent side) at ≡ spans from extent at
rounds-spans from extent side at small inside = ground (arith, small, inside)

-- `fill_rect` colours the visible pixels of the rectangle, whatever part of it the screen shows, and
-- no other visible pixel, for a rectangle whose sides end below 2 ^ 32.
pub fill_rect_lem :
    (c : Console) (x y w h color x' y' : ℕ)
    → IsScreen c
    → x + w < 2 ^ 32
    → y + h < 2 ^ 32
    → x' < c.fb_width
    → y' < c.fb_height
    → pixel c.fb_pitch (fill_rect x y w h color c).fb x' y'
      ≡ (if spans x w x' && spans y h y' then color else pixel c.fb_pitch c.fb x' y')
unfolding fill_rect
fill_rect_lem c x y w h color x' y' screen right below left' below' =
    pixel-fill_rows c.fb_pitch c.fb_height screen.fits (rounds x w c.fb_width)
      (rounds y h c.fb_height) c.fb x y color x' y'
      (rounds-Fits x w c.fb_width c.fb_pitch screen.narrow)
      (rounds-Fits y h c.fb_height c.fb_height (omega arith)) (omega (arith, screen.narrow, left'))
      below'
    ∙ ap (λ b. if b then color else pixel c.fb_pitch c.fb x' y')
        (grind (
          arith,
          rounds-spans x w c.fb_width x' right left',
          rounds-spans y h c.fb_height y' below below',
        ))

-- `put_pixel` at any coordinates.
pub pixel-put_pixel :
    (c : Console) (x y color x' y' : ℕ)
    → IsScreen c
    → x' < c.fb_width
    → y' < c.fb_height
    → pixel c.fb_pitch (put_pixel x y color c).fb x' y'
      ≡ (if (x == x') && (y == y') then color else pixel c.fb_pitch c.fb x' y')
unfolding put_pixel
pixel-put_pixel c x y color x' y' screen left' below' = ground (
  arith,
  screen.narrow,
  left',
  below',
  pixel-write c.fb_pitch c.fb_height screen.fits c.fb color x y x' y',
)
