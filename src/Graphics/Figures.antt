-- ===== src/Graphics/Figures.antt =====
-- The lines and rectangles of boot/graphics.h.
use simpleos.Common.{
  ℕ, ◌+◌, ◌^◌, ◌<◌, ◌≡◌, ◌∙◌, arith, ◌==◌, leb, ◌&&◌, if◌then◌else◌, Bool-cases, inl, inr,
}
use simpleos.Console.{pixel, rounds}
use simpleos.Console.Pixels.{IsFrame, spans, rounds-Fits, rounds-spans, Fits-one, pixel-fill_rows}
use simpleos.Graphics.{GfxContext, gfx_hline, gfx_vline}

module _ (gfx : GfxContext) (frame : IsFrame gfx.width gfx.height gfx.pitch) (color x' y' : ℕ)
    (left' : x' < gfx.width) (below' : y' < gfx.height) where
  hline-pixel :
      (x y w : ℕ)
      → x + w < 2 ^ 32
      → pixel gfx.pitch (gfx_hline x y w color gfx).framebuffer x' y'
        ≡ (if (y == y') && spans x w x' then color else pixel gfx.pitch gfx.framebuffer x' y')
  unfolding gfx_hline
  hline-pixel x y w right = elim (Bool-cases (leb gfx.height y)) [
    | inl off ↦ ground (arith, off, below')
    | inr on ↦ rw on (
        pixel-fill_rows gfx.pitch gfx.height frame.fits (rounds x w gfx.width) 1 gfx.framebuffer x y
          color x' y' (rounds-Fits x w gfx.width gfx.pitch frame.narrow)
          (Fits-one y gfx.height (ground (arith, on))) (omega (arith, frame.narrow, left')) below'
        ∙ ground (arith, rounds-spans x w gfx.width x' right left'))
  ]

  vline-pixel :
      (x y h : ℕ)
      → y + h < 2 ^ 32
      → pixel gfx.pitch (gfx_vline x y h color gfx).framebuffer x' y'
        ≡ (if (x == x') && spans y h y' then color else pixel gfx.pitch gfx.framebuffer x' y')
  unfolding gfx_vline
  vline-pixel x y h down = elim (Bool-cases (leb gfx.width x)) [
    | inl off ↦ ground (arith, off, left')
    | inr on ↦ rw on (
        pixel-fill_rows gfx.pitch gfx.height frame.fits 1 (rounds y h gfx.height) gfx.framebuffer x
          y color x' y' (Fits-one x gfx.pitch (ground (arith, on, frame.narrow)))
          (rounds-Fits y h gfx.height gfx.height (omega arith)) (omega (arith, frame.narrow, left'))
          below'
        ∙ ground (arith, rounds-spans y h gfx.height y' down below'))
  ]

-- A horizontal and a vertical line colour the visible pixels of their row or column from their start
-- on, as many as they are long, and no other visible pixel, if they end below 2 ^ 32.
pub gfx_hline-gfx_vline :
    (gfx : GfxContext) (color x y n x' y' : ℕ)
    → IsFrame gfx.width gfx.height gfx.pitch
    → x + n < 2 ^ 32
    → y + n < 2 ^ 32
    → x' < gfx.width
    → y' < gfx.height
    → (pixel gfx.pitch (gfx_hline x y n color gfx).framebuffer x' y'
        ≡ (if (y == y') && spans x n x' then color else pixel gfx.pitch gfx.framebuffer x' y'))
      × (pixel gfx.pitch (gfx_vline x y n color gfx).framebuffer x' y'
          ≡ (if (x == x') && spans y n y' then color else pixel gfx.pitch gfx.framebuffer x' y'))
gfx_hline-gfx_vline gfx color x y n x' y' frame right down left' below' = (
  hline-pixel gfx frame color x' y' left' below' x y n right,
  vline-pixel gfx frame color x' y' left' below' x y n down,
)
