-- ===== src/Graphics/Examples.antt =====
-- The theorems on the graphics at concrete inputs.
use simpleos.Common.{◌≡◌, refl, arith, ◌==◌, ◌&&◌, if◌then◌else◌, [], ◌∷◌}
use simpleos.Common.Bytes.{bit_of}
use simpleos.Console.{pixel, index, dec_text}
use simpleos.Console.Pixels.{spans}
use simpleos.Graphics.{
  GfxContext, gfx_hline, gfx_vline, gfx_char, glyph_rows, glyph_columns, gfx_dot, gfx_pixel,
  font_row, int_to_str, digits_from, turn_round,
}
use simpleos.Graphics.Figures.{gfx_hline-gfx_vline}
use simpleos.Graphics.Labels.{int_to_str-dec_text}

abbrev small_gfx : GfxContext
small_gfx = record { framebuffer = λ i. 7; width = 24; height = 30; pitch = 32 }

-- The third row of `!` has dots in the columns 3 and 4.
drawn_mark : (gfx_char 8 4 b'!' 9 0 small_gfx).framebuffer (index 32 11 6) ≡ 9
unfolding gfx_char glyph_rows glyph_columns gfx_dot gfx_pixel font_row bit_of
drawn_mark = refl

text_of_1907 : int_to_str 1907 ≡ b'1' ∷ b'9' ∷ b'0' ∷ b'7' ∷ []
unfolding int_to_str digits_from turn_round
text_of_1907 = refl

gfx_hline-gfx_vline_example :
    (pixel 32 (gfx_hline 20 3 9 5 small_gfx).framebuffer 21 3
      ≡ (if (3 == 3) && spans 20 9 21 then 5 else 7))
    × (pixel 32 (gfx_vline 20 3 9 5 small_gfx).framebuffer 21 3
        ≡ (if (20 == 21) && spans 3 9 3 then 5 else 7))
gfx_hline-gfx_vline_example =
    gfx_hline-gfx_vline small_gfx 5 20 3 9 21 3
      (record { narrow = omega arith; fits = omega arith }) (omega arith) (omega arith)
      (omega arith) (omega arith)

int_to_str-dec_text_example : int_to_str 1907 ≡ dec_text 1907
int_to_str-dec_text_example = int_to_str-dec_text 1907
