-- ===== src/Console/Samples.antt =====
-- A small screen for the tests of the console.
use simpleos.Common.{refl, ◌≡◌, arith, [], ◌∷◌}
use simpleos.Common.Bytes.{bit_of}
use simpleos.Console.{
  Console, draw_char, draw_rows, draw_bits, put_pixel, font8x8, hex_text, hex_loop, hex_digit,
  skip_zeros, index,
}
use simpleos.Console.Pixels.{IsScreen}
use simpleos.Console.Cursor.{IsConsole}

-- 24 by 30 pixels, all of them 7, in rows of 32; the cursor is on the last line.
abbrev pub small_console : Console
small_console = record {
  fb = λ i. 7;
  fb_width = 24;
  fb_height = 30;
  fb_pitch = 32;
  cursor_x = 8;
  cursor_y = 20;
  text_color = 9;
}

pub small_console-IsScreen : IsScreen small_console
small_console-IsScreen = record { narrow = omega arith; fits = omega arith }

pub small_console-IsConsole : IsConsole small_console
small_console-IsConsole = record {
  screen = small_console-IsScreen;
  tall = omega arith;
  low = omega arith;
  inside = omega arith;
}

-- The first row of the letter T has dots in the columns 1 to 6.
drawn_T : (draw_char 8 20 b'T' 9 small_console).fb (index 32 9 20) ≡ 9
unfolding draw_char draw_rows draw_bits put_pixel font8x8 bit_of
drawn_T = refl

beside_T : (draw_char 8 20 b'T' 9 small_console).fb (index 32 8 20) ≡ 7
unfolding draw_char draw_rows draw_bits put_pixel font8x8 bit_of
beside_T = refl

printed_255 : hex_text 255 ≡ b'0' ∷ b'x' ∷ b'F' ∷ b'F' ∷ []
unfolding hex_text skip_zeros hex_loop hex_digit
printed_255 = refl
