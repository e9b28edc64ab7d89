-- ===== src/Console/Examples.antt =====
-- The theorems on the console at concrete inputs.
use simpleos.Common.{◌-◌, ◌≤◌, ◌≡◌, arith, [], ◌∷◌, length, some, if◌then◌else◌, ◌&&◌}
use simpleos.Shell.{parse_uint}
use simpleos.Console.{
  pixel, fill_rect, draw_char, font8x8, console_newline, console_print, dec_text, hex_text,
}
use simpleos.Console.Pixels.{spans, fill_rect_lem}
use simpleos.Console.Drawing.{lit, shown, draw_char_lem}
use simpleos.Console.Scrolling.{NewLine, console_newline_lem}
use simpleos.Console.Cursor.{Printed, console_print-Printed}
use simpleos.Console.Numbers.{dec_text_lem, hex_text_lem}
use simpleos.Console.Samples.{small_console, small_console-IsScreen, small_console-IsConsole}

fill_rect_lem_example :
    pixel 32 (fill_rect 20 3 10 10 5 small_console).fb 21 4
    ≡ (if spans 20 10 21 && spans 3 10 4 then 5 else 7)
fill_rect_lem_example =
    fill_rect_lem small_console 20 3 10 10 5 21 4 small_console-IsScreen (omega arith) (omega arith)
      (omega arith) (omega arith)

draw_char_lem_example : pixel 32 (draw_char 8 20 b'T' 9 small_console).fb 9 20 ≡ (
    if spans 20 8 20 && (spans 8 8 9 && lit (font8x8 (shown b'T') (20 - 20)) (9 - 8)) then 9 else 7)
draw_char_lem_example =
    draw_char_lem small_console 8 20 b'T' 9 9 20 small_console-IsScreen (omega arith) (omega arith)
      (omega arith) (omega arith)

console_newline_lem_example : NewLine small_console (console_newline small_console)
console_newline_lem_example =
    console_newline_lem small_console small_console-IsScreen (omega arith) (omega arith)
      (omega arith) (omega arith)

console_print-Printed_example :
    Printed small_console (console_print (b'O' ∷ b'K' ∷ b'\n' ∷ []) small_console)
console_print-Printed_example =
    console_print-Printed (b'O' ∷ b'K' ∷ b'\n' ∷ []) small_console small_console-IsConsole

dec_text_lem_example :
    (length (dec_text 1907) ≤ 20) × (parse_uint (some (dec_text 1907)) ≡ some 1907)
dec_text_lem_example = dec_text_lem 1907 (omega arith)

hex_text_lem_example : parse_uint (some (hex_text 48879)) ≡ some 48879
hex_text_lem_example = hex_text_lem 48879 (omega arith)
