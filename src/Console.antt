-- ===== src/Console.antt =====
-- The graphics, the console and the printing of numbers in kernel/kernel.c. The frame buffer is a map
-- from the index of a pixel; coordinates are 32-bit words, and a loop runs over the rounds left.
pub mod Pixels
pub mod Drawing
pub mod Scrolling
pub mod Extent
pub mod Cursor
pub mod Column
pub mod Numbers
pub mod Samples
mod Examples
use simpleos.Common.{
  ℕ, zero, suc, ◌+◌, ◌-◌, ◌*◌, ◌/◌, ◌%◌, ◌^◌, min, Bool, true, false, leb, ltb, ◌==◌, if◌then◌else◌,
  List, [], ◌∷◌, get_or,
}
use simpleos.Common.Bytes.{update, bit_of}

abbrev pub color_dark_bg : ℕ
color_dark_bg = 0x00202030

pub record Console : Type 0 where
  pub fb : ℕ → ℕ
  pub fb_width : ℕ
  pub fb_height : ℕ
  pub fb_pitch : ℕ
  pub cursor_x : ℕ
  pub cursor_y : ℕ
  pub text_color : ℕ

-- `y * fb_pitch + x`.
abbrev pub index : ℕ → ℕ → ℕ → ℕ
index pitch x y = (y * pitch + x) % 2 ^ 32

-- A pixel of a frame buffer, and a write to it.
abbrev pub pixel : ℕ → (ℕ → ℕ) → ℕ → ℕ → ℕ
pixel pitch fb x y = fb (index pitch x y)

abbrev pub write : ℕ → ℕ → ℕ → ℕ → (ℕ → ℕ) → ℕ → ℕ
write pitch x y color fb = update fb (index pitch x y) color

unfoldable pub put_pixel : ℕ → ℕ → ℕ → Console → Console
put_pixel x y color c =
    if ltb x c.fb_width
    then (if ltb y c.fb_height then (record c { fb = write c.fb_pitch x y color c.fb }) else c)
    else c

-- `cols` pixels of row `y` from column `x` on, and `rows` such rows.
unfoldable pub fill_row : ℕ → ℕ → ℕ → ℕ → ℕ → (ℕ → ℕ) → ℕ → ℕ
fill_row pitch zero x y color fb = fb
fill_row pitch (suc cols) x y color fb =
    fill_row pitch cols (x + 1) y color (write pitch x y color fb)

unfoldable pub fill_rows : ℕ → ℕ → ℕ → ℕ → ℕ → ℕ → (ℕ → ℕ) → ℕ → ℕ
fill_rows pitch cols zero x y color fb = fb
fill_rows pitch cols (suc rows) x y color fb =
    fill_rows pitch cols rows x (y + 1) color (fill_row pitch cols x y color fb)

-- How often `for (i = from; i < from + extent && i < side; i++)` runs.
abbrev pub rounds : ℕ → ℕ → ℕ → ℕ
rounds from extent side = min ((from + extent) % 2 ^ 32) side - from

unfoldable pub fill_rect : ℕ → ℕ → ℕ → ℕ → ℕ → Console → Console
fill_rect x y w h color c = record c {
  fb = fill_rows c.fb_pitch (rounds x w c.fb_width) (rounds y h c.fb_height) x y color c.fb;
}

unfoldable pub clear_screen : ℕ → Console → Console
clear_screen color c = record c { fb = fill_rows c.fb_pitch c.fb_width c.fb_height 0 0 color c.fb }

-- The font: the eight bytes of a glyph as one number, the first row in the highest byte.
abbrev font : List (ℕ × ℕ)
font =
    (32, 0x0)
    ∷ (33, 0x1818181818001800)
    ∷ (34, 0x6C6C240000000000)
    ∷ (48, 0x3C666E7666663C00)
    ∷ (49, 0x1838181818187E00)
    ∷ (50, 0x3C66060C18307E00)
    ∷ (51, 0x3C66061C06663C00)
    ∷ (52, 0xC1C3C6C7E0C0C00)
    ∷ (53, 0x7E607C0606663C00)
    ∷ (54, 0x1C30607C66663C00)
    ∷ (55, 0x7E060C1830303000)
    ∷ (56, 0x3C66663C66663C00)
    ∷ (57, 0x3C66663E060C3800)
    ∷ (58, 0x18180018180000)
    ∷ (65, 0x183C66667E666600)
    ∷ (66, 0x7C66667C66667C00)
    ∷ (67, 0x3C66606060663C00)
    ∷ (68, 0x786C6666666C7800)
    ∷ (69, 0x7E60607C60607E00)
    ∷ (70, 0x7E60607C60606000)
    ∷ (71, 0x3C66606E66663E00)
    ∷ (72, 0x6666667E66666600)
    ∷ (73, 0x3C18181818183C00)
    ∷ (74, 0x606060666663C00)
    ∷ (75, 0x666C7870786C6600)
    ∷ (76, 0x6060606060607E00)
    ∷ (77, 0xC6EEFED6C6C6C600)
    ∷ (78, 0x66767E7E6E666600)
    ∷ (79, 0x3C66666666663C00)
    ∷ (80, 0x7C66667C60606000)
    ∷ (81, 0x3C6666666A6C3600)
    ∷ (82, 0x7C66667C6C666600)
    ∷ (83, 0x3C66603C06663C00)
    ∷ (84, 0x7E18181818181800)
    ∷ (85, 0x6666666666663C00)
    ∷ (86, 0x66666666663C1800)
    ∷ (87, 0xC6C6C6D6FEEEC600)
    ∷ (88, 0x66663C183C666600)
    ∷ (89, 0x6666663C18181800)
    ∷ (90, 0x7E060C1830607E00)
    ∷ (97, 0x3C063E663E00)
    ∷ (98, 0x60607C6666667C00)
    ∷ (99, 0x3C6660663C00)
    ∷ (100, 0x6063E6666663E00)
    ∷ (101, 0x3C667E603C00)
    ∷ (102, 0x1C307C3030303000)
    ∷ (103, 0x3E66663E063C)
    ∷ (104, 0x60607C6666666600)
    ∷ (105, 0x1800381818183C00)
    ∷ (106, 0x1800181818181870)
    ∷ (107, 0x6060666C786C6600)
    ∷ (108, 0x3818181818183C00)
    ∷ (109, 0xECFED6C6C600)
    ∷ (110, 0x7C6666666600)
    ∷ (111, 0x3C6666663C00)
    ∷ (112, 0x7C66667C6060)
    ∷ (113, 0x3E66663E0606)
    ∷ (114, 0x7C6660606000)
    ∷ (115, 0x3E603C067C00)
    ∷ (116, 0x30307C3030301C00)
    ∷ (117, 0x666666663E00)
    ∷ (118, 0x6666663C1800)
    ∷ (119, 0xC6C6D6FE6C00)
    ∷ (120, 0x663C183C6600)
    ∷ (121, 0x6666663E063C)
    ∷ (122, 0x7E0C18307E00)
    ∷ (46, 0x181800)
    ∷ (44, 0x181830)
    ∷ (45, 0x7E00000000)
    ∷ (95, 0xFF)
    ∷ (40, 0xC18303030180C00)
    ∷ (41, 0x30180C0C0C183000)
    ∷ (91, 0x3C30303030303C00)
    ∷ (93, 0x3C0C0C0C0C0C3C00)
    ∷ (47, 0x60C1830600000)
    ∷ (61, 0x7E007E000000)
    ∷ (43, 0x18187E18180000)
    ∷ (42, 0x663CFF3C660000)
    ∷ (64, 0x3C666E6A6E603C00)
    ∷ (35, 0x6C6CFE6CFE6C6C00)
    ∷ (36, 0x183E603C067C1800)
    ∷ (37, 0x660C1830660000)
    ∷ (38, 0x386C38706E663E00)
    ∷ (60, 0xC18306030180C00)
    ∷ (62, 0x30180C060C183000)
    ∷ (63, 0x3C66060C18001800)
    ∷ (124, 0x1818181818181800)
    ∷ (94, 0x183C660000000000)
    ∷ (126, 0x327E4C000000)
    ∷ []

abbrev find_glyph : List (ℕ × ℕ) → ℕ → ℕ
find_glyph [] ch = 0
find_glyph ((ch', glyph) ∷ rest) ch = if ch' == ch then glyph else find_glyph rest ch

-- `font8x8[ch][row]`; a character that is not listed has no dots.
unfoldable pub font8x8 : ℕ → ℕ → ℕ
font8x8 ch row = (find_glyph font ch / 2 ^ (8 * (7 - row))) % 256

-- The inner loop of `draw_char` from column `col` on, and the outer one from row `row` on;
-- `bits & (0x80 >> col)` is bit 7 - `col`.
unfoldable pub draw_bits : ℕ → ℕ → ℕ → ℕ → ℕ → ℕ → Console → Console
draw_bits zero col x y bits color c = c
draw_bits (suc left) col x y bits color c =
    draw_bits left (col + 1) x y bits color
      (if bit_of bits (7 - col) == 0 then c else put_pixel ((x + col) % 2 ^ 32) y color c)

unfoldable pub draw_rows : ℕ → ℕ → ℕ → ℕ → (ℕ → ℕ) → ℕ → Console → Console
draw_rows zero row x y glyph color c = c
draw_rows (suc left) row x y glyph color c =
    draw_rows left (row + 1) x y glyph color
      (draw_bits 8 0 x ((y + row) % 2 ^ 32) (glyph row) color c)

unfoldable pub draw_char : ℕ → ℕ → ℕ → ℕ → Console → Console
draw_char x y ch color c = draw_rows 8 0 x y (font8x8 (if ltb 127 ch then b'?' else ch)) color c

-- The scroll: row `y` goes to row `y - 10`, pixel by pixel.
unfoldable pub copy_row : ℕ → ℕ → ℕ → ℕ → (ℕ → ℕ) → ℕ → ℕ
copy_row pitch zero x y fb = fb
copy_row pitch (suc cols) x y fb =
    copy_row pitch cols (x + 1) y (write pitch x (y - 10) (pixel pitch fb x y) fb)

unfoldable pub copy_rows : ℕ → ℕ → ℕ → ℕ → (ℕ → ℕ) → ℕ → ℕ
copy_rows pitch cols zero y fb = fb
copy_rows pitch cols (suc rows) y fb =
    copy_rows pitch cols rows (y + 1) (copy_row pitch cols 0 y fb)

-- `fb_height - 10` on 32-bit words.
abbrev pub bottom : ℕ → ℕ
bottom height = (height + 2 ^ 32 - 10) % 2 ^ 32

unfoldable pub scroll : Console → Console
scroll c =
    let moved = record c { fb = copy_rows c.fb_pitch c.fb_width (c.fb_height - 10) 10 c.fb } in
    record (fill_rect 0 (bottom c.fb_height) c.fb_width 10 color_dark_bg moved) {
      cursor_y = bottom c.fb_height;
    }

unfoldable pub console_newline : Console → Console
console_newline c =
    let c1 = record c { cursor_x = 0; cursor_y = (c.cursor_y + 10) % 2 ^ 32 } in
    if ltb c.fb_height ((c1.cursor_y + 10) % 2 ^ 32) then scroll c1 else c1

-- `\b`: the cursor goes back, and the place is cleared.
unfoldable pub rub_out : Console → Console
rub_out c =
    if leb 8 c.cursor_x
    then fill_rect (c.cursor_x - 8) c.cursor_y 8 10 color_dark_bg
        (record c { cursor_x = c.cursor_x - 8 })
    else c

unfoldable pub put_glyph : ℕ → Console → Console
put_glyph ch c =
    let c1 = draw_char c.cursor_x c.cursor_y ch c.text_color c in
    let c2 = record c1 { cursor_x = (c.cursor_x + 8) % 2 ^ 32 } in
    if ltb c.fb_width ((c2.cursor_x + 8) % 2 ^ 32) then console_newline c2 else c2

unfoldable pub console_putchar : ℕ → Console → Console
console_putchar ch c =
    if ch == b'\n'
    then console_newline c
    else if ch == b'\r'
    then (record c { cursor_x = 0 })
    else if ch == b'\t'
    then (record c { cursor_x = ((c.cursor_x + 32) % 2 ^ 32) / 32 * 32 })
    else if ch == b'\x08'
    then rub_out c
    else put_glyph ch c

unfoldable pub console_print : List ℕ → Console → Console
console_print [] c = c
console_print (ch ∷ rest) c = console_print rest (console_putchar ch c)

unfoldable pub console_set_color : ℕ → Console → Console
console_set_color color c = record c { text_color = color }

unfoldable pub console_clear : Console → Console
console_clear c = record (clear_screen color_dark_bg c) { cursor_x = 0; cursor_y = 0 }

-- The loop of `print_dec`, which fills its buffer from the end; `out` is what stands there.
unfoldable pub dec_loop : ℕ → ℕ → List ℕ → List ℕ
dec_loop zero num out = out
dec_loop (suc fuel) num out =
    let rest = dec_loop fuel (num / 10) ((b'0' + num % 10) ∷ out) in if num == 0 then out else rest

-- What `print_dec` prints; a 64-bit number has at most 20 digits.
unfoldable pub dec_text : ℕ → List ℕ
dec_text num = if num == 0 then b'0' ∷ [] else dec_loop 20 num []

unfoldable pub hex_digit : ℕ → ℕ
hex_digit digit = if ltb digit 10 then b'0' + digit else b'A' + (digit - 10)

-- The loop of `print_hex`, from the end of the buffer.
unfoldable pub hex_loop : ℕ → ℕ → List ℕ → List ℕ
hex_loop zero num out = out
hex_loop (suc left) num out = hex_loop left (num / 16) (hex_digit (num % 16) ∷ out)

-- `while (*p == '0' && *(p+1) != '\0') p++;`
unfoldable pub skip_zeros : List ℕ → List ℕ
skip_zeros [] = []
skip_zeros (d ∷ []) = d ∷ []
skip_zeros (d ∷ e ∷ ds) = let rest = skip_zeros (e ∷ ds) in if d == b'0' then rest else d ∷ e ∷ ds

unfoldable pub hex_text : ℕ → List ℕ
hex_text num = b'0' ∷ b'x' ∷ skip_zeros (hex_loop 16 num [])

unfoldable pub print_dec : ℕ → Console → Console
print_dec num c = console_print (dec_text num) c

unfoldable pub print_hex : ℕ → Console → Console
print_hex num c = console_print (hex_text num) c

abbrev pub color_cyan : ℕ
color_cyan = 0x00FFFF00

unfoldable pub draw_logo : ℕ → ℕ → Console → Console
draw_logo x y c = fill_rect x ((y + 50) % 2 ^ 32) 60 10 color_cyan (
    fill_rect ((x + 50) % 2 ^ 32) ((y + 25) % 2 ^ 32) 10 30 color_cyan (
      fill_rect x ((y + 25) % 2 ^ 32) 60 10 color_cyan
        (fill_rect x y 10 30 color_cyan (fill_rect x y 60 10 color_cyan c))))
