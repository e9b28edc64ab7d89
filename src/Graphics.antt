-- ===== src/Graphics.antt =====
-- The graphics of the boot loader, boot/graphics.h, with the font of boot/font.h. Coordinates and
-- sizes are 32-bit words; loops over a side run over the rounds left, as those of Console do.
pub mod Figures
pub mod Labels
mod Examples
use simpleos.Common.{
  ℕ, zero, suc, ◌+◌, ◌-◌, ◌*◌, ◌/◌, ◌%◌, ◌^◌, Bool, true, false, not, ◌&&◌, ◌||◌, leb, ltb, ◌==◌,
  if◌then◌else◌, List, [], ◌∷◌, ◌++◌, get_or, length, Option, none, some,
}
use simpleos.Common.Bytes.{bit_of}
use simpleos.Console.{index, write, fill_rows, rounds}

-- `GFX_CONTEXT`, without the protocol that it came from.
pub record GfxContext : Type 0 where
  pub framebuffer : ℕ → ℕ
  pub width : ℕ
  pub height : ℕ
  pub pitch : ℕ

abbrev pub color_accent : ℕ
color_accent = 0x00F5A97F

abbrev pub color_white : ℕ
color_white = 0x00FFFFFF

-- `a + b` and `a - b` on 32-bit words.
abbrev pub add32 : ℕ → ℕ → ℕ
add32 a b = (a + b) % 2 ^ 32

abbrev pub sub32 : ℕ → ℕ → ℕ
sub32 a b = (a + 2 ^ 32 - b) % 2 ^ 32

-- The macro `RGB`, of three bytes.
unfoldable pub rgb : ℕ → ℕ → ℕ → ℕ
rgb r g b = b + g * 2 ^ 8 + r * 2 ^ 16

unfoldable pub gfx_pixel : ℕ → ℕ → ℕ → GfxContext → GfxContext
gfx_pixel x y color gfx =
    if ltb x gfx.width && ltb y gfx.height
    then (record gfx { framebuffer = write gfx.pitch x y color gfx.framebuffer })
    else gfx

unfoldable pub gfx_clear : ℕ → GfxContext → GfxContext
gfx_clear color gfx = record gfx {
  framebuffer = fill_rows gfx.pitch gfx.width gfx.height 0 0 color gfx.framebuffer;
}

unfoldable pub gfx_fill_rect : ℕ → ℕ → ℕ → ℕ → ℕ → GfxContext → GfxContext
gfx_fill_rect x y w h color gfx = record gfx {
  framebuffer =
      fill_rows gfx.pitch (rounds x w gfx.width) (rounds y h gfx.height) x y color gfx.framebuffer;
}

-- A write in row `y` or column `x` if it is on the screen.
unfoldable pub put_in_row : ℕ → ℕ → ℕ → GfxContext → GfxContext
put_in_row x y color gfx =
    if ltb y gfx.height
    then (record gfx { framebuffer = write gfx.pitch x y color gfx.framebuffer })
    else gfx

unfoldable pub put_in_column : ℕ → ℕ → ℕ → GfxContext → GfxContext
put_in_column x y color gfx =
    if ltb x gfx.width
    then (record gfx { framebuffer = write gfx.pitch x y color gfx.framebuffer })
    else gfx

-- The two loops of `gfx_rect` from `i` on: the rows `y` and `bottom`, the columns `x` and `right`.
unfoldable pub outline_rows : ℕ → ℕ → ℕ → ℕ → ℕ → GfxContext → GfxContext
outline_rows zero i y bottom color gfx = gfx
outline_rows (suc left) i y bottom color gfx =
    outline_rows left (i + 1) y bottom color (put_in_row i bottom color (put_in_row i y color gfx))

unfoldable pub outline_columns : ℕ → ℕ → ℕ → ℕ → ℕ → GfxContext → GfxContext
outline_columns zero i x right color gfx = gfx
outline_columns (suc left) i x right color gfx =
    outline_columns left (i + 1) x right color
      (put_in_column right i color (put_in_column x i color gfx))

unfoldable pub gfx_rect : ℕ → ℕ → ℕ → ℕ → ℕ → GfxContext → GfxContext
gfx_rect x y w h color gfx =
    let gfx1 = outline_rows (rounds x w gfx.width) x y (sub32 (add32 y h) 1) color gfx in
    outline_columns (rounds y h gfx.height) y x (sub32 (add32 x w) 1) color gfx1

-- A loop `for (i = from; i < from + extent && i < side; i++)` in one row or column.
unfoldable pub gfx_hline : ℕ → ℕ → ℕ → ℕ → GfxContext → GfxContext
gfx_hline x y w color gfx = if leb gfx.height y then gfx else (record gfx {
  framebuffer = fill_rows gfx.pitch (rounds x w gfx.width) 1 x y color gfx.framebuffer;
})

unfoldable pub gfx_vline : ℕ → ℕ → ℕ → ℕ → GfxContext → GfxContext
gfx_vline x y h color gfx = if leb gfx.width x then gfx else (record gfx {
  framebuffer = fill_rows gfx.pitch 1 (rounds y h gfx.height) x y color gfx.framebuffer;
})

-- The font: the sixteen bytes of a glyph as one number, the first row in the highest byte, for the
-- characters from 32 on.
abbrev font_data : List ℕ
font_data =
    0x0 ∷ 0x183C3C3C18181800181800000000 ∷ 0x666666240000000000000000000000
    ∷ 0x6C6CFE6C6C6CFE6C6C00000000 ∷ 0x18187CC6C2C07C060686C67C18180000 ∷ 0xC2C60C183060C68600000000
    ∷ 0x386C6C3876DCCCCCCC7600000000 ∷ 0x303030600000000000000000000000
    ∷ 0xC18303030303030180C00000000 ∷ 0x30180C0C0C0C0C0C183000000000 ∷ 0x663CFF3C66000000000000
    ∷ 0x18187E1818000000000000 ∷ 0x18181830000000 ∷ 0xFE0000000000000000 ∷ 0x181800000000
    ∷ 0x2060C183060C08000000000 ∷ 0x386CC6C6D6D6C6C66C3800000000 ∷ 0x1838781818181818187E00000000
    ∷ 0x7CC6060C183060C0C6FE00000000 ∷ 0x7CC606063C060606C67C00000000
    ∷ 0xC1C3C6CCCFE0C0C0C1E00000000 ∷ 0xFEC0C0C0FC060606C67C00000000
    ∷ 0x3860C0C0FCC6C6C6C67C00000000 ∷ 0xFEC606060C183030303000000000
    ∷ 0x7CC6C6C67CC6C6C6C67C00000000 ∷ 0x7CC6C6C67E0606060C7800000000 ∷ 0x181800000018180000000000
    ∷ 0x181800000018183000000000 ∷ 0x60C18306030180C0600000000 ∷ 0x7E00007E00000000000000
    ∷ 0x6030180C060C18306000000000 ∷ 0x7CC6C60C18181800181800000000 ∷ 0x7CC6C6DEDEDEDCC07C00000000
    ∷ 0x10386CC6C6FEC6C6C6C600000000 ∷ 0xFC6666667C66666666FC00000000
    ∷ 0x3C66C2C0C0C0C0C2663C00000000 ∷ 0xF86C6666666666666CF800000000
    ∷ 0xFE6662687868606266FE00000000 ∷ 0xFE6662687868606060F000000000
    ∷ 0x3C66C2C0C0DEC6C6663A00000000 ∷ 0xC6C6C6C6FEC6C6C6C6C600000000
    ∷ 0x3C18181818181818183C00000000 ∷ 0x1E0C0C0C0C0CCCCCCC7800000000
    ∷ 0xE666666C78786C6666E600000000 ∷ 0xF06060606060606266FE00000000
    ∷ 0xC6EEFEFED6C6C6C6C6C600000000 ∷ 0xC6E6F6FEDECEC6C6C6C600000000
    ∷ 0x7CC6C6C6C6C6C6C6C67C00000000 ∷ 0xFC6666667C60606060F000000000
    ∷ 0x7CC6C6C6C6C6C6D6DE7C0C0E0000 ∷ 0xFC6666667C6C666666E600000000
    ∷ 0x7CC6C660380C06C6C67C00000000 ∷ 0xFFDB991818181818183C00000000
    ∷ 0xC6C6C6C6C6C6C6C6C67C00000000 ∷ 0xC6C6C6C6C6C6C66C381000000000
    ∷ 0xC6C6C6C6D6D6D6FEEE6C00000000 ∷ 0xC6C66C7C38387C6CC6C600000000
    ∷ 0xC3C3C3663C181818183C00000000 ∷ 0xFEC6860C183060C2C6FE00000000
    ∷ 0x3C30303030303030303C00000000 ∷ 0x80C06030180C06020000000000 ∷ 0x3C0C0C0C0C0C0C0C0C3C00000000
    ∷ 0x10386CC6000000000000000000000000 ∷ 0xFF0000 ∷ 0x30301800000000000000000000000000
    ∷ 0x780C7CCCCCCC7600000000 ∷ 0xE06060786C666666667C00000000 ∷ 0x7CC6C0C0C0C67C00000000
    ∷ 0x1C0C0C3C6CCCCCCCCC7600000000 ∷ 0x7CC6FEC0C0C67C00000000 ∷ 0x386C6460F060606060F000000000
    ∷ 0x76CCCCCCCCCC7C0CCC7800 ∷ 0xE060606C7666666666E600000000 ∷ 0x1818003818181818183C00000000
    ∷ 0x606000E06060606060666663C00 ∷ 0xE06060666C78786C66E600000000
    ∷ 0x3818181818181818183C00000000 ∷ 0xE6FFDBDBDBDBDB00000000 ∷ 0xDC66666666666600000000
    ∷ 0x7CC6C6C6C6C67C00000000 ∷ 0xDC66666666667C6060F000 ∷ 0x76CCCCCCCCCC7C0C0C1E00
    ∷ 0xDC7666606060F000000000 ∷ 0x7CC660380CC67C00000000 ∷ 0x103030FC30303030361C00000000
    ∷ 0xCCCCCCCCCCCC7600000000 ∷ 0xC3C3C3C3663C1800000000 ∷ 0xC6C6C6D6D6FE6C00000000
    ∷ 0xC66C3838386CC600000000 ∷ 0xC6C6C6C6C6C67E060CF800 ∷ 0xFECC183060C6FE00000000
    ∷ 0xE18181870181818180E00000000 ∷ 0x1818181800181818181800000000
    ∷ 0x701818180E181818187000000000 ∷ 0x76DC000000000000000000000000 ∷ []

abbrev pub font_height : ℕ
font_height = 16

unfoldable pub font_row : ℕ → ℕ → ℕ
font_row c row = (get_or font_data (c - 32) 0 / 2 ^ (8 * (15 - row))) % 256

-- One dot, whose colour 0 leaves the pixel alone; the columns and the rows of a glyph.
unfoldable pub gfx_dot : ℕ → ℕ → ℕ → GfxContext → GfxContext
gfx_dot x y color gfx = if color == 0 then gfx else gfx_pixel x y color gfx

unfoldable pub glyph_columns : ℕ → ℕ → ℕ → ℕ → ℕ → ℕ → ℕ → GfxContext → GfxContext
glyph_columns zero cx x y row fg bg gfx = gfx
glyph_columns (suc left) cx x y row fg bg gfx =
    glyph_columns left (cx + 1) x y row fg bg
      (gfx_dot (add32 x cx) y (if bit_of row (7 - cx) == 0 then bg else fg) gfx)

unfoldable pub glyph_rows : ℕ → ℕ → ℕ → ℕ → ℕ → ℕ → ℕ → GfxContext → GfxContext
glyph_rows zero cy x y c fg bg gfx = gfx
glyph_rows (suc left) cy x y c fg bg gfx =
    glyph_rows left (cy + 1) x y c fg bg
      (glyph_columns 8 0 x (add32 y cy) (font_row c cy) fg bg gfx)

unfoldable pub gfx_char : ℕ → ℕ → ℕ → ℕ → ℕ → GfxContext → GfxContext
gfx_char x y c fg bg gfx = glyph_rows 16 0 x y (if ltb c 32 || ltb 126 c then b'?' else c) fg bg gfx

unfoldable pub gfx_string : ℕ → ℕ → List ℕ → ℕ → ℕ → GfxContext → GfxContext
gfx_string x y [] fg bg gfx = gfx
gfx_string x y (c ∷ str) fg bg gfx =
    let newline = c == b'\n' in
    gfx_string (if newline then 0 else add32 x 8) (if newline then add32 y (font_height + 2) else y)
      str fg bg (if newline then gfx else gfx_char x y c fg bg gfx)

unfoldable pub gfx_text : ℕ → ℕ → List ℕ → ℕ → GfxContext → GfxContext
gfx_text x y str color gfx = gfx_string x y str color 0 gfx

unfoldable pub text_width : List ℕ → ℕ → ℕ
text_width [] w = w
text_width (c ∷ str) w = text_width str (if c == b'\n' then w else add32 w 8)

unfoldable pub gfx_text_width : List ℕ → ℕ
gfx_text_width str = text_width str 0

unfoldable pub gfx_text_centered : ℕ → List ℕ → ℕ → GfxContext → GfxContext
gfx_text_centered y str color gfx =
    gfx_text (sub32 gfx.width (gfx_text_width str) / 2) y str color gfx

-- The loop of `int_to_str` over the digits, the last digit first, and the one that turns them round;
-- a 64-bit number has at most 20 digits.
unfoldable pub digits_from : ℕ → ℕ → List ℕ
digits_from zero num = []
digits_from (suc fuel) num =
    let rest = digits_from fuel (num / 10) in if num == 0 then [] else (b'0' + num % 10) ∷ rest

unfoldable pub turn_round : List ℕ → List ℕ → List ℕ
turn_round [] buf = buf
turn_round (c ∷ tmp) buf = turn_round tmp (c ∷ buf)

unfoldable pub int_to_str : ℕ → List ℕ
int_to_str num = if num == 0 then b'0' ∷ [] else turn_round (digits_from 20 num) []

-- `unit` may be a null pointer.
unfoldable pub gfx_label_value :
    ℕ → ℕ → List ℕ → ℕ → Option (List ℕ) → ℕ → ℕ → GfxContext → GfxContext
gfx_label_value x y label value unit label_color value_color gfx =
    let buf = int_to_str value in
    let label_w = gfx_text_width label in
    let gfx1 = gfx_text x y label label_color gfx in
    let gfx2 = gfx_text (add32 x label_w) y buf value_color gfx1 in
    elim unit [
      | none ↦ gfx2
      | some str ↦ gfx_text (add32 (add32 x label_w) (gfx_text_width buf)) y str label_color gfx2
    ]

-- The corners of `gfx_rounded_rect`, row `py` and column `px`: the test on 32-bit words, and the four
-- pixels.
unfoldable pub in_circle : ℕ → ℕ → ℕ → Bool
in_circle r px py =
    let dx = sub32 (sub32 r px) 1 in
    let dy = sub32 (sub32 r py) 1 in
    leb (add32 ((dx * dx) % 2 ^ 32) ((dy * dy) % 2 ^ 32)) ((r * r) % 2 ^ 32)

unfoldable pub corner_pixels : ℕ → ℕ → ℕ → ℕ → ℕ → ℕ → ℕ → GfxContext → GfxContext
corner_pixels x y w h px py color gfx =
    let right = sub32 (sub32 (add32 x w) 1) px in
    let bottom = sub32 (sub32 (add32 y h) 1) py in
    gfx_pixel right bottom color (
      gfx_pixel (add32 x px) bottom color
        (gfx_pixel right (add32 y py) color (gfx_pixel (add32 x px) (add32 y py) color gfx)))

unfoldable pub corner_columns : ℕ → ℕ → ℕ → ℕ → ℕ → ℕ → ℕ → ℕ → ℕ → GfxContext → GfxContext
corner_columns zero px x y w h r py color gfx = gfx
corner_columns (suc left) px x y w h r py color gfx =
    corner_columns left (px + 1) x y w h r py color
      (if in_circle r px py then corner_pixels x y w h px py color gfx else gfx)

unfoldable pub corner_rows : ℕ → ℕ → ℕ → ℕ → ℕ → ℕ → ℕ → ℕ → GfxContext → GfxContext
corner_rows zero py x y w h r color gfx = gfx
corner_rows (suc left) py x y w h r color gfx =
    corner_rows left (py + 1) x y w h r color (corner_columns r 0 x y w h r py color gfx)

unfoldable pub gfx_rounded_rect : ℕ → ℕ → ℕ → ℕ → ℕ → ℕ → GfxContext → GfxContext
gfx_rounded_rect x y w h r color gfx =
    let twice = (2 * r) % 2 ^ 32 in
    let gfx1 = gfx_fill_rect (add32 x r) y (sub32 w twice) h color gfx in
    let gfx2 = gfx_fill_rect x (add32 y r) r (sub32 h twice) color gfx1 in
    let gfx3 = gfx_fill_rect (sub32 (add32 x w) r) (add32 y r) r (sub32 h twice) color gfx2 in
    corner_rows r 0 x y w h r color gfx3

unfoldable pub gfx_button : ℕ → ℕ → ℕ → ℕ → List ℕ → ℕ → ℕ → Bool → GfxContext → GfxContext
gfx_button x y w h label bg fg selected gfx =
    let text_x = add32 x (sub32 w (gfx_text_width label) / 2) in
    let text_y = add32 y (sub32 h font_height / 2) in
    let gfx1 = gfx_rounded_rect x y w h 8 bg gfx in
    let gfx2 =
      gfx_rect (add32 x 1) (add32 y 1) (sub32 w 2) (sub32 h 2) color_accent
        (gfx_rect x y w h color_accent gfx1) in
    gfx_text text_x text_y label fg (if selected then gfx2 else gfx1)

unfoldable pub gfx_panel : ℕ → ℕ → ℕ → ℕ → List ℕ → ℕ → ℕ → GfxContext → GfxContext
gfx_panel x y w h title bg title_bg gfx =
    let gfx1 = gfx_rounded_rect x y w h 12 bg gfx in
    let gfx2 = gfx_fill_rect (add32 x 12) y (sub32 w 24) 30 title_bg gfx1 in
    let gfx3 = gfx_fill_rect x (add32 y 12) 12 18 title_bg gfx2 in
    let gfx4 = gfx_fill_rect (sub32 (add32 x w) 12) (add32 y 12) 12 18 title_bg gfx3 in
    gfx_text (add32 x (sub32 w (gfx_text_width title) / 2)) (add32 y 8) title color_white gfx4

-- `none` is the division by 0.
unfoldable pub gfx_progress : ℕ → ℕ → ℕ → ℕ → ℕ → ℕ → ℕ → ℕ → GfxContext → Option GfxContext
gfx_progress x y w h value max bg fg gfx =
    let fill_w = (value * sub32 w 4) % 2 ^ 32 / max in
    let gfx1 = gfx_rounded_rect x y w h (h / 2) bg gfx in
    if max == 0
    then none
    else if ltb 0 fill_w
    then some (gfx_rounded_rect (add32 x 2) (add32 y 2) fill_w (sub32 h 4) (sub32 h 4 / 2) fg gfx1)
    else some gfx1
