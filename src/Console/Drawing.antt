-- ===== src/Console/Drawing.antt =====
-- The characters that kernel/kernel.c draws: the dots of a glyph in a cell of 8 by 8 pixels.
use simpleos.Common.{
  ℕ, zero, suc, ◌+◌, ◌-◌, ◌%◌, ◌^◌, ◌≤◌, ◌<◌, Bool, not, ltb, ◌==◌, if◌then◌else◌, ◌&&◌, ◌≡◌, refl,
  ap, ◌∙◌, arith,
}
use simpleos.Common.Bytes.{bit_of}
use simpleos.Console.{Console, pixel, put_pixel, draw_bits, draw_rows, draw_char, font8x8}
use simpleos.Console.Pixels.{IsScreen, spans, pixel-put_pixel}

-- A console with another frame buffer.
abbrev pub with_fb : (ℕ → ℕ) → Console → Console
with_fb fb c = record c { fb = fb }

pub put_pixel-plain :
    (x y color : ℕ) (c : Console) → put_pixel x y color c ≡ with_fb (put_pixel x y color c).fb c
unfolding put_pixel
put_pixel-plain x y color c = ground arith

-- One round of the inner loop.
abbrev pub dot : ℕ → ℕ → ℕ → ℕ → ℕ → Console → Console
dot col x y bits color c =
    if bit_of bits (7 - col) == 0 then c else put_pixel ((x + col) % 2 ^ 32) y color c

pub dot-plain :
    (col x y bits color : ℕ) (c : Console)
    → dot col x y bits color c ≡ with_fb (dot col x y bits color c).fb c
dot-plain col x y bits color c = ground (arith, put_pixel-plain ((x + col) % 2 ^ 32) y color c)

pub draw_bits-plain :
    (left col x y bits color : ℕ) (c : Console)
    → draw_bits left col x y bits color c ≡ with_fb (draw_bits left col x y bits color c).fb c
unfolding draw_bits
draw_bits-plain zero col x y bits color c = refl
draw_bits-plain (suc left) col x y bits color c =
    draw_bits-plain left (col + 1) x y bits color (dot col x y bits color c)
    ∙ ap (λ d. with_fb (draw_bits left (col + 1) x y bits color (dot col x y bits color c)).fb d)
        (dot-plain col x y bits color c)

-- The dot of a row of a glyph that lies `i` columns from its left end.
abbrev pub lit : ℕ → ℕ → Bool
lit bits i = not (bit_of bits (7 - i) == 0)

pixel-dot :
    (c : Console) (col x y bits color x' y' : ℕ)
    → IsScreen c
    → x + col < 2 ^ 32
    → x' < c.fb_width
    → y' < c.fb_height
    → pixel c.fb_pitch (dot col x y bits color c).fb x' y' ≡ (
        if (y == y') && ((x + col == x') && lit bits col)
        then color
        else pixel c.fb_pitch c.fb x' y')
pixel-dot c col x y bits color x' y' screen small left' below' =
    ground (arith, small, pixel-put_pixel c ((x + col) % 2 ^ 32) y color x' y' screen left' below')

pixel-draw_bits :
    (left : ℕ) (c : Console) (col x y bits color x' y' : ℕ)
    → IsScreen c
    → col + left ≤ 8
    → x + 8 < 2 ^ 32
    → x' < c.fb_width
    → y' < c.fb_height
    → pixel c.fb_pitch (draw_bits left col x y bits color c).fb x' y' ≡ (
        if (y == y') && (spans (x + col) left x' && lit bits (x' - x))
        then color
        else pixel c.fb_pitch c.fb x' y')
unfolding draw_bits
pixel-draw_bits zero c col x y bits color x' y' screen short small left' below' = ground arith
pixel-draw_bits (suc left) c col x y bits color x' y' screen short small left' below' =
    ap (λ d. pixel c.fb_pitch (draw_bits left (col + 1) x y bits color d).fb x' y')
      (dot-plain col x y bits color c)
    ∙ pixel-draw_bits left (with_fb (dot col x y bits color c).fb c) (col + 1) x y bits color x' y'
        screen (omega (arith, short)) small left' below'
    ∙ ground (
      arith,
      pixel-dot c col x y bits color x' y' screen (omega (arith, short, small)) left' below',
    )

pub draw_rows-plain :
    (left row x y : ℕ) (glyph : ℕ → ℕ) (color : ℕ) (c : Console)
    → draw_rows left row x y glyph color c ≡ with_fb (draw_rows left row x y glyph color c).fb c
unfolding draw_rows
draw_rows-plain zero row x y glyph color c = refl
draw_rows-plain (suc left) row x y glyph color c =
    let line = draw_bits 8 0 x ((y + row) % 2 ^ 32) (glyph row) color c in
    draw_rows-plain left (row + 1) x y glyph color line
    ∙ ap (λ d. with_fb (draw_rows left (row + 1) x y glyph color line).fb d)
        (draw_bits-plain 8 0 x ((y + row) % 2 ^ 32) (glyph row) color c)

pixel-draw_rows :
    (left : ℕ) (c : Console) (row x y : ℕ) (glyph : ℕ → ℕ) (color x' y' : ℕ)
    → IsScreen c
    → row + left ≤ 8
    → x + 8 < 2 ^ 32
    → y + 8 < 2 ^ 32
    → x' < c.fb_width
    → y' < c.fb_height
    → pixel c.fb_pitch (draw_rows left row x y glyph color c).fb x' y' ≡ (
        if spans (y + row) left y' && (spans x 8 x' && lit (glyph (y' - y)) (x' - x))
        then color
        else pixel c.fb_pitch c.fb x' y')
unfolding draw_rows
pixel-draw_rows zero c row x y glyph color x' y' screen short small low left' below' = ground arith
pixel-draw_rows (suc left) c row x y glyph color x' y' screen short small low left' below' =
    let line = draw_bits 8 0 x ((y + row) % 2 ^ 32) (glyph row) color c in
    ap (λ d. pixel c.fb_pitch (draw_rows left (row + 1) x y glyph color d).fb x' y')
      (draw_bits-plain 8 0 x ((y + row) % 2 ^ 32) (glyph row) color c)
    ∙ pixel-draw_rows left (with_fb line.fb c) (row + 1) x y glyph color x' y' screen
        (omega (arith, short)) small low left' below'
    ∙ ground (
      arith,
      short,
      low,
      pixel-draw_bits 8 c 0 x ((y + row) % 2 ^ 32) (glyph row) color x' y' screen (omega arith)
          small left' below',
    )

-- The glyph that is drawn for a character.
abbrev pub shown : ℕ → ℕ
shown ch = if ltb 127 ch then b'?' else ch

-- `draw_char` colours, of the cell of 8 by 8 pixels at its coordinates, the visible pixels that are
-- dots of the character's glyph (of `?` for a character above 127), and leaves every other visible
-- pixel alone, for a cell that ends below 2 ^ 32.
pub draw_char_lem :
    (c : Console) (x y ch color x' y' : ℕ)
    → IsScreen c
    → x + 8 < 2 ^ 32
    → y + 8 < 2 ^ 32
    → x' < c.fb_width
    → y' < c.fb_height
    → pixel c.fb_pitch (draw_char x y ch color c).fb x' y' ≡ (
        if spans y 8 y' && (spans x 8 x' && lit (font8x8 (shown ch) (y' - y)) (x' - x))
        then color
        else pixel c.fb_pitch c.fb x' y')
unfolding draw_char
draw_char_lem c x y ch color x' y' screen small low left' below' = ground (
  arith,
  pixel-draw_rows 8 c 0 x y (font8x8 (shown ch)) color x' y' screen (omega arith) small low left'
      below',
)

pub draw_char-plain :
    (x y ch color : ℕ) (c : Console)
    → draw_char x y ch color c ≡ with_fb (draw_char x y ch color c).fb c
unfolding draw_char
draw_char-plain x y ch color c = draw_rows-plain 8 0 x y (font8x8 (shown ch)) color c
