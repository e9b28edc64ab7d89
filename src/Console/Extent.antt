-- ===== src/Console/Extent.antt =====
-- The words of memory that the console of kernel/kernel.c writes: those of the frame buffer's rows.
use simpleos.Common.{ℕ, zero, suc, ◌+◌, ◌-◌, ◌*◌, ◌%◌, ◌^◌, ◌≤◌, ◌<◌, ◌≡◌, refl, ap, ◌∙◌, arith}
use simpleos.Console.{
  Console, write, pixel, put_pixel, fill_row, fill_rows, rounds, fill_rect, draw_bits, draw_rows,
  draw_char, copy_row, copy_rows, scroll, bottom, color_dark_bg, font8x8,
}
use simpleos.Console.Pixels.{
  IsScreen, Fits, Fits-next, Fits-first, rounds-Fits, index-plain, row_fits,
}
use simpleos.Console.Drawing.{with_fb, dot, dot-plain, draw_bits-plain, shown}

-- The word at `i`, at or behind the end of a frame of `H` rows.
module _ (P H i : ℕ) (fits : H * P ≤ 2 ^ 32) (behind : H * P ≤ i) where
  write-kept : (fb : ℕ → ℕ) (color x y : ℕ) → x < P → y < H → write P x y color fb i ≡ fb i
  write-kept fb color x y left below =
      ground (arith, left, behind, index-plain P H x y left below fits, row_fits P H y below)

  fill_row-kept :
      (cols : ℕ) (fb : ℕ → ℕ) (x y color : ℕ)
      → Fits x cols P
      → y < H
      → fill_row P cols x y color fb i ≡ fb i
  unfolding fill_row
  fill_row-kept zero fb x y color right below = refl
  fill_row-kept (suc cols) fb x y color right below =
      fill_row-kept cols (write P x y color fb) (x + 1) y color (Fits-next x cols P right) below
      ∙ write-kept fb color x y (Fits-first x cols P right) below

  pub fill_rows-kept :
      (cols rows : ℕ) (fb : ℕ → ℕ) (x y color : ℕ)
      → Fits x cols P
      → Fits y rows H
      → fill_rows P cols rows x y color fb i ≡ fb i
  unfolding fill_rows
  fill_rows-kept cols zero fb x y color right below = refl
  fill_rows-kept cols (suc rows) fb x y color right below =
      fill_rows-kept cols rows (fill_row P cols x y color fb) x (y + 1) color right
        (Fits-next y rows H below)
      ∙ fill_row-kept cols fb x y color right (Fits-first y rows H below)

  copy_row-kept :
      (cols : ℕ) (fb : ℕ → ℕ) (x y : ℕ) → x + cols ≤ P → y < H → copy_row P cols x y fb i ≡ fb i
  unfolding copy_row
  copy_row-kept zero fb x y right below = refl
  copy_row-kept (suc cols) fb x y right below =
      copy_row-kept cols (write P x (y - 10) (pixel P fb x y) fb) (x + 1) y (omega (arith, right))
        below
      ∙ write-kept fb (pixel P fb x y) x (y - 10) (omega (arith, right)) (omega (arith, below))

  pub copy_rows-kept :
      (cols rows : ℕ) (fb : ℕ → ℕ) (y : ℕ)
      → cols ≤ P
      → y + rows ≤ H
      → copy_rows P cols rows y fb i ≡ fb i
  unfolding copy_rows
  copy_rows-kept cols zero fb y right below = refl
  copy_rows-kept cols (suc rows) fb y right below =
      copy_rows-kept cols rows (copy_row P cols 0 y fb) (y + 1) right (omega (arith, below))
      ∙ copy_row-kept cols fb 0 y (omega (arith, right)) (omega (arith, below))

-- The same word, for the operations of a console.
module _ (c : Console) (screen : IsScreen c) (i : ℕ) (behind : c.fb_height * c.fb_pitch ≤ i) where
  pub fill_rect-kept : (x y w h color : ℕ) → (fill_rect x y w h color c).fb i ≡ c.fb i
  unfolding fill_rect
  fill_rect-kept x y w h color =
      fill_rows-kept c.fb_pitch c.fb_height i screen.fits behind (rounds x w c.fb_width)
        (rounds y h c.fb_height) c.fb x y color
        (rounds-Fits x w c.fb_width c.fb_pitch screen.narrow)
        (rounds-Fits y h c.fb_height c.fb_height (omega arith))

  put_pixel-kept : (x y color : ℕ) → (put_pixel x y color c).fb i ≡ c.fb i
  unfolding put_pixel
  put_pixel-kept x y color =
      ground (
        arith,
        screen.narrow,
        write-kept c.fb_pitch c.fb_height i screen.fits behind c.fb color x y,
      )

  dot-kept : (col x y bits color : ℕ) → (dot col x y bits color c).fb i ≡ c.fb i
  dot-kept col x y bits color = ground (arith, put_pixel-kept ((x + col) % 2 ^ 32) y color)

draw_bits-kept :
    (left : ℕ) (c : Console) (screen : IsScreen c) (i : ℕ) (behind : c.fb_height * c.fb_pitch ≤ i)
    (col x y bits color : ℕ)
    → (draw_bits left col x y bits color c).fb i ≡ c.fb i
unfolding draw_bits
draw_bits-kept zero c screen i behind col x y bits color = refl
draw_bits-kept (suc left) c screen i behind col x y bits color =
    ap (λ d. (draw_bits left (col + 1) x y bits color d).fb i) (dot-plain col x y bits color c)
    ∙ draw_bits-kept left (with_fb (dot col x y bits color c).fb c) screen i behind (col + 1) x y
        bits color
    ∙ dot-kept c screen i behind col x y bits color

draw_rows-kept :
    (left : ℕ) (c : Console) (screen : IsScreen c) (i : ℕ) (behind : c.fb_height * c.fb_pitch ≤ i)
    (row x y : ℕ) (glyph : ℕ → ℕ) (color : ℕ)
    → (draw_rows left row x y glyph color c).fb i ≡ c.fb i
unfolding draw_rows
draw_rows-kept zero c screen i behind row x y glyph color = refl
draw_rows-kept (suc left) c screen i behind row x y glyph color =
    let line = draw_bits 8 0 x ((y + row) % 2 ^ 32) (glyph row) color c in
    ap (λ d. (draw_rows left (row + 1) x y glyph color d).fb i)
      (draw_bits-plain 8 0 x ((y + row) % 2 ^ 32) (glyph row) color c)
    ∙ draw_rows-kept left (with_fb line.fb c) screen i behind (row + 1) x y glyph color
    ∙ draw_bits-kept 8 c screen i behind 0 x ((y + row) % 2 ^ 32) (glyph row) color

pub draw_char-kept :
    (c : Console) (screen : IsScreen c) (i : ℕ) (behind : c.fb_height * c.fb_pitch ≤ i)
    (x y ch color : ℕ)
    → (draw_char x y ch color c).fb i ≡ c.fb i
unfolding draw_char
draw_char-kept c screen i behind x y ch color =
    draw_rows-kept 8 c screen i behind 0 x y (font8x8 (shown ch)) color

pub scroll-kept :
    (c : Console) (screen : IsScreen c) (i : ℕ) (behind : c.fb_height * c.fb_pitch ≤ i)
    → 10 ≤ c.fb_height
    → (scroll c).fb i ≡ c.fb i
unfolding scroll
scroll-kept c screen i behind tall =
    let moved = record c { fb = copy_rows c.fb_pitch c.fb_width (c.fb_height - 10) 10 c.fb } in
    fill_rect-kept moved screen i behind 0 (bottom c.fb_height) c.fb_width 10 color_dark_bg
    ∙ copy_rows-kept c.fb_pitch c.fb_height i screen.fits behind c.fb_width (c.fb_height - 10) c.fb
        10 screen.narrow (omega (arith, tall))
