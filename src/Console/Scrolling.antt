-- ===== src/Console/Scrolling.antt =====
-- The lines of the console of kernel/kernel.c: a new line, the scroll, and where the cursor stands.
use simpleos.Common.{
  ℕ, zero, suc, ◌+◌, ◌-◌, ◌*◌, ◌^◌, ◌≤◌, ◌<◌, true, ltb, ◌==◌, if◌then◌else◌, ◌&&◌, ◌≡◌, refl, ◌∙◌,
  arith, Bool-cases, inl, inr,
}
use simpleos.Console.{
  Console, pixel, write, fill_rect, copy_row, copy_rows, bottom, scroll, console_newline,
  color_dark_bg,
}
use simpleos.Console.Pixels.{IsScreen, spans, pixel-write, fill_rect_lem}

-- The copies of the scroll in a frame `H` rows high.
module _ (P H : ℕ) (fits : H * P ≤ 2 ^ 32) where
  pixel-copy_row :
      (cols : ℕ) (fb : ℕ → ℕ) (x y x' y' : ℕ)
      → x + cols ≤ P
      → 10 ≤ y
      → y < H
      → x' < P
      → y' < H
      → pixel P (copy_row P cols x y fb) x' y'
        ≡ (if spans x cols x' && (y == y' + 10) then pixel P fb x' y else pixel P fb x' y')
  unfolding copy_row
  pixel-copy_row zero fb x y x' y' right deep below left' below' = ground arith
  pixel-copy_row (suc cols) fb x y x' y' right deep below left' below' =
      pixel-copy_row cols (write P x (y - 10) (pixel P fb x y) fb) (x + 1) y x' y'
        (omega (arith, right)) deep below left' below'
      ∙ ground (
        arith,
        right,
        deep,
        below,
        pixel-write P H fits fb (pixel P fb x y) x (y - 10) x' y',
        pixel-write P H fits fb (pixel P fb x y) x (y - 10) x' y,
      )

  -- Row `y'` takes what stood ten rows further down, if that row is copied.
  pixel-copy_rows :
      (cols rows : ℕ) (fb : ℕ → ℕ) (y x' y' : ℕ)
      → cols ≤ P
      → 10 ≤ y
      → y + rows ≤ H
      → x' < cols
      → y' < H
      → pixel P (copy_rows P cols rows y fb) x' y'
        ≡ (if spans y rows (y' + 10) then pixel P fb x' (y' + 10) else pixel P fb x' y')
  unfolding copy_rows
  pixel-copy_rows cols zero fb y x' y' narrow deep below left' below' = ground arith
  pixel-copy_rows cols (suc rows) fb y x' y' narrow deep below left' below' =
      pixel-copy_rows cols rows (copy_row P cols 0 y fb) (y + 1) x' y' narrow (omega (arith, deep))
        (omega (arith, below)) left' below'
      ∙ ground (
        arith,
        narrow,
        deep,
        below,
        left',
        pixel-copy_row cols fb 0 y x' y',
        pixel-copy_row cols fb 0 y x' (y' + 10),
      )

-- The scroll moves every row up by ten and clears the ten rows at the bottom.
pub scroll_lem :
    (c : Console) (x y : ℕ)
    → IsScreen c
    → 10 ≤ c.fb_height
    → c.fb_height < 2 ^ 32
    → c.fb_width < 2 ^ 32
    → x < c.fb_width
    → y < c.fb_height
    → pixel c.fb_pitch (scroll c).fb x y
      ≡ (if ltb (y + 10) c.fb_height then pixel c.fb_pitch c.fb x (y + 10) else color_dark_bg)
unfolding scroll
scroll_lem c x y screen tall low wide left below =
    let moved = record c { fb = copy_rows c.fb_pitch c.fb_width (c.fb_height - 10) 10 c.fb } in
    let back : bottom c.fb_height ≡ c.fb_height - 10 = ground arith in
    fill_rect_lem moved 0 (bottom c.fb_height) c.fb_width 10 color_dark_bg x y screen
      (omega (arith, wide)) (omega (arith, back, low, tall)) left below
    ∙ ground (
      arith,
      back,
      tall,
      left,
      below,
      pixel-copy_rows c.fb_pitch c.fb_height screen.fits c.fb_width (c.fb_height - 10) c.fb 10 x y
          screen.narrow,
    )

-- On a new line the cursor goes to the left side and down by ten rows; where a line of ten rows no
-- longer fits there, every row moves up by ten, the ten rows at the bottom take the background's
-- colour, and the cursor stands on them.
pub record NewLine (c c' : Console) : Type 0 where
  pub left : c'.cursor_x ≡ 0
  pub down :
      c'.cursor_y
      ≡ (if ltb c.fb_height (c.cursor_y + 20) then c.fb_height - 10 else c.cursor_y + 10)
  pub pixels :
      (x y : ℕ)
      → x < c.fb_width
      → y < c.fb_height
      → pixel c.fb_pitch c'.fb x y ≡ (
          if ltb c.fb_height (c.cursor_y + 20)
          then (if ltb (y + 10) c.fb_height
              then pixel c.fb_pitch c.fb x (y + 10)
              else color_dark_bg)
          else pixel c.fb_pitch c.fb x y)

-- A console with the cursor elsewhere.
abbrev pub at_cursor : ℕ → ℕ → Console → Console
at_cursor x y c = record c { cursor_x = x; cursor_y = y }

scroll-cursor_x : (c : Console) → (scroll c).cursor_x ≡ c.cursor_x
unfolding scroll fill_rect
scroll-cursor_x c = refl

scroll-cursor_y :
    (c : Console) → 10 ≤ c.fb_height → c.fb_height < 2 ^ 32 → (scroll c).cursor_y ≡ c.fb_height - 10
unfolding scroll
scroll-cursor_y c tall low = ground arith

pub newline-moves :
    (c : Console)
    → c.fb_height + 20 < 2 ^ 32
    → c.cursor_y + 10 ≤ c.fb_height
    → console_newline c ≡ (
        if ltb c.fb_height (c.cursor_y + 20)
        then scroll (at_cursor 0 (c.cursor_y + 10) c)
        else at_cursor 0 (c.cursor_y + 10) c)
unfolding console_newline
newline-moves c low inside = ground (arith, low, inside)

scroll-NewLine :
    (c : Console)
    → IsScreen c
    → 10 ≤ c.fb_height
    → c.fb_height < 2 ^ 32
    → c.fb_width < 2 ^ 32
    → ltb c.fb_height (c.cursor_y + 20) ≡ true
    → NewLine c (scroll (at_cursor 0 (c.cursor_y + 10) c))
scroll-NewLine c screen tall low wide full = record {
  left = scroll-cursor_x (at_cursor 0 (c.cursor_y + 10) c);
  down = rw full (scroll-cursor_y (at_cursor 0 (c.cursor_y + 10) c) tall low);
  pixels = λ x y left below.
      rw full (scroll_lem (at_cursor 0 (c.cursor_y + 10) c) x y screen tall low wide left below);
}

-- On a screen at least ten rows high, with the cursor on a whole line, `console_newline` puts the
-- cursor at the left side of the next line; where that line does not fit, every row moves up by ten,
-- the ten rows at the bottom take the background's colour, and the cursor stands on them.
pub console_newline_lem :
    (c : Console)
    → IsScreen c
    → 10 ≤ c.fb_height
    → c.fb_height + 20 < 2 ^ 32
    → c.fb_width < 2 ^ 32
    → c.cursor_y + 10 ≤ c.fb_height
    → NewLine c (console_newline c)
console_newline_lem c screen tall low wide inside =
    rw (newline-moves c low inside) (elim (Bool-cases (ltb c.fb_height (c.cursor_y + 20))) [
      | inl full ↦ rw full (scroll-NewLine c screen tall (omega (arith, low)) wide full)
      | inr free ↦
          rw free
            (record { left = refl; down = rw free refl; pixels = λ x y left below. rw free refl })
    ])
