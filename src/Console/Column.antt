-- ===== src/Console/Column.antt =====
-- How far from the left side the cursor of kernel/kernel.c stands.
use simpleos.Common.{
  ℕ, ◌+◌, ◌-◌, ◌%◌, ◌^◌, ◌≡◌, refl, ◌∙◌, arith, Bool-cases, inl, inr, ltb, ◌==◌, if◌then◌else◌,
  List, [], ◌∷◌, ap, ◌||◌,
}
use simpleos.Console.{
  Console, scroll, rub_out, put_glyph, console_newline, console_putchar, console_print, fill_rect,
  draw_char,
}
use simpleos.Console.Cursor.{IsConsole, Printed-IsConsole, console_putchar-Printed}

-- The column behind a character: a line starts at 0, a tabulator goes to the next multiple of 32, a
-- backspace one cell back, and any other character one cell on, or to a new line where no whole cell is
-- left.
abbrev pub next_column : (width ch x : ℕ) → ℕ
next_column width ch x =
    if (ch == 10) || (ch == 13)
    then 0
    else if ch == 9
    then (x - x % 32 + 32) % 2 ^ 32
    else if ch == 8
    then (if ltb x 8 then x else x - 8)
    else if ltb width ((x + 16) % 2 ^ 32)
    then 0
    else (x + 8) % 2 ^ 32

pub cursor_x-console_newline : (c : Console) → (console_newline c).cursor_x ≡ 0
unfolding console_newline scroll fill_rect
cursor_x-console_newline c = ground arith

cursor_x-rub_out :
    (c : Console) → (rub_out c).cursor_x ≡ (if ltb c.cursor_x 8 then c.cursor_x else c.cursor_x - 8)
unfolding rub_out fill_rect
cursor_x-rub_out c = ground arith

cursor_x-put_glyph :
    (ch : ℕ) (c : Console)
    → (put_glyph ch c).cursor_x
      ≡ (if ltb c.fb_width ((c.cursor_x + 16) % 2 ^ 32) then 0 else (c.cursor_x + 8) % 2 ^ 32)
unfolding put_glyph
cursor_x-put_glyph ch c =
    let c2 = record (draw_char c.cursor_x c.cursor_y ch c.text_color c) {
      cursor_x = (c.cursor_x + 8) % 2 ^ 32;
    } in
    let same : ((c.cursor_x + 8) % 2 ^ 32 + 8) % 2 ^ 32 ≡ (c.cursor_x + 16) % 2 ^ 32 =
      omega arith in
    rw same (elim (Bool-cases (ltb c.fb_width ((c.cursor_x + 16) % 2 ^ 32))) [
      | inl full ↦ rw full (cursor_x-console_newline c2)
      | inr free ↦ rw free refl
    ])

pub cursor_x-console_putchar :
    (ch : ℕ) (c : Console) → (console_putchar ch c).cursor_x ≡ next_column c.fb_width ch c.cursor_x
unfolding console_putchar
cursor_x-console_putchar ch c =
    ground (arith, cursor_x-console_newline c, cursor_x-rub_out c, cursor_x-put_glyph ch c)

-- The column behind a text.
abbrev pub column : (width : ℕ) → List ℕ → ℕ → ℕ
column width [] x = x
column width (ch ∷ rest) x = column width rest (next_column width ch x)

pub cursor_x-console_print :
    (text : List ℕ) (c : Console)
    → IsConsole c
    → (console_print text c).cursor_x ≡ column c.fb_width text c.cursor_x
unfolding console_print
cursor_x-console_print [] c v = refl
cursor_x-console_print (ch ∷ rest) c v =
    let p = console_putchar-Printed ch c v in
    cursor_x-console_print rest (console_putchar ch c)
      (Printed-IsConsole c (console_putchar ch c) v p)
    ∙ ap (λ w. column w rest (console_putchar ch c).cursor_x) p.width
    ∙ ap (λ x. column c.fb_width rest x) (cursor_x-console_putchar ch c)
