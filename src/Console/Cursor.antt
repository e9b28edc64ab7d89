-- ===== src/Console/Cursor.antt =====
-- Printing on the console of kernel/kernel.c: the cursor stays on the screen's rows, and memory behind
-- the frame buffer stays as it is.
use simpleos.Common.{
  ℕ, ◌+◌, ◌-◌, ◌*◌, ◌/◌, ◌%◌, ◌^◌, ◌≤◌, ◌<◌, leb, ltb, ◌≡◌, refl, ◌∙◌, subst, arith, Bool-cases,
  inl, inr, List, [], ◌∷◌,
}
use simpleos.Console.{
  Console, scroll, rub_out, put_glyph, console_newline, console_putchar, console_print, draw_char,
  fill_rect, color_dark_bg,
}
use simpleos.Console.Pixels.{IsScreen}
use simpleos.Console.Drawing.{draw_char-plain}
use simpleos.Console.Scrolling.{at_cursor, newline-moves}
use simpleos.Console.Extent.{fill_rect-kept, draw_char-kept, scroll-kept}

-- A console on a screen of at least one line of ten rows, with the cursor on a whole line.
pub record IsConsole (c : Console) : Type 0 where
  pub screen : IsScreen c
  pub tall : 10 ≤ c.fb_height
  pub low : c.fb_height + 20 < 2 ^ 32
  pub inside : c.cursor_y + 10 ≤ c.fb_height

-- What printing leaves as it is: the frame and the colour, the words behind the frame, and that the
-- cursor is on a whole line.
pub record Printed (c c' : Console) : Type 0 where
  pub width : c'.fb_width ≡ c.fb_width
  pub height : c'.fb_height ≡ c.fb_height
  pub pitch : c'.fb_pitch ≡ c.fb_pitch
  pub color : c'.text_color ≡ c.text_color
  pub kept : (i : ℕ) → c.fb_height * c.fb_pitch ≤ i → c'.fb i ≡ c.fb i
  pub inside : c'.cursor_y + 10 ≤ c.fb_height

pub Printed-IsConsole : (c c' : Console) → IsConsole c → Printed c c' → IsConsole c'
Printed-IsConsole c c' v p = record {
  screen = record {
    narrow = rw (p.width, p.pitch) v.screen.narrow;
    fits = rw (p.height, p.pitch) v.screen.fits;
  };
  tall = rw p.height v.tall;
  low = rw p.height v.low;
  inside = rw p.height p.inside;
}

Printed-then : (c c' c'' : Console) → Printed c c' → Printed c' c'' → Printed c c''
Printed-then c c' c'' p q = record {
  width = q.width ∙ p.width;
  height = q.height ∙ p.height;
  pitch = q.pitch ∙ p.pitch;
  color = q.color ∙ p.color;
  kept = λ i behind. q.kept i (rw (p.height, p.pitch) behind) ∙ p.kept i behind;
  inside = subst (λ h. c''.cursor_y + 10 ≤ h) p.height q.inside;
}

-- Moving the cursor to a whole line.
moved : (c : Console) (x y : ℕ) → y + 10 ≤ c.fb_height → Printed c (at_cursor x y c)
moved c x y inside = record {
  width = refl;
  height = refl;
  pitch = refl;
  color = refl;
  kept = λ i behind. refl;
  inside = inside;
}

-- The cursor's place before does not matter.
from_moved : (c c' : Console) (x y : ℕ) → Printed (at_cursor x y c) c' → Printed c c'
from_moved c c' x y p = record {
  width = p.width;
  height = p.height;
  pitch = p.pitch;
  color = p.color;
  kept = p.kept;
  inside = p.inside;
}

scroll-Printed :
    (c : Console) → IsScreen c → 10 ≤ c.fb_height → c.fb_height + 20 < 2 ^ 32 → Printed c (scroll c)
unfolding scroll fill_rect
scroll-Printed c screen tall low = record {
  width = refl;
  height = refl;
  pitch = refl;
  color = refl;
  kept = λ i behind. scroll-kept c screen i behind tall;
  inside = omega (arith, tall, low);
}

newline-Printed : (c : Console) → IsConsole c → Printed c (console_newline c)
newline-Printed c v =
    rw (newline-moves c v.low v.inside) (elim (Bool-cases (ltb c.fb_height (c.cursor_y + 20))) [
      | inl full ↦ rw full (
          from_moved c (scroll (at_cursor 0 (c.cursor_y + 10) c)) 0 (c.cursor_y + 10)
            (scroll-Printed (at_cursor 0 (c.cursor_y + 10) c) v.screen v.tall v.low))
      | inr free ↦ rw free (moved c 0 (c.cursor_y + 10) (ground (arith, free)))
    ])

fill_rect-Printed :
    (c : Console) (x y w h color : ℕ) → IsConsole c → Printed c (fill_rect x y w h color c)
unfolding fill_rect
fill_rect-Printed c x y w h color v = record {
  width = refl;
  height = refl;
  pitch = refl;
  color = refl;
  kept = λ i behind. fill_rect-kept c v.screen i behind x y w h color;
  inside = v.inside;
}

rub_out-Printed : (c : Console) → IsConsole c → Printed c (rub_out c)
unfolding rub_out
rub_out-Printed c v = elim (Bool-cases (leb 8 c.cursor_x)) [
  | inl room ↦ rw room (
      from_moved c
        (fill_rect (c.cursor_x - 8) c.cursor_y 8 10 color_dark_bg
          (at_cursor (c.cursor_x - 8) c.cursor_y c))
        (c.cursor_x - 8) c.cursor_y
        (fill_rect-Printed (at_cursor (c.cursor_x - 8) c.cursor_y c) (c.cursor_x - 8) c.cursor_y 8
          10 color_dark_bg
          (record { screen = v.screen; tall = v.tall; low = v.low; inside = v.inside })))
  | inr none ↦ rw none (moved c c.cursor_x c.cursor_y v.inside)
]

draw_char-Printed :
    (c : Console) (x y ch color : ℕ) → IsConsole c → Printed c (draw_char x y ch color c)
draw_char-Printed c x y ch color v = rw (draw_char-plain x y ch color c) (record {
  width = refl;
  height = refl;
  pitch = refl;
  color = refl;
  kept = λ i behind. draw_char-kept c v.screen i behind x y ch color;
  inside = v.inside;
})

put_glyph-Printed : (ch : ℕ) (c : Console) → IsConsole c → Printed c (put_glyph ch c)
unfolding put_glyph
put_glyph-Printed ch c v =
    let drawn = draw_char c.cursor_x c.cursor_y ch c.text_color c in
    let p : Printed c drawn = draw_char-Printed c c.cursor_x c.cursor_y ch c.text_color v in
    let next = at_cursor ((c.cursor_x + 8) % 2 ^ 32) drawn.cursor_y drawn in
    let q : Printed c next =
      Printed-then c drawn next p
        (moved drawn ((c.cursor_x + 8) % 2 ^ 32) drawn.cursor_y (rw p.height p.inside)) in
    elim (Bool-cases (ltb c.fb_width (((c.cursor_x + 8) % 2 ^ 32 + 8) % 2 ^ 32))) [
      | inl full ↦ rw full (
          Printed-then c next (console_newline next) q
            (newline-Printed next (Printed-IsConsole c next v q)))
      | inr free ↦ rw free q
    ]

pub console_putchar-Printed :
    (ch : ℕ) (c : Console) → IsConsole c → Printed c (console_putchar ch c)
unfolding console_putchar
console_putchar-Printed ch c v = ground (
  arith,
  newline-Printed c v,
  moved c 0 c.cursor_y v.inside,
  moved c (((c.cursor_x + 32) % 2 ^ 32) / 32 * 32) c.cursor_y v.inside,
  rub_out-Printed c v,
  put_glyph-Printed ch c v,
)

-- Printing any text on such a console leaves the frame's measures and the colour alone, writes no word
-- behind the frame's rows, and keeps the cursor on a whole line inside the screen.
pub console_print-Printed :
    (text : List ℕ) (c : Console) → IsConsole c → Printed c (console_print text c)
unfolding console_print
console_print-Printed [] c v = moved c c.cursor_x c.cursor_y v.inside
console_print-Printed (ch ∷ rest) c v =
    let p = console_putchar-Printed ch c v in
    Printed-then c (console_putchar ch c) (console_print rest (console_putchar ch c)) p (
      console_print-Printed rest (console_putchar ch c)
        (Printed-IsConsole c (console_putchar ch c) v p))
