-- ===== src/Commands/Screen.antt =====
-- What the commands of kernel/shell/shell.c do to the screen of kernel/kernel.c.
use simpleos.Common.{ap, ℕ, ◌+◌, ◌*◌, ◌≤◌, ◌≡◌, refl, ◌∙◌, subst, arith, List, [], ◌∷◌}
use simpleos.Console.{
  Console, console_print, console_putchar, console_set_color, console_clear, clear_screen,
  color_dark_bg,
}
use simpleos.Console.Pixels.{Fits-whole}
use simpleos.Console.Extent.{fill_rows-kept}
use simpleos.Console.Cursor.{IsConsole, Printed, console_putchar-Printed, console_print-Printed}
use simpleos.Console.Column.{next_column, column, cursor_x-console_putchar, cursor_x-console_print}
use simpleos.Commands.{Output, color, text, char, clear, port, halt, show_one, show}

-- The column behind an output and behind several.
abbrev pub shown_column : (width : ℕ) → Output → ℕ → ℕ
shown_column width (color k) x = x
shown_column width (text t) x = column width t x
shown_column width (char k) x = next_column width k x
shown_column width clear x = 0
shown_column width (port at value) x = x
shown_column width halt x = x

abbrev pub column_after : (width : ℕ) → List Output → ℕ → ℕ
column_after width [] x = x
column_after width (o ∷ os) x = column_after width os (shown_column width o x)

-- What holds behind an output: the frame's measures and the words behind it are as they were, the cursor
-- is on a whole line, and in the column that the characters lead to.
pub record OnScreen (os : List Output) (c c' : Console) : Type 0 where
  pub width : c'.fb_width ≡ c.fb_width
  pub height : c'.fb_height ≡ c.fb_height
  pub pitch : c'.fb_pitch ≡ c.fb_pitch
  pub kept : (i : ℕ) → c.fb_height * c.fb_pitch ≤ i → c'.fb i ≡ c.fb i
  pub inside : c'.cursor_y + 10 ≤ c.fb_height
  pub across : c'.cursor_x ≡ column_after c.fb_width os c.cursor_x

Printed-OnScreen :
    (os : List Output) (c c' : Console)
    → Printed c c'
    → c'.cursor_x ≡ column_after c.fb_width os c.cursor_x
    → OnScreen os c c'
Printed-OnScreen os c c' p across = record {
  width = p.width;
  height = p.height;
  pitch = p.pitch;
  kept = p.kept;
  inside = p.inside;
  across = across;
}

OnScreen-same :
    (os : List Output) (c : Console)
    → IsConsole c
    → c.cursor_x ≡ column_after c.fb_width os c.cursor_x
    → OnScreen os c c
OnScreen-same os c v across = record {
  width = refl;
  height = refl;
  pitch = refl;
  kept = λ i behind. refl;
  inside = v.inside;
  across = across;
}

OnScreen-IsConsole :
    (os : List Output) (c c' : Console) → IsConsole c → OnScreen os c c' → IsConsole c'
OnScreen-IsConsole os c c' v p = record {
  screen = record {
    narrow = rw (p.width, p.pitch) v.screen.narrow;
    fits = rw (p.height, p.pitch) v.screen.fits;
  };
  tall = rw p.height v.tall;
  low = rw p.height v.low;
  inside = rw p.height p.inside;
}

console_clear-OnScreen : (c : Console) → IsConsole c → OnScreen (clear ∷ []) c (console_clear c)
unfolding console_clear clear_screen
console_clear-OnScreen c v = record {
  width = refl;
  height = refl;
  pitch = refl;
  kept = λ i behind.
      fill_rows-kept c.fb_pitch c.fb_height i v.screen.fits behind c.fb_width c.fb_height c.fb 0 0
        color_dark_bg (Fits-whole c.fb_width c.fb_pitch v.screen.narrow)
        (Fits-whole c.fb_height c.fb_height (omega arith));
  inside = v.tall;
  across = refl;
}

set_color-OnScreen :
    (k : ℕ) (c : Console) → IsConsole c → OnScreen (color k ∷ []) c (console_set_color k c)
unfolding console_set_color
set_color-OnScreen k c v = record {
  width = refl;
  height = refl;
  pitch = refl;
  kept = λ i behind. refl;
  inside = v.inside;
  across = refl;
}

show_one-OnScreen : (o : Output) (c : Console) → IsConsole c → OnScreen (o ∷ []) c (show_one o c)
unfolding show_one
show_one-OnScreen (color k) c v = set_color-OnScreen k c v
show_one-OnScreen (text t) c v =
    Printed-OnScreen (text t ∷ []) c (console_print t c) (console_print-Printed t c v)
      (cursor_x-console_print t c v)
show_one-OnScreen (char k) c v =
    Printed-OnScreen (char k ∷ []) c (console_putchar k c) (console_putchar-Printed k c v)
      (cursor_x-console_putchar k c)
show_one-OnScreen clear c v = console_clear-OnScreen c v
show_one-OnScreen (port at value) c v = OnScreen-same (port at value ∷ []) c v refl
show_one-OnScreen halt c v = OnScreen-same (halt ∷ []) c v refl

-- Whatever commands print, in whatever colours, they write no word behind the frame's rows, leave the
-- frame's measures alone, and keep the cursor on a whole line of rows. It ends in the column that the
-- characters lead to one after the other, tabulators going to the next multiple of 32, which can be
-- beyond the right side.
pub show-OnScreen : (os : List Output) (c : Console) → IsConsole c → OnScreen os c (show os c)
unfolding show
show-OnScreen [] c v = OnScreen-same [] c v refl
show-OnScreen (o ∷ os) c v =
    let p = show_one-OnScreen o c v in
    let q = show-OnScreen os (show_one o c) (OnScreen-IsConsole (o ∷ []) c (show_one o c) v p) in
    record {
      width = q.width ∙ p.width;
      height = q.height ∙ p.height;
      pitch = q.pitch ∙ p.pitch;
      kept = λ i behind. q.kept i (rw (p.height, p.pitch) behind) ∙ p.kept i behind;
      inside = subst (λ h. (show os (show_one o c)).cursor_y + 10 ≤ h) p.height q.inside;
      across =
          q.across
          ∙ ap (λ w. column_after w os (show_one o c).cursor_x) p.width
          ∙ ap (λ x. column_after c.fb_width os x) p.across;
    }
