-- ===== src/Shell/Examples.antt =====
-- Examples for kernel/shell/shell.c.
use simpleos.Common.{◌≡◌, ◌<◌, refl, arith, [], ◌∷◌, none, some, length}
use simpleos.Shell.{Line, parse_uint, arguments, edit, shell_readline}
use simpleos.Shell.Numbers.{parse_uint_lem}
use simpleos.Shell.Words.{words, arguments-words}
use simpleos.Shell.Editing.{edit-fits, edit-up_down, shell_readline-typed}

-- 0x1F.
parse_uint_lem_example :
    (parse_uint none ≡ none)
    × (parse_uint (some []) ≡ none)
    × (parse_uint (some (b'0' ∷ [])) ≡ some 0)
    × (parse_uint (some (b'0' ∷ b'x' ∷ b'1' ∷ b'F' ∷ [])) ≡ some 31)
parse_uint_lem_example = parse_uint_lem b'0' b'x' (b'1' ∷ b'F' ∷ [])

arguments-words_example :
    arguments (b' ' ∷ b'p' ∷ b's' ∷ b'\t' ∷ b'a' ∷ []) ≡ (b'p' ∷ b's' ∷ []) ∷ (b'a' ∷ []) ∷ []
unfolding words
arguments-words_example = arguments-words (b' ' ∷ b'p' ∷ b's' ∷ b'\t' ∷ b'a' ∷ [])

-- The text `ls` behind a history of one line.
abbrev typing : Line
typing = record {
  text = b'l' ∷ b's' ∷ [];
  saved = none;
  history = record {
    history_entries = λ i. b'p' ∷ b's' ∷ [];
    history_count = 1;
    history_start = 0;
    nav_pos = none;
  };
  output = [];
}

edit-fits_example : length ((edit b'a' typing).text) < 128
edit-fits_example = edit-fits b'a' typing (omega arith)

edit-up_down_example :
    ((edit 0x81 (edit 0x80 typing)).text ≡ b'l' ∷ b's' ∷ [])
    × ((edit 0x81 (edit 0x80 typing)).history ≡ typing.history)
edit-up_down_example =
    edit-up_down typing
      (record { start_lt = omega arith; count_le = omega arith; selection = omega arith })
      (omega arith) refl refl (omega arith)

shell_readline-typed_example :
    (l' : Line) × (shell_readline (b'p' ∷ b's' ∷ b'\n' ∷ []) typing ≡ some l')
    × (l'.text ≡ b'p' ∷ b's' ∷ [])
shell_readline-typed_example = shell_readline-typed (b'p' ∷ b's' ∷ []) [] typing refl (omega arith)
