-- ===== src/Shell/Editing.antt =====
-- Editing a line in kernel/shell/shell.c.
use simpleos.Common.{
  ℕ, zero, suc, ◌+◌, ◌≤◌, ◌<◌, ◌≡◌, refl, arith, Bool, true, false, ◌&&◌, leb, ltb, ◌==◌, List, [],
  ◌∷◌, ◌++◌, none, some, length, take, length-take, length-append, append-nil, append-snoc, ap, sym,
  ◌∙◌,
}
use simpleos.History.{history_prev, history_next}
use simpleos.History.Lines.{IsHistory}
use simpleos.History.Walk.{history_next-history_prev}
use simpleos.Shell.{
  Line, edit, arrow_key, replace_input, backspace, type_character, drop_last, or_text, str_copy,
  start_line, readline_loop, shell_readline,
}

length-drop_last : (cs : List ℕ) → length (drop_last cs) ≤ length cs
length-drop_last [] = omega arith
length-drop_last (c ∷ []) = omega arith
length-drop_last (c ∷ d ∷ cs) = omega (arith, length-drop_last (d ∷ cs))

replace_input-fits : (new_text : List ℕ) (l : Line) → length ((replace_input new_text l).text) < 128
unfolding replace_input
replace_input-fits new_text l = ground (arith, length-take 127 new_text)

arrow_key-fits : (up : Bool) (l : Line) → length ((arrow_key up l).text) < 128
unfolding arrow_key
arrow_key-fits up l = replace_input-fits _ _

-- Whatever key is pressed, the text and its NUL fit into the 128 bytes of the buffer, if they did
-- before.
pub edit-fits : (c : ℕ) (l : Line) → length l.text < 128 → length ((edit c l).text) < 128
unfolding edit backspace type_character
edit-fits c l h =
    ground (
      arith,
      h,
      arrow_key-fits (c == 0x80) l,
      length-drop_last l.text,
      length-append l.text (c ∷ []),
    )

-- A text that fits is copied whole.
take_all : (n : ℕ) (cs : List ℕ) → length cs ≤ n → take n cs ≡ cs
take_all zero [] h = refl
take_all zero (c ∷ cs) h = elim h [ ]
take_all (suc n) [] h = refl
take_all (suc n) (c ∷ cs) h = ap (λ rest. c ∷ rest) (take_all n cs (omega (arith, h)))

replace_input-text :
    (new_text : List ℕ) (l : Line)
    → length new_text < 128
    → (replace_input new_text l).text ≡ new_text
unfolding replace_input
replace_input-text [] l h = refl
replace_input-text (c ∷ cs) l h = take_all 127 (c ∷ cs) (omega (arith, h))

replace_input-history :
    (new_text : List ℕ) (l : Line) → (replace_input new_text l).history ≡ l.history
unfolding replace_input
replace_input-history new_text l = ground arith

replace_input-saved : (new_text : List ℕ) (l : Line) → (replace_input new_text l).saved ≡ l.saved
unfolding replace_input
replace_input-saved new_text l = ground arith

-- The states after the key up and the key down.
up_lem :
    (l : Line)
    → l.saved ≡ none
    → length l.text < 128
    → ((arrow_key true l).saved ≡ some l.text)
      × ((arrow_key true l).history ≡ (history_prev l.history).1)
unfolding arrow_key
up_lem l fresh h = (
  replace_input-saved _ _
      ∙ ap some (
          ap (λ s. or_text s (str_copy l.text 128)) fresh ∙ take_all 127 l.text (omega (arith, h))),
  replace_input-history _ _,
)

down_lem :
    (l : Line) (text : List ℕ)
    → l.saved ≡ some text
    → length text < 128
    → (history_next l.history).0 ≡ none
    → ((arrow_key false l).text ≡ text) × ((arrow_key false l).history ≡ (history_next l.history).1)
unfolding arrow_key
down_lem l text e h last = (
  ap
        (λ n.
          (replace_input n (record l {
            saved = some (or_text l.saved (str_copy l.text 128));
            history = (history_next l.history).1;
          })).text)
        (ap (λ entry. or_text entry (or_text l.saved (str_copy l.text 128))) last
          ∙ ap (λ s. or_text s (str_copy l.text 128)) e)
      ∙ replace_input-text text _ h,
  replace_input-history _ _,
)

-- At the prompt with a line in the history, the key up and then the key down give back the text that
-- was typed, and the history as it was.
pub edit-up_down :
    (l : Line)
    → IsHistory l.history
    → 0 < l.history.history_count
    → l.history.nav_pos ≡ none
    → l.saved ≡ none
    → length l.text < 128
    → ((edit 0x81 (edit 0x80 l)).text ≡ l.text) × ((edit 0x81 (edit 0x80 l)).history ≡ l.history)
unfolding edit
edit-up_down l v some_line prompt fresh h =
    (let (saved, moved) = up_lem l fresh h in
      let back = history_next-history_prev l.history v (ground (arith, prompt, some_line)) in
      let there = ap history_next moved ∙ back in
      let (text, history) =
        down_lem (arrow_key true l) l.text saved h (ap (λ r. r.0) there ∙ ground (arith, prompt)) in
      (text, history ∙ ap (λ r. r.1) there))

-- The printable characters of ASCII.
abbrev pub all_printable : List ℕ → Bool
all_printable [] = true
all_printable (c ∷ cs) = (leb 32 c && ltb c 127) && all_printable cs

edit-printable :
    (c : ℕ) (l : Line)
    → (leb 32 c && ltb c 127) ≡ true
    → length l.text < 127
    → (edit c l).text ≡ l.text ++ (c ∷ [])
unfolding edit type_character
edit-printable c l printable h = ground (arith, printable, h)

type_lem :
    (cs rest : List ℕ) (l : Line)
    → all_printable cs ≡ true
    → length l.text + length cs < 128
    → (l' : Line) × (readline_loop (cs ++ (b'\n' ∷ rest)) l ≡ some l') × (l'.text ≡ l.text ++ cs)
unfolding readline_loop
type_lem [] rest l printable h =
    (record l { output = b'\n' ∷ l.output }, refl, sym (append-nil l.text))
type_lem (c ∷ cs) rest l printable h =
    (let typed = edit-printable c l (ground (arith, printable)) (omega (arith, h)) in
      let fits : length ((edit c l).text) + length cs < 128 =
        omega (arith, h, ap length typed, length-append l.text (c ∷ [])) in
      let (l', read, text) = type_lem cs rest (edit c l) (ground (arith, printable)) fits in
      (
        l',
        ground (arith, printable, read),
        text ∙ ap (λ t. t ++ cs) typed ∙ append-snoc l.text c cs,
      ))

-- A line of at most 127 printable characters with a newline behind it is read as it was typed.
pub shell_readline-typed :
    (cs rest : List ℕ) (l : Line)
    → all_printable cs ≡ true
    → length cs < 128
    → (l' : Line) × (shell_readline (cs ++ (b'\n' ∷ rest)) l ≡ some l') × (l'.text ≡ cs)
unfolding shell_readline start_line
shell_readline-typed cs rest l printable h =
    type_lem cs rest (start_line l) printable (omega (arith, h))
