-- ===== src/Keyboard/Keymap.antt =====
-- What the two tables, caps lock and Ctrl of kernel/drivers/keyboard.c come to together.
use simpleos.Common.{
  ℕ, ◌-◌, ◌<◌, ◌≡◌, refl, Bool, true, false, not, ◌==◌, ==_iff, if◌then◌else◌, List, [], ◌∷◌, ◌&&◌,
  leb, ltb, get_or,
}
use simpleos.Common.Bytes.{passes, passes_at}
use simpleos.Keyboard.{translate, lookup, apply_capslock, apply_ctrl}

-- The four rows of a US keyboard, from their first key on, and the keys beside them.
abbrev digit_row : List ℕ
digit_row = b'1' ∷ b'2' ∷ b'3' ∷ b'4' ∷ b'5' ∷ b'6' ∷ b'7' ∷ b'8' ∷ b'9' ∷ b'0' ∷ b'-' ∷ b'=' ∷ []

abbrev upper_row : List ℕ
upper_row = b'q' ∷ b'w' ∷ b'e' ∷ b'r' ∷ b't' ∷ b'y' ∷ b'u' ∷ b'i' ∷ b'o' ∷ b'p' ∷ b'[' ∷ b']' ∷ []

abbrev home_row : List ℕ
home_row = b'a' ∷ b's' ∷ b'd' ∷ b'f' ∷ b'g' ∷ b'h' ∷ b'j' ∷ b'k' ∷ b'l' ∷ b';' ∷ 39 ∷ b'`' ∷ []

abbrev lower_row : List ℕ
lower_row = 92 ∷ b'z' ∷ b'x' ∷ b'c' ∷ b'v' ∷ b'b' ∷ b'n' ∷ b'm' ∷ b',' ∷ b'.' ∷ b'/' ∷ []

-- Escape, backspace, tabulator, enter, the star of the keypad and the space bar.
abbrev other_key : ℕ → ℕ
other_key scancode =
    if scancode == 1
    then 27
    else if scancode == 14
    then 8
    else if scancode == 15
    then 9
    else if scancode == 28
    then 10
    else if scancode == 55
    then b'*'
    else if scancode == 57
    then 32
    else 0

-- The character of a scancode without any modifier key, 0 for none.
abbrev pub plain : ℕ → ℕ
plain scancode =
    if leb 2 scancode && ltb scancode 14
    then get_or digit_row (scancode - 2) 0
    else if leb 16 scancode && ltb scancode 28
    then get_or upper_row (scancode - 16) 0
    else if leb 30 scancode && ltb scancode 42
    then get_or home_row (scancode - 30) 0
    else if leb 43 scancode && ltb scancode 54
    then get_or lower_row (scancode - 43) 0
    else other_key scancode

-- The two characters of the keys that are no letters.
abbrev shift_pairs : List (ℕ × ℕ)
shift_pairs =
    (b'1', b'!')
    ∷ (b'2', b'@')
    ∷ (b'3', b'#')
    ∷ (b'4', b'$')
    ∷ (b'5', b'%')
    ∷ (b'6', b'^')
    ∷ (b'7', b'&')
    ∷ (b'8', b'*')
    ∷ (b'9', b'(')
    ∷ (b'0', b')')
    ∷ (b'-', b'_')
    ∷ (b'=', b'+')
    ∷ (b'[', b'{')
    ∷ (b']', b'}')
    ∷ (b';', b':')
    ∷ (39, b'"')
    ∷ (b'`', b'~')
    ∷ (92, b'|')
    ∷ (b',', b'<')
    ∷ (b'.', b'>')
    ∷ (b'/', b'?')
    ∷ []

-- The partner of a character, itself if it has none.
abbrev partner : List (ℕ × ℕ) → ℕ → ℕ
partner [] c = c
partner ((low, high) ∷ pairs) c = let rest = partner pairs c in if low == c then high else rest

-- Shift and caps lock cancel each other on letters.
abbrev pub differ : Bool → Bool → Bool
differ shift caps = if shift then not caps else caps

-- The character that a US keyboard types, said by the kind of the key.
unfoldable pub us_layout : ℕ → Bool → Bool → Bool → ℕ
us_layout scancode shift caps ctrl =
    if not (leb b'a' (plain scancode) && leb (plain scancode) b'z')
    then (if shift then partner shift_pairs (plain scancode) else plain scancode)
    else if differ shift caps
    then plain scancode - 32
    else if ctrl
    then plain scancode - 96
    else plain scancode

layout_table : Bool → Bool → Bool → Bool
layout_table shift caps ctrl =
    passes (λ i. translate i shift caps ctrl == us_layout i shift caps ctrl) 128

layout_table_holds : (shift caps ctrl : Bool) → layout_table shift caps ctrl ≡ true
unfolding layout_table passes translate us_layout lookup apply_capslock apply_ctrl
layout_table_holds true true true = refl
layout_table_holds true true false = refl
layout_table_holds true false true = refl
layout_table_holds true false false = refl
layout_table_holds false true true = refl
layout_table_holds false true false = refl
layout_table_holds false false true = refl
layout_table_holds false false false = refl

-- For each of the 128 scancodes: a letter key types the capital letter if exactly one of shift and
-- caps lock is on, and its small letter otherwise, or with Ctrl its control code 1 to 26; Ctrl has no
-- effect on a capital letter. Any other key types its one character, or with shift the other one.
pub translate-us_layout :
    (scancode : ℕ) (shift caps ctrl : Bool)
    → scancode < 128
    → translate scancode shift caps ctrl ≡ us_layout scancode shift caps ctrl
unfolding layout_table
translate-us_layout scancode shift caps ctrl h = (==_iff _ _).0 (
    passes_at (λ i. translate i shift caps ctrl == us_layout i shift caps ctrl) 128 h
      (layout_table_holds shift caps ctrl))
