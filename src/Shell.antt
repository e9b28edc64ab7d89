-- ===== src/Shell.antt =====
-- The command line of the shell, kernel/shell/shell.c: parsing a number, splitting a line into
-- arguments, and editing a line. A text is the list of its bytes before the NUL, and what is printed
-- is recorded with the last byte first.
pub mod Numbers
pub mod Words
pub mod Editing
mod Examples
use simpleos.Common.{
  ℕ, zero, suc, ◌+◌, ◌-◌, ◌*◌, ◌%◌, ◌^◌, Bool, true, false, not, ◌&&◌, ◌||◌, leb, ltb, ◌==◌,
  if◌then◌else◌, List, [], ◌∷◌, ◌++◌, Option, none, some, length, take,
}
use simpleos.History.{History, history_prev, history_next, history_reset_nav}

abbrev pub shell_max_line : ℕ
shell_max_line = 128

abbrev pub shell_max_args : ℕ
shell_max_args = 8

abbrev pub is_space : ℕ → Bool
is_space c = (c == b' ') || (c == b'\t')

-- `str_copy` into a buffer of `max` bytes leaves this text there.
abbrev pub str_copy : List ℕ → ℕ → List ℕ
str_copy src max = take (max - 1) src

-- The digit of a character, or none.
unfoldable pub digit_of : ℕ → ℕ → Option ℕ
digit_of base c =
    if leb b'0' c && leb c b'9'
    then some (c - b'0')
    else if (base == 16) && (leb b'a' c && leb c b'f')
    then some (10 + c - b'a')
    else if (base == 16) && (leb b'A' c && leb c b'F')
    then some (10 + c - b'A')
    else none

-- The loop of `parse_uint` over the characters left; `none` is the return with `ok` unset.
unfoldable pub parse_loop : ℕ → ℕ → List ℕ → Option ℕ
parse_loop base value [] = some value
parse_loop base value (c ∷ cs) = elim (digit_of base c) [
  | none ↦ none
  | some digit ↦ parse_loop base ((value * base + digit) % 2 ^ 64) cs
]

-- `s[0] == '0' && (s[1] == 'x' || s[1] == 'X')`, and what follows the prefix.
unfoldable pub parse_prefix : List ℕ → ℕ × List ℕ
parse_prefix [] = (10, [])
parse_prefix (a ∷ []) = (10, a ∷ [])
parse_prefix (a ∷ b ∷ cs) =
    if (a == b'0') && ((b == b'x') || (b == b'X')) then (16, cs) else (10, a ∷ b ∷ cs)

-- A null pointer and the empty text are refused.
unfoldable pub parse_uint : Option (List ℕ) → Option ℕ
parse_uint none = none
parse_uint (some []) = none
parse_uint (some (c ∷ cs)) = let (base, text) = parse_prefix (c ∷ cs) in parse_loop base 0 text

-- `while (*p && is_space(*p)) p++;`
unfoldable pub skip_spaces : List ℕ → List ℕ
skip_spaces [] = []
skip_spaces (c ∷ cs) = let rest = skip_spaces cs in if is_space c then rest else c ∷ cs

-- `while (*p && !is_space(*p)) p++;`: the characters passed, and the place behind them.
unfoldable pub word : List ℕ → List ℕ
word [] = []
word (c ∷ cs) = let rest = word cs in if not (is_space c) then c ∷ rest else []

unfoldable pub after_word : List ℕ → List ℕ
after_word [] = []
after_word (c ∷ cs) = let rest = after_word cs in if not (is_space c) then rest else c ∷ cs

abbrev pub is_empty : List ℕ → Bool
is_empty [] = true
is_empty (c ∷ cs) = false

-- `if (*p) { *p = '\0'; p++; }`
abbrev pub step_over : List ℕ → List ℕ
step_over [] = []
step_over (c ∷ cs) = cs

-- The outer loop of `shell_execute`, with `args` entries of `argv` left.
unfoldable pub split_args : ℕ → List ℕ → List (List ℕ)
split_args zero p = []
split_args (suc args) p =
    let start = skip_spaces p in
    let rest = split_args args (step_over (after_word start)) in
    if is_empty start then [] else word start ∷ rest

unfoldable pub arguments : List ℕ → List (List ℕ)
arguments line = split_args shell_max_args line

-- The state of `shell_readline`: the text in the buffer, whose length is `len`; `saved`, none while
-- `saved_valid` is 0; the history; and what was printed.
pub record Line : Type 0 where
  pub text : List ℕ
  pub saved : Option (List ℕ)
  pub history : History
  pub output : List ℕ

abbrev pub print : List ℕ → List ℕ → List ℕ
print [] out = out
print (c ∷ cs) out = print cs (c ∷ out)

-- `while (*len > 0) { console_putchar('\b'); (*len)--; }`
abbrev pub erase : List ℕ → List ℕ → List ℕ
erase [] out = out
erase (c ∷ cs) out = erase cs (b'\x08' ∷ out)

unfoldable pub replace_input : List ℕ → Line → Line
replace_input new_text l =
    let erased = erase l.text l.output in
    let copy = str_copy new_text shell_max_line in
    if is_empty new_text
    then (record l { text = []; output = erased })
    else (record l { text = copy; output = print copy erased })

abbrev pub or_text : Option (List ℕ) → List ℕ → List ℕ
or_text none text = text
or_text (some entry) text = entry

-- `KEY_UP` and `KEY_DOWN`: the text is saved once, and replaced by a line of the history, or by
-- what was saved.
unfoldable pub arrow_key : Bool → Line → Line
arrow_key up l =
    let kept = or_text l.saved (str_copy l.text shell_max_line) in
    let (entry, history1) = if up then history_prev l.history else history_next l.history in
    replace_input (or_text entry kept) (record l { saved = some kept; history = history1 })

abbrev pub drop_last : List ℕ → List ℕ
drop_last [] = []
drop_last (c ∷ []) = []
drop_last (c ∷ d ∷ cs) = c ∷ drop_last (d ∷ cs)

unfoldable pub backspace : Line → Line
backspace l =
    if is_empty l.text
    then (record l { saved = none })
    else (record l { text = drop_last l.text; saved = none; output = b'\x08' ∷ l.output })

unfoldable pub type_character : ℕ → Line → Line
type_character c l =
    if ltb (length l.text) (shell_max_line - 1)
    then (record l { text = l.text ++ (c ∷ []); saved = none; output = c ∷ l.output })
    else (record l { saved = none })

-- One round of the loop, for a key that does not end the line.
unfoldable pub edit : ℕ → Line → Line
edit c l =
    if (c == 0x80) || (c == 0x81)
    then arrow_key (c == 0x80) l
    else if c == b'\x08'
    then backspace l
    else if leb 32 c && ltb c 127
    then type_character c l
    else l

unfoldable pub start_line : Line → Line
start_line l = record l { text = []; saved = none; history = history_reset_nav l.history }

-- The loop over the keys that `keyboard_getchar` gives; it goes on waiting, none, without a newline.
unfoldable pub readline_loop : List ℕ → Line → Option Line
readline_loop [] l = none
readline_loop (c ∷ keys) l =
    let rest = readline_loop keys (edit c l) in
    if c == b'\n' then some (record l { output = b'\n' ∷ l.output }) else rest

unfoldable pub shell_readline : List ℕ → Line → Option Line
shell_readline keys l = readline_loop keys (start_line l)
