-- ===== src/Keyboard.antt =====
-- The PS/2 keyboard, kernel/drivers/keyboard.c: the ring buffer of 256 characters, the interrupt
-- handler with its modifier keys, and the ways to read. A character is its byte, and the scancode
-- that the handler reads from port 0x60 is its argument.
pub mod Keymap
pub mod Buffer
pub mod Handler
pub mod Read
mod Examples
use simpleos.Common.{
  ℕ, zero, suc, ◌+◌, ◌-◌, ◌%◌, Bool, true, false, not, ◌&&◌, ◌||◌, ltb, leb, ◌==◌, if◌then◌else◌,
  List, [], ◌∷◌, Option, none, some, get_or,
}
use simpleos.Common.Bytes.{update, bit_of}
use simpleos.Io.{Ports}
use simpleos.Pic.{pic_enable_irq}

abbrev pub buffer_size : ℕ
buffer_size = 256

pub record Keyboard : Type 0 where
  pub key_buffer : ℕ → ℕ
  pub buffer_head : ℕ
  pub buffer_tail : ℕ
  pub shift_pressed : Bool
  pub ctrl_pressed : Bool
  pub alt_pressed : Bool
  pub capslock_on : Bool
  pub extended_scancode : Bool

-- The two tables of 128 entries; those after the last one listed are 0.
abbrev pub scancode_to_ascii : List ℕ
scancode_to_ascii =
    0 ∷ 27 ∷ b'1' ∷ b'2' ∷ b'3' ∷ b'4' ∷ b'5' ∷ b'6' ∷ b'7' ∷ b'8' ∷ b'9' ∷ b'0' ∷ b'-' ∷ b'=' ∷ 8
    ∷ 9 ∷ b'q' ∷ b'w' ∷ b'e' ∷ b'r' ∷ b't' ∷ b'y' ∷ b'u' ∷ b'i' ∷ b'o' ∷ b'p' ∷ b'[' ∷ b']' ∷ 10 ∷ 0
    ∷ b'a' ∷ b's' ∷ b'd' ∷ b'f' ∷ b'g' ∷ b'h' ∷ b'j' ∷ b'k' ∷ b'l' ∷ b';' ∷ 39 ∷ b'`' ∷ 0 ∷ 92
    ∷ b'z' ∷ b'x' ∷ b'c' ∷ b'v' ∷ b'b' ∷ b'n' ∷ b'm' ∷ b',' ∷ b'.' ∷ b'/' ∷ 0 ∷ b'*' ∷ 0 ∷ 32 ∷ []

abbrev pub scancode_to_ascii_shifted : List ℕ
scancode_to_ascii_shifted =
    0 ∷ 27 ∷ b'!' ∷ b'@' ∷ b'#' ∷ b'$' ∷ b'%' ∷ b'^' ∷ b'&' ∷ b'*' ∷ b'(' ∷ b')' ∷ b'_' ∷ b'+' ∷ 8
    ∷ 9 ∷ b'Q' ∷ b'W' ∷ b'E' ∷ b'R' ∷ b'T' ∷ b'Y' ∷ b'U' ∷ b'I' ∷ b'O' ∷ b'P' ∷ b'{' ∷ b'}' ∷ 10 ∷ 0
    ∷ b'A' ∷ b'S' ∷ b'D' ∷ b'F' ∷ b'G' ∷ b'H' ∷ b'J' ∷ b'K' ∷ b'L' ∷ b':' ∷ b'"' ∷ b'~' ∷ 0 ∷ b'|'
    ∷ b'Z' ∷ b'X' ∷ b'C' ∷ b'V' ∷ b'B' ∷ b'N' ∷ b'M' ∷ b'<' ∷ b'>' ∷ b'?' ∷ 0 ∷ b'*' ∷ 0 ∷ 32 ∷ []

unfoldable pub buffer_put : ℕ → Keyboard → Keyboard
buffer_put c k =
    let next = (k.buffer_head + 1) % buffer_size in
    if not (next == k.buffer_tail)
    then (record k { key_buffer = update k.key_buffer k.buffer_head c; buffer_head = next })
    else k

unfoldable pub keyboard_available : Keyboard → Bool
keyboard_available k = not (k.buffer_head == k.buffer_tail)

unfoldable pub buffer_get : Keyboard → ℕ × Keyboard
buffer_get k =
    if k.buffer_head == k.buffer_tail
    then (0, k)
    else (k.key_buffer k.buffer_tail, record k { buffer_tail = (k.buffer_tail + 1) % buffer_size })

unfoldable pub keyboard_init : Keyboard → Ports → Keyboard × Ports
keyboard_init k io = (
  record k {
    buffer_head = 0;
    buffer_tail = 0;
    shift_pressed = false;
    ctrl_pressed = false;
    alt_pressed = false;
    capslock_on = false;
  },
  pic_enable_irq 1 io,
)

abbrev pub is_lower : ℕ → Bool
is_lower c = leb b'a' c && leb c b'z'

abbrev pub is_upper : ℕ → Bool
is_upper c = leb b'A' c && leb c b'Z'

-- `scancode & SCANCODE_RELEASE`.
abbrev pub is_release : ℕ → Bool
is_release scancode = bit_of scancode 7 == 1

-- The release of a key, `released` being its scancode without the release bit.
unfoldable pub key_released : ℕ → Keyboard → Keyboard
key_released released k =
    if k.extended_scancode
    then (record k { extended_scancode = false })
    else if (released == 0x2A) || (released == 0x36)
    then (record k { shift_pressed = false })
    else if released == 0x1D
    then (record k { ctrl_pressed = false })
    else if released == 0x38
    then (record k { alt_pressed = false })
    else k

abbrev pub special_key : ℕ → ℕ
special_key scancode =
    if scancode == 0x48
    then 0x80
    else if scancode == 0x50
    then 0x81
    else if scancode == 0x4B
    then 0x82
    else if scancode == 0x4D
    then 0x83
    else 0

-- A press after the prefix 0xE0.
unfoldable pub extended_pressed : ℕ → Keyboard → Keyboard
extended_pressed scancode k =
    let k1 = record k { extended_scancode = false } in
    if special_key scancode == 0 then k1 else buffer_put (special_key scancode) k1

-- The three steps from a scancode to a character: the tables, caps lock and Ctrl.
unfoldable pub lookup : Bool → ℕ → ℕ
lookup shift scancode =
    if shift
    then get_or scancode_to_ascii_shifted scancode 0
    else get_or scancode_to_ascii scancode 0

unfoldable pub apply_capslock : Bool → ℕ → ℕ
apply_capslock caps c =
    if caps && is_lower c
    then c - b'a' + b'A'
    else if caps && is_upper c
    then c - b'A' + b'a'
    else c

unfoldable pub apply_ctrl : Bool → ℕ → ℕ
apply_ctrl ctrl c = if ctrl && is_lower c then c - b'a' + 1 else c

unfoldable pub translate : ℕ → Bool → Bool → Bool → ℕ
translate scancode shift caps ctrl =
    if ltb scancode 128 then apply_ctrl ctrl (apply_capslock caps (lookup shift scancode)) else 0

unfoldable pub character_pressed : ℕ → Keyboard → Keyboard
character_pressed scancode k =
    let c = translate scancode k.shift_pressed k.capslock_on k.ctrl_pressed in
    if not (c == 0) then buffer_put c k else k

unfoldable pub key_pressed : ℕ → Keyboard → Keyboard
key_pressed scancode k =
    if (scancode == 0x2A) || (scancode == 0x36)
    then (record k { shift_pressed = true })
    else if scancode == 0x1D
    then (record k { ctrl_pressed = true })
    else if scancode == 0x38
    then (record k { alt_pressed = true })
    else if scancode == 0x3A
    then (record k { capslock_on = not k.capslock_on })
    else character_pressed scancode k

unfoldable pub keyboard_handler : ℕ → Keyboard → Keyboard
keyboard_handler scancode k =
    if scancode == 0xE0
    then (record k { extended_scancode = true })
    else if is_release scancode
    then key_released (scancode % 128) k
    else if k.extended_scancode
    then extended_pressed scancode k
    else key_pressed scancode k

-- `keyboard_getchar` halts until an interrupt while the buffer is empty. The scancodes that the
-- coming interrupts bring are `arrivals`; without a character among them it goes on waiting, `none`.
unfoldable pub keyboard_getchar : List ℕ → Keyboard → Option (ℕ × Keyboard)
keyboard_getchar [] k = if keyboard_available k then some (buffer_get k) else none
keyboard_getchar (scancode ∷ arrivals) k =
    let waited = keyboard_getchar arrivals (keyboard_handler scancode k) in
    if keyboard_available k then some (buffer_get k) else waited

-- `keyboard_read`, which returns the characters that it writes to `buf`; their number is its result.
unfoldable pub keyboard_read : ℕ → Keyboard → List ℕ × Keyboard
keyboard_read zero k = ([], k)
keyboard_read (suc n) k =
    let (c, k1) = buffer_get k in
    let (cs, k2) = keyboard_read n k1 in if keyboard_available k then (c ∷ cs, k2) else ([], k)
