-- ===== src/Keyboard/Handler.antt =====
-- The interrupt handler of kernel/drivers/keyboard.c: what it types and what it does to the modifiers.
use simpleos.Common.{
  ℕ, ◌+◌, ◌%◌, ◌<◌, ◌≡◌, refl, arith, Bool, true, false, not, ◌&&◌, ◌||◌, ltb, leb, ◌==◌,
  if◌then◌else◌, List, [], ◌∷◌, ◌++◌, Bool-cases, inl, inr,
}
use simpleos.Common.Bytes.{bit_of, passes, passes_at}
use simpleos.Keyboard.{
  Keyboard, keyboard_handler, key_released, extended_pressed, key_pressed, character_pressed,
  special_key, translate, buffer_put, is_release,
}
use simpleos.Keyboard.Keymap.{us_layout, translate-us_layout}
use simpleos.Keyboard.Buffer.{
  IsKeyboard, pending, pending_count, pending-buffer_put, buffer_put-IsKeyboard,
}

release_table : passes (λ i. if is_release i then leb 128 i else ltb i 128) 256 ≡ true
unfolding passes bit_of
release_table = refl

-- The release bit says that the scancode is 128 or more.
pub is_release_lem : (scancode : ℕ) → scancode < 256 → is_release scancode ≡ leb 128 scancode
is_release_lem scancode h = ground (arith, passes_at _ 256 h release_table)

abbrev pub is_modifier : ℕ → Bool
is_modifier scancode =
    (scancode == 0x2A)
    || (scancode == 0x36)
    || (scancode == 0x1D)
    || (scancode == 0x38)
    || (scancode == 0x3A)

-- The codes 128 to 131 of the arrow keys up, down, left and right, by their scancodes.
abbrev pub arrow_codes : List (ℕ × ℕ)
arrow_codes = (72, 128) ∷ (80, 129) ∷ (75, 130) ∷ (77, 131) ∷ []

abbrev pub code_in : List (ℕ × ℕ) → ℕ → ℕ
code_in [] scancode = 0
code_in ((key, code) ∷ rest) scancode =
    let later = code_in rest scancode in if key == scancode then code else later

-- The character that a scancode types in a state, 0 for none: on a US keyboard, and for the arrow keys
-- after the prefix.
unfoldable pub typed : ℕ → Keyboard → ℕ
typed scancode k =
    if leb 128 scancode
    then 0
    else if k.extended_scancode
    then code_in arrow_codes scancode
    else if is_modifier scancode
    then 0
    else us_layout scancode k.shift_pressed k.capslock_on k.ctrl_pressed

special_key_lem : (scancode : ℕ) → special_key scancode ≡ code_in arrow_codes scancode
special_key_lem scancode = ground arith

-- The queue after a character, 0 being none, was put into it.
abbrev pub enqueue : ℕ → Keyboard → List ℕ
enqueue c k =
    if c == 0
    then pending k
    else if ltb (pending_count k) 255
    then pending k ++ (c ∷ [])
    else pending k

pending-extended_pressed :
    (scancode : ℕ) (k : Keyboard)
    → IsKeyboard k
    → pending (extended_pressed scancode k) ≡ enqueue (special_key scancode) k
unfolding extended_pressed
pending-extended_pressed scancode k v = elim (Bool-cases (special_key scancode == 0)) [
  | inl none_typed ↦ ground (arith, none_typed)
  | inr some_typed ↦ ground (
    arith,
    some_typed,
    pending-buffer_put (special_key scancode) (record k { extended_scancode = false })
        (record { head_lt = v.head_lt; tail_lt = v.tail_lt }),
  )
]

pending-character_pressed :
    (scancode : ℕ) (k : Keyboard)
    → IsKeyboard k
    → pending (character_pressed scancode k)
      ≡ enqueue (translate scancode k.shift_pressed k.capslock_on k.ctrl_pressed) k
unfolding character_pressed
pending-character_pressed scancode k v =
    elim (Bool-cases (translate scancode k.shift_pressed k.capslock_on k.ctrl_pressed == 0)) [
      | inl none_typed ↦ ground (arith, none_typed)
      | inr some_typed ↦ ground (
        arith,
        some_typed,
        pending-buffer_put (translate scancode k.shift_pressed k.capslock_on k.ctrl_pressed) k v,
      )
    ]

pending-key_released : (released : ℕ) (k : Keyboard) → pending (key_released released k) ≡ pending k
unfolding key_released
pending-key_released released k = ground arith

pending-key_pressed :
    (scancode : ℕ) (k : Keyboard)
    → IsKeyboard k
    → pending (key_pressed scancode k) ≡ (
        if is_modifier scancode
        then pending k
        else enqueue (translate scancode k.shift_pressed k.capslock_on k.ctrl_pressed) k)
unfolding key_pressed
pending-key_pressed scancode k v = ground (arith, pending-character_pressed scancode k v)

-- An interrupt appends the one character that its scancode types to those that wait, if it types one
-- and fewer than 255 wait, and otherwise leaves the waiting characters as they were. The character is
-- that of the key on a US keyboard, with shift, caps lock and Ctrl, or after the prefix one of the codes
-- 128 to 131 of the arrow keys; releases and modifier keys type none.
pub pending-keyboard_handler :
    (scancode : ℕ) (k : Keyboard)
    → scancode < 256
    → IsKeyboard k
    → pending (keyboard_handler scancode k) ≡ enqueue (typed scancode k) k
unfolding keyboard_handler typed
pending-keyboard_handler scancode k h v = ground (
  arith,
  is_release_lem scancode h,
  pending-key_released (scancode % 128) k,
  pending-extended_pressed scancode k v,
  pending-key_pressed scancode k v,
  special_key_lem scancode,
  translate-us_layout scancode k.shift_pressed k.capslock_on k.ctrl_pressed,
)

-- The five flags: shift, Ctrl, Alt, caps lock and the prefix 0xE0.
abbrev pub flags : Keyboard → Bool × Bool × Bool × Bool × Bool
flags k = (k.shift_pressed, k.ctrl_pressed, k.alt_pressed, k.capslock_on, k.extended_scancode)

flags-buffer_put : (c : ℕ) (k : Keyboard) → flags (buffer_put c k) ≡ flags k
unfolding buffer_put
flags-buffer_put c k = ground arith

-- A flag that one or two keys hold: set by their press, cleared by their release.
abbrev pub held : Bool → (left right scancode : ℕ) → Bool → Bool
held extended left right scancode flag =
    if extended || (scancode == 0xE0)
    then flag
    else if (scancode == left) || (scancode == right)
    then true
    else if (scancode == left + 128) || (scancode == right + 128)
    then false
    else flag

-- After an interrupt shift, Ctrl and Alt are on if their key was pressed, off if it was released, and
-- as before otherwise; caps lock is changed by the press of its key alone; the prefix is on if it is
-- what arrived. After the prefix no key changes a modifier.
pub flags-keyboard_handler :
    (scancode : ℕ) (k : Keyboard)
    → scancode < 256
    → flags (keyboard_handler scancode k) ≡ (
      held k.extended_scancode 0x2A 0x36 scancode k.shift_pressed,
      held k.extended_scancode 0x1D 0x1D scancode k.ctrl_pressed,
      held k.extended_scancode 0x38 0x38 scancode k.alt_pressed,
      (if not k.extended_scancode && (scancode == 0x3A) then not k.capslock_on else k.capslock_on),
      (scancode == 0xE0),
    )
unfolding keyboard_handler key_released key_pressed extended_pressed character_pressed
flags-keyboard_handler scancode k h = ground (
  arith,
  is_release_lem scancode h,
  flags-buffer_put (special_key scancode) (record k { extended_scancode = false }),
  flags-buffer_put (translate scancode k.shift_pressed k.capslock_on k.ctrl_pressed) k,
)

pub keyboard_handler-IsKeyboard :
    (scancode : ℕ) (k : Keyboard) → IsKeyboard k → IsKeyboard (keyboard_handler scancode k)
unfolding keyboard_handler key_released key_pressed extended_pressed character_pressed
keyboard_handler-IsKeyboard scancode k v =
    (let after_prefix =
        buffer_put-IsKeyboard (special_key scancode) (record k { extended_scancode = false })
          (record { head_lt = v.head_lt; tail_lt = v.tail_lt }) in
      let after_key =
        buffer_put-IsKeyboard (translate scancode k.shift_pressed k.capslock_on k.ctrl_pressed) k
          v in
      record {
        head_lt = ground (arith, v.head_lt, after_prefix.head_lt, after_key.head_lt);
        tail_lt = ground (arith, v.tail_lt, after_prefix.tail_lt, after_key.tail_lt);
      })
