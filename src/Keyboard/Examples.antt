-- ===== src/Keyboard/Examples.antt =====
-- Examples for kernel/drivers/keyboard.c.
use simpleos.Common.{◌≡◌, arith, true, false, [], ◌∷◌, some, ◌==◌, if◌then◌else◌}
use simpleos.Common.Bytes.{bit_of}
use simpleos.Common.Ring.{slots}
use simpleos.Keyboard.{
  Keyboard, buffer_put, buffer_get, keyboard_handler, keyboard_read, keyboard_getchar, translate,
  keyboard_available, lookup, apply_capslock, apply_ctrl, key_released, key_pressed,
}
use simpleos.Keyboard.Keymap.{us_layout, translate-us_layout}
use simpleos.Keyboard.Buffer.{
  IsKeyboard, pending, pending-buffer_put, pending-buffer_get, keyboard_read_lem,
}
use simpleos.Keyboard.Handler.{typed, flags, pending-keyboard_handler, flags-keyboard_handler}
use simpleos.Keyboard.Read.{typed_all, character, nil, cons, keyboard_getchar_lem}

-- Two characters, `h` in the last cell of the ring and `i` in the first one.
abbrev wrapped : Keyboard
wrapped = record {
  key_buffer = λ i. if i == 255 then b'h' else if i == 0 then b'i' else 0;
  buffer_head = 1;
  buffer_tail = 255;
  shift_pressed = true;
  ctrl_pressed = false;
  alt_pressed = false;
  capslock_on = false;
  extended_scancode = false;
}

wrapped-IsKeyboard : IsKeyboard wrapped
wrapped-IsKeyboard = record { head_lt = omega arith; tail_lt = omega arith }

pending-buffer_put_example : pending (buffer_put b'!' wrapped) ≡ b'h' ∷ b'i' ∷ b'!' ∷ []
unfolding slots
pending-buffer_put_example = pending-buffer_put b'!' wrapped wrapped-IsKeyboard

pending-buffer_get_example : pending wrapped ≡ b'h' ∷ pending ((buffer_get wrapped).1)
unfolding buffer_get keyboard_available
pending-buffer_get_example = pending-buffer_get wrapped wrapped-IsKeyboard

keyboard_read_lem_example :
    ((keyboard_read 5 wrapped).0 ≡ b'h' ∷ b'i' ∷ []) × (pending ((keyboard_read 5 wrapped).1) ≡ [])
unfolding slots
keyboard_read_lem_example = keyboard_read_lem 5 wrapped wrapped-IsKeyboard

translate-us_layout_example : translate 0x1E true false false ≡ b'A'
unfolding us_layout
translate-us_layout_example = translate-us_layout 0x1E true false false (omega arith)

pending-keyboard_handler_example : pending (keyboard_handler 0x1E wrapped) ≡ b'h' ∷ b'i' ∷ b'A' ∷ []
unfolding slots typed us_layout
pending-keyboard_handler_example =
    pending-keyboard_handler 0x1E wrapped (omega arith) wrapped-IsKeyboard

flags-keyboard_handler_example :
    flags (keyboard_handler 0xAA wrapped) ≡ (false, false, false, false, false)
flags-keyboard_handler_example = flags-keyboard_handler 0xAA wrapped (omega arith)

-- Nothing waits; shift is released, and then the key `a` is pressed.
abbrev drained : Keyboard
drained = record wrapped { buffer_tail = 1 }

keyboard_getchar_lem_example : character (keyboard_getchar (0xAA ∷ 0x1E ∷ []) drained) ≡ some b'a'
unfolding slots typed_all typed us_layout keyboard_handler key_released key_pressed translate lookup
    apply_capslock apply_ctrl bit_of
keyboard_getchar_lem_example =
    keyboard_getchar_lem (0xAA ∷ 0x1E ∷ []) drained
      (cons 0xAA (0x1E ∷ []) (omega arith) (cons 0x1E [] (omega arith) nil))
      (record { head_lt = omega arith; tail_lt = omega arith })
