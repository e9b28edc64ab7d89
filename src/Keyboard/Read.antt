-- ===== src/Keyboard/Read.antt =====
-- Reading in kernel/drivers/keyboard.c: the blocking read waits for the first character.
use simpleos.Common.{
  ℕ, ◌<◌, ◌≡◌, arith, ◌==◌, if◌then◌else◌, List, [], ◌∷◌, ◌++◌, Option, none, some, Bool-cases, inl,
  inr,
}
use simpleos.Keyboard.{Keyboard, keyboard_handler, keyboard_available, keyboard_getchar}
use simpleos.Keyboard.Buffer.{IsKeyboard, pending, pending-buffer_get}
use simpleos.Keyboard.Handler.{typed, pending-keyboard_handler, keyboard_handler-IsKeyboard}

-- The characters that the coming interrupts type, in order.
unfoldable pub typed_all : List ℕ → Keyboard → List ℕ
typed_all [] k = []
typed_all (scancode ∷ arrivals) k =
    let rest = typed_all arrivals (keyboard_handler scancode k) in
    if typed scancode k == 0 then rest else typed scancode k ∷ rest

abbrev pub first : List ℕ → Option ℕ
first [] = none
first (c ∷ cs) = some c

abbrev pub character : Option (ℕ × Keyboard) → Option ℕ
character none = none
character (some (c, k)) = some c

pub data AreBytes : List ℕ → Type 0 where
  nil : AreBytes []
  cons :
      (scancode : ℕ) (arrivals : List ℕ)
      → scancode < 256
      → AreBytes arrivals
      → AreBytes (scancode ∷ arrivals)

-- `keyboard_getchar` returns the oldest character that waits, or else the first that the coming
-- interrupts type, and goes on waiting just if there is neither.
pub keyboard_getchar_lem :
    (arrivals : List ℕ) (k : Keyboard)
    → AreBytes arrivals
    → IsKeyboard k
    → character (keyboard_getchar arrivals k) ≡ first (pending k ++ typed_all arrivals k)
unfolding keyboard_getchar typed_all keyboard_available
keyboard_getchar_lem [] k nil v = elim (Bool-cases (keyboard_available k)) [
  | inl ready ↦ ground (arith, ready, pending-buffer_get k v)
  | inr empty ↦ ground (arith, empty, pending-buffer_get k v)
]
keyboard_getchar_lem (scancode ∷ arrivals) k (cons _ _ h bytes) v =
    elim (Bool-cases (keyboard_available k)) [
      | inl ready ↦ ground (arith, ready, pending-buffer_get k v)
      | inr empty ↦ ground (
        arith,
        empty,
        pending-buffer_get k v,
        pending-keyboard_handler scancode k h v,
        keyboard_getchar_lem arrivals (keyboard_handler scancode k) bytes
            (keyboard_handler-IsKeyboard scancode k v),
      )
    ]
