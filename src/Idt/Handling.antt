-- ===== src/Idt/Handling.antt =====
-- Sequences of interrupts through `interrupt_handler` of kernel/cpu/idt.c.
use simpleos.Common.{
  ℕ, suc, ◌-◌, ◌≡◌, refl, arith, Bool, true, false, ◌||◌, ltb, ◌==◌, ==_iff, if◌then◌else◌, List,
  [], ◌∷◌, Option, none, some, Bool-cases, inl, inr, ap, sym, ◌∙◌, subst,
}
use simpleos.Io.{Ports}
use simpleos.Pic.{pic_eoi}
use simpleos.Timer.Ticks.{interrupts}
use simpleos.Keyboard.{Keyboard, keyboard_handler}
use simpleos.Idt.{Devices, interrupt_handler}

-- The vectors that came, each with the scancode that the keyboard had.
abbrev pub Arrivals : Type 0
Arrivals = List (ℕ × ℕ)

abbrev pub and_then {ℓ} : {A B : Type ℓ} → Option A → (A → Option B) → Option B
and_then none f = none
and_then (some x) f = f x

unfoldable pub handle_all : {S : Type 0} → Arrivals → Devices S → Option (Devices S)
handle_all [] d = some d
handle_all ((number, scancode) ∷ rest) d =
    and_then (interrupt_handler number scancode d) (handle_all rest)

-- Is one of the vectors that of an exception?
abbrev pub has_exception : Arrivals → Bool
has_exception [] = false
has_exception ((number, scancode) ∷ rest) = ltb number 32 || has_exception rest

abbrev pub timer_count : Arrivals → ℕ
timer_count [] = 0
timer_count ((number, scancode) ∷ rest) =
    if number == 32 then suc (timer_count rest) else timer_count rest

abbrev pub type_keys : Arrivals → Keyboard → Keyboard
type_keys [] k = k
type_keys ((number, scancode) ∷ rest) k =
    type_keys rest (if number == 33 then keyboard_handler scancode k else k)

abbrev pub end_all : Arrivals → Ports → Ports
end_all [] io = io
end_all ((number, scancode) ∷ rest) io =
    end_all rest (if ltb number 48 then pic_eoi (number - 32) io else io)

abbrev pub served : {S : Type 0} → Arrivals → Devices S → Devices S
served l d = record {
  timer = interrupts (timer_count l) d.timer;
  keyboard = type_keys l d.keyboard;
  ports = end_all l d.ports;
}

-- One vector that is no exception.
abbrev ServedOne : {S : Type 0} → ℕ → ℕ → Devices S → Type 0
ServedOne number scancode d =
    interrupt_handler number scancode d ≡ some (served ((number, scancode) ∷ []) d)

other_served :
    {S : Type 0} (number scancode : ℕ) (d : Devices S)
    → ltb number 32 ≡ false
    → (number == 32) ≡ false
    → (number == 33) ≡ false
    → ServedOne number scancode d
unfolding interrupt_handler interrupts
other_served number scancode d h not_timer not_keyboard =
    (let zero_apart : (number - 32 == 0) ≡ false = ground (arith, h, not_timer) in
      let one_apart : (number - 32 == 1) ≡ false = ground (arith, h, not_keyboard) in
      elim (Bool-cases (ltb number 48)) [
        | inl below ↦ rw (h, below, zero_apart, one_apart, not_timer, not_keyboard) refl
        | inr past ↦ rw (h, past, not_timer, not_keyboard) refl
      ])

timer_served : {S : Type 0} (scancode : ℕ) (d : Devices S) → ServedOne 32 scancode d
unfolding interrupt_handler interrupts
timer_served scancode d = refl

keyboard_served : {S : Type 0} (scancode : ℕ) (d : Devices S) → ServedOne 33 scancode d
unfolding interrupt_handler interrupts
keyboard_served scancode d = refl

one_served :
    {S : Type 0} (number scancode : ℕ) (d : Devices S)
    → ltb number 32 ≡ false
    → ServedOne number scancode d
one_served number scancode d h = elim (Bool-cases (number == 32)) [
  | inl timer ↦
      subst (λ n. ServedOne n scancode d) (sym ((==_iff _ _).0 timer)) (timer_served scancode d)
  | inr not_timer ↦ elim (Bool-cases (number == 33)) [
    | inl keyboard ↦
        subst (λ n. ServedOne n scancode d) (sym ((==_iff _ _).0 keyboard))
          (keyboard_served scancode d)
    | inr not_keyboard ↦ other_served number scancode d h not_timer not_keyboard
  ]
]

served_rest :
    {S : Type 0} (number scancode : ℕ) (rest : Arrivals) (d : Devices S)
    → served rest (served ((number, scancode) ∷ []) d) ≡ served ((number, scancode) ∷ rest) d
unfolding interrupts
served_rest number scancode rest d = elim (Bool-cases (number == 32)) [
  | inl timer ↦ rw timer refl
  | inr apart ↦ rw apart refl
]

none_served : {S : Type 0} (d : Devices S) → some d ≡ some (served [] d)
unfolding interrupts
none_served d = refl

halts :
    {S : Type 0} (number scancode : ℕ) (d : Devices S)
    → ltb number 32 ≡ true
    → interrupt_handler number scancode d ≡ none
unfolding interrupt_handler
halts number scancode d exception = rw exception refl

-- A sequence of interrupts halts the kernel just if there is an exception among them. Otherwise the
-- timer gets one interrupt for each vector 32, the keyboard the scancodes of the vectors 33, in order,
-- and the controllers an end of interrupt for every vector below 48, in order, and nothing else changes.
pub handle_all_lem :
    {S : Type 0} (l : Arrivals) (d : Devices S)
    → handle_all l d ≡ (if has_exception l then none else some (served l d))
unfolding handle_all
handle_all_lem [] d = none_served d
handle_all_lem ((number, scancode) ∷ rest) d = elim (Bool-cases (ltb number 32)) [
  | inl exception ↦
      rw exception (ap (λ o. and_then o (handle_all rest)) (halts number scancode d exception))
  | inr line ↦ rw line (
      ap (λ o. and_then o (handle_all rest)) (one_served number scancode d line)
      ∙ handle_all_lem rest (served ((number, scancode) ∷ []) d)
      ∙ ap (λ x. if has_exception rest then none else some x) (served_rest number scancode rest d))
]
