-- ===== src/Idt.antt =====
-- The interrupt descriptor table and the interrupt handler, kernel/cpu/idt.c. The entry points, which
-- are assembly, are two functions of the number: `isr` for exceptions and `irq` for the lines.
pub mod Gates
pub mod Handling
mod Examples
use simpleos.Common.{
  ℕ, zero, suc, ◌+◌, ◌-◌, ◌*◌, ◌/◌, ◌%◌, ◌^◌, Bool, true, false, ltb, ◌==◌, if◌then◌else◌, List, [],
  ◌∷◌, Option, none, some,
}
use simpleos.Common.Bytes.{update}
use simpleos.Io.{Ports}
use simpleos.Pic.{pic_eoi}
use simpleos.Timer.{Timer, timer_handler}
use simpleos.Keyboard.{Keyboard, keyboard_handler}

pub record Gate : Type 0 where
  pub offset_low : ℕ
  pub selector : ℕ
  pub ist : ℕ
  pub type_attr : ℕ
  pub offset_mid : ℕ
  pub offset_high : ℕ
  pub reserved : ℕ

-- `IDT_TYPE_INTERRUPT | IDT_PRESENT | IDT_DPL0` and `IDT_TYPE_TRAP | IDT_PRESENT | IDT_DPL3`.
abbrev pub interrupt_gate : ℕ
interrupt_gate = 0x8E

abbrev pub trap_gate : ℕ
trap_gate = 0xEF

abbrev pub kernel_code : ℕ
kernel_code = 0x08

-- The table, and the limit and base that the processor was given.
pub record Idt : Type 0 where
  pub gates : ℕ → Gate
  pub limit : ℕ
  pub base : ℕ

abbrev pub gate_of : ℕ → ℕ → ℕ → Gate
gate_of handler selector type_attr = record {
  offset_low = handler % 2 ^ 16;
  selector = selector;
  ist = 0;
  type_attr = type_attr;
  offset_mid = (handler / 2 ^ 16) % 2 ^ 16;
  offset_high = (handler / 2 ^ 32) % 2 ^ 32;
  reserved = 0;
}

unfoldable pub idt_set_entry : ℕ → ℕ → ℕ → ℕ → (ℕ → Gate) → ℕ → Gate
idt_set_entry num handler selector type_attr gates =
    update gates (num % 256) (gate_of handler selector type_attr)

-- The loop of `idt_init` from vector `i` on.
unfoldable pub clear_gates : ℕ → ℕ → (ℕ → Gate) → ℕ → Gate
clear_gates zero i gates = gates
clear_gates (suc rounds) i gates = clear_gates rounds (i + 1) (idt_set_entry i 0 0 0 gates)

-- The calls for exceptions: the vector, whose entry point has the same number, and the type.
abbrev pub exception_gates : List (ℕ × ℕ)
exception_gates =
    (0, interrupt_gate)
    ∷ (1, interrupt_gate)
    ∷ (2, interrupt_gate)
    ∷ (3, trap_gate)
    ∷ (4, trap_gate)
    ∷ (5, interrupt_gate)
    ∷ (6, interrupt_gate)
    ∷ (7, interrupt_gate)
    ∷ (8, interrupt_gate)
    ∷ (10, interrupt_gate)
    ∷ (11, interrupt_gate)
    ∷ (12, interrupt_gate)
    ∷ (13, interrupt_gate)
    ∷ (14, interrupt_gate)
    ∷ (16, interrupt_gate)
    ∷ (17, interrupt_gate)
    ∷ (18, interrupt_gate)
    ∷ (19, interrupt_gate)
    ∷ (20, interrupt_gate)
    ∷ []

unfoldable pub set_exceptions : List (ℕ × ℕ) → (ℕ → ℕ) → (ℕ → Gate) → ℕ → Gate
set_exceptions [] isr gates = gates
set_exceptions ((v, type_attr) ∷ rest) isr gates =
    set_exceptions rest isr (idt_set_entry v (isr v) kernel_code type_attr gates)

-- The calls for the lines from `i` on.
unfoldable pub set_irqs : ℕ → ℕ → (ℕ → ℕ) → (ℕ → Gate) → ℕ → Gate
set_irqs zero i irq gates = gates
set_irqs (suc rounds) i irq gates =
    set_irqs rounds (i + 1) irq (idt_set_entry (32 + i) (irq i) kernel_code interrupt_gate gates)

-- `idt_load` with the address of the table: 256 gates of 16 bytes.
unfoldable pub idt_load : ℕ → Idt → Idt
idt_load address idt = record idt { limit = 256 * 16 - 1; base = address }

unfoldable pub idt_init : (ℕ → ℕ) → (ℕ → ℕ) → ℕ → Idt → Idt
idt_init isr irq address idt = idt_load address (record idt {
  gates = set_irqs 16 0 irq (set_exceptions exception_gates isr (clear_gates 256 0 idt.gates));
})

-- What the handler acts on: the timer with the state of the owner of its callback, the keyboard and
-- the ports of the controllers.
pub record Devices (S : Type 0) : Type 0 where
  pub timer : Timer S × S
  pub keyboard : Keyboard
  pub ports : Ports

module _ {S : Type 0} where
  -- The handler of the device of a line; the keyboard has the scancode ready.
  abbrev pub dispatch : ℕ → ℕ → Devices S → Devices S
  dispatch irq scancode d =
      if irq == 0
      then record d { timer = timer_handler d.timer }
      else if irq == 1
      then record d { keyboard = keyboard_handler scancode d.keyboard }
      else d

  abbrev pub acknowledge : ℕ → Devices S → Devices S
  acknowledge irq d = record d { ports = pic_eoi irq d.ports }

  -- `none` is the halt at an exception.
  unfoldable pub interrupt_handler : ℕ → ℕ → Devices S → Option (Devices S)
  interrupt_handler number scancode d =
      if ltb number 32
      then none
      else if ltb number 48
      then some (acknowledge (number - 32) (dispatch (number - 32) scancode d))
      else some d
