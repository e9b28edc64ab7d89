-- ===== src/Idt/Examples.antt =====
-- Small runs of kernel/cpu/idt.c, and its theorems at concrete states.
use simpleos.Common.{ℕ, ◌+◌, ◌*◌, ◌≡◌, arith, false, [], ◌∷◌, some}
use simpleos.Idt.{Idt, Devices, idt_init, gate_of}
use simpleos.Idt.Gates.{read_gate, idt_init-gate_at}
use simpleos.Idt.Handling.{handle_all, handle_all_lem, served}

abbrev no_table : Idt
no_table = record { gates = λ _. gate_of 0 0 0; limit = 0; base = 0 }

-- The page fault.
idt_init-gate_at_example :
    (read_gate
        ((idt_init (λ v. 0x100000 + v * 16) (λ i. 0x200000 + i * 16) 0x9000 no_table).gates 14)
      ≡ (0x1000E0, 8, 0, 0x8E))
    × ((idt_init (λ v. 0x100000 + v * 16) (λ i. 0x200000 + i * 16) 0x9000 no_table).limit ≡ 4095)
    × ((idt_init (λ v. 0x100000 + v * 16) (λ i. 0x200000 + i * 16) 0x9000 no_table).base ≡ 0x9000)
idt_init-gate_at_example =
    idt_init-gate_at (λ v. 0x100000 + v * 16) (λ i. 0x200000 + i * 16) 0x9000 no_table 14
      (omega arith) (omega arith) (omega arith)

abbrev devices : Devices ℕ
devices = record {
  timer = (record { timer_ticks = 7; timer_callback = some (λ s. s + 1) }, 5);
  keyboard = record {
    key_buffer = λ _. 0;
    buffer_head = 0;
    buffer_tail = 0;
    shift_pressed = false;
    ctrl_pressed = false;
    alt_pressed = false;
    capslock_on = false;
    extended_scancode = false;
  };
  ports = record { cell = λ _. 0; log = [] };
}

-- A tick, a key, an interrupt of line 8, and a tick.
handle_all_lem_example :
    handle_all ((32, 0) ∷ (33, 0x1E) ∷ (40, 0) ∷ (32, 0) ∷ []) devices
    ≡ some (served ((32, 0) ∷ (33, 0x1E) ∷ (40, 0) ∷ (32, 0) ∷ []) devices)
handle_all_lem_example = handle_all_lem ((32, 0) ∷ (33, 0x1E) ∷ (40, 0) ∷ (32, 0) ∷ []) devices
