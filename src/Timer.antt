-- ===== src/Timer.antt =====
-- The programmable interval timer, kernel/drivers/timer.c. The callback acts on the state `S` of
-- whoever set it.
pub mod Ticks
mod Examples
use simpleos.Common.{ℕ, zero, suc, ◌+◌, ◌/◌, ◌%◌, ◌^◌, ◌==◌, if◌then◌else◌, Option, none, some}
use simpleos.Io.{Ports, outb}
use simpleos.Pic.{pic_enable_irq}

abbrev pub pit_channel0 : ℕ
pit_channel0 = 0x40

abbrev pub pit_command : ℕ
pit_command = 0x43

-- Channel 0, low byte then high byte, mode 2, binary.
abbrev pub pit_mode : ℕ
pit_mode = 0x34

abbrev pub pit_frequency : ℕ
pit_frequency = 1193182

-- `PIT_FREQUENCY / frequency` traps for frequency 0, which is the outcome `none`.
unfoldable pub timer_init : ℕ → Ports → Option Ports
timer_init frequency io =
    let divisor = pit_frequency / frequency in
    let io1 = outb pit_command pit_mode io in
    let io2 = outb pit_channel0 (divisor % 256) io1 in
    let io3 = outb pit_channel0 ((divisor / 256) % 256) io2 in
    if frequency == 0 then none else some (pic_enable_irq 0 io3)

pub record Timer (S : Type 0) : Type 0 where
  pub timer_ticks : ℕ
  pub timer_callback : Option (S → S)

module _ {S : Type 0} where
  abbrev pub call : Option (S → S) → S → S
  call none s = s
  call (some callback) s = callback s

  unfoldable pub timer_handler : Timer S × S → Timer S × S
  timer_handler (t, s) =
      (record t { timer_ticks = (t.timer_ticks + 1) % 2 ^ 64 }, call t.timer_callback s)

  unfoldable pub timer_get_ticks : Timer S → ℕ
  timer_get_ticks t = t.timer_ticks

  unfoldable pub timer_set_callback : Option (S → S) → Timer S → Timer S
  timer_set_callback callback t = record t { timer_callback = callback }
