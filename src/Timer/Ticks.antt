-- ===== src/Timer/Ticks.antt =====
-- What kernel/drivers/timer.c programs and counts.
use simpleos.Common.{
  ℕ, zero, suc, ◌+◌, ◌*◌, ◌/◌, ◌%◌, ◌^◌, ◌<◌, ◌≢◌, ◌≡◌, refl, arith, ◌==◌, if◌then◌else◌, List, [],
  ◌∷◌, Option, some,
}
use simpleos.Io.{Ports, outb}
use simpleos.Pic.{pic1_data, pic_enable_irq}
use simpleos.Pic.Masks.{masked, masked-pic_enable_irq}
use simpleos.Timer.{
  Timer, call, pit_command, pit_channel0, pit_mode, pit_frequency, timer_init, timer_handler,
  timer_get_ticks, timer_set_callback,
}

-- The bytes written to a port, the last one first.
abbrev pub written : ℕ → List (ℕ × ℕ) → List ℕ
written port [] = []
written port ((port', value) ∷ log) =
    let rest = written port log in if port == port' then value ∷ rest else rest

-- The number that a timer receives which takes the low byte and then the high byte.
abbrev pub reload : List ℕ → ℕ
reload (high ∷ low ∷ rest) = low + 256 * high
reload (low ∷ []) = 0
reload [] = 0

-- `timer_init` for a frequency other than 0 sends the mode byte to the command port, leaves the timer
-- with the reload value `1193182 / frequency`, cut to 16 bits, and enables its interrupt line 0.
pub timer_init_lem :
    (frequency : ℕ) (io : Ports)
    → frequency ≢ 0
    → io.cell pic1_data < 256
    → (io' : Ports) × (timer_init frequency io ≡ some io')
      × (written pit_command io'.log ≡ pit_mode ∷ written pit_command io.log)
      × (reload (written pit_channel0 io'.log) ≡ (pit_frequency / frequency) % 2 ^ 16)
      × (masked io' 0 ≡ 0)
unfolding timer_init pic_enable_irq
timer_init_lem frequency io h b =
    (let divisor = pit_frequency / frequency in
      let io3 =
        outb pit_channel0 ((divisor / 256) % 256)
          (outb pit_channel0 (divisor % 256) (outb pit_command pit_mode io)) in
      (
        pic_enable_irq 0 io3,
        ground (arith, h),
        ground arith,
        omega arith,
        masked-pic_enable_irq io3 0 0 (omega arith) (omega arith) b,
      ))

-- `n` timer interrupts in a row, and `n` calls of a callback.
unfoldable pub interrupts : {S : Type 0} → ℕ → Timer S × S → Timer S × S
interrupts zero x = x
interrupts (suc n) x = interrupts n (timer_handler x)

unfoldable pub calls : {S : Type 0} → ℕ → Option (S → S) → S → S
calls zero callback s = s
calls (suc n) callback s = calls n callback (call callback s)

-- `n` interrupts after the callback is set advance the tick count by `n`, modulo `2 ^ 64`, and call
-- the callback `n` times.
pub timer_handler-counts :
    {S : Type 0} (n : ℕ) (t : Timer S) (callback : Option (S → S)) (s : S)
    → t.timer_ticks < 2 ^ 64
    → (timer_get_ticks ((interrupts n (timer_set_callback callback t, s)).0)
        ≡ (t.timer_ticks + n) % 2 ^ 64)
      × ((interrupts n (timer_set_callback callback t, s)).1 ≡ calls n callback s)
unfolding timer_handler timer_get_ticks timer_set_callback interrupts calls
timer_handler-counts zero t callback s h = (omega arith, refl)
timer_handler-counts (suc n) t callback s h =
    (let (ticks, called) =
        timer_handler-counts n (record t { timer_ticks = (t.timer_ticks + 1) % 2 ^ 64 }) callback
          (call callback s) (omega arith) in
      (omega (arith, ticks), called))
