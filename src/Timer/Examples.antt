-- ===== src/Timer/Examples.antt =====
-- Examples for kernel/drivers/timer.c.
use simpleos.Common.{ℕ, ◌+◌, ◌^◌, ◌-◌, ◌≡◌, arith, [], ◌∷◌, none, some}
use simpleos.Io.{Ports}
use simpleos.Pic.Masks.{masked}
use simpleos.Timer.{
  Timer, timer_init, timer_get_ticks, timer_set_callback, pit_command, pit_channel0,
}
use simpleos.Timer.Ticks.{written, reload, timer_init_lem, interrupts, calls, timer_handler-counts}

abbrev masked_ports : Ports
masked_ports = record { cell = λ port. 0xFF; log = [] }

-- The kernel's 100 Hz.
timer_init_lem_example :
    (io' : Ports) × (timer_init 100 masked_ports ≡ some io')
    × (written pit_command io'.log ≡ 0x34 ∷ [])
    × (reload (written pit_channel0 io'.log) ≡ 11931)
    × (masked io' 0 ≡ 0)
timer_init_lem_example = timer_init_lem 100 masked_ports (λ e. omega (arith, e)) (omega arith)

abbrev full_timer : Timer ℕ
full_timer = record { timer_ticks = 2 ^ 64 - 1; timer_callback = none }

-- Three ticks over the end of the counter, with a callback that counts.
timer_handler-counts_example :
    (timer_get_ticks ((interrupts 3 (timer_set_callback (some (λ s. s + 1)) full_timer, 5)).0) ≡ 2)
    × ((interrupts 3 (timer_set_callback (some (λ s. s + 1)) full_timer, 5)).1 ≡ 8)
unfolding calls
timer_handler-counts_example = timer_handler-counts 3 full_timer (some (λ s. s + 1)) 5 (omega arith)
