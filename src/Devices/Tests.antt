-- ===== src/Devices/Tests.antt =====
-- Runs of the timer and the mouse and instances of their theorems.
use zero_to_kernel.Prelude.{
  ◌+◌, ◌*◌, ◌/◌, ◌%◌, ◌^◌, ◌<◌, ◌≡◌, refl, inr, false, none, some, [], ◌∷◌, arith, replicate,
}
use zero_to_kernel.Screen.{Screen}
use zero_to_kernel.Devices.{
  Timer, timer_irq_handler, divisor, timer_install, timer_get_uptime_seconds, wheel,
  mouse_irq_handler,
}
use zero_to_kernel.Devices.Waits.{wait_loop, is_ready}
use zero_to_kernel.Devices.Ticks.{divisor_fits}
use zero_to_kernel.Devices.Packets.{
  IsMouse, mouse_irq_handler-IsMouse, feed, wheel_mouse, feed_packet,
}

-- The third read finds a byte; without one the wait gives up.
waits : (wait_loop 0 9 (λ i. i / 2 + 0x14) ≡ 3) × (wait_loop 1 9 (λ i. 2) ≡ 9)
unfolding wait_loop is_ready
waits = (refl, refl)

abbrev wrapping : Timer
wrapping = record { timer_ticks = 4294967295; timer_freq = 100 }

timer_runs :
    (timer_install 100 wrapping ≡ some (wrapping, 0x36 ∷ [], 155 ∷ 46 ∷ []))
    × (timer_install 0 wrapping ≡ none)
    × ((timer_irq_handler wrapping).timer_ticks ≡ 0)
    × (timer_get_uptime_seconds wrapping ≡ 42949672)
unfolding timer_install divisor timer_irq_handler timer_get_uptime_seconds
timer_runs = (refl, refl, refl, refl)

divisor_fits_instance :
    (0 < divisor 18)
    × (divisor 18 < 2 ^ 16)
    × (divisor 18 % 256 + divisor 18 / 256 % 256 * 256 ≡ divisor 18)
divisor_fits_instance = divisor_fits 18 (omega arith)

abbrev screen : Screen
screen = record {
  vga_buf = λ i. i;
  term_row = 0;
  term_col = 0;
  term_color = 7;
  history_buf = λ l c. l;
  history_head = 4;
  history_count = 4;
  view_scroll = 0;
  live_snapshot = λ r c. 0;
  serial = [];
  cursor = 0;
  cursor_hidden = false;
}

fresh-IsMouse : IsMouse (wheel_mouse 0 (replicate 4 0))
fresh-IsMouse = record { sized = refl; kind = inr refl; inside = omega arith }

mouse_irq_handler-IsMouse_instance :
    IsMouse (mouse_irq_handler 32 8 (wheel_mouse 0 (replicate 4 0), screen)).0
mouse_irq_handler-IsMouse_instance =
    mouse_irq_handler-IsMouse 32 8 (wheel_mouse 0 (replicate 4 0)) screen fresh-IsMouse

feed_packet_instance :
    feed (8 ∷ 1 ∷ 2 ∷ 255 ∷ []) (wheel_mouse 0 (replicate 4 0), screen)
    ≡ (wheel_mouse 0 (8 ∷ 1 ∷ 2 ∷ 255 ∷ []), wheel 255 screen)
feed_packet_instance = feed_packet 8 1 2 255 (replicate 4 0) screen refl refl
