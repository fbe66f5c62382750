-- ===== src/Devices.antt =====
-- kernel/timer.c and kernel/mouse.c. Port writes are returned as the bytes sent; a port read is an
-- argument of the handler.
pub mod Ticks
pub mod Packets
pub mod Waits
mod Tests
use zero_to_kernel.Prelude.{
  ℕ, zero, suc, ◌+◌, ◌*◌, ◌/◌, ◌%◌, ◌^◌, Bool, true, false, not, ◌&&◌, Option, none, some, List, [],
  ◌∷◌, ◌==◌, ltb, leb, if◌then◌else◌, set, get_or, ◌-◌, ◌++◌, bit_and, bit_or,
}
use zero_to_kernel.Pic.{Out}
use zero_to_kernel.Screen.{Screen, terminal_scroll_up, terminal_scroll_down}

-- PIT_INTERNAL_FREQ
abbrev pub pit_internal_freq : ℕ
pit_internal_freq = 1193180

pub record Timer : Type 0 where
  pub timer_ticks : ℕ
  pub timer_freq : ℕ

unfoldable pub timer_irq_handler : Timer → Timer
timer_irq_handler t = record t { timer_ticks = (t.timer_ticks + 1) % 2 ^ 32 }

-- The divisor for a frequency; it is not 0, since the code divides by it.
unfoldable pub divisor : ℕ → ℕ
divisor frequency =
    let d = pit_internal_freq / frequency in
    let capped = if ltb 65535 d then 65535 else d in if capped == 0 then 1 else capped

-- The new state, the command byte for port 0x43 and the two bytes for port 0x40. Division by 0 traps.
unfoldable pub timer_install : ℕ → Timer → Option (Timer × List ℕ × List ℕ)
timer_install frequency t =
    if frequency == 0
    then none
    else some (
      record t { timer_freq = frequency },
      0x36 ∷ [],
      divisor frequency % 256 ∷ divisor frequency / 256 % 256 ∷ [],
    )

unfoldable pub timer_get_uptime_seconds : Timer → ℕ
timer_get_uptime_seconds t = t.timer_ticks / t.timer_freq

pub record Mouse : Type 0 where
  pub mouse_cycle : ℕ
  pub mouse_packet : List ℕ
  pub mouse_packet_size : ℕ

-- `mouse_packet[3]` as an int8_t: positive, negative or 0.
unfoldable pub wheel : ℕ → Screen → Screen
wheel z s =
    if ltb 0 z && ltb z 128
    then terminal_scroll_down 3 s
    else if leb 128 z
    then terminal_scroll_up 3 s
    else s

-- The handler, with the bytes that the two port reads return; bit 5 of the status says that the
-- byte is the mouse's, bit 3 of the first byte of a packet is always set.
unfoldable pub mouse_irq_handler : ℕ → ℕ → Mouse × Screen → Mouse × Screen
mouse_irq_handler status byte (m, s) =
    let packet = set m.mouse_packet m.mouse_cycle byte in
    let cycle = m.mouse_cycle + 1 in
    if status / 32 % 2 == 0
    then (m, s)
    else if m.mouse_cycle == 0 && byte / 8 % 2 == 0
    then (m, s)
    else if cycle == m.mouse_packet_size
    then (
      record m { mouse_packet = packet; mouse_cycle = 0 },
      (if m.mouse_packet_size == 4 then wheel (get_or packet 3 0) s else s),
    )
    else (record m { mouse_packet = packet; mouse_cycle = cycle }, s)

-- The port writes of timer_install.
unfoldable pub timer_writes : ℕ → List Out
timer_writes frequency =
    (0x43, 0x36) ∷ (0x40, divisor frequency % 256) ∷ (0x40, divisor frequency / 256 % 256) ∷ []

-- The port writes of mouse_write; mouse_wait (in Waits) and mouse_read only read ports.
unfoldable pub mouse_write : ℕ → List Out
mouse_write byte = (0x64, 0xD4) ∷ (0x60, byte) ∷ []

mouse_commands : List ℕ → List Out
mouse_commands [] = []
mouse_commands (byte ∷ rest) = mouse_write byte ++ mouse_commands rest

-- The port writes of mouse_install, with the status byte that it reads.
unfoldable pub mouse_setup : ℕ → List Out
unfolding mouse_commands
mouse_setup status =
    (0x64, 0xA8)
    ∷ (0x64, 0x20)
    ∷ (0x64, 0x60)
    ∷ (0x60, bit_and (bit_or status 2) (255 - 0x20))
    ∷ mouse_commands (0xF6 ∷ 0xF3 ∷ 200 ∷ 0xF3 ∷ 100 ∷ 0xF3 ∷ 80 ∷ 0xF2 ∷ 0xF4 ∷ [])

-- A mouse that answers 3 to the identification has a wheel.
unfoldable pub identified : ℕ → Mouse → Mouse
identified mouse_id m = record m { mouse_packet_size = if mouse_id == 3 then 4 else 3 }
