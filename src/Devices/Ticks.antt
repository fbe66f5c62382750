-- ===== src/Devices/Ticks.antt =====
-- The timer: what is sent to the chip, and the uptime.
use zero_to_kernel.Prelude.{ℕ, ◌+◌, ◌*◌, ◌/◌, ◌%◌, ◌^◌, ◌<◌, ◌≡◌, arith}
use zero_to_kernel.Devices.{divisor}

-- For a frequency other than 0 the divisor has 16 bits and is not 0, so that its two bytes give it back.
pub divisor_fits :
    (frequency : ℕ)
    → 0 < frequency
    → (0 < divisor frequency)
      × (divisor frequency < 2 ^ 16)
      × (divisor frequency % 256 + divisor frequency / 256 % 256 * 256 ≡ divisor frequency)
unfolding divisor
divisor_fits frequency some_freq = ground arith
