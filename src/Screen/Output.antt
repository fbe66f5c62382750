-- ===== src/Screen/Output.antt =====
-- What the other parts ask of the terminal: the calls of include/screen.h in the order in which they are
-- made, and the colours that they name.
pub mod Log
pub mod Calls
pub mod Formats
pub mod Lines
mod Tests
use zero_to_kernel.Prelude.{ℕ, ◌≢◌, Option, none, some, List, [], ◌∷◌, ◌++◌, All}
use zero_to_kernel.Screen.{
  Screen, make_color, terminal_setcolor, terminal_clear, terminal_writestring,
}
use zero_to_kernel.Screen.Printf.{Arg, terminal_printf}

abbrev pub color_black : ℕ
color_black = 0

abbrev pub color_cyan : ℕ
color_cyan = 3

abbrev pub color_red : ℕ
color_red = 4

abbrev pub color_light_grey : ℕ
color_light_grey = 7

abbrev pub color_dark_grey : ℕ
color_dark_grey = 8

abbrev pub color_light_blue : ℕ
color_light_blue = 9

abbrev pub color_light_green : ℕ
color_light_green = 10

abbrev pub color_light_cyan : ℕ
color_light_cyan = 11

abbrev pub color_light_red : ℕ
color_light_red = 12

abbrev pub color_yellow : ℕ
color_yellow = 14

abbrev pub color_white : ℕ
color_white = 15

-- terminal_setcolor, terminal_clear, terminal_printf, and the bytes of terminal_putchar, terminal_write
-- and terminal_writestring.
pub data Call : Type 0 where
  set_color : ℕ → ℕ → Call
  clear : Call
  format : List ℕ → List Arg → Call
  write : List ℕ → Call

-- The bytes that a call gives to terminal_putchar.
unfoldable pub text_of : Call → Option (List ℕ)
text_of (set_color fg bg) = some []
text_of clear = some []
text_of (format fmt args) = terminal_printf fmt args
text_of (write bs) = some bs

write_text : ℕ → Option (List ℕ) → Screen → Option Screen
write_text fuel none s = none
write_text fuel (some bs) s = terminal_writestring fuel bs s

-- A call, with the fuel of terminal_putchar; a format without its arguments is `none`.
unfoldable pub perform : ℕ → Call → Screen → Option Screen
unfolding write_text
perform fuel (set_color fg bg) s = some (terminal_setcolor fg bg s)
perform fuel clear s = some (terminal_clear s)
perform fuel (format fmt args) s = write_text fuel (text_of (format fmt args)) s
perform fuel (write bs) s = terminal_writestring fuel bs s

perform_next : Option Screen → (Screen → Option Screen) → Option Screen
perform_next none k = none
perform_next (some s) k = k s

unfoldable pub perform_all : ℕ → List Call → Screen → Option Screen
unfolding perform_next
perform_all fuel [] s = some s
perform_all fuel (c ∷ cs) s = perform_next (perform fuel c s) (perform_all fuel cs)
