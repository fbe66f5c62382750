-- ===== src/Boot/Banner/Tests.antt =====
-- An instance of the theorem on the start's texts.
use zero_to_kernel.Prelude.{ℕ, ◌≡◌, false, some, List, [], arith}
use zero_to_kernel.Screen.{Screen, make_color, terminal_init}
use zero_to_kernel.Screen.Output.{color_white, color_black}
use zero_to_kernel.Screen.Output.Log.{echo_all}
use zero_to_kernel.Screen.Output.Calls.{Performs, texts}
use zero_to_kernel.Boot.Banner.{boot_calls, boot_screen}
use zero_to_kernel.Boot.Banner.Shown.{IsReady, boot_screen-Performs}

power_on : Screen
power_on = record {
  vga_buf = λ i. i;
  term_row = 0;
  term_col = 0;
  term_color = 0;
  history_buf = λ l c. 0;
  history_head = 0;
  history_count = 0;
  view_scroll = 0;
  live_snapshot = λ r c. 0;
  serial = [];
  cursor = 0;
  cursor_hidden = false;
}

power_on-IsReady : IsReady power_on
unfolding power_on
power_on-IsReady = omega arith

boot_screen-Performs_instance :
    (text : List ℕ) × (texts boot_calls ≡ some text)
    × Performs
        (echo_all text)
        (make_color color_white color_black)
        (terminal_init power_on)
        (boot_screen 9 power_on)
boot_screen-Performs_instance = boot_screen-Performs 9 power_on power_on-IsReady
