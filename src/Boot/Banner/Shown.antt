-- ===== src/Boot/Banner/Shown.antt =====
-- The start of the kernel prints to the end.
use zero_to_kernel.Prelude.{ℕ, some, ◌≡◌, ◌≤◌, ◌<◌, refl, List, arith}
use zero_to_kernel.Screen.{Screen, make_color, history_lines, terminal_init}
use zero_to_kernel.Screen.Cursor.{IsValid, controls-IsValid}
use zero_to_kernel.Screen.Output.{color_white, color_black}
use zero_to_kernel.Screen.Output.Log.{echo_all}
use zero_to_kernel.Screen.Output.Calls.{
  color_after, Performs, text_of_all, texts, texts-IsPlain, perform_all-Performs,
}
use zero_to_kernel.Screen.Output.Formats.{literals}
use zero_to_kernel.Screen.Output.Lines.{fixed, fixed-IsPlain}
use zero_to_kernel.Boot.Banner.{print_banner, ok, ok_all, boot_calls, boot_screen}

-- The history's indices are in their array; memory that is zero is such.
pub record IsReady (s : Screen) : Type 0 where
  pub head_in : s.history_head < history_lines
  pub count_in : s.history_count ≤ history_lines
  pub view_in : s.view_scroll ≤ s.history_count

pub terminal_init-IsValid : (s : Screen) → IsReady s → IsValid (terminal_init s)
unfolding terminal_init
terminal_init-IsValid s v =
    let home : Screen = record s { term_color = make_color 7 0; term_row = 0; term_col = 0 } in
    let valid : IsValid home = record {
      row_in = omega arith;
      col_in = omega arith;
      head_in = v.head_in;
      count_in = v.count_in;
      view_in = v.view_in;
    } in
    (controls-IsValid 0 0 0 home valid).2

-- Whatever video memory holds, kernel_main prints to its end: its texts, the banner and the parts in their
-- order, go to the serial port, the text is white on black, and the cursor is on the screen.
pub boot_screen-Performs :
    (fuel : ℕ) (s : Screen)
    → IsReady s
    → (text : List ℕ) × (texts boot_calls ≡ some text)
      × Performs
          (echo_all text)
          (make_color color_white color_black)
          (terminal_init s)
          (boot_screen fuel s)
unfolding boot_screen boot_calls print_banner ok ok_all fixed literals color_after
boot_screen-Performs fuel s v =
    let plain = fixed-IsPlain boot_calls refl in
    (
      text_of_all boot_calls plain,
      texts-IsPlain boot_calls plain,
      perform_all-Performs fuel boot_calls (terminal_init s) plain (terminal_init-IsValid s v),
    )
