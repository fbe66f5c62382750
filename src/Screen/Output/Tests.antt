-- ===== src/Screen/Output/Tests.antt =====
-- Calls of the terminal and an instance of the theorem on them.
use zero_to_kernel.Prelude.{◌≡◌, refl, false, none, List, [], ◌∷◌, arith, bytes, All}
use zero_to_kernel.Screen.{Screen}
use zero_to_kernel.Screen.Cursor.{IsValid}
use zero_to_kernel.Screen.Printf.{
  field, in_field, convert, takes_arg, take_arg, literal, step, printf_loop, terminal_printf,
}
use zero_to_kernel.Screen.Output.{
  Call, set_color, format, write, text_of, perform_all, color_black, color_red, color_yellow,
}
use zero_to_kernel.Screen.Output.Log.{echo_all}
use zero_to_kernel.Screen.Output.Calls.{
  IsPlain, color_after, Performs, text_of_all, perform_all-Performs,
}
use zero_to_kernel.Screen.Output.Formats.{literals}
use zero_to_kernel.Screen.Output.Lines.{fixed, fixed-IsPlain}

at_bottom : Screen
at_bottom = record {
  vga_buf = λ i. i;
  term_row = 23;
  term_col = 79;
  term_color = 7;
  history_buf = λ l c. 0;
  history_head = 0;
  history_count = 0;
  view_scroll = 0;
  live_snapshot = λ r c. 0;
  serial = [];
  cursor = 0;
  cursor_hidden = false;
}

at_bottom-IsValid : IsValid at_bottom
unfolding at_bottom
at_bottom-IsValid = omega arith

missing_arg : text_of (format (bytes "%d") []) ≡ none
unfolding text_of terminal_printf printf_loop step literal convert takes_arg take_arg field in_field
missing_arg = refl

abbrev warning : List Call
warning =
    set_color color_yellow color_black ∷ write (bytes "a\nb") ∷ set_color color_red color_black ∷ []

warning-IsPlain : All IsPlain warning
unfolding fixed literals
warning-IsPlain = fixed-IsPlain warning refl

perform_all-Performs_example :
    Performs
      (echo_all (text_of_all warning warning-IsPlain))
      (color_after warning 7)
      at_bottom
      (perform_all 9 warning at_bottom)
unfolding at_bottom
perform_all-Performs_example =
    perform_all-Performs 9 warning at_bottom warning-IsPlain at_bottom-IsValid
