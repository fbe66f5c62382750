-- ===== src/Editor/Drawing/Tests.antt =====
-- A drawn session and an instance of the theorem on such sessions.
use zero_to_kernel.Prelude.{
  ℕ, ◌≡◌, ◌⊎◌, refl, false, none, some, List, [], ◌∷◌, ◌++◌, arith, bytes, bytes_eq,
}
use zero_to_kernel.Fs.{
  fs_find, fs_free_slot, fill_slot, fs_create, fs_create_dir, fs_init, fs_write, fs_read, store,
  written,
}
use zero_to_kernel.Fs.Files.{fs_init-IsTable}
use zero_to_kernel.Screen.{Screen, make_color}
use zero_to_kernel.Screen.Cursor.{IsValid}
use zero_to_kernel.Screen.Output.{Call, clear, write, perform_all, color_white, color_black}
use zero_to_kernel.Screen.Output.Log.{echo_all}
use zero_to_kernel.Screen.Output.Calls.{Performs, texts}
use zero_to_kernel.Editor.{
  input_loop, handle_key, handle_backspace_key, handle_enter_key, handle_printable_char,
  load_file_or_create,
}
use zero_to_kernel.Editor.Drawing.{
  draw_editor_header, draw_editor_divider, display_file_content, save_and_show_result, editor_calls,
}
use zero_to_kernel.Editor.Drawing.Shown.{editor_calls-Performs}

screen : Screen
screen = record {
  vga_buf = λ i. i;
  term_row = 23;
  term_col = 0;
  term_color = 15;
  history_buf = λ l c. 0;
  history_head = 0;
  history_count = 0;
  view_scroll = 0;
  live_snapshot = λ r c. 0;
  serial = [];
  cursor = 0;
  cursor_hidden = false;
}

screen-IsValid : IsValid screen
unfolding screen
screen-IsValid = omega arith

-- A new file, in which an "a" is typed.
abbrev drawn : List Call
drawn =
    (clear ∷ draw_editor_header (bytes "/b") ++ (draw_editor_divider ++ []))
    ++ (write (97 ∷ []) ∷ save_and_show_result (bytes "/b") (written 1))

session : editor_calls (bytes "/b") (97 ∷ 27 ∷ []) fs_init ≡ some drawn
unfolding editor_calls load_file_or_create fs_create fs_create_dir fs_init fs_find fs_free_slot
    fill_slot fs_write fs_read store bytes_eq input_loop handle_key handle_backspace_key
    handle_enter_key handle_printable_char display_file_content
session = refl

not_there : fs_read (bytes "/b") 257 fs_init ≡ none
unfolding fs_read fs_find fs_init fs_create_dir fs_free_slot fill_slot bytes_eq
not_there = refl

editor_calls-Performs_example :
    (text : List ℕ) × (texts drawn ≡ some text)
    × (c : ℕ) × Performs (echo_all text) c screen (perform_all 9 drawn screen)
    × ((c ≡ make_color color_white color_black) ⊎ (c ≡ screen.term_color))
unfolding screen
editor_calls-Performs_example =
    editor_calls-Performs 9 (bytes "/b") (97 ∷ 27 ∷ []) fs_init drawn screen (omega arith)
      fs_init-IsTable.0 (λ bs e. let gone = not_there in let none_there : none ≡ some bs = cc in cc)
      session screen-IsValid
