-- ===== src/Shell/Messages/Files/Tests.antt =====
-- Texts of file commands and an instance of the theorem on them.
use zero_to_kernel.Prelude.{
  ℕ, ◌≡◌, refl, false, none, some, List, [], ◌∷◌, ◌++◌, arith, bytes, bytes_eq,
}
use zero_to_kernel.Fs.{fs_find, fs_free_slot, fill_slot, fs_create_dir, fs_init, fs_read}
use zero_to_kernel.Fs.Files.{fs_init-IsTable}
use zero_to_kernel.Fs.Listing.{child_name, row_of, has_slash, fs_list_dir}
use zero_to_kernel.Screen.{Screen, make_color}
use zero_to_kernel.Screen.Cursor.{IsValid}
use zero_to_kernel.Screen.Printf.{num, str}
use zero_to_kernel.Screen.Output.{
  set_color, format, write, perform_all, color_black, color_light_blue, color_white,
}
use zero_to_kernel.Screen.Output.Log.{echo_all}
use zero_to_kernel.Screen.Output.Calls.{Performs, texts}
use zero_to_kernel.Shell.{resolve_path, path_bytes, strncat_room}
use zero_to_kernel.Shell.Dispatch.{Command, State}
use zero_to_kernel.Shell.Messages.Files.Told.{Told}
use zero_to_kernel.Shell.Messages.{print_prompt}
use zero_to_kernel.Shell.Messages.Files.{row_calls, list_calls, cmd_laf, cmd_look, file_calls}
use zero_to_kernel.Shell.Messages.Files.Shown.{IsShown, file_calls-Performs}

screen : Screen
screen = record {
  vga_buf = λ i. i;
  term_row = 23;
  term_col = 0;
  term_color = 7;
  history_buf = λ l c. 0;
  history_head = 0;
  history_count = 0;
  view_scroll = 0;
  live_snapshot = λ r c. 0;
  serial = [];
  cursor = 0;
  cursor_hidden = false;
}

screen-IsValid : IsValid screen
unfolding screen
screen-IsValid = omega arith

-- In the top directory, with green text.
state : State
state = record {
  fs = fs_init;
  current_dir = bytes "/";
  log = record { shell_history = []; total_commands_run = 1 };
  todos = record { items = []; todo_next_id = 1 };
  shell_text_color = 10;
}

listing :
    cmd_laf (bytes "/") fs_init
    ≡ write (bytes "\n")
      ∷ set_color color_light_blue color_black
      ∷ format (bytes "  %-24s  <DIR>\n") (str (bytes "root") ∷ [])
      ∷ set_color color_white color_black
      ∷ format (bytes "  %d item(s)\n") (num 1 ∷ [])
      ∷ []
unfolding cmd_laf list_calls row_calls fs_list_dir row_of child_name has_slash fs_init fs_create_dir
    fs_find fs_free_slot fill_slot bytes_eq
listing = refl

not_found :
    cmd_look (bytes "/") (bytes "a") fs_init
    ≡ format (bytes "Not found: %s\n") (str (bytes "/a") ∷ []) ∷ []
unfolding cmd_look resolve_path path_bytes strncat_room fs_read fs_init fs_create_dir fs_find
    fs_free_slot fill_slot bytes_eq
not_found = refl

no_text : fs_read (resolve_path (bytes "/") []) 257 fs_init ≡ none
unfolding resolve_path fs_read fs_init fs_create_dir fs_find fs_free_slot fill_slot bytes_eq
no_text = refl

state-IsShown : IsShown [] state
unfolding state fs_init fs_create_dir fs_find fs_free_slot fill_slot bytes_eq
state-IsShown = record {
  files = fs_init-IsTable.0;
  names = omega arith;
  dir = omega arith;
  argument = tt;
  text = λ bs e. let gone = no_text in let same : none ≡ some bs = cc in cc;
}

file_calls-Performs_instance :
    (text : List ℕ) × (texts (cmd_laf (bytes "/") fs_init ++ print_prompt 10 (bytes "/"))
      ≡ some text)
    × Performs
        (echo_all text)
        (make_color 10 color_black)
        screen
        (perform_all 9 (cmd_laf (bytes "/") fs_init ++ print_prompt 10 (bytes "/")) screen)
unfolding state file_calls
file_calls-Performs_instance =
    file_calls-Performs 9 Command.laf [] state (cmd_laf (bytes "/") fs_init) screen state-IsShown
      refl screen-IsValid
