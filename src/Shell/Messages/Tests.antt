-- ===== src/Shell/Messages/Tests.antt =====
-- Texts of the shell and an instance of the theorem on them.
use zero_to_kernel.Prelude.{
  ℕ, ◌≡◌, refl, false, true, none, some, List, [], ◌∷◌, ◌++◌, arith, bytes, bytes_eq,
}
use zero_to_kernel.Heap.{Heap, header, heap}
use zero_to_kernel.Fs.{fs_init}
use zero_to_kernel.Fs.Files.{fs_init-IsTable}
use zero_to_kernel.Screen.{Screen, make_color}
use zero_to_kernel.Screen.Cursor.{IsValid}
use zero_to_kernel.Screen.Printf.{str}
use zero_to_kernel.Screen.Output.{format, write, perform_all, color_black}
use zero_to_kernel.Screen.Output.Log.{echo_all}
use zero_to_kernel.Screen.Output.Calls.{Performs, texts}
use zero_to_kernel.Shell.{home}
use zero_to_kernel.Shell.Dispatch.{Command, State}
use zero_to_kernel.Shell.Messages.{
  print_prompt, ref_found, find_ref, cmd_ref, cmd_sysinfo, print_only,
}
use zero_to_kernel.Shell.Messages.Plain.{IsShown, print_only-Performs}

screen : Screen
screen = record {
  vga_buf = λ i. i;
  term_row = 23;
  term_col = 0;
  term_color = 7;
  history_buf = λ l c. 0;
  history_head = 0;
  history_count = 0;
  view_scroll = 0;
  live_snapshot = λ r c. 0;
  serial = [];
  cursor = 0;
  cursor_hidden = false;
}

screen-IsValid : IsValid screen
unfolding screen
screen-IsValid = omega arith

refs :
    (cmd_ref (bytes "dice") ≡ write (bytes "  dice -- Roll a dice\n  Example: dice\n") ∷ [])
    × (cmd_ref [] ≡ write (bytes "Usage: ref [cmd]\n") ∷ [])
    × (cmd_ref (bytes "notes")
        ≡ format
            (bytes "  %s -- see 'cmds' for a full list of commands.\n")
            (str (bytes "notes") ∷ [])
          ∷ [])
unfolding cmd_ref find_ref ref_found bytes_eq
refs = (refl, refl, refl)

state : State
state = record {
  fs = fs_init;
  current_dir = home;
  log = record { shell_history = []; total_commands_run = 12 };
  todos = record { items = []; todo_next_id = 1 };
  shell_text_color = 15;
}

some_heap : Heap
some_heap = heap (λ a. header 262132 true none) (some 0) 12

state-IsShown : IsShown [] some_heap 3700 state
unfolding state some_heap
state-IsShown = record {
  heap_used = omega arith;
  uptime = omega arith;
  runs = omega arith;
  files = fs_init-IsTable.0;
  dir = omega arith;
  argument = tt;
}

print_only-Performs_example :
    (text : List ℕ) × (texts (print_prompt 15 home ++ cmd_sysinfo 3700 state) ≡ some text)
    × Performs
        (echo_all text)
        (make_color 15 color_black)
        screen
        (perform_all 9 (print_prompt 15 home ++ cmd_sysinfo 3700 state) screen)
unfolding state print_only
print_only-Performs_example =
    print_only-Performs 9 Command.sysinfo [] some_heap 3700 state (cmd_sysinfo 3700 state) screen
      state-IsShown refl screen-IsValid
