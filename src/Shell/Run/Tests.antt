-- ===== src/Shell/Run/Tests.antt =====
-- Turns of the shell and instances of the theorems on them.
use zero_to_kernel.Prelude.{
  ℕ, ◌≡◌, refl, inl, inr, false, some, List, [], ◌∷◌, ◌++◌, arith, bytes, bytes_eq, replicate,
  length,
}
use zero_to_kernel.Fs.{
  fs_find, fs_free_slot, fill_slot, fs_create, fs_create_dir, fs_init, store, fs_write,
}
use zero_to_kernel.Fs.Lookup.{lookup}
use zero_to_kernel.Fs.Files.{file, fs_init-IsTable}
use zero_to_kernel.Screen.{Screen}
use zero_to_kernel.Screen.Cursor.{IsValid}
use zero_to_kernel.Editor.{key_esc}
use zero_to_kernel.Shell.Dispatch.{has_tab}
use zero_to_kernel.Shell.{path_overruns, home, resolve_path, path_bytes, strncat_room, cmd_see}
use zero_to_kernel.Shell.Typing.Manager.{fs_create-IsTable, fs_write-IsTable}
use zero_to_kernel.Shell.Todo.{Numbered}
use zero_to_kernel.Shell.Dispatch.{State, command_of, run_command}
use zero_to_kernel.Shell.Dispatch.Outcomes.{IsState}
use zero_to_kernel.Shell.Run.{Session, goes_on, after_round, input_max, shell_turn, shell_run}
use zero_to_kernel.Shell.Run.Turns.{IsSession, Turns, shell_turn-Turns}
use zero_to_kernel.Shell.Run.Sessions.{Keeps, shell_run-Keeps}
use zero_to_kernel.Shell.Run.Commands.{IsCommandLine, logged, shell_turn_line}
use zero_to_kernel.Shell.Run.Written.{IsWord, see-write, see-edit}

screen : Screen
screen = record {
  vga_buf = λ i. i;
  term_row = 20;
  term_col = 8;
  term_color = 7;
  history_buf = λ l c. 0;
  history_head = 0;
  history_count = 0;
  view_scroll = 0;
  live_snapshot = λ r c. 0;
  serial = [];
  cursor = 0;
  cursor_hidden = false;
}

screen-IsValid : IsValid screen
unfolding screen
screen-IsValid = omega arith

-- With the file /root/a, in which stands "x".
started : State
started = record {
  fs = (fs_write (bytes "/root/a") (bytes "x") 1 (fs_create (bytes "/root/a") fs_init).0).0;
  current_dir = home;
  log = record { shell_history = bytes "ver" ∷ []; total_commands_run = 1 };
  todos = record { items = []; todo_next_id = 1 };
  shell_text_color = 15;
}

started-IsState : IsState started
unfolding started Numbered has_tab
started-IsState = record {
  files =
      fs_write-IsTable (bytes "/root/a") (bytes "x") _
        (fs_create-IsTable (bytes "/root/a") fs_init fs_init-IsTable.0);
  here = omega arith;
  shown = refl;
  tasks = omega arith;
  lines = omega arith;
}

with_keys : List ℕ → Session
with_keys keys = record { state = started; keys = keys; input_buf = replicate 256 0 }

with_keys-IsSession : (keys : List ℕ) → IsSession (with_keys keys)
unfolding with_keys started
with_keys-IsSession keys = record { state = started-IsState; buffer = refl }

shell_turn-Turns_example :
    Turns
      (with_keys (bytes "ver" ++ 10 ∷ 0x11 ∷ 10 ∷ []))
      (shell_turn 9 screen (with_keys (bytes "ver" ++ 10 ∷ 0x11 ∷ 10 ∷ [])))
shell_turn-Turns_example =
    shell_turn-Turns 9 screen (with_keys (bytes "ver" ++ 10 ∷ 0x11 ∷ 10 ∷ []))
      (with_keys-IsSession _) screen-IsValid

shell_run-Keeps_instance :
    Keeps (shell_run 2 9 (λ i. screen) (with_keys (bytes "ver" ++ 10 ∷ 0x11 ∷ 10 ∷ 65 ∷ [])))
shell_run-Keeps_instance =
    shell_run-Keeps 2 9 (λ i. screen) (with_keys (bytes "ver" ++ 10 ∷ 0x11 ∷ 10 ∷ 65 ∷ []))
      (λ i. screen-IsValid) (with_keys-IsSession _)

goto_a : IsCommandLine (bytes "goto") (bytes "a")
goto_a = record {
  cmd_printed = omega arith;
  cmd_there = omega arith;
  cmd_fits = omega arith;
  arg_printed = omega arith;
  line_fits = omega arith;
}

shell_turn_line_example :
    (b : List ℕ) × (length b ≡ input_max)
    × (shell_turn 9 screen (with_keys (bytes "goto a" ++ 13 ∷ 65 ∷ []))
        ≡ after_round b (
            run_command
              (command_of (bytes "goto"))
              (bytes "a")
              (65 ∷ [])
              (logged (bytes "goto a") started)))
unfolding with_keys started
shell_turn_line_example =
    shell_turn_line 9 screen (with_keys (bytes "goto a" ++ 13 ∷ 65 ∷ [])) (bytes "goto") (bytes "a")
      13 (65 ∷ []) (with_keys-IsSession _) screen-IsValid goto_a (inr refl) refl

a-IsWord : IsWord (bytes "a")
a-IsWord = record { printed = omega arith; there = omega arith; fits = omega arith }

a-fits : path_overruns home (bytes "a") ≡ false
unfolding path_overruns path_bytes strncat_room bytes_eq
a-fits = refl

x-plain : has_tab (bytes "x") ≡ false
unfolding has_tab
x-plain = refl

a-lookup : lookup (resolve_path home (bytes "a")) started.fs ≡ some (file false (bytes "x"))
unfolding started lookup resolve_path path_bytes strncat_room fs_write store fs_create fs_create_dir
    fs_init fs_find fs_free_slot fill_slot bytes_eq
a-lookup = refl

see-write_example :
    (r : Session) × (shell_turn 9 screen
        (with_keys (bytes "write a" ++ 10 ∷ (bytes "milk" ++ 13 ∷ 65 ∷ [])))
      ≡ goes_on r)
    × (r.keys ≡ 65 ∷ [])
    × (cmd_see r.state.current_dir (bytes "a") r.state.fs ≡ some (bytes "milk"))
unfolding with_keys started
see-write_example =
    see-write 9 screen (with_keys (bytes "write a" ++ 10 ∷ (bytes "milk" ++ 13 ∷ 65 ∷ [])))
      (bytes "a") (bytes "milk") 10 (65 ∷ []) (file false (bytes "x")) (with_keys-IsSession _)
      screen-IsValid a-IsWord a-fits (omega arith) (omega arith) (inl refl) refl a-lookup refl

see-edit_example :
    (r : Session) × (shell_turn 9 screen
        (with_keys (bytes "edit a" ++ 10 ∷ (bytes "yz" ++ key_esc ∷ 65 ∷ [])))
      ≡ goes_on r)
    × (r.keys ≡ 65 ∷ [])
    × (cmd_see r.state.current_dir (bytes "a") r.state.fs ≡ some (bytes "xyz"))
unfolding with_keys started
see-edit_example =
    see-edit 9 screen (with_keys (bytes "edit a" ++ 10 ∷ (bytes "yz" ++ key_esc ∷ 65 ∷ [])))
      (bytes "a") (bytes "yz") 10 (65 ∷ []) (file false (bytes "x")) (with_keys-IsSession _)
      screen-IsValid a-IsWord a-fits (omega arith) (omega arith) (inl refl) refl a-lookup refl
      x-plain
