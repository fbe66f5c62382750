-- ===== src/Shell/Dispatch/Tests.antt =====
-- Rounds of the shell and an instance of the theorem on them.
use zero_to_kernel.Prelude.{◌≡◌, refl, [], ◌∷◌, ◌++◌, arith, bytes, bytes_eq}
use zero_to_kernel.Text.{strchr}
use zero_to_kernel.Fs.{fs_init, fs_is_dir}
use zero_to_kernel.Fs.Files.{fs_init-IsTable}
use zero_to_kernel.Shell.{home, cmd_goto, goto_target, skip_spaces}
use zero_to_kernel.Shell.History.{Log, add_line, split_line, shell_step}
use zero_to_kernel.Shell.Todo.{Numbered}
use zero_to_kernel.Shell.Dispatch.{
  has_tab, State, returns, stops, command_of, find_command, alive, deld, unknown, run_command,
  effect_of, overruns_path, prints_tab, shell_round,
}
use zero_to_kernel.Shell.Dispatch.Outcomes.{IsState, Safe}
use zero_to_kernel.Shell.Dispatch.Safety.{shell_round-Safe}

commands :
    (command_of (bytes "uptime") ≡ alive)
    × (command_of (bytes "deld") ≡ deld)
    × (command_of (bytes "help") ≡ unknown)
unfolding command_of find_command bytes_eq
commands = (refl, refl, refl)

fresh : State
fresh = record {
  fs = fs_init;
  current_dir = home;
  log = record { shell_history = []; total_commands_run = 0 };
  todos = record { items = []; todo_next_id = 1 };
  shell_text_color = 15;
}

fresh-IsState : IsState fresh
unfolding fresh Numbered has_tab
fresh-IsState = record {
  files = fs_init-IsTable.0;
  here = omega arith;
  shown = refl;
  tasks = omega arith;
  lines = omega arith;
}

abbrev to_root : Log
to_root = record { shell_history = bytes "goto /" ∷ []; total_commands_run = 1 }

rounds :
    (shell_round (bytes " goto /") (65 ∷ []) fresh
      ≡ returns (record fresh { current_dir = bytes "/"; log = to_root }) (65 ∷ []))
    × (shell_round (bytes "bye") [] fresh ≡ stops)
    × (shell_round (bytes "  ") [] fresh ≡ returns fresh [])
unfolding shell_round shell_step skip_spaces split_line add_line strchr command_of find_command
    bytes_eq run_command effect_of overruns_path prints_tab cmd_goto goto_target fs_is_dir fresh
    has_tab
rounds = (refl, refl, refl)

shell_round-Safe_example :
    Safe (shell_round (bytes "notes new") (bytes "milk" ++ 10 ∷ bytes "2 l" ++ 10 ∷ []) fresh)
shell_round-Safe_example =
    shell_round-Safe (bytes "notes new") (bytes "milk" ++ 10 ∷ bytes "2 l" ++ 10 ∷ []) fresh
      fresh-IsState (omega arith)
