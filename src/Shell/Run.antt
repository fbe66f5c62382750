-- ===== src/Shell/Run.antt =====
-- shell_run of kernel/shell.c: the loop of the prompt, shell_readline and the command, over the keys that
-- keyboard_getchar will return. What the commands and the prompt print stands in Messages; here the
-- screen that shell_readline finds in a turn is an argument.
pub mod Turns
pub mod Sessions
pub mod Commands
pub mod Written
mod Tests
use zero_to_kernel.Prelude.{ℕ, zero, suc, Option, none, some, List, [], replicate}
use zero_to_kernel.Text.{Buffer}
use zero_to_kernel.Text.Strings.{c_string}
use zero_to_kernel.Fs.{Table}
use zero_to_kernel.Screen.{Screen}
use zero_to_kernel.Screen.Output.{color_white}
use zero_to_kernel.Shell.{home}
use zero_to_kernel.Shell.Readline.{Line, shell_readline}
use zero_to_kernel.Shell.Dispatch.{State, After, shell_round}
use zero_to_kernel.Shell.Dispatch as Dispatch

pub record Session : Type 0 where
  pub state : State
  pub keys : List ℕ
  pub input_buf : Buffer

-- How a turn of the loop ends: it waits for keys (or has echoed a tab), the machine has stopped, a buffer is
-- overrun, a command is at a tab that it may print, behind which the model does not follow the terminal, or
-- the next turn begins.
pub data Turn : Type 0 where
  waits stops overruns tabs : Turn
  goes_on : Session → Turn

abbrev pub input_max : ℕ
input_max = 256

-- The static variables of shell.c before the first turn, with a table of files and the keys that will come.
unfoldable pub shell_start : Table → List ℕ → Session
shell_start fs keys = record {
  state = record {
    fs = fs;
    current_dir = home;
    log = record { shell_history = []; total_commands_run = 0 };
    todos = record { items = []; todo_next_id = 1 };
    shell_text_color = color_white;
  };
  keys = keys;
  input_buf = replicate input_max 0;
}

pub after_round : Buffer → After → Turn
after_round b After.waits = waits
after_round b After.stops = stops
after_round b After.overruns = overruns
after_round b After.tabs = tabs
after_round b (After.returns s keys) = goes_on (record { state = s; keys = keys; input_buf = b })

after_line : State → Option (Line × List ℕ) → Turn
after_line s none = waits
after_line s (some (l, keys)) = after_round l.buf (shell_round (c_string l.buf) keys s)

-- One turn, with the terminal's fuel and the screen that the prompt leaves.
unfoldable pub shell_turn : ℕ → Screen → Session → Turn
unfolding after_line after_round
shell_turn fuel screen r =
    after_line r.state
      (shell_readline fuel input_max r.state.log.shell_history r.input_buf r.keys screen)

next_turn : Turn → (Session → Turn) → Turn
next_turn waits k = waits
next_turn stops k = stops
next_turn overruns k = overruns
next_turn tabs k = tabs
next_turn (goes_on r) k = k r

-- At most `n` turns; `screens` are the screens that they find, the last turn's first.
unfoldable pub shell_run : ℕ → ℕ → (ℕ → Screen) → Session → Turn
unfolding next_turn
shell_run zero fuel screens r = goes_on r
shell_run (suc n) fuel screens r =
    next_turn (shell_turn fuel (screens n) r) (shell_run n fuel screens)
