-- ===== src/Shell/Readline/Tests.antt =====
-- Runs of the line editor and instances of its theorems.
use zero_to_kernel.Prelude.{
  ℕ, ◌<◌, ◌≡◌, refl, inl, inr, false, some, List, [], ◌∷◌, ◌++◌, arith, bytes, length, replicate,
  All,
}
use zero_to_kernel.Text.Strings.{c_string}
use zero_to_kernel.Screen.{Screen}
use zero_to_kernel.Screen.Cursor.{IsValid}
use zero_to_kernel.Shell.History.{Log, shell_step}
use zero_to_kernel.Shell.Readline.{
  Line, key_of, shell_readline, cell_back, cell_on, cell_typed, open_gap, close_gap,
}
use zero_to_kernel.Shell.Readline.Views.{press, IsPlain, IsHistory}
use zero_to_kernel.Shell.Readline.Session.{presses, shell_readline_lem}
use zero_to_kernel.Shell.Readline.Typed.{shell_readline_typed, shell_step-IsHistory}

abbrev screen : Screen
screen = record {
  vga_buf = λ i. i;
  term_row = 23;
  term_col = 60;
  term_color = 7;
  history_buf = λ l c. 0;
  history_head = 5;
  history_count = 5;
  view_scroll = 0;
  live_snapshot = λ r c. 0;
  serial = [];
  cursor = 0;
  cursor_hidden = false;
}

gaps :
    (open_gap 2 3 (bytes "abc?") ≡ bytes "abbc")
    × (close_gap 2 1 (bytes "abcd") ≡ bytes "acdd")
    × (cell_back (3, 0) ≡ (2, 79))
    × (cell_on (3, 79) ≡ (4, 0))
    × (cell_typed (23, 79) ≡ (23, 0))
unfolding open_gap close_gap cell_back cell_on cell_typed
gaps = (refl, refl, refl, refl, refl)

abbrev past : List (List ℕ)
past = bytes "ls" ∷ []

-- "ac", left, "b", right, up, down, up, backspace, "x".
abbrev keys : List ℕ
keys = 97 ∷ 99 ∷ 0x14 ∷ 98 ∷ 0x13 ∷ 0x11 ∷ 0x12 ∷ 0x11 ∷ 8 ∷ 120 ∷ []

shell_readline_lem_example :
    (l : Line) × (shell_readline 9 8 past (replicate 8 0) (keys ++ 13 ∷ 65 ∷ []) screen
      ≡ some (l, 65 ∷ []))
    × (c_string l.buf ≡ bytes "lx")
    × (length (c_string l.buf) < 8)
    × All IsPlain (c_string l.buf)
    × IsValid l.screen
unfolding presses press key_of
shell_readline_lem_example =
    shell_readline_lem 9 8 past (omega arith) (replicate 8 0) keys 13 (65 ∷ []) screen refl
      (omega arith) (omega arith) (omega arith) (inr refl)

shell_readline_typed_instance :
    (l : Line) × (shell_readline 9 8 past (replicate 8 0) (bytes "see a.txt" ++ 10 ∷ []) screen
      ≡ some (l, []))
    × (c_string l.buf ≡ bytes "see a.t")
shell_readline_typed_instance =
    shell_readline_typed 9 8 past (replicate 8 0) (bytes "see a.txt") 10 [] screen (omega arith)
      refl (omega arith) (omega arith) (omega arith) (inl refl)

abbrev log : Log
log = record { shell_history = past; total_commands_run = 1 }

shell_step-IsHistory_instance : IsHistory 256 (shell_step (bytes " ver") log).0.shell_history
shell_step-IsHistory_instance = shell_step-IsHistory (bytes " ver") log (omega arith) (omega arith)
