-- ===== src/Shell/Run/Commands.antt =====
-- A command and its argument, typed as a line, are what the turn runs.
use zero_to_kernel.Prelude.{
  ℕ, suc, ◌+◌, ◌<◌, ◌≡◌, refl, ◌∙◌, false, ◌||◌, List, [], ◌∷◌, ◌++◌, arith, ◌==◌, length,
  length-append, leb, take, drop, take_all, take-append, All, All-map, All-append, some,
}
use zero_to_kernel.Text.{Buffer, strchr}
use zero_to_kernel.Fs.{Text}
use zero_to_kernel.Screen.{Screen}
use zero_to_kernel.Screen.Cursor.{IsValid}
use zero_to_kernel.Shell.{skip_spaces}
use zero_to_kernel.Shell.History.{Log, add_line, split_line, shell_step}
use zero_to_kernel.Shell.Readline.Views.{IsPlain}
use zero_to_kernel.Shell.Readline.Session.{IsEnter}
use zero_to_kernel.Shell.Dispatch.{State, command_of, run_command, shell_round}
use zero_to_kernel.Shell.Run.{Session, after_round, input_max, shell_turn}
use zero_to_kernel.Shell.Run.Turns.{IsSession}
use zero_to_kernel.Shell.Run.Sessions.{shell_turn_typed}

-- A printable word.
abbrev pub IsPrinted : Text → Type 0
IsPrinted s = All (λ c. (32 < c) × (c < 127)) s

-- A command name and an argument that are words, and fit into a line of 255 bytes.
pub record IsCommandLine (cmd arg : Text) : Type 0 where
  pub cmd_printed : IsPrinted cmd
  pub cmd_there : 0 < length cmd
  pub cmd_fits : length cmd < 64
  pub arg_printed : IsPrinted arg
  pub line_fits : length cmd + length arg < 255

abbrev pub command_line : Text → Text → Text
command_line cmd arg = cmd ++ 32 ∷ arg

skip_printed : (s rest : Text) → IsPrinted s → 0 < length s → skip_spaces (s ++ rest) ≡ s ++ rest
unfolding skip_spaces
skip_printed [] rest h pos = absurd (omega (arith, pos))
skip_printed (c ∷ s) rest h pos =
    let no : (c == 32 || c == 9) ≡ false = ground (arith, h.0) in rw no refl

skip_word : (s : Text) → IsPrinted s → skip_spaces s ≡ s
unfolding skip_spaces
skip_word [] h = refl
skip_word (c ∷ s) h = let no : (c == 32 || c == 9) ≡ false = ground (arith, h.0) in rw no refl

strchr_printed : (s rest : Text) → IsPrinted s → strchr (s ++ 32 ∷ rest) 32 ≡ some (length s)
unfolding strchr
strchr_printed [] rest h = refl
strchr_printed (c ∷ s) rest h =
    let z : (c == 0) ≡ false = ground (arith, h.0) in
    let b : (c == 32) ≡ false = ground (arith, h.0) in rw (z, b, strchr_printed s rest h.1) refl

drop_past : (s rest : Text) (c : ℕ) → drop (length s + 1) (s ++ c ∷ rest) ≡ rest
drop_past s rest c = let e : length s + 1 ≡ suc (length s) = omega arith in rw e (drops s)
  where
    drops : (s : Text) → drop (suc (length s)) (s ++ c ∷ rest) ≡ rest
    drops [] = refl
    drops (x ∷ s) = drops s

-- The line is logged, and gives the command and its argument.
shell_step_line :
    (cmd arg : Text) (log : Log)
    → IsCommandLine cmd arg
    → shell_step (command_line cmd arg) log ≡ (add_line (command_line cmd arg) log, some (cmd, arg))
unfolding shell_step split_line
shell_step_line cmd arg log v =
    let text : (length (command_line cmd arg) == 0) ≡ false =
      ground (arith, length-append cmd (32 ∷ arg)) in
    let short : leb 64 (length cmd) ≡ false = ground (arith, v.cmd_fits) in
    rw
      (
        skip_printed cmd (32 ∷ arg) v.cmd_printed v.cmd_there,
        text,
        strchr_printed cmd arg v.cmd_printed,
        short,
        take-append cmd (32 ∷ arg),
        drop_past cmd arg 32,
        skip_word arg v.arg_printed,
      )
      refl

-- The state with a line in the log.
abbrev pub logged : Text → State → State
logged line s = record s { log = add_line line s.log }

pub shell_round_line :
    (cmd arg : Text) (keys : List ℕ) (s : State)
    → IsCommandLine cmd arg
    → shell_round (command_line cmd arg) keys s
      ≡ run_command (command_of cmd) arg keys (logged (command_line cmd arg) s)
unfolding shell_round
shell_round_line cmd arg keys s v = rw (shell_step_line cmd arg s.log v) refl

IsPrinted-plain : (s : Text) → IsPrinted s → All IsPlain s
IsPrinted-plain s h = All-map s (λ c (h : (32 < c) × (c < 127)). (omega (arith, h), h.1)) h

-- In a well-formed session a word of at most 63 bytes, a space, a word or nothing, and Enter, 255 bytes
-- before it at most, run the command of that name with that argument and the keys behind, in the state
-- with the line in the history.
pub shell_turn_line :
    (fuel : ℕ) (screen : Screen) (r : Session) (cmd arg : Text) (c : ℕ) (rest : List ℕ)
    → IsSession r
    → IsValid screen
    → IsCommandLine cmd arg
    → IsEnter c
    → r.keys ≡ command_line cmd arg ++ c ∷ rest
    → (b : Buffer) × (length b ≡ input_max)
      × (shell_turn fuel screen r
          ≡ after_round b
              (run_command (command_of cmd) arg rest (logged (command_line cmd arg) r.state)))
shell_turn_line fuel screen r cmd arg c rest v valid line end e =
    let plain : All IsPlain (command_line cmd arg) =
      All-append IsPlain cmd (32 ∷ arg) (IsPrinted-plain cmd line.cmd_printed)
        (omega arith, IsPrinted-plain arg line.arg_printed) in
    let whole : take 255 (command_line cmd arg) ≡ command_line cmd arg =
      take_all 255 _ (omega (arith, length-append cmd (32 ∷ arg), line.line_fits)) in
    let (b, sized, turn) =
      shell_turn_typed fuel screen r (command_line cmd arg) c rest v valid plain end e in
    (b, sized, turn ∙ rw (whole, shell_round_line cmd arg rest r.state line) refl)
