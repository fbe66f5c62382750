-- ===== src/Shell/Dispatch/Keys.antt =====
-- A command leaves no more keys than it had.
use zero_to_kernel.Prelude.{
  ℕ, suc, ◌≤◌, Option, none, some, List, ◌==◌, arith, if_both, length, take, bytes, bytes_eq,
}
use zero_to_kernel.Fs.{Text, Table, fs_write}
use zero_to_kernel.Fs.Invariant.{IsTable}
use zero_to_kernel.Editor.{editor_open, Outcome}
use zero_to_kernel.Editor.Keys.{Leaves, editor_open-Leaves}
use zero_to_kernel.Shell.{resolve_path}
use zero_to_kernel.Shell.History.{shell_step}
use zero_to_kernel.Shell.Todo.{Todos, Answer, cmd_todo}
use zero_to_kernel.Shell.Tools.{Calculated, cmd_calc, cmd_color}
use zero_to_kernel.Shell.Typing.{
  ◌>>=◌, typed, save_note, cmd_write, Noted, cmd_notes, notes_new, Managed, waiting, out_of_fuel,
  quit,
}
use zero_to_kernel.Shell.Typing.Manager.{Reads, typed-Reads, LeavesFewer, cmd_fm-LeavesFewer}
use zero_to_kernel.Shell.Dispatch.{
  Command, State, After, waits, stops, overruns, tabs, returns, keys_after, edited, cmd_edit,
  todo_after, calc_after, color_after, write_after, notes_after, fm_after, effect_of, overruns_path,
  prints_tab, run_command, called, shell_round, command_of,
}

-- The keys left are at most `n`.
abbrev pub Within : ℕ → After → Type 0
Within n waits = Unit
Within n stops = Unit
Within n overruns = Unit
Within n tabs = Unit
Within n (returns s keys) = length keys ≤ n

module _ (keys : List ℕ) (s : State) where
  todo_after-Within : (o : Option (Todos × Answer)) → Within (length keys) (todo_after s keys o)
  unfolding todo_after
  todo_after-Within none = tt
  todo_after-Within (some (t, a)) = omega arith

  calc_after-Within : (c : Calculated) → Within (length keys) (calc_after s keys c)
  unfolding calc_after
  calc_after-Within Calculated.invalid = omega arith
  calc_after-Within Calculated.overrun = tt
  calc_after-Within Calculated.by_zero = omega arith
  calc_after-Within Calculated.trap = tt
  calc_after-Within (Calculated.result n) = omega arith

  color_after-Within : (o : Option ℕ) → Within (length keys) (color_after s keys o)
  unfolding color_after
  color_after-Within none = omega arith
  color_after-Within (some c) = omega arith

  fm_after-Within :
      (m : Managed) → LeavesFewer (length keys) m → Within (length keys) (fm_after s m)
  unfolding fm_after
  fm_after-Within out_of_fuel h = tt
  fm_after-Within waiting h = tt
  fm_after-Within (quit t rest) h = h

  write_typed-Within :
      (n : ℕ) (path : Text) (o : Option (Text × List ℕ))
      → Reads n o
      → Within n (
          write_after s
            (o >>= λ l. let w = fs_write path l.0 (length l.0) s.fs in some (w.0, some w.1, l.1)))
  unfolding write_after
  write_typed-Within n path none h = tt
  write_typed-Within n path (some (text, rest)) h = h

  write-Within : (arg : Text) → Within (length keys) (effect_of Command.write arg keys s)
  unfolding effect_of cmd_write write_after
  write-Within arg =
      if_both (λ o. Within (length keys) (write_after s o)) (length arg == 0)
        (some (s.fs, none, keys)) _ (omega arith)
        (write_typed-Within (length keys) (resolve_path s.current_dir arg) (typed 256 keys)
          (typed-Reads 256 keys))

  edited-Within :
      (o : Option (Table × Outcome))
      → Leaves (length keys) o
      → Within (length keys) (edited s keys o)
  unfolding edited keys_after
  edited-Within none h = tt
  edited-Within (some (t, Outcome.saved w rest)) h = h
  edited-Within (some (t, Outcome.usage)) h = omega arith
  edited-Within (some (t, Outcome.cannot_open why)) h = omega arith

  edit-Within : (arg : Text) → Within (length keys) (cmd_edit arg keys s)
  unfolding cmd_edit
  edit-Within arg =
      let path = resolve_path s.current_dir arg in
      if_both (Within (length keys)) (length arg == 0) _ _ (omega arith)
        (edited-Within (editor_open path keys s.fs) (editor_open-Leaves path keys s.fs))

  -- The keys that notes leaves.
  abbrev Noting : ℕ → Option (Table × Noted × List ℕ) → Type 0
  Noting n none = Unit
  Noting n (some (t, a, rest)) = length rest ≤ n

  note_body-Noting :
      (n : ℕ) (title : Text) (o : Option (Text × List ℕ))
      → Reads n o
      → Noting n
          (o >>= λ body. some (save_note s.current_dir title body.0 s.fs, Noted.saved, body.1))
  note_body-Noting n title none h = tt
  note_body-Noting n title (some (body, rest)) h = h

  Noting-le : (n m : ℕ) (o : Option (Table × Noted × List ℕ)) → n ≤ m → Noting n o → Noting m o
  Noting-le n m none h k = tt
  Noting-le n m (some (t, a, rest)) h k = omega (arith, k)

  note_title-Noting :
      (n : ℕ) (o : Option (Text × List ℕ))
      → Reads n o
      → Noting n (
          o >>= λ title. typed 256 title.1 >>= λ body.
          some (save_note s.current_dir title.0 body.0 s.fs, Noted.saved, body.1))
  note_title-Noting n none h = tt
  note_title-Noting n (some (title, rest)) h =
      Noting-le (length rest) n _ h
        (note_body-Noting (length rest) title (typed 256 rest) (typed-Reads 256 rest))

  cmd_notes-Noting : (arg : Text) → Noting (length keys) (cmd_notes s.current_dir arg keys s.fs)
  unfolding cmd_notes notes_new
  cmd_notes-Noting arg =
      let P = Noting (length keys) in
      if_both P (bytes_eq arg (bytes "new")) _ _
        (note_title-Noting (length keys) (typed 32 keys) (typed-Reads 32 keys))
        (if_both P (bytes_eq arg (bytes "list")) _ _ (omega arith)
          (if_both P (bytes_eq (take 5 arg) (bytes "view ")) _ _ (omega arith) (omega arith)))

  notes_after-Within :
      (o : Option (Table × Noted × List ℕ))
      → Noting (length keys) o
      → Within (length keys) (notes_after s o)
  unfolding notes_after
  notes_after-Within none h = tt
  notes_after-Within (some (t, Noted.saved, rest)) h = h
  notes_after-Within (some (t, Noted.missing, rest)) h = h
  notes_after-Within (some (t, Noted.overrun, rest)) h = tt
  notes_after-Within (some (t, Noted.usage, rest)) h = h
  notes_after-Within (some (t, Noted.listed rows, rest)) h = h
  notes_after-Within (some (t, Noted.viewed title body, rest)) h = h

  effect_of-Within :
      (c : Command) (arg : Text) → IsTable s.fs → Within (length keys) (effect_of c arg keys s)
  unfolding effect_of
  effect_of-Within Command.new arg v = omega arith
  effect_of-Within Command.edit arg v = edit-Within arg
  effect_of-Within Command.write arg v = write-Within arg
  effect_of-Within Command.calc arg v = calc_after-Within (cmd_calc arg)
  effect_of-Within Command.color arg v = color_after-Within (cmd_color arg)
  effect_of-Within Command.todo arg v = todo_after-Within (cmd_todo arg s.todos)
  effect_of-Within Command.notes arg v = notes_after-Within _ (cmd_notes-Noting arg)
  effect_of-Within Command.fm arg v =
      fm_after-Within _ (cmd_fm-LeavesFewer (suc (length keys)) keys s.fs v)
  effect_of-Within Command.del arg v = omega arith
  effect_of-Within Command.deld arg v = omega arith
  effect_of-Within Command.cpy arg v = omega arith
  effect_of-Within Command.mov arg v = omega arith
  effect_of-Within Command.rename arg v = omega arith
  effect_of-Within Command.goto arg v = omega arith
  effect_of-Within Command.mkd arg v = omega arith
  effect_of-Within Command.rst arg v = tt
  effect_of-Within Command.bye arg v = tt
  effect_of-Within other arg v = omega arith

run_command-Within :
    (keys : List ℕ) (s : State) (c : Command) (arg : Text)
    → IsTable s.fs
    → Within (length keys) (run_command c arg keys s)
unfolding run_command
run_command-Within keys s c arg v =
    if_both (Within (length keys)) (overruns_path c arg keys s) _ _ tt
      (if_both (Within (length keys)) (prints_tab c arg s) _ _ tt (effect_of-Within keys s c arg v))

called-Within :
    (keys : List ℕ) (s : State) (o : Option (Text × Text))
    → IsTable s.fs
    → Within (length keys) (called s keys o)
unfolding called
called-Within keys s none v = omega arith
called-Within keys s (some (cmd, arg)) v = run_command-Within keys s (command_of cmd) arg v

-- A round of the shell that returns leaves no more keys than there were.
pub shell_round-Within :
    (line : Text) (keys : List ℕ) (s : State)
    → IsTable s.fs
    → Within (length keys) (shell_round line keys s)
unfolding shell_round
shell_round-Within line keys s v = called-Within keys _ (shell_step line s.log).1 v
