-- ===== src/Shell/Dispatch/Safety.antt =====
-- Every round of the shell keeps its state well formed.
use zero_to_kernel.Prelude.{
  ℕ, suc, ◌≤◌, ◌≡◌, refl, inl, inr, false, Bool, Bool-cases, Option, none, some, List, ◌==◌, arith,
  if_both, length, take, ◌++◌, bytes, bytes_eq, All,
}
use zero_to_kernel.Fs.{Text, Table, fs_create, fs_write}
use zero_to_kernel.Fs.Invariant.{IsTable}
use zero_to_kernel.Editor.{editor_open, Outcome}
use zero_to_kernel.Editor.Session.{editor_open-Spares}
use zero_to_kernel.Shell.{
  resolve_path, cmd_cpy, cmd_rename, cmd_mov, Made, cmd_goto, cmd_new, cmd_mkd, cmd_del, two_args,
}
use zero_to_kernel.Shell.Paths.{goto_target_fits}
use zero_to_kernel.Shell.Copying.{copy_file-Copies, move_file-Moves}
use zero_to_kernel.Shell.History.{shell_step}
use zero_to_kernel.Shell.Todo.{cmd_todo, cmd_todo-Leaves}
use zero_to_kernel.Shell.Readline.Views.{IsPlain}
use zero_to_kernel.Shell.Readline.Typed.{shell_step-IsHistory}
use zero_to_kernel.Shell.Tools.{cmd_calc, cmd_color}
use zero_to_kernel.Shell.Typing.{
  ◌>>=◌, prefix, typed, save_note, cmd_write, Noted, cmd_notes, notes_new,
}
use zero_to_kernel.Shell.Typing.Manager.{
  fs_create-IsTable, fs_write-IsTable, fs_delete-IsTable, cmd_fm-Ends,
}
use zero_to_kernel.Shell.Dispatch.{
  Command, State, edited, cmd_edit, write_after, effect_of, overruns_path, has_tab, prints_tab,
  run_command, called, shell_round, command_of,
}
use zero_to_kernel.Shell.Dispatch.Outcomes.{
  IsState, Safe, with_fs, fs_create_dir-IsTable, Copies-IsTable, Moves-IsTable, on_args-IsTable,
  move_into-IsTable, Valid, todo_after-Safe, color_after-Safe, calc_after-Safe, fm_after-Safe,
  notes_after-Safe,
}

module _ (s : State) (v : IsState s) (keys : List ℕ) (arg : Text) where
  abbrev dir : Text
  dir = s.current_dir

  new-Safe : Safe (effect_of Command.new arg keys s)
  unfolding effect_of cmd_new
  new-Safe =
      let path = resolve_path dir arg in
      with_fs s _ v (
        if_both (λ (r : Table × Made). IsTable r.0) (length arg == 0) _ _ v.files
          (if_both (λ (r : Table × Made). IsTable r.0) _ _ _ (fs_create-IsTable path s.fs v.files)
            v.files))

  mkd-Safe : Safe (effect_of Command.mkd arg keys s)
  unfolding effect_of cmd_mkd
  mkd-Safe = with_fs s _ v (
      if_both (λ (r : Table × Made). IsTable r.0) (length arg == 0) _ _ v.files
        (fs_create_dir-IsTable (resolve_path dir arg) s.fs v.files))

  cmd_del-IsTable : IsTable (cmd_del dir arg s.fs).0
  unfolding cmd_del
  cmd_del-IsTable =
      if_both (λ (r : Table × Option Bool). IsTable r.0) (length arg == 0) _ _ v.files
        (fs_delete-IsTable (resolve_path dir arg) s.fs v.files)

  cpy-Safe : Safe (effect_of Command.cpy arg keys s)
  unfolding effect_of cmd_cpy
  cpy-Safe = with_fs s _ v (
      on_args-IsTable _ (two_args arg) s.fs v.files (λ src dst.
        Copies-IsTable _ _ s.fs _ v.files
          (copy_file-Copies (resolve_path dir src) (resolve_path dir dst) s.fs v.files)))

  rename-Safe : Safe (effect_of Command.rename arg keys s)
  unfolding effect_of cmd_rename
  rename-Safe = with_fs s _ v (
      on_args-IsTable _ (two_args arg) s.fs v.files (λ src dst.
        Moves-IsTable _ _ s.fs _ v.files
          (move_file-Moves (resolve_path dir src) (resolve_path dir dst) s.fs v.files)))

  mov-Safe : Safe (effect_of Command.mov arg keys s)
  unfolding effect_of cmd_mov
  mov-Safe = with_fs s _ v (
      on_args-IsTable _ (two_args arg) s.fs v.files
        (λ src dst. move_into-IsTable (resolve_path dir src) (resolve_path dir dst) s.fs v.files))

  goto-Safe : prints_tab Command.goto arg s ≡ false → Safe (effect_of Command.goto arg keys s)
  unfolding prints_tab effect_of cmd_goto
  goto-Safe plain = record {
    files = v.files;
    shown = if_both (λ (r : Text × Bool). has_tab r.0 ≡ false) _ _ _ plain v.shown;
    here =
        if_both (λ (r : Text × Bool). length r.0 ≤ 63) _ _ _ (goto_target_fits dir arg v.here)
          v.here;
    tasks = v.tasks;
    lines = v.lines;
  }

  edited-Safe :
      (o : Option (Table × Outcome))
      → ((t : Table) (out : Outcome) → o ≡ some (t, out) → IsTable t)
      → Safe (edited s keys o)
  unfolding edited
  edited-Safe none valid = tt
  edited-Safe (some (t, out)) valid = with_fs s t v (valid t out refl)

  edit-Safe : Safe (effect_of Command.edit arg keys s)
  unfolding effect_of cmd_edit
  edit-Safe =
      let path = resolve_path dir arg in
      if_both Safe (length arg == 0) _ _ v (
        edited-Safe (editor_open path keys s.fs)
          (λ t out e. (editor_open-Spares path keys s.fs t out v.files e).valid))

  write_typed-Safe :
      (path : Text) (o : Option (Text × List ℕ))
      → Safe (
          write_after s
            (o >>= λ l. let w = fs_write path l.0 (length l.0) s.fs in some (w.0, some w.1, l.1)))
  unfolding write_after
  write_typed-Safe path none = tt
  write_typed-Safe path (some (text, rest)) =
      with_fs s _ v (fs_write-IsTable path text s.fs v.files)

  write-Safe : Safe (effect_of Command.write arg keys s)
  unfolding effect_of cmd_write write_after
  write-Safe =
      if_both (λ o. Safe (write_after s o)) (length arg == 0) (some (s.fs, none, keys)) _ v
        (write_typed-Safe (resolve_path dir arg) (typed 256 keys))

  save_note-IsTable : (title body : Text) → IsTable (save_note dir title body s.fs)
  unfolding save_note
  save_note-IsTable title body =
      let path = resolve_path dir (prefix ++ take 20 title) in
      fs_write-IsTable path body (fs_create path s.fs).0 (fs_create-IsTable path s.fs v.files)

  note_body-Valid :
      (title : Text) (o : Option (Text × List ℕ))
      → Valid (o >>= λ body. some (save_note dir title body.0 s.fs, Noted.saved, body.1))
  note_body-Valid title none = tt
  note_body-Valid title (some (body, rest)) = save_note-IsTable title body

  note_title-Valid :
      (o : Option (Text × List ℕ))
      → Valid (
          o >>= λ title. typed 256 title.1 >>= λ body.
          some (save_note dir title.0 body.0 s.fs, Noted.saved, body.1))
  note_title-Valid none = tt
  note_title-Valid (some (title, rest)) = note_body-Valid title (typed 256 rest)

  notes-Safe : Safe (effect_of Command.notes arg keys s)
  unfolding effect_of cmd_notes notes_new
  notes-Safe = notes_after-Safe s v keys _ (
      if_both Valid (bytes_eq arg (bytes "new")) _ _ (note_title-Valid (typed 32 keys)) (
        if_both Valid (bytes_eq arg (bytes "list")) _ _ v.files
          (if_both Valid (bytes_eq (take 5 arg) (bytes "view ")) _ _ v.files v.files)))

  effect_of-Safe : (c : Command) → prints_tab c arg s ≡ false → Safe (effect_of c arg keys s)
  effect_of-Safe Command.new plain = new-Safe
  effect_of-Safe Command.edit plain = edit-Safe
  effect_of-Safe Command.write plain = write-Safe
  effect_of-Safe Command.calc plain = unfold effect_of in calc_after-Safe s v keys (cmd_calc arg)
  effect_of-Safe Command.color plain = unfold effect_of in color_after-Safe s v keys (cmd_color arg)
  effect_of-Safe Command.todo plain =
      unfold effect_of in
      todo_after-Safe s v keys (cmd_todo arg s.todos) (cmd_todo-Leaves arg s.todos v.tasks)
  effect_of-Safe Command.notes plain = notes-Safe
  effect_of-Safe Command.fm plain =
      unfold effect_of in
      fm_after-Safe s v keys _ (cmd_fm-Ends (suc (length keys)) keys s.fs v.files (omega arith))
  effect_of-Safe Command.del plain = unfold effect_of in with_fs s _ v cmd_del-IsTable
  effect_of-Safe Command.deld plain = unfold effect_of in with_fs s _ v cmd_del-IsTable
  effect_of-Safe Command.cpy plain = cpy-Safe
  effect_of-Safe Command.mov plain = mov-Safe
  effect_of-Safe Command.rename plain = rename-Safe
  effect_of-Safe Command.goto plain = goto-Safe plain
  effect_of-Safe Command.mkd plain = mkd-Safe
  effect_of-Safe Command.rst plain = unfold effect_of in tt
  effect_of-Safe Command.bye plain = unfold effect_of in tt
  effect_of-Safe other plain = unfold effect_of in v

run_command-Safe :
    (s : State) (keys : List ℕ) (arg : Text)
    → IsState s
    → (c : Command) → Safe (run_command c arg keys s)
unfolding run_command
run_command-Safe s keys arg v c =
    if_both Safe (overruns_path c arg keys s) _ _ tt (elim (Bool-cases (prints_tab c arg s)) [
      | inl tab ↦ rw tab tt
      | inr plain ↦ rw plain (effect_of-Safe s v keys arg c plain)
    ])

called-Safe :
    (s : State) (keys : List ℕ) (o : Option (Text × Text)) → IsState s → Safe (called s keys o)
unfolding called
called-Safe s keys none v = v
called-Safe s keys (some (cmd, arg)) v = run_command-Safe s keys arg v (command_of cmd)

-- From a well-formed state, whatever printable line is read and whatever keys follow, a round of the shell
-- that returns, without an overrun of a buffer and without a tab echoed or printed, leaves a well-formed
-- file table, a current directory that fits its buffer and has no tab, a well-formed to-do list and a history of printable
-- lines that fit.
pub shell_round-Safe :
    (line : Text) (keys : List ℕ) (s : State)
    → IsState s
    → All IsPlain line
    → Safe (shell_round line keys s)
unfolding shell_round
shell_round-Safe line keys s v plain = called-Safe _ keys (shell_step line s.log).1 (record {
  files = v.files;
  here = v.here;
  shown = v.shown;
  tasks = v.tasks;
  lines = shell_step-IsHistory line s.log plain v.lines;
})
