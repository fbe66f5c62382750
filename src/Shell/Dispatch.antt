-- ===== src/Shell/Dispatch.antt =====
-- The main loop of kernel/shell.c: the command that a line names, and what it does to the state that the
-- shell and the filesystem keep. What a command only prints is left out. A command that would overrun the
-- buffer of a path, or that may print a tab, ends with an outcome of its own.
pub mod Outcomes
pub mod Safety
pub mod Keys
mod Tests
use zero_to_kernel.Prelude.{
  ℕ, zero, suc, ◌+◌, Bool, true, false, ◌||◌, ◌&&◌, is_some, Option, none, some, List, [], ◌∷◌,
  ◌++◌, ◌==◌, ltb, leb, if◌then◌else◌, length, take, drop, bytes, bytes_eq,
}
use zero_to_kernel.Fs.{Text, Table, Written, fs_read, fs_is_dir}
use zero_to_kernel.Editor.{editor_open, Outcome}
use zero_to_kernel.Editor
use zero_to_kernel.Shell.{
  home, resolve_path, path_overruns, into_bytes, two_args, skip_spaces, Made, cmd_cpy, cmd_rename,
  cmd_mov, cmd_goto, goto_target, cmd_new, cmd_mkd, cmd_del,
}
use zero_to_kernel.Shell.History.{Log, shell_step}
use zero_to_kernel.Shell.Todo.{Todo, Todos, Answer, cmd_todo}
use zero_to_kernel.Shell.Todo
use zero_to_kernel.Shell.Tools.{Calculated, cmd_calc, cmd_color}
use zero_to_kernel.Shell.Tools
use zero_to_kernel.Shell.Typing.{
  cmd_write, prefix, notes_new, Noted, cmd_notes, Managed, waiting, out_of_fuel, quit, cmd_fm,
}
use zero_to_kernel.Shell.Typing

-- The commands, named as the shell names them; alive is also uptime.
pub data Command : Type 0 where
  cmds osinfo cls wrt memo new edit write see laf date alive calc color history todo passgen notes :
      Command
  fm sysinfo del cpy mov rename look wdir goto mkd deld dtree whoiam rst bye disk : Command
  hunt cnt top btm flip dice splash ver ref unknown : Command

-- The chain of comparisons.
abbrev pub table : List (Text × Command)
table =
    (bytes "cmds", cmds)
    ∷ (bytes "osinfo", osinfo)
    ∷ (bytes "cls", cls)
    ∷ (bytes "wrt", wrt)
    ∷ (bytes "memo", memo)
    ∷ (bytes "new", new)
    ∷ (bytes "edit", edit)
    ∷ (bytes "write", write)
    ∷ (bytes "see", see)
    ∷ (bytes "laf", laf)
    ∷ (bytes "date", date)
    ∷ (bytes "alive", alive)
    ∷ (bytes "uptime", alive)
    ∷ (bytes "calc", calc)
    ∷ (bytes "color", color)
    ∷ (bytes "history", history)
    ∷ (bytes "todo", todo)
    ∷ (bytes "passgen", passgen)
    ∷ (bytes "notes", notes)
    ∷ (bytes "fm", fm)
    ∷ (bytes "sysinfo", sysinfo)
    ∷ (bytes "del", del)
    ∷ (bytes "cpy", cpy)
    ∷ (bytes "mov", mov)
    ∷ (bytes "rename", rename)
    ∷ (bytes "look", look)
    ∷ (bytes "wdir", wdir)
    ∷ (bytes "goto", goto)
    ∷ (bytes "mkd", mkd)
    ∷ (bytes "deld", deld)
    ∷ (bytes "dtree", dtree)
    ∷ (bytes "whoiam", whoiam)
    ∷ (bytes "rst", rst)
    ∷ (bytes "bye", bye)
    ∷ (bytes "disk", disk)
    ∷ (bytes "hunt", hunt)
    ∷ (bytes "cnt", cnt)
    ∷ (bytes "top", top)
    ∷ (bytes "btm", btm)
    ∷ (bytes "flip", flip)
    ∷ (bytes "dice", dice)
    ∷ (bytes "splash", splash)
    ∷ (bytes "ver", ver)
    ∷ (bytes "ref", ref)
    ∷ []

unfoldable pub find_command : Text → List (Text × Command) → Command
find_command cmd [] = unknown
find_command cmd ((name, c) ∷ rest) = if bytes_eq cmd name then c else find_command cmd rest

unfoldable pub command_of : Text → Command
command_of cmd = find_command cmd table

pub record State : Type 0 where
  pub fs : Table
  pub current_dir : Text
  pub log : Log
  pub todos : Todos
  pub shell_text_color : ℕ

-- How a command ends: it waits for keys (or has echoed a tab), stops the machine, writes behind a buffer,
-- may print a tab, or returns with the keys that it leaves. From a tab in the last eight columns
-- terminal_putchar never returns; the column is not known here, so that what comes behind a tab is not
-- followed.
pub data After : Type 0 where
  waits stops overruns tabs : After
  returns : State → List ℕ → After

-- cmd_edit, and the keys that the editor leaves.
keys_after : Outcome → List ℕ → List ℕ
keys_after (Outcome.saved w rest) keys = rest
keys_after Outcome.usage keys = keys
keys_after (Outcome.cannot_open why) keys = keys

edited : State → List ℕ → Option (Table × Outcome) → After
edited s keys none = waits
edited s keys (some (t, out)) = returns (record s { fs = t }) (keys_after out keys)

unfoldable pub cmd_edit : Text → List ℕ → State → After
unfolding edited keys_after
cmd_edit arg keys s =
    if length arg == 0
    then returns s keys
    else edited s keys (editor_open (resolve_path s.current_dir arg) keys s.fs)

pub todo_after : State → List ℕ → Option (Todos × Answer) → After
todo_after s keys none = overruns
todo_after s keys (some (t, a)) = returns (record s { todos = t }) keys

pub calc_after : State → List ℕ → Calculated → After
calc_after s keys Calculated.overrun = overruns
calc_after s keys Calculated.trap = stops
calc_after s keys c = returns s keys

pub color_after : State → List ℕ → Option ℕ → After
color_after s keys none = returns s keys
color_after s keys (some c) = returns (record s { shell_text_color = c }) keys

write_after : State → Option (Table × Option Written × List ℕ) → After
write_after s none = waits
write_after s (some (t, w, keys)) = returns (record s { fs = t }) keys

pub notes_after : State → Option (Table × Noted × List ℕ) → After
notes_after s none = waits
notes_after s (some (t, Noted.overrun, keys)) = overruns
notes_after s (some (t, a, keys)) = returns (record s { fs = t }) keys

pub fm_after : State → Managed → After
fm_after s waiting = waits
fm_after s out_of_fuel = waits
fm_after s (quit t keys) = returns (record s { fs = t }) keys

-- What a command does whose paths fit their buffers and that prints no tab. What the commands that are
-- not named here print changes nothing of the state; an exception that nobody
-- handles, and rst and bye, stop the machine.
unfoldable pub effect_of : Command → Text → List ℕ → State → After
unfolding todo_after calc_after color_after write_after notes_after fm_after
effect_of new arg keys s = returns (record s { fs = (cmd_new s.current_dir arg s.fs).0 }) keys
effect_of edit arg keys s = cmd_edit arg keys s
effect_of write arg keys s = write_after s (cmd_write s.current_dir arg keys s.fs)
effect_of calc arg keys s = calc_after s keys (cmd_calc arg)
effect_of color arg keys s = color_after s keys (cmd_color arg)
effect_of todo arg keys s = todo_after s keys (cmd_todo arg s.todos)
effect_of notes arg keys s = notes_after s (cmd_notes s.current_dir arg keys s.fs)
effect_of fm arg keys s = fm_after s (cmd_fm (suc (length keys)) keys s.fs)
effect_of del arg keys s = returns (record s { fs = (cmd_del s.current_dir arg s.fs).0 }) keys
effect_of deld arg keys s = returns (record s { fs = (cmd_del s.current_dir arg s.fs).0 }) keys
effect_of cpy arg keys s = returns (record s { fs = (cmd_cpy s.current_dir arg s.fs).0 }) keys
effect_of mov arg keys s = returns (record s { fs = (cmd_mov s.current_dir arg s.fs).0 }) keys
effect_of rename arg keys s = returns (record s { fs = (cmd_rename s.current_dir arg s.fs).0 }) keys
effect_of goto arg keys s =
    returns (record s { current_dir = (cmd_goto s.fs arg s.current_dir).0 }) keys
effect_of mkd arg keys s = returns (record s { fs = (cmd_mkd s.current_dir arg s.fs).0 }) keys
effect_of rst arg keys s = stops
effect_of bye arg keys s = stops
effect_of other arg keys s = returns s keys

-- Whether two arguments of a command overrun the buffers of their paths; a command without them prints its
-- usage.
two_overrun : (Text → Text → Bool) → Option (Text × Text) → Bool
two_overrun f none = false
two_overrun f (some (src, dst)) = f src dst

is_made : Made → Bool
is_made (Made.made why) = true
is_made other = false

unfoldable pub both_overrun : Text → Text → Text → Bool
both_overrun dir src dst = path_overruns dir src || path_overruns dir dst

-- cmd_mov also appends the source's last name to a directory's.
unfoldable pub mov_overruns : State → Text → Text → Bool
mov_overruns s src dst =
    let to = resolve_path s.current_dir dst in
    both_overrun s.current_dir src dst
    || fs_is_dir to s.fs && leb 64 (length (into_bytes to (resolve_path s.current_dir src)))

-- Whether a command writes behind a buffer for a path; notes builds its path when the keys are read.
unfoldable pub overruns_path : Command → Text → List ℕ → State → Bool
unfolding two_overrun is_made
overruns_path new arg keys s =
    is_made (cmd_new s.current_dir arg s.fs).1 && path_overruns s.current_dir arg
overruns_path edit arg keys s = path_overruns s.current_dir arg
overruns_path write arg keys s = path_overruns s.current_dir arg
overruns_path see arg keys s = path_overruns s.current_dir arg
overruns_path del arg keys s = path_overruns s.current_dir arg
overruns_path look arg keys s = path_overruns s.current_dir arg
overruns_path mkd arg keys s = path_overruns s.current_dir arg
overruns_path deld arg keys s = path_overruns s.current_dir arg
overruns_path top arg keys s = path_overruns s.current_dir (skip_spaces arg)
overruns_path btm arg keys s = path_overruns s.current_dir (skip_spaces arg)
overruns_path cpy arg keys s = two_overrun (both_overrun s.current_dir) (two_args arg)
overruns_path rename arg keys s = two_overrun (both_overrun s.current_dir) (two_args arg)
overruns_path mov arg keys s = two_overrun (mov_overruns s) (two_args arg)
overruns_path notes arg keys s =
    path_overruns s.current_dir prefix
    && (bytes_eq (take 5 arg) (bytes "view ")
        || bytes_eq arg (bytes "new") && is_some (notes_new s.current_dir keys s.fs))
overruns_path other arg keys s = false

unfoldable pub has_tab : List ℕ → Bool
has_tab [] = false
has_tab (c ∷ s) = if c == 9 then true else has_tab s

unfoldable pub table_has_tab : Table → Bool
table_has_tab [] = false
table_has_tab (e ∷ t) = has_tab e.name || has_tab e.content || table_has_tab t

text_has_tab : Option (List ℕ) → Bool
text_has_tab none = false
text_has_tab (some text) = has_tab text

unfoldable pub file_has_tab : Text → Text → Table → Bool
unfolding text_has_tab
file_has_tab dir arg t =
    if length arg == 0 then false else text_has_tab (fs_read (resolve_path dir arg) 257 t)

todos_have_tab : List Todo → Bool
todos_have_tab [] = false
todos_have_tab (x ∷ xs) = has_tab x.text || todos_have_tab xs

-- Whether a command may print a tab: edit and see print the text of one file, goto the directory that it
-- tries, todo list the tasks, the others names or texts of the table. A line that shell_readline reads has
-- none, and current_dir has none (IsState).
unfoldable pub prints_tab : Command → Text → State → Bool
unfolding todos_have_tab
prints_tab edit arg s = file_has_tab s.current_dir arg s.fs
prints_tab see arg s = file_has_tab s.current_dir arg s.fs
prints_tab laf arg s = table_has_tab s.fs
prints_tab notes arg s =
    (bytes_eq arg (bytes "list") || bytes_eq (take 5 arg) (bytes "view ")) && table_has_tab s.fs
prints_tab fm arg s = table_has_tab s.fs
prints_tab goto arg s = has_tab (goto_target s.current_dir arg)
prints_tab todo arg s = bytes_eq arg (bytes "list") && todos_have_tab s.todos.items
prints_tab dtree arg s = table_has_tab s.fs
prints_tab hunt arg s = table_has_tab s.fs
prints_tab top arg s = table_has_tab s.fs
prints_tab btm arg s = table_has_tab s.fs
prints_tab other arg s = false

unfoldable pub run_command : Command → Text → List ℕ → State → After
run_command c arg keys s =
    if overruns_path c arg keys s
    then overruns
    else if prints_tab c arg s
    then tabs
    else effect_of c arg keys s

-- One round of the loop of shell_run, with the line that shell_readline read.
called : State → List ℕ → Option (Text × Text) → After
called s keys none = returns s keys
called s keys (some (cmd, arg)) = run_command (command_of cmd) arg keys s

unfoldable pub shell_round : Text → List ℕ → State → After
unfolding called
shell_round input_buf keys s =
    let (log, command) = shell_step input_buf s.log in called (record s { log = log }) keys command
