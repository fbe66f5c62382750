-- ===== src/Shell/Dispatch/Outcomes.antt =====
-- What a command must leave of the state of the shell, and how its results keep that.
use zero_to_kernel.Prelude.{◌≡◌, false, ℕ, ◌≤◌, true, Option, none, some, List, if_both, length}
use zero_to_kernel.Fs.{Text, Table, fs_create_dir}
use zero_to_kernel.Fs.Invariant.{IsTable}
use zero_to_kernel.Fs.Files.{fs_create_lem, Creates-IsTable}
use zero_to_kernel.Shell.{Copied, on_args, move_into, fs_is_dir, into_dir}
use zero_to_kernel.Shell.Copying.{
  Copies, no_source, no_target, new_file, Moves, unread, unplaced, moved, move_file-Moves,
}
use zero_to_kernel.Shell.Todo.{Todos, Answer, IsTodos, Leaves}
use zero_to_kernel.Shell.Readline.Views.{IsHistory}
use zero_to_kernel.Shell.Tools.{Calculated}
use zero_to_kernel.Shell.Typing.{Noted, Managed, waiting, out_of_fuel, quit}
use zero_to_kernel.Shell.Typing.Manager.{Ends}
use zero_to_kernel.Shell.Dispatch.{
  State, has_tab, After, waits, stops, overruns, tabs, returns, todo_after, calc_after, color_after,
  notes_after, fm_after,
}

-- The file table is well formed, current_dir fits its 64 bytes and has no tab, the to-do list has its ids in order, and
-- the history holds printable lines that fit.
pub record IsState (s : State) : Type 0 where
  pub files : IsTable s.fs
  pub here : length s.current_dir ≤ 63
  pub shown : has_tab s.current_dir ≡ false
  pub tasks : IsTodos s.todos
  pub lines : IsHistory 256 s.log.shell_history

-- A command that returns leaves such a state.
abbrev pub Safe : After → Type 0
Safe waits = Unit
Safe stops = Unit
Safe overruns = Unit
Safe tabs = Unit
Safe (returns s keys) = IsState s

pub with_fs : (s : State) (t : Table) → IsState s → IsTable t → IsState (record s { fs = t })
with_fs s t v w = record {
  files = w;
  here = v.here;
  shown = v.shown;
  tasks = v.tasks;
  lines = v.lines;
}

pub fs_create_dir-IsTable : (name : Text) (t : Table) → IsTable t → IsTable (fs_create_dir name t).0
fs_create_dir-IsTable name t v = Creates-IsTable true name t _ v (fs_create_lem name t v).1

pub Copies-IsTable :
    (src dst : Text) (t : Table) (r : Table × Copied) → IsTable t → Copies src dst t r → IsTable r.0
Copies-IsTable src dst t r v (no_source _) = v
Copies-IsTable src dst t r v (no_target _ _ _) = v
Copies-IsTable src dst t r v (new_file _ _ v' _ _ _ _) = v'

pub Moves-IsTable :
    (src dst : Text) (t : Table) (r : Table × Copied) → IsTable t → Moves src dst t r → IsTable r.0
Moves-IsTable src dst t r v (unread _) = v
Moves-IsTable src dst t r v (unplaced _ _ _) = v
Moves-IsTable src dst t r v (moved _ _ v' _ _ _ _) = v'

pub on_args-IsTable :
    (f : Text → Text → Table → Table × Copied) (o : Option (Text × Text)) (t : Table)
    → IsTable t
    → ((src dst : Text) → IsTable (f src dst t).0)
    → IsTable (on_args f o t).0
unfolding on_args
on_args-IsTable f none t v each = v
on_args-IsTable f (some (src, dst)) t v each = each src dst

abbrev Holds : Table × Copied → Type 0
Holds r = IsTable r.0

pub move_into-IsTable : (src dst : Text) (t : Table) → IsTable t → IsTable (move_into src dst t).0
unfolding move_into
move_into-IsTable src dst t v =
    if_both Holds (fs_is_dir dst t) _ _
      (Moves-IsTable src (into_dir dst src) t _ v (move_file-Moves src (into_dir dst src) t v)) v

-- The file table that notes leaves is well formed.
abbrev pub Valid : Option (Table × Noted × List ℕ) → Type 0
Valid none = Unit
Valid (some (t, a, rest)) = IsTable t

module _ (s : State) (v : IsState s) (keys : List ℕ) where
  with_todos : (t : Todos) → IsTodos t → IsState (record s { todos = t })
  with_todos t w = record {
    files = v.files;
    here = v.here;
    shown = v.shown;
    tasks = w;
    lines = v.lines;
  }

  pub todo_after-Safe : (o : Option (Todos × Answer)) → Leaves o → Safe (todo_after s keys o)
  unfolding todo_after
  todo_after-Safe none w = tt
  todo_after-Safe (some (t, a)) w = with_todos t w

  pub color_after-Safe : (o : Option ℕ) → Safe (color_after s keys o)
  unfolding color_after
  color_after-Safe none = v
  color_after-Safe (some c) = record {
    files = v.files;
    here = v.here;
    shown = v.shown;
    tasks = v.tasks;
    lines = v.lines;
  }

  pub calc_after-Safe : (c : Calculated) → Safe (calc_after s keys c)
  unfolding calc_after
  calc_after-Safe Calculated.invalid = v
  calc_after-Safe Calculated.overrun = tt
  calc_after-Safe Calculated.by_zero = v
  calc_after-Safe Calculated.trap = tt
  calc_after-Safe (Calculated.result n) = v

  pub fm_after-Safe : (m : Managed) → Ends m → Safe (fm_after s m)
  unfolding fm_after
  fm_after-Safe out_of_fuel e = tt
  fm_after-Safe waiting e = tt
  fm_after-Safe (quit t rest) w = with_fs s t v w

  pub notes_after-Safe : (o : Option (Table × Noted × List ℕ)) → Valid o → Safe (notes_after s o)
  unfolding notes_after
  notes_after-Safe none w = tt
  notes_after-Safe (some (t, Noted.saved, rest)) w = with_fs s t v w
  notes_after-Safe (some (t, Noted.missing, rest)) w = with_fs s t v w
  notes_after-Safe (some (t, Noted.overrun, rest)) w = tt
  notes_after-Safe (some (t, Noted.usage, rest)) w = with_fs s t v w
  notes_after-Safe (some (t, Noted.listed rows, rest)) w = with_fs s t v w
  notes_after-Safe (some (t, Noted.viewed title body, rest)) w = with_fs s t v w
