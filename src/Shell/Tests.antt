-- ===== src/Shell/Tests.antt =====
-- Runs of the shell's commands and instances of their theorems.
use mathlib.Core.Option
use zero_to_kernel.Prelude.{
  ◌-◌, ◌≤◌, ◌<◌, ◌≡◌, ◌⊎◌, ◌↔◌, refl, true, false, none, some, List, [], ◌∷◌, ◌++◌, arith, bytes,
  bytes_eq, length, take, drop, replicate,
}
use zero_to_kernel.Text.{strchr, strrchr, later, atoi, atoi_loop, is_digit}
use zero_to_kernel.Fs.{
  Text, Table, fs_find, fs_free_slot, fill_slot, fs_create, fs_create_dir, fs_init, fs_is_dir,
  fs_write, fs_read, fs_delete, store,
}
use zero_to_kernel.Fs.Files.{fs_init-IsTable}
use zero_to_kernel.Shell.{
  slash, root, home, strncat_room, path_bytes, resolve_path, skip_spaces, two_args, copied,
  copy_file, move_file, cmd_cpy, cmd_rename, basename, into_dir, cmd_mov, parent, goto_target,
  cmd_goto, no_extension, cmd_new, cmd_mkd, cmd_see,
}
use zero_to_kernel.Shell.Paths.{path_bytes_fits, path_bytes_overflow, cmd_goto_lem}
use zero_to_kernel.Shell.Copying.{Copies, Moves, copy_file-Copies, move_file-Moves}
use zero_to_kernel.Shell.History.{
  Log, history_max, add_line, split_line, shell_step, add_lines, last_of, cut_lines, add_lines-last,
}
use zero_to_kernel.Shell.Todo.{
  Todo, Todos, marked, Answer, not_found, open_quote, close_quote, todo_add, mark_done, cmd_todo,
  run_todos, IsTodos, Numbered, Marks, mark_done-Marks, run_todos-IsTodos,
}
use zero_to_kernel.Shell.Lines.{
  cnt_loop, open_end, cmd_cnt, top_loop, cmd_top, newlines, total_lines, start_line, btm_loop,
  cmd_btm, starts_with, mini_strstr, hunt_loop, cmd_hunt,
}
use zero_to_kernel.Shell.Lines.Numbering.{lines_from, cmd_top-lines, cmd_btm-lines, cmd_cnt-lines}
use zero_to_kernel.Shell.Lines.Hunting.{lines_with, cmd_hunt-lines, Occurs, mini_strstr_lem}

paths :
    (resolve_path home (bytes "a.txt") ≡ bytes "/root/a.txt")
    × (resolve_path root (bytes "etc") ≡ bytes "/etc")
    × (parent (bytes "/root/docs") ≡ home)
    × (two_args (bytes " a.txt  b.txt") ≡ some (bytes "a.txt", bytes "b.txt"))
    × (basename (bytes "/root/a.txt") ≡ bytes "a.txt")
unfolding resolve_path path_bytes strncat_room bytes_eq parent strrchr later two_args skip_spaces
    strchr basename
paths = (refl, refl, refl, refl, refl)

with_note : Table
with_note =
    (fs_write (bytes "/root/a.txt") (bytes "hi") 2 (cmd_new home (bytes "a.txt") fs_init).0).0

files :
    ((cmd_cpy home (bytes "a.txt b.txt") with_note).1
      ≡ copied (bytes "/root/a.txt") (bytes "/root/b.txt"))
    × (cmd_see home (bytes "b.txt") (cmd_cpy home (bytes "a.txt b.txt") with_note).0
        ≡ some (bytes "hi"))
    × (cmd_see home (bytes "a.txt") (cmd_rename home (bytes "a.txt b.txt") with_note).0 ≡ none)
    × ((cmd_new home (bytes "notes") fs_init).1 ≡ no_extension)
    × (cmd_goto (cmd_mkd home (bytes "docs") fs_init).0 (bytes "docs") home
        ≡ (bytes "/root/docs", true))
    × ((cmd_mov home (bytes "a.txt docs") (cmd_mkd home (bytes "docs") with_note).0).1
        ≡ copied (bytes "/root/a.txt") (bytes "/root/docs/a.txt"))
unfolding with_note cmd_cpy cmd_rename cmd_mov cmd_see cmd_new cmd_mkd cmd_goto goto_target into_dir
    copy_file move_file resolve_path path_bytes strncat_room bytes_eq strrchr later two_args
    skip_spaces strchr basename fs_is_dir fs_create fs_create_dir fs_init fs_find fs_free_slot
    fill_slot fs_write fs_read fs_delete store
files = (refl, refl, refl, refl, refl, refl)

abbrev no_todos : Todos
no_todos = record { items = []; todo_next_id = 1 }

todo_list : Todos
todo_list = record {
  items =
      record { id = 1; done = false; text = bytes "buy milk" }
      ∷ record { id = 2; done = false; text = bytes "call" }
      ∷ [];
  todo_next_id = 3;
}

todos :
    (run_todos (bytes "add \"buy milk\"" ∷ bytes "add call" ∷ []) no_todos ≡ some todo_list)
    × (cmd_todo (bytes "done 3") todo_list ≡ some (todo_list, not_found))
    × (Option.map (λ (r : Todos × Answer). r.1) (cmd_todo (bytes "done 2") todo_list) ≡ some marked)
    × (cmd_todo (bytes "add " ++ replicate 64 97) todo_list ≡ none)
unfolding todo_list run_todos cmd_todo todo_add open_quote close_quote mark_done bytes_eq atoi
    atoi_loop is_digit
todos = (refl, refl, refl, refl)

abbrev three_lines : Text
three_lines = bytes "ab c" ++ 10 ∷ bytes "de" ++ 10 ∷ bytes "f"

text_tools :
    (cmd_cnt three_lines ≡ record { lines = 3; words = 4 })
    × (cmd_top 1 three_lines ≡ (1, bytes "ab c") ∷ [])
    × (cmd_btm 2 three_lines ≡ (2, bytes "de") ∷ (3, bytes "f") ∷ [])
    × (cmd_hunt (bytes "e") three_lines ≡ (2, bytes "de") ∷ [])
unfolding cmd_cnt cnt_loop open_end cmd_top top_loop cmd_btm btm_loop start_line total_lines
    newlines cmd_hunt hunt_loop mini_strstr starts_with
text_tools = (refl, refl, refl, refl)

abbrev empty_log : Log
empty_log = record { shell_history = []; total_commands_run = 0 }

stepped : shell_step (bytes "  cpy  a b") empty_log ≡ (
  record { shell_history = bytes "cpy  a b" ∷ []; total_commands_run = 1 },
  some (bytes "cpy", bytes "a b"),
)
unfolding shell_step add_line split_line skip_spaces strchr
stepped = refl

abbrev long_dir : Text
long_dir = slash ∷ replicate 62 100

path_bytes_fits_instance : length (path_bytes home (replicate 200 97)) < 64
path_bytes_fits_instance = path_bytes_fits home (replicate 200 97) (omega arith)

path_bytes_overflow_instance :
    path_bytes long_dir (bytes "a.txt") ≡ long_dir ++ (root ++ bytes "a.txt")
path_bytes_overflow_instance =
    path_bytes_overflow long_dir (bytes "a.txt") refl (omega arith) (omega arith) (omega arith)

cmd_goto_lem_instance :
    ((cmd_goto fs_init (bytes "x") home ≡ (goto_target home (bytes "x"), true))
      × (fs_is_dir (goto_target home (bytes "x")) fs_init ≡ true)
      × (length (goto_target home (bytes "x")) ≤ 63))
    ⊎ ((cmd_goto fs_init (bytes "x") home ≡ (home, false))
        × (fs_is_dir (goto_target home (bytes "x")) fs_init ≡ false))
cmd_goto_lem_instance = cmd_goto_lem fs_init (bytes "x") home (omega arith)

copy_file-Copies_example : Copies home (bytes "/b") fs_init (copy_file home (bytes "/b") fs_init)
copy_file-Copies_example = copy_file-Copies home (bytes "/b") fs_init fs_init-IsTable.0

move_file-Moves_example : Moves home (bytes "/b") fs_init (move_file home (bytes "/b") fs_init)
move_file-Moves_example = move_file-Moves home (bytes "/b") fs_init fs_init-IsTable.0

add_lines-last_instance :
    (add_lines (replicate 12 (bytes "ver")) empty_log).shell_history
    ≡ last_of history_max ([] ++ cut_lines (replicate 12 (bytes "ver")))
add_lines-last_instance = add_lines-last (replicate 12 (bytes "ver")) [] empty_log refl

nothing-IsTodos : IsTodos (record { items = []; todo_next_id = 1 })
unfolding Numbered
nothing-IsTodos = omega arith

run_todos-IsTodos_example :
    (t : Todos) × (run_todos (bytes "add \"buy milk\"" ∷ bytes "done 1" ∷ []) no_todos ≡ some t)
    × IsTodos t
unfolding close_quote open_quote
run_todos-IsTodos_example =
    run_todos-IsTodos (bytes "add \"buy milk\"" ∷ bytes "done 1" ∷ []) no_todos
      (λ add. omega arith, (λ add. omega arith, tt)) nothing-IsTodos

abbrev one_item : List Todo
one_item = record { id = 1; done = false; text = [] } ∷ []

one_item-Numbered : Numbered 1 one_item
unfolding Numbered
one_item-Numbered = omega arith

mark_done-Marks_instance : Marks 1 1 one_item (mark_done 1 one_item)
mark_done-Marks_instance = mark_done-Marks 1 1 one_item one_item-Numbered

cmd_top-lines_instance : cmd_top 2 three_lines ≡ take 2 (lines_from 1 [] three_lines)
cmd_top-lines_instance = cmd_top-lines 2 three_lines

cmd_btm-lines_instance :
    cmd_btm 2 three_lines
    ≡ drop (length (lines_from 1 [] three_lines) - 2) (lines_from 1 [] three_lines)
cmd_btm-lines_instance = cmd_btm-lines 2 three_lines

cmd_cnt-lines_instance : (cmd_cnt three_lines).lines ≡ length (lines_from 1 [] three_lines)
cmd_cnt-lines_instance = cmd_cnt-lines three_lines

cmd_hunt-lines_instance :
    cmd_hunt (bytes "e") three_lines ≡ lines_with (bytes "e") (lines_from 1 [] three_lines)
cmd_hunt-lines_instance = cmd_hunt-lines (bytes "e") three_lines (omega arith)

mini_strstr_lem_instance :
    (mini_strstr three_lines (bytes "de") ≡ true) ↔ Occurs three_lines (bytes "de")
mini_strstr_lem_instance = mini_strstr_lem three_lines (bytes "de") (omega arith)
