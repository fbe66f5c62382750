-- ===== src/Shell/Messages/Files.antt =====
-- What the file commands of kernel/shell.c print: new, see, laf, del, look, mkd and deld, with the texts of
-- fs_create and fs_list_dir of kernel/filesystem.c, as calls of the terminal.
pub mod Rows
pub mod Shown
pub mod Tells
pub mod Told
mod Tests
use zero_to_kernel.Prelude.{
  ℕ, Bool, true, false, Option, none, some, List, [], ◌∷◌, ◌++◌, ◌==◌, if◌then◌else◌, length, bytes,
  is_some,
}
use zero_to_kernel.Fs.{
  Text, Table, Created, created, empty_name, name_too_long, already_exists, table_full, fs_read,
}
use zero_to_kernel.Fs.Listing.{Row, fs_list_dir}
use zero_to_kernel.Text.Strings.{c_string}
use zero_to_kernel.Screen.Printf.{num, str}
use zero_to_kernel.Screen.Output.{
  Call, set_color, format, write, color_black, color_light_blue, color_white,
}
use zero_to_kernel.Shell.{
  resolve_path, Made, make_usage, no_extension, made, cmd_new, cmd_mkd, cmd_del,
}
use zero_to_kernel.Shell.Dispatch.{Command, State}

-- The line of an entry; a directory's is blue, and the text behind it is white.
unfoldable pub row_calls : Row → List Call
row_calls r =
    if r.dir
    then set_color color_light_blue color_black
      ∷ format (bytes "  %-24s  <DIR>\n") (str r.text ∷ [])
      ∷ set_color color_white color_black
      ∷ []
    else format (bytes "  %-24s  (%d bytes)\n") (str r.text ∷ num r.size ∷ []) ∷ []

-- The lines of fs_list_dir, with the count at the end.
unfoldable pub list_calls : List Row → ℕ → List Call
list_calls [] count =
    (if count == 0
      then write (bytes "  (no files)\n")
      else format (bytes "  %d item(s)\n") (num count ∷ []))
    ∷ []
list_calls (r ∷ rows) count = row_calls r ++ list_calls rows count

unfoldable pub cmd_laf : Text → Table → List Call
cmd_laf dir t = let rows = fs_list_dir dir t in write (bytes "\n") ∷ list_calls rows (length rows)

-- What fs_create prints.
unfoldable pub create_calls : Text → Created → List Call
create_calls name created = []
create_calls name empty_name = write (bytes "Error: file name cannot be empty.\n") ∷ []
create_calls name name_too_long = write (bytes "Error: file name too long (max 63 chars).\n") ∷ []
create_calls name already_exists =
    format (bytes "Error: file '%s' already exists.\n") (str name ∷ []) ∷ []
create_calls name table_full = write (bytes "Error: filesystem full (max 32 files).\n") ∷ []

-- cmd_new's own line.
created_calls : Text → Created → List Call
created_calls name created = format (bytes "\nCreated: %s\n") (str name ∷ []) ∷ []
created_calls name other = []

unfoldable pub new_calls : Text → Made → List Call
unfolding created_calls
new_calls path make_usage = write (bytes "Usage: new [filename]\n") ∷ []
new_calls path no_extension =
    write (bytes "\nError: Filename must have an extension (e.g., filename.txt)\n") ∷ []
new_calls path (made why) = create_calls path why ++ created_calls path why

unfoldable pub mkd_calls : Text → Made → List Call
mkd_calls path (made created) = format (bytes "Directory created: %s\n") (str path ∷ []) ∷ []
mkd_calls path (made why) =
    format (bytes "Error: could not create directory '%s'\n") (str path ∷ []) ∷ []
mkd_calls path usage = write (bytes "Usage: mkd [dir]\n") ∷ []

unfoldable pub del_calls : Text → Option Bool → List Call
del_calls path none = write (bytes "Usage: del [filename]\n") ∷ []
del_calls path (some true) = format (bytes "Deleted: %s\n") (str path ∷ []) ∷ []
del_calls path (some false) = format (bytes "Error: file '%s' not found.\n") (str path ∷ []) ∷ []

unfoldable pub deld_calls : Text → Option Bool → List Call
deld_calls path none = write (bytes "Usage: deld [dir]\n") ∷ []
deld_calls path (some true) = format (bytes "Directory deleted: %s\n") (str path ∷ []) ∷ []
deld_calls path (some false) =
    format (bytes "Error: directory '%s' not found.\n") (str path ∷ []) ∷ []

-- terminal_writestring stops at the first NUL of the file.
unfoldable pub read_calls : Text → Option (List ℕ) → List Call
read_calls path none = format (bytes "Error: file '%s' not found.\n") (str path ∷ []) ∷ []
read_calls path (some read_buf) = write (10 ∷ []) ∷ write (c_string read_buf) ∷ write (10 ∷ []) ∷ []

unfoldable pub see_calls : Text → Text → Table → List Call
see_calls dir arg t =
    let path = resolve_path dir arg in
    if length arg == 0
    then write (bytes "Usage: see [filename]\n") ∷ []
    else read_calls path (fs_read path 257 t)

unfoldable pub cmd_look : Text → Text → Table → List Call
cmd_look dir arg t =
    let path = resolve_path dir arg in
    if length arg == 0
    then write (bytes "Usage: look [name]\n") ∷ []
    else if is_some (fs_read path 257 t)
    then format (bytes "Found: %s\n") (str path ∷ []) ∷ []
    else format (bytes "Not found: %s\n") (str path ∷ []) ∷ []

-- The calls of a file command that takes one name; `none` for the other commands.
unfoldable pub file_calls : Command → Text → State → Option (List Call)
file_calls Command.new arg s =
    some (new_calls (resolve_path s.current_dir arg) (cmd_new s.current_dir arg s.fs).1)
file_calls Command.see arg s = some (see_calls s.current_dir arg s.fs)
file_calls Command.laf arg s = some (cmd_laf s.current_dir s.fs)
file_calls Command.del arg s =
    some (del_calls (resolve_path s.current_dir arg) (cmd_del s.current_dir arg s.fs).1)
file_calls Command.look arg s = some (cmd_look s.current_dir arg s.fs)
file_calls Command.mkd arg s =
    some (mkd_calls (resolve_path s.current_dir arg) (cmd_mkd s.current_dir arg s.fs).1)
file_calls Command.deld arg s =
    some (deld_calls (resolve_path s.current_dir arg) (cmd_del s.current_dir arg s.fs).1)
file_calls other arg s = none
