-- ===== src/Shell.antt =====
-- kernel/shell.c: paths and arguments, the commands on files and directories, and the history of
-- lines. A C string is the list of its bytes before the terminator. A command returns which of its
-- messages it prints, with the values in it. current_dir is `dir`.
pub mod Paths
pub mod Copying
pub mod History
pub mod Todo
pub mod Lines
pub mod Readline
pub mod Tools
pub mod Typing
pub mod Dispatch
pub mod Messages
pub mod Run
mod Tests
use zero_to_kernel.Prelude.{
  ℕ, zero, suc, ◌+◌, ◌-◌, ◌*◌, ◌%◌, ◌^◌, Bool, true, false, not, ◌&&◌, ◌||◌, Option, none, some,
  List, [], ◌∷◌, ◌++◌, ◌==◌, ltb, leb, if◌then◌else◌, length, get_or, take, drop, bytes, bytes_eq,
}
use zero_to_kernel.Text.{strchr, strrchr, word}
use zero_to_kernel.Fs.{
  Text, Table, Created, created, fs_create, fs_create_dir, fs_is_dir, fs_read, fs_write, fs_delete,
}

abbrev pub slash : ℕ
slash = b'/'

abbrev pub root : Text
root = bytes "/"

abbrev pub home : Text
home = bytes "/root"

-- strncat(dest, src, n) with n = room - strlen(dest), a size_t.
unfoldable pub strncat_room : ℕ → Text → Text → Text
strncat_room room dest src = dest ++ take ((room + word - length dest) % word) src

-- What resolve_path puts into out_path before it sets byte 63 to 0.
unfoldable pub path_bytes : Text → Text → Text
path_bytes dir arg =
    if length arg == 0
    then dir
    else if get_or arg 0 0 == slash
    then take 63 arg
    else strncat_room 63 (if bytes_eq dir root then dir else dir ++ root) arg

-- Whether resolve_path writes behind the 64 bytes of out_path, and so over other variables.
unfoldable pub path_overruns : Text → Text → Bool
path_overruns dir arg = leb 64 (length (path_bytes dir arg))

-- The C string in out_path. Where path_overruns holds, what comes behind resolve_path is not defined; a
-- command then ends with the outcome `overruns` in Dispatch.
unfoldable pub resolve_path : Text → Text → Text
resolve_path dir arg = if length arg == 0 then dir else take 63 (path_bytes dir arg)

unfoldable pub skip_spaces : Text → Text
skip_spaces [] = []
skip_spaces (c ∷ s) = let rest = skip_spaces s in if c == 32 || c == 9 then rest else c ∷ s

split_at : Text → Option ℕ → Option (Text × Text)
split_at a none = none
split_at a (some n) =
    let src = take (if leb 32 n then 31 else n) a in
    let dst = take 31 (skip_spaces (drop n a)) in
    if length src == 0 || length dst == 0 then none else some (src, dst)

-- The two arguments that cpy, mov, rename and hunt take; `none` prints the usage.
unfoldable pub two_args : Text → Option (Text × Text)
unfolding split_at
two_args arg = let a = skip_spaces arg in split_at a (strchr a 32)

pub data Copied : Type 0 where
  usage source_not_found no_directory not_created : Copied
  copied : Text → Text → Copied

fill : Text → Text → List ℕ → Table × Created → Table × Copied
fill src dst buf (t, created) = ((fs_write dst buf (length buf) t).0, copied src dst)
fill src dst buf (t, Created.empty_name) = (t, not_created)
fill src dst buf (t, Created.name_too_long) = (t, not_created)
fill src dst buf (t, Created.already_exists) = (t, not_created)
fill src dst buf (t, Created.table_full) = (t, not_created)

copy_read : Text → Text → Table → Option (List ℕ) → Table × Copied
copy_read src dst t none = (t, source_not_found)
copy_read src dst t (some buf) = fill src dst buf (fs_create dst t)

-- From fs_read on, in cmd_cpy.
unfoldable pub copy_file : Text → Text → Table → Table × Copied
unfolding copy_read fill
copy_file src dst t = copy_read src dst t (fs_read src 257 t)

drop_source : Table × Copied → Table × Copied
drop_source (t, copied src dst) = ((fs_delete src t).0, copied src dst)
drop_source (t, usage) = (t, usage)
drop_source (t, source_not_found) = (t, source_not_found)
drop_source (t, no_directory) = (t, no_directory)
drop_source (t, not_created) = (t, not_created)

-- From fs_read on, in cmd_mov and cmd_rename.
unfoldable pub move_file : Text → Text → Table → Table × Copied
unfolding drop_source
move_file src dst t = drop_source (copy_file src dst t)

pub on_args : (Text → Text → Table → Table × Copied) → Option (Text × Text) → Table → Table × Copied
on_args f none t = (t, usage)
on_args f (some (src, dst)) t = f src dst t

unfoldable pub cmd_cpy : Text → Text → Table → Table × Copied
unfolding on_args
cmd_cpy dir arg t =
    on_args (λ src dst. copy_file (resolve_path dir src) (resolve_path dir dst)) (two_args arg) t

unfoldable pub cmd_rename : Text → Text → Table → Table × Copied
unfolding on_args
cmd_rename dir arg t =
    on_args (λ src dst. move_file (resolve_path dir src) (resolve_path dir dst)) (two_args arg) t

after_index : Text → Option ℕ → Text
after_index path none = path
after_index path (some i) = drop (i + 1) path

-- The part behind the last slash.
unfoldable pub basename : Text → Text
unfolding after_index
basename path = after_index path (strrchr path slash)

-- What cmd_mov puts into path_dst before it sets byte 63 to 0; as in resolve_path, it may be more than fits.
abbrev pub into_bytes : Text → Text → Text
into_bytes path_dst path_src =
    strncat_room 63 (if bytes_eq path_dst root then path_dst else path_dst ++ root)
      (basename path_src)

-- The C string in path_dst; Dispatch treats an overrun of the buffer as an outcome of its own.
unfoldable pub into_dir : Text → Text → Text
into_dir path_dst path_src = take 63 (into_bytes path_dst path_src)

pub move_into : Text → Text → Table → Table × Copied
move_into src dst t =
    if fs_is_dir dst t then move_file src (into_dir dst src) t else (t, no_directory)

unfoldable pub cmd_mov : Text → Text → Table → Table × Copied
unfolding on_args move_into
cmd_mov dir arg t =
    on_args (λ src dst. move_into (resolve_path dir src) (resolve_path dir dst)) (two_args arg) t

up_to : Text → Option ℕ → Text
up_to d none = root
up_to d (some zero) = root
up_to d (some (suc i)) = take (suc i) d

-- The directory that `goto ..` goes to.
unfoldable pub parent : Text → Text
unfolding up_to
parent d = if bytes_eq d root || bytes_eq d home then d else up_to d (strrchr d slash)

unfoldable pub goto_target : Text → Text → Text
goto_target dir arg =
    if length arg == 0
    then home
    else if bytes_eq arg (bytes "..")
    then parent dir
    else if get_or arg 0 0 == slash
    then take 63 arg
    else strncat_room 63
        (if get_or dir (length dir - 1) 0 == slash then dir else strncat_room 63 dir root) arg

-- The new current_dir, and whether the directory exists.
unfoldable pub cmd_goto : Table → Text → Text → Text × Bool
cmd_goto t arg dir =
    if fs_is_dir (goto_target dir arg) t then (goto_target dir arg, true) else (dir, false)

pub data Made : Type 0 where
  make_usage no_extension : Made
  made : Created → Made

has_dot : Text → Option ℕ → Bool
has_dot name none = false
has_dot name (some zero) = false
has_dot name (some (suc i)) = ltb (suc i + 1) (length name)

-- A file name needs a dot that is neither its first nor its last byte.
unfoldable pub cmd_new : Text → Text → Table → Table × Made
unfolding has_dot
cmd_new dir arg t =
    let r = fs_create (resolve_path dir arg) t in
    if length arg == 0
    then (t, make_usage)
    else if has_dot (basename arg) (strchr (basename arg) b'.')
    then (r.0, made r.1)
    else (t, no_extension)

unfoldable pub cmd_mkd : Text → Text → Table → Table × Made
cmd_mkd dir arg t =
    let r = fs_create_dir (resolve_path dir arg) t in
    if length arg == 0 then (t, make_usage) else (r.0, made r.1)

-- cmd_del and cmd_deld, which differ in their messages; `none` prints the usage.
unfoldable pub cmd_del : Text → Text → Table → Table × Option Bool
cmd_del dir arg t =
    let r = fs_delete (resolve_path dir arg) t in
    if length arg == 0 then (t, none) else (r.0, some r.1)

-- cmd_see and cmd_look read the file; `none` is the message that it was not found.
unfoldable pub cmd_see : Text → Text → Table → Option (List ℕ)
cmd_see dir arg t = if length arg == 0 then none else fs_read (resolve_path dir arg) 257 t
