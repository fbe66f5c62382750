-- ===== src/Fs.antt =====
-- kernel/filesystem.c. The static array fs_table is a list of entries. A C string is the list of its
-- bytes before the terminator, so the name field is what stands before its first NUL and strcmp is
-- an equality test; the data field is its 256 bytes. A function that prints an error and returns -1
-- returns which error it was. What the listings print is returned as rows.
pub mod Lookup
pub mod Invariant
pub mod Files
pub mod Listing
pub mod Tree
mod Tests
use zero_to_kernel.Prelude.{
  ℕ, zero, suc, ◌+◌, ◌-◌, ◌*◌, Bool, true, false, not, ◌&&◌, ◌||◌, Option, none, some, List, [],
  ◌∷◌, ◌++◌, ◌==◌, ltb, leb, if◌then◌else◌, length, get_or, set, replicate, take, drop, bytes,
  bytes_eq, is_some,
}
use mathlib.Core.Option

abbrev pub fs_max_files : ℕ
fs_max_files = 32

abbrev pub fs_max_filename : ℕ
fs_max_filename = 64

abbrev pub fs_max_filesize : ℕ
fs_max_filesize = 256

abbrev pub Text : Type 0
Text = List ℕ

pub record FileEntry : Type 0 where
  pub name : Text
  pub content : List ℕ
  pub size : ℕ
  pub used : Bool
  pub is_dir : Bool

abbrev pub Table : Type 0
Table = List FileEntry

-- An entry after memset to 0.
abbrev pub blank : FileEntry
blank = record {
  name = [];
  content = replicate fs_max_filesize 0;
  size = 0;
  used = false;
  is_dir = false;
}

-- The loops over the table return the first index that passes the test, and -1 as `none`.
unfoldable pub fs_find : Text → Table → Option ℕ
fs_find name [] = none
fs_find name (e ∷ t) =
    if e.used && bytes_eq e.name name then some 0 else Option.map suc (fs_find name t)

unfoldable pub fs_free_slot : Table → Option ℕ
fs_free_slot [] = none
fs_free_slot (e ∷ t) = if e.used then Option.map suc (fs_free_slot t) else some 0

-- What fs_create and fs_create_dir report: success, or the error for which they return -1.
pub data Created : Type 0 where
  created empty_name name_too_long already_exists table_full : Created

-- The four assignments to a slot; the data bytes stay.
unfoldable pub fill_slot : Bool → Text → FileEntry → FileEntry
fill_slot dir name e = record e {
  name = take (fs_max_filename - 1) name;
  size = 0;
  used = true;
  is_dir = dir;
}

use_slot : Bool → Text → Table → Option ℕ → Table × Created
use_slot dir name t none = (t, table_full)
use_slot dir name t (some slot) = (set t slot (fill_slot dir name (get_or t slot blank)), created)

create_entry : Bool → Text → Table → Table × Created
create_entry dir name t =
    if length name == 0
    then (t, empty_name)
    else if leb fs_max_filename (length name)
    then (t, name_too_long)
    else if is_some (fs_find name t)
    then (t, already_exists)
    else use_slot dir name t (fs_free_slot t)

unfoldable pub fs_create : Text → Table → Table × Created
unfolding create_entry use_slot
fs_create name t = create_entry false name t

unfoldable pub fs_create_dir : Text → Table → Table × Created
unfolding create_entry use_slot
fs_create_dir name t = create_entry true name t

unfoldable pub fs_init : Table
unfolding fs_create_dir
fs_init = (fs_create_dir (bytes "/root") (replicate fs_max_files blank)).0

dir_at : Table → Option ℕ → Bool
dir_at t none = false
dir_at t (some i) = (get_or t i blank).is_dir

unfoldable pub fs_is_dir : Text → Table → Bool
unfolding dir_at
fs_is_dir name t = if bytes_eq name (bytes "/") then true else dir_at t (fs_find name t)

pub data Written : Type 0 where
  not_found is_directory : Written
  written : ℕ → Written

-- memcpy of the source bytes to the start of the data array.
abbrev pub copy_over : List ℕ → List ℕ → List ℕ
copy_over src dst = src ++ drop (length src) dst

unfoldable pub store : List ℕ → ℕ → FileEntry → FileEntry
store src n e = record e { content = copy_over (take n src) e.content; size = n }

write_at : List ℕ → ℕ → Table → Option ℕ → Table × Written
write_at src n t none = (t, not_found)
write_at src n t (some i) =
    if (get_or t i blank).is_dir
    then (t, is_directory)
    else (set t i (store src n (get_or t i blank)), written n)

-- `src` holds at least `len` bytes.
unfoldable pub fs_write : Text → List ℕ → ℕ → Table → Table × Written
unfolding write_at
fs_write name src len t =
    write_at src (if ltb fs_max_filesize len then fs_max_filesize else len) t (fs_find name t)

read_at : ℕ → Table → Option ℕ → Option (List ℕ)
read_at room t none = none
read_at room t (some i) =
    let e = get_or t i blank in
    if e.is_dir then none else some (take (if ltb room e.size then room else e.size) e.content)

-- The bytes put into the buffer before the terminator; their number is the return value.
unfoldable pub fs_read : Text → ℕ → Table → Option (List ℕ)
unfolding read_at
fs_read name buf_size t = read_at (buf_size - 1) t (fs_find name t)

clear_at : Table → Option ℕ → Table × Bool
clear_at t none = (t, false)
clear_at t (some i) = (set t i blank, true)

-- The flag says whether the file was found.
unfoldable pub fs_delete : Text → Table → Table × Bool
unfolding clear_at
fs_delete name t = clear_at t (fs_find name t)

unfoldable pub fs_get_total_files : Table → ℕ
fs_get_total_files [] = 0
fs_get_total_files (e ∷ t) = (if e.used then 1 else 0) + fs_get_total_files t
