-- ===== src/Editor.antt =====
-- kernel/editor.c. The state is edit_buffer up to edit_buffer_len, and the calls that the handlers make
-- of the terminal while the user types; Drawing has the frame round the text. The keys that
-- keyboard_getchar returns are a list: a session that ends before its ESC waits, `none`.
pub mod Session
pub mod Drawing
pub mod Keys
mod Tests
use zero_to_kernel.Prelude.{
  ℕ, zero, suc, ◌+◌, ◌-◌, Bool, true, false, ◌&&◌, ◌||◌, Option, none, some, List, [], ◌∷◌, ◌++◌,
  ◌==◌, ltb, leb, if◌then◌else◌, length, take,
}
use zero_to_kernel.Screen.Output.{Call, set_color, write, color_black, color_light_red, color_white}
use zero_to_kernel.Fs.{
  Text, Table, Created, created, fs_create, fs_read, Written, fs_write, fs_max_filesize,
}

pub record Editor : Type 0 where
  pub edit_buffer : List ℕ
  pub echo : List Call

abbrev pub key_esc : ℕ
key_esc = 27

unfoldable pub handle_backspace_key : Editor → Editor
handle_backspace_key e =
    if ltb 0 (length e.edit_buffer)
    then record {
      edit_buffer = take (length e.edit_buffer - 1) e.edit_buffer;
      echo = e.echo ++ write (8 ∷ []) ∷ [];
    }
    else e

unfoldable pub handle_enter_key : Editor → Editor
handle_enter_key e =
    if ltb (length e.edit_buffer) fs_max_filesize
    then record { edit_buffer = e.edit_buffer ++ 10 ∷ []; echo = e.echo ++ write (10 ∷ []) ∷ [] }
    else e

-- A red '!' that is erased at once.
unfoldable pub bell : List Call
bell =
    set_color color_light_red color_black
    ∷ write (33 ∷ [])
    ∷ write (8 ∷ [])
    ∷ set_color color_white color_black
    ∷ []

-- A full buffer rings the bell instead.
unfoldable pub handle_printable_char : ℕ → Editor → Editor
handle_printable_char c e =
    if ltb (length e.edit_buffer) fs_max_filesize
    then record { edit_buffer = e.edit_buffer ++ c ∷ []; echo = e.echo ++ write (c ∷ []) ∷ [] }
    else record e { echo = e.echo ++ bell }

-- A key other than ESC; char is signed, so a byte from 128 on is no printable character.
unfoldable pub handle_key : ℕ → Editor → Editor
handle_key key e =
    if key == 8
    then handle_backspace_key e
    else if key == 13 || key == 10
    then handle_enter_key e
    else if leb 32 key && ltb key 127
    then handle_printable_char key e
    else e

-- run_editor_input_loop up to the ESC, and the keys behind it.
unfoldable pub input_loop : List ℕ → Editor → Option (Editor × List ℕ)
input_loop [] e = none
input_loop (key ∷ keys) e =
    let rest = input_loop keys (handle_key key e) in if key == key_esc then some (e, keys) else rest

-- How the editor ends: the usage, a file that cannot be created and why, or the save and the keys
-- left.
pub data Outcome : Type 0 where
  usage : Outcome
  cannot_open : Created → Outcome
  saved : Written → List ℕ → Outcome

load_new : Table × Created → Table × Option (List ℕ) × Created
load_new (t, created) = (t, some [], created)
load_new (t, Created.empty_name) = (t, none, Created.empty_name)
load_new (t, Created.name_too_long) = (t, none, Created.name_too_long)
load_new (t, Created.already_exists) = (t, none, Created.already_exists)
load_new (t, Created.table_full) = (t, none, Created.table_full)

load_read : Text → Table → Option (List ℕ) → Table × Option (List ℕ) × Created
load_read filename t (some bytes_read) = (t, some bytes_read, created)
load_read filename t none = load_new (fs_create filename t)

-- The table, and the buffer loaded or the reason why there is none.
unfoldable pub load_file_or_create : Text → Table → Table × Option (List ℕ) × Created
unfolding load_read load_new
load_file_or_create filename t = load_read filename t (fs_read filename (fs_max_filesize + 1) t)

save : Text → Table → Option (Editor × List ℕ) → Option (Table × Outcome)
save filename t none = none
save filename t (some (e, keys)) =
    let r = fs_write filename e.edit_buffer (length e.edit_buffer) t in some (r.0, saved r.1 keys)

unfoldable pub run_editor_input_loop : Text → List ℕ → List ℕ → Table → Option (Table × Outcome)
unfolding save
run_editor_input_loop filename keys buf t =
    save filename t (input_loop keys (record { edit_buffer = buf; echo = [] }))

opened : Text → List ℕ → Table × Option (List ℕ) × Created → Option (Table × Outcome)
opened filename keys (t, none, why) = some (t, cannot_open why)
opened filename keys (t, some buf, why) = run_editor_input_loop filename keys buf t

unfoldable pub editor_open : Text → List ℕ → Table → Option (Table × Outcome)
unfolding opened
editor_open filename keys t =
    if length filename == 0
    then some (t, usage)
    else opened filename keys (load_file_or_create filename t)
