-- ===== src/Editor/Tests.antt =====
-- Runs of the editor and instances of its theorems.
use zero_to_kernel.Prelude.{ℕ, ◌≡◌, refl, false, some, List, [], ◌∷◌, ◌++◌, arith, bytes, bytes_eq}
use zero_to_kernel.Fs.{
  Table, fs_find, fs_free_slot, fill_slot, fs_create, fs_create_dir, fs_init, fs_write, fs_read,
  store, written, already_exists,
}
use zero_to_kernel.Fs.Lookup.{lookup}
use zero_to_kernel.Fs.Invariant.{IsTable}
use zero_to_kernel.Fs.Files.{file, Updates, fs_init-IsTable, fs_create_lem, Creates-IsTable}
use zero_to_kernel.Editor.{
  key_esc, handle_backspace_key, handle_enter_key, handle_printable_char, handle_key, input_loop,
  saved, cannot_open, run_editor_input_loop, load_file_or_create, editor_open,
}
use zero_to_kernel.Editor.Session.{editor_open-Typed, Spares, editor_open-Spares}

abbrev a_txt : List ℕ
a_txt = bytes "/root/a.txt"

with_file : Table
with_file = (fs_create a_txt fs_init).0

with_file-IsTable : IsTable with_file
unfolding with_file
with_file-IsTable =
    Creates-IsTable false a_txt fs_init (fs_create a_txt fs_init) fs_init-IsTable.0
      (fs_create_lem a_txt fs_init fs_init-IsTable.0).0

with_file-lookup : lookup a_txt with_file ≡ some (file false [])
unfolding with_file fs_create fs_create_dir fs_init fs_find fs_free_slot fill_slot lookup bytes_eq
with_file-lookup = refl

session :
    editor_open a_txt (104 ∷ 105 ∷ 33 ∷ 8 ∷ 10 ∷ 200 ∷ 27 ∷ []) with_file
    ≡ some ((fs_write a_txt (bytes "hi" ++ 10 ∷ []) 3 with_file).0, saved (written 3) [])
unfolding with_file fs_create fs_create_dir fs_init fs_find fs_free_slot fill_slot fs_write fs_read
    store bytes_eq editor_open load_file_or_create run_editor_input_loop input_loop handle_key
    handle_backspace_key handle_enter_key handle_printable_char
session = refl

at_directory :
    editor_open (bytes "/root") (27 ∷ []) fs_init ≡ some (fs_init, cannot_open already_exists)
unfolding fs_create fs_create_dir fs_init fs_find fs_free_slot fill_slot fs_read bytes_eq
    editor_open load_file_or_create
at_directory = refl

editor_open-Typed_instance :
    (t' : Table) × (editor_open a_txt (bytes "hi" ++ key_esc ∷ 120 ∷ []) with_file
      ≡ some (t', saved (written 2) (120 ∷ [])))
    × Updates a_txt (some (file false (bytes "hi"))) with_file t'
editor_open-Typed_instance =
    editor_open-Typed a_txt (bytes "hi") (120 ∷ []) with_file (file false []) with_file-IsTable
      (omega arith) with_file-lookup refl (omega arith) (omega arith)

editor_open-Spares_example : Spares (bytes "/root") fs_init fs_init
editor_open-Spares_example =
    editor_open-Spares (bytes "/root") (27 ∷ []) fs_init fs_init (cannot_open already_exists)
      fs_init-IsTable.0 at_directory
