-- ===== src/Shell/Typing/Tests.antt =====
-- Notes and the file manager on a fresh table, and instances of their theorems.
use zero_to_kernel.Prelude.{ℕ, ◌≡◌, refl, List, ◌∷◌, ◌++◌, arith, bytes, bytes_eq}
use zero_to_kernel.Text.Strings.{c_string}
use zero_to_kernel.Keyboard.{readline_loop, keyboard_readline}
use zero_to_kernel.Fs.{
  fs_find, fs_free_slot, fill_slot, fs_create, fs_create_dir, fs_init, fs_write, fs_read, store,
}
use zero_to_kernel.Fs.Files.{fs_init-IsTable}
use zero_to_kernel.Shell.{home}
use zero_to_kernel.Shell.Todo.{open_quote, close_quote}
use zero_to_kernel.Shell.Typing.{
  typed, save_note, notes_view, quit, fm_create, fm_read, fm_delete, fm_round, cmd_fm,
}
use zero_to_kernel.Shell.Typing.Notes.{notes_view_long}
use zero_to_kernel.Shell.Typing.Manager.{Ends, cmd_fm-Ends}

abbrev session : List ℕ
session = bytes "c/root/a" ++ 10 ∷ bytes "hi" ++ 10 ∷ bytes "r/root/a" ++ 10 ∷ bytes "xq!"

cmd_fm-Ends_instance : Ends (cmd_fm 30 session fs_init)
cmd_fm-Ends_instance = cmd_fm-Ends 30 session fs_init fs_init-IsTable.0 (omega arith)

managed :
    cmd_fm 30 session fs_init
    ≡ quit
        (fs_write (bytes "/root/a") (bytes "hi") 2 (fs_create (bytes "/root/a") fs_init).0).0
        (bytes "!")
unfolding cmd_fm fm_round fm_create fm_read fm_delete typed keyboard_readline readline_loop c_string
    fs_create fs_create_dir fs_init fs_find fs_free_slot fill_slot fs_write fs_read store bytes_eq
managed = refl

notes_view_long_instance :
    notes_view home
      (bytes "a title of 26 characters !")
      (save_note home (bytes "a title of 26 characters !") (bytes "2 l") fs_init)
    ≡ notes_view home (bytes "a title of 26 characters !") fs_init
unfolding open_quote close_quote
notes_view_long_instance =
    notes_view_long home (bytes "a title of 26 characters !") (bytes "2 l") fs_init
      fs_init-IsTable.0 (omega arith) (omega arith) refl refl
