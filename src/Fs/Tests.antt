-- ===== src/Fs/Tests.antt =====
-- Runs of the filesystem and instances of its theorems.
use zero_to_kernel.Prelude.{
  ℕ, ◌≡◌, ◌≢◌, refl, true, false, some, List, [], ◌∷◌, arith, bytes, bytes_eq,
}
use zero_to_kernel.Fs.{
  Table, fs_find, fs_free_slot, fill_slot, fs_create, fs_create_dir, fs_init, fs_is_dir, fs_write,
  fs_read, fs_delete, fs_get_total_files, store, already_exists, is_directory,
}
use zero_to_kernel.Fs.Lookup.{lookup}
use zero_to_kernel.Fs.Invariant.{IsTable}
use zero_to_kernel.Fs.Files.{
  Creates, Writes, Deletes, reads, fs_create_lem, Creates-IsTable, fs_init-IsTable, fs_write_lem,
  fs_read_lem, fs_delete-Deletes, fs_read-fs_write,
}
use zero_to_kernel.Fs.Listing.{has_slash, child_name, fs_list_dir, child_name-join}

abbrev a_txt : List ℕ
a_txt = bytes "/root/a.txt"

with_file : Table
with_file = (fs_create a_txt fs_init).0

-- Create, write, read, list, delete.
session :
    (fs_read a_txt 257 (fs_write a_txt (bytes "hello") 5 with_file).0 ≡ some (bytes "hello"))
    × ((fs_create a_txt with_file).1 ≡ already_exists)
    × ((fs_write (bytes "/root") (bytes "x") 1 with_file).1 ≡ is_directory)
    × (fs_list_dir (bytes "/root") with_file
        ≡ record { text = bytes "a.txt"; dir = false; size = 0 } ∷ [])
    × (fs_get_total_files (fs_delete a_txt with_file).0 ≡ 1)
    × (fs_is_dir (bytes "/root") with_file ≡ true)
unfolding with_file fs_create fs_create_dir fs_init fs_find fs_free_slot fill_slot fs_write fs_read
    fs_delete store fs_list_dir child_name has_slash fs_get_total_files fs_is_dir bytes_eq
session = (refl, refl, refl, refl, refl, refl)

fs_create_lem_example :
    Creates false a_txt fs_init (fs_create a_txt fs_init)
    × Creates true a_txt fs_init (fs_create_dir a_txt fs_init)
fs_create_lem_example = fs_create_lem a_txt fs_init fs_init-IsTable.0

fs_write_lem_example :
    Writes (bytes "/root") (bytes "x") 1 fs_init (fs_write (bytes "/root") (bytes "x") 1 fs_init)
fs_write_lem_example =
    fs_write_lem (bytes "/root") (bytes "x") 1 fs_init fs_init-IsTable.0 (omega arith)

fs_read_lem_instance :
    fs_read (bytes "/root") 257 fs_init ≡ reads 257 (lookup (bytes "/root") fs_init)
fs_read_lem_instance = fs_read_lem (bytes "/root") 257 fs_init (omega arith)

fs_delete-Deletes_example : Deletes (bytes "/root") fs_init (fs_delete (bytes "/root") fs_init)
fs_delete-Deletes_example = fs_delete-Deletes (bytes "/root") fs_init fs_init-IsTable.0

with_file-IsTable : IsTable with_file
unfolding with_file
with_file-IsTable =
    Creates-IsTable false a_txt fs_init (fs_create a_txt fs_init) fs_init-IsTable.0
      (fs_create_lem a_txt fs_init fs_init-IsTable.0).0

fs_read-fs_write_example :
    fs_read a_txt 257 (fs_write a_txt (bytes "hello") 5 with_file).0 ≡ some (bytes "hello")
unfolding fs_create fs_create_dir fs_init fs_find fs_free_slot fill_slot fs_write store with_file
    bytes_eq
fs_read-fs_write_example =
    fs_read-fs_write a_txt (bytes "hello") 5 257 with_file with_file-IsTable (omega arith)
      (omega arith) refl

root_ne : bytes "/root" ≢ bytes "/"
root_ne e = cc

child_name-join_instance : child_name (bytes "/root") (bytes "/root/a.txt") ≡ some (bytes "a.txt")
child_name-join_instance = child_name-join (bytes "/root") (bytes "a.txt") root_ne
