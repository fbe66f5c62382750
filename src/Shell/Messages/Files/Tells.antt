-- ===== src/Shell/Messages/Files/Tells.antt =====
-- What the texts that the file commands of kernel/shell.c print say of the tables before and behind them.
use zero_to_kernel.Prelude.{
  ℕ, ◌≤◌, ◌≡◌, ◌⊎◌, refl, ◌∙◌, inl, inr, Bool, true, false, Option, none, some, List, [], ◌∷◌,
  if◌then◌else◌, Bool-cases, length, take, bytes, bytes_eq, bytes_eq_refl, is_some,
}
use zero_to_kernel.Text.Strings.{c_string}
use zero_to_kernel.Fs.{Text, Table, Created, fs_max_files, fs_max_filename, fs_get_total_files}
use zero_to_kernel.Fs.Lookup.{File, lookup}
use zero_to_kernel.Fs.Files.{
  file, Creates, bad_empty, bad_long, bad_present, bad_full, fs_create_lem, Deletes, absent,
  removed, fs_delete-Deletes, reads, fs_read_lem,
}
use zero_to_kernel.Fs.Files as Files
use zero_to_kernel.Screen.Printf.{str}
use zero_to_kernel.Screen.Output.{Call, format, write}
use zero_to_kernel.Shell.{made}
use zero_to_kernel.Shell.Dispatch.{Command}
use zero_to_kernel.Shell.Messages.Files.{
  create_calls, new_calls, mkd_calls, del_calls, deld_calls, read_calls,
}

-- A line with a path in it.
abbrev pub line : Text → Text → List Call
line fmt path = format fmt (str path ∷ []) ∷ []

-- No file of the name can be read.
abbrev pub Unreadable : Text → Table → Type 0
Unreadable path t =
    (lookup path t ≡ none) ⊎ ((f : File) × (lookup path t ≡ some f) × (f.dir ≡ true))

-- Why an entry is not made.
pub data Blocked (path : Text) (t : Table) : Type 0 where
  empty : length path ≡ 0 → Blocked path t
  long : fs_max_filename ≤ length path → Blocked path t
  present : (f : File) → lookup path t ≡ some f → Blocked path t
  full : fs_get_total_files t ≡ fs_max_files → Blocked path t

-- What a command on the path prints that finds the table `t` and leaves the table `t'`.
pub data Tells (path : Text) (t t' : Table) : Command → List Call → Type 0 where
  deleted :
      (f : File)
      → lookup path t ≡ some f
      → lookup path t' ≡ none
      → Tells path t t' Command.del (line (bytes "Deleted: %s\n") path)
  not_deleted :
      lookup path t ≡ none
      → t' ≡ t
      → Tells path t t' Command.del (line (bytes "Error: file '%s' not found.\n") path)
  dir_deleted :
      (f : File)
      → lookup path t ≡ some f
      → lookup path t' ≡ none
      → Tells path t t' Command.deld (line (bytes "Directory deleted: %s\n") path)
  dir_not_deleted :
      lookup path t ≡ none
      → t' ≡ t
      → Tells path t t' Command.deld (line (bytes "Error: directory '%s' not found.\n") path)
  dir_made :
      lookup path t ≡ none
      → lookup path t' ≡ some (file true [])
      → Tells path t t' Command.mkd (line (bytes "Directory created: %s\n") path)
  dir_not_made :
      Blocked path t
      → t' ≡ t
      → Tells path t t' Command.mkd (line (bytes "Error: could not create directory '%s'\n") path)
  file_made :
      lookup path t ≡ none
      → lookup path t' ≡ some (file false [])
      → Tells path t t' Command.new (line (bytes "\nCreated: %s\n") path)
  name_empty :
      length path ≡ 0
      → t' ≡ t
      → Tells path t t' Command.new (write (bytes "Error: file name cannot be empty.\n") ∷ [])
  name_long :
      fs_max_filename ≤ length path
      → t' ≡ t
      → Tells path t t' Command.new
          (write (bytes "Error: file name too long (max 63 chars).\n") ∷ [])
  name_present :
      (f : File)
      → lookup path t ≡ some f
      → t' ≡ t
      → Tells path t t' Command.new (line (bytes "Error: file '%s' already exists.\n") path)
  table_full :
      fs_get_total_files t ≡ fs_max_files
      → t' ≡ t
      → Tells path t t' Command.new (write (bytes "Error: filesystem full (max 32 files).\n") ∷ [])
  name_plain :
      t' ≡ t
      → Tells path t t' Command.new
          (write (bytes "\nError: Filename must have an extension (e.g., filename.txt)\n") ∷ [])
  seen :
      (f : File)
      → lookup path t ≡ some f
      → f.dir ≡ false
      → t' ≡ t
      → Tells path t t' Command.see
          (write (10 ∷ []) ∷ write (c_string (take 256 f.contents)) ∷ write (10 ∷ []) ∷ [])
  not_seen :
      Unreadable path t
      → t' ≡ t
      → Tells path t t' Command.see (line (bytes "Error: file '%s' not found.\n") path)
  found :
      (f : File)
      → lookup path t ≡ some f
      → f.dir ≡ false
      → t' ≡ t
      → Tells path t t' Command.look (line (bytes "Found: %s\n") path)
  not_found :
      Unreadable path t
      → t' ≡ t
      → Tells path t t' Command.look (line (bytes "Not found: %s\n") path)

-- The name itself is what Updates and removal speak of.
own : (path : Text) (x y : Option File) → (if bytes_eq path path then x else y) ≡ x
own path x y = rw (bytes_eq_refl path) refl

pub del-Tells :
    (path : Text) (t : Table) (r : Table × Bool)
    → Deletes path t r
    → Tells path t r.0 Command.del (del_calls path (some r.1))
      × Tells path t r.0 Command.deld (deld_calls path (some r.1))
unfolding del_calls deld_calls
del-Tells path t r (absent gone) = (not_deleted gone refl, dir_not_deleted gone refl)
del-Tells path t r (removed t' f v is upd _) =
    let gone = upd path ∙ own path none _ in (deleted f is gone, dir_deleted f is gone)

pub mkd-Tells :
    (path : Text) (t : Table) (r : Table × Created)
    → Creates true path t r
    → Tells path t r.0 Command.mkd (mkd_calls path (made r.1))
unfolding mkd_calls
mkd-Tells path t r (bad_empty h) = dir_not_made (empty h) refl
mkd-Tells path t r (bad_long h) = dir_not_made (long h) refl
mkd-Tells path t r (bad_present f h) = dir_not_made (present f h) refl
mkd-Tells path t r (bad_full h) = dir_not_made (full h) refl
mkd-Tells path t r (Files.made t' v _ _ fresh upd _) = dir_made fresh (upd path ∙ own path _ _)

pub new-Tells :
    (path : Text) (t : Table) (r : Table × Created)
    → Creates false path t r
    → Tells path t r.0 Command.new (new_calls path (made r.1))
unfolding new_calls create_calls
new-Tells path t r (bad_empty h) = name_empty h refl
new-Tells path t r (bad_long h) = name_long h refl
new-Tells path t r (bad_present f h) = name_present f h refl
new-Tells path t r (bad_full h) = table_full h refl
new-Tells path t r (Files.made t' v _ _ fresh upd _) = file_made fresh (upd path ∙ own path _ _)

-- What fs_read finds in a lookup.
pub data Found (path : Text) (t : Table) : Option (List ℕ) → Type 0 where
  read :
      (f : File)
      → lookup path t ≡ some f
      → f.dir ≡ false
      → Found path t (some (take 256 f.contents))
  unreadable : Unreadable path t → Found path t none

pub reads-Found :
    (path : Text) (t : Table) (o : Option File) → lookup path t ≡ o → Found path t (reads 257 o)
reads-Found path t none e = unreadable (inl e)
reads-Found path t (some f) e = elim (Bool-cases f.dir) [
  | inl dir ↦ rw dir (unreadable (inr (f, e, dir)))
  | inr plain ↦ rw plain (read f e plain)
]

pub see-Tells :
    (path : Text) (t : Table) (o : Option (List ℕ))
    → Found path t o
    → Tells path t t Command.see (read_calls path o)
unfolding read_calls
see-Tells path t o (read f e plain) = seen f e plain refl
see-Tells path t o (unreadable h) = not_seen h refl

pub look-Tells :
    (path : Text) (t : Table) (o : Option (List ℕ))
    → Found path t o
    → Tells path t t Command.look
        (if is_some o then line (bytes "Found: %s\n") path else line (bytes "Not found: %s\n") path)
look-Tells path t o (read f e plain) = found f e plain refl
look-Tells path t o (unreadable h) = not_found h refl
