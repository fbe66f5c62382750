-- ===== src/Fs/Listing.antt =====
-- The listings of kernel/filesystem.c. A listing returns the rows that it prints: the name below the
-- directory, whether it is a directory, and the size; the line of text round a row is left out.
use zero_to_kernel.Prelude.{
  ℕ, ◌+◌, ◌≤◌, ◌≡◌, ◌≢◌, refl, Bool, true, false, not, ◌&&◌, Option, none, some, List, [], ◌∷◌,
  ◌++◌, arith, ◌==◌, if◌then◌else◌, length, get_or, take, drop, bytes, bytes_eq, bytes_eq_refl,
  bytes_eq_ne, take-append, suc,
}
use zero_to_kernel.Fs.{Text, FileEntry, Table, fs_get_total_files}

pub record Row : Type 0 where
  pub text : Text
  pub dir : Bool
  pub size : ℕ

abbrev pub slash : ℕ
slash = b'/'

-- strchr(s, '/') != NULL
unfoldable pub has_slash : Text → Bool
has_slash [] = false
has_slash (c ∷ s) = if c == slash then true else has_slash s

-- The part of `fname` below the directory; the caller drops it if it has a further slash.
unfoldable pub child_name : Text → Text → Option Text
child_name dir fname =
    if bytes_eq dir (bytes "/")
    then (if get_or fname 0 0 == slash then some (drop 1 fname) else none)
    else if bytes_eq (take (length dir) fname) dir && get_or fname (length dir) 0 == slash
    then some (drop (length dir + 1) fname)
    else none

unfoldable pub row_of : FileEntry → Option Text → List Row → List Row
row_of e none rest = rest
row_of e (some child) rest =
    if has_slash child then rest else record { text = child; dir = e.is_dir; size = e.size } ∷ rest

-- The rows of fs_list_dir; the count that it prints is their number.
unfoldable pub fs_list_dir : Text → Table → List Row
unfolding row_of
fs_list_dir dir [] = []
fs_list_dir dir (e ∷ t) =
    let rest = fs_list_dir dir t in if e.used then row_of e (child_name dir e.name) rest else rest

note_row : FileEntry → Option Text → List Row → List Row
note_row e none rest = rest
note_row e (some child) rest =
    if not (has_slash child) && bytes_eq (take 5 child) (bytes "note_")
    then record { text = drop 5 child; dir = false; size = e.size } ∷ rest
    else rest

unfoldable pub fs_list_notes : Text → Table → List Row
unfolding note_row
fs_list_notes dir [] = []
fs_list_notes dir (e ∷ t) =
    let rest = fs_list_notes dir t in
    if e.used && not e.is_dir then note_row e (child_name dir e.name) rest else rest

get_or-append : (s t : Text) (c : ℕ) → get_or (s ++ c ∷ t) (length s) 0 ≡ c
get_or-append [] t c = refl
get_or-append (x ∷ s) t c = get_or-append s t c

drop-append : (s t : Text) (c : ℕ) → drop (length s + 1) (s ++ c ∷ t) ≡ t
drop-append [] t c = refl
drop-append (x ∷ s) t c =
    let e : suc (length s) + 1 ≡ suc (length s + 1) = omega arith in rw e (drop-append s t c)

-- A path made of a directory other than "/", a slash and a name is the name's child in it.
pub child_name-join :
    (dir name : Text) → dir ≢ bytes "/" → child_name dir (dir ++ slash ∷ name) ≡ some name
unfolding child_name
child_name-join dir name not_root =
    rw
      (
        bytes_eq_ne dir (bytes "/") not_root,
        take-append dir (slash ∷ name),
        bytes_eq_refl dir,
        get_or-append dir name slash,
        drop-append dir name slash,
      )
      refl

-- The listing has at most one row for each file.
pub length-fs_list_dir :
    (dir : Text) (t : Table) → length (fs_list_dir dir t) ≤ fs_get_total_files t
unfolding fs_list_dir fs_get_total_files
length-fs_list_dir dir [] = omega arith
length-fs_list_dir dir (e ∷ t) = ground (arith, length-fs_list_dir dir t)
