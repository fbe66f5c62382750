-- ===== src/Shell/Messages/Files/Rows.antt =====
-- The listing of a directory: its rows can be printed.
use zero_to_kernel.Prelude.{
  ℕ, ◌+◌, ◌<◌, refl, ◌&&◌, Option, none, some, List, [], ◌∷◌, ◌==◌, arith, if_both, All, All-append,
  All-drop, length, get_or, take, bytes, bytes_eq,
}
use zero_to_kernel.Text.{word}
use zero_to_kernel.Fs.{Text, FileEntry, Table}
use zero_to_kernel.Fs.Invariant.{IsTable, AllFit}
use zero_to_kernel.Fs.Listing.{
  Row, child_name, row_of, has_slash, slash, fs_list_dir, length-fs_list_dir,
}
use zero_to_kernel.Screen.Output.{Call}
use zero_to_kernel.Screen.Output.Calls.{IsPlain}
use zero_to_kernel.Screen.Output.Formats.{
  NoTab, literals, format-end, format-text, format-d, format-24s,
}
use zero_to_kernel.Screen.Output.Lines.{
  format-IsPlain, literal-IsPlain, set_color-IsPlain, int_line,
}
use zero_to_kernel.Shell.Messages.Plain.{total_files-word}
use zero_to_kernel.Shell.Messages.Files.{row_calls, list_calls, cmd_laf}

abbrev pub IsPlainAll : List Call → Type 0
IsPlainAll cs = All IsPlain cs

-- A row whose name can be printed and whose size is a word.
record IsRow (r : Row) : Type 0 where
  text : NoTab r.text
  size : r.size < word

row_calls-IsPlain : (r : Row) → IsRow r → IsPlainAll (row_calls r)
unfolding row_calls literals
row_calls-IsPlain r v =
    let stop = format-text (bytes " bytes)\n") [] [] refl (format-end []) in
    let size = format-text (bytes "  (") _ _ refl (format-d r.size _ _ v.size stop) in
    let file = format-text (bytes "  ") _ _ refl (format-24s r.text _ _ v.text size) in
    let mark = format-text (bytes "  <DIR>\n") [] [] refl (format-end []) in
    let dir = format-text (bytes "  ") _ _ refl (format-24s r.text _ _ v.text mark) in
    if_both IsPlainAll r.dir _ _
      (set_color-IsPlain _ _, (format-IsPlain _ _ dir, (set_color-IsPlain _ _, tt)))
      (format-IsPlain _ _ file, tt)

list_calls-IsPlain :
    (rows : List Row) (count : ℕ)
    → All IsRow rows
    → count < word
    → IsPlainAll (list_calls rows count)
unfolding list_calls literals
list_calls-IsPlain [] count v small = (
  if_both IsPlain (count == 0) _ _ (literal-IsPlain (bytes "  (no files)\n") refl)
      (int_line (bytes "  ") (bytes " item(s)\n") count refl refl small),
  tt,
)
list_calls-IsPlain (r ∷ rows) count v small =
    All-append IsPlain (row_calls r) (list_calls rows count) (row_calls-IsPlain r v.0)
      (list_calls-IsPlain rows count v.1 small)

-- The names in a table can be printed.
abbrev pub AllNoTab : Table → Type 0
AllNoTab t = All (λ (e : FileEntry). NoTab e.name) t

abbrev ChildNoTab : Option Text → Type 0
ChildNoTab none = Unit
ChildNoTab (some child) = NoTab child

child_name-NoTab : (dir fname : Text) → NoTab fname → ChildNoTab (child_name dir fname)
unfolding child_name
child_name-NoTab dir fname plain =
    if_both ChildNoTab (bytes_eq dir (bytes "/")) _ _
      (if_both ChildNoTab (get_or fname 0 0 == slash) _ _ (All-drop _ 1 fname plain) tt)
      (if_both ChildNoTab
        (bytes_eq (take (length dir) fname) dir && get_or fname (length dir) 0 == slash) _ _
        (All-drop _ (length dir + 1) fname plain) tt)

row_of-IsRow :
    (e : FileEntry) (child : Option Text) (rest : List Row)
    → e.size < word
    → ChildNoTab child
    → All IsRow rest
    → All IsRow (row_of e child rest)
unfolding row_of
row_of-IsRow e none rest small plain h = h
row_of-IsRow e (some child) rest small plain h =
    if_both (All IsRow) (has_slash child) _ _ h (record { text = plain; size = small }, h)

fs_list_dir-IsRow : (dir : Text) (t : Table) → AllFit t → AllNoTab t → All IsRow (fs_list_dir dir t)
unfolding fs_list_dir
fs_list_dir-IsRow dir [] fit plain = tt
fs_list_dir-IsRow dir (e ∷ t) fit plain =
    let rest = fs_list_dir-IsRow dir t fit.1 plain.1 in
    if_both (All IsRow) e.used _ _
      (row_of-IsRow e _ _ (omega (arith, fit.0.size)) (child_name-NoTab dir e.name plain.0) rest)
      rest

pub cmd_laf-IsPlain : (dir : Text) (t : Table) → IsTable t → AllNoTab t → IsPlainAll (cmd_laf dir t)
unfolding cmd_laf literals
cmd_laf-IsPlain dir t v plain = (
  literal-IsPlain (bytes "\n") refl,
  list_calls-IsPlain _ _ (fs_list_dir-IsRow dir t v.fit plain)
      (omega (arith, length-fs_list_dir dir t, total_files-word t v)),
)
