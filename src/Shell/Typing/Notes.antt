-- ===== src/Shell/Typing/Notes.antt =====
-- Notes: a note is found by its title, if the title is short enough.
use zero_to_kernel.Prelude.{
  ℕ, ◌+◌, ◌-◌, ◌%◌, ◌≤◌, ◌<◌, ◌≡◌, ◌≢◌, refl, ◌∙◌, sym, ap, false, List, [], ◌∷◌, ◌++◌, ◌==◌,
  if◌then◌else◌, arith, if_both, length, take, bytes_eq, bytes_eq_ne, length-append, length-take,
  take_all,
}
use zero_to_kernel.Text.{word}
use zero_to_kernel.Fs.{Text, Table, Created, fs_create, fs_write, Written}
use zero_to_kernel.Fs.Invariant.{IsTable}
use zero_to_kernel.Fs.Lookup.{lookup}
use zero_to_kernel.Fs.Files.{
  fs_create_lem, Creates, bad_empty, bad_long, bad_present, bad_full, made, fs_write_lem, Writes,
  no_file, at_directory, done, fs_read_lem,
}
use zero_to_kernel.Shell.{root, strncat_room, path_bytes, resolve_path}
use zero_to_kernel.Shell.Todo.{open_quote, close_quote}
use zero_to_kernel.Shell.Typing.{save_note, prefix, notes_view}

-- The path of a note in a directory.
abbrev pub note_path : Text → Text → Text
note_path dir name = resolve_path dir (prefix ++ name)

Writes-others :
    (name : Text) (src : List ℕ) (n : ℕ) (t : Table) (r : Table × Written) (m : Text)
    → bytes_eq name m ≡ false
    → Writes name src n t r
    → lookup m r.0 ≡ lookup m t
Writes-others name src n t r m ne (no_file _) = refl
Writes-others name src n t r m ne (at_directory _ _ _) = refl
Writes-others name src n t r m ne (done t' f v' _ d u) = u m ∙ rw ne refl

Creates-others :
    (name : Text) (t : Table) (r : Table × Created) (m : Text)
    → bytes_eq name m ≡ false
    → IsTable t
    → Creates false name t r
    → IsTable r.0 × (lookup m r.0 ≡ lookup m t)
Creates-others name t r m ne v (bad_empty _) = (v, refl)
Creates-others name t r m ne v (bad_long _) = (v, refl)
Creates-others name t r m ne v (bad_present _ _) = (v, refl)
Creates-others name t r m ne v (bad_full _) = (v, refl)
Creates-others name t r m ne v (made t' v' _ _ _ u _) = (v', u m ∙ rw ne refl)

strncat_room_whole :
    (dest src : Text) → length dest + length src ≤ 63 → strncat_room 63 dest src ≡ dest ++ src
unfolding strncat_room
strncat_room_whole dest src fits =
    ap (λ s. dest ++ s) (take_all ((63 + word - length dest) % word) src (omega arith))

prefix_cancel : (p a b : Text) → (p ++ a) ≡ (p ++ b) → a ≡ b
prefix_cancel [] a b e = e
prefix_cancel (x ∷ p) a b e = prefix_cancel p a b (cc e)

-- The directory with its slash.
abbrev base : Text → Text
base dir = if bytes_eq dir root then dir else dir ++ root

note_path_lem :
    (dir name : Text)
    → length dir + 6 + length name ≤ 63
    → note_path dir name ≡ base dir ++ (prefix ++ name)
unfolding resolve_path path_bytes
note_path_lem dir name fits =
    let short : length (base dir) ≤ length dir + 1 =
      if_both (λ d. length d ≤ length dir + 1) (bytes_eq dir root) dir (dir ++ root) (omega arith)
        (omega (arith, length-append dir root)) in
    let joined = strncat_room_whole (base dir) (prefix ++ name) (omega (arith, short)) in
    let named : (length (prefix ++ name) == 0) ≡ false = ground arith in
    rw named (
      take_all 63 (strncat_room 63 (base dir) (prefix ++ name))
        (omega (arith, ap length joined, length-append (base dir) (prefix ++ name), short))
      ∙ joined)

-- A note with a longer title is saved under the first 20 bytes of it: `view` with the whole title answers
-- what it answered before the note was saved. The paths fit.
pub notes_view_long :
    (dir title body : Text) (t : Table)
    → IsTable t
    → 20 < length title
    → length dir + 6 + length title ≤ 63
    → open_quote title ≡ title
    → close_quote title ≡ title
    → notes_view dir title (save_note dir title body t) ≡ notes_view dir title t
unfolding notes_view save_note
notes_view_long dir title body t v long fits opened closed =
    let path = note_path dir (take 20 title) in
    let other = note_path dir title in
    let cut : length (take 20 title) ≡ 20 = omega (arith, length-take 20 title) in
    let differ : path ≢ other = λ e.
      let same =
        sym (note_path_lem dir (take 20 title) (omega (arith, cut)))
        ∙ e
        ∙ note_path_lem dir title fits in
      let titles = prefix_cancel prefix _ _ (prefix_cancel (base dir) _ _ same) in
      omega (arith, ap length titles, cut) in
    let ne : bytes_eq path other ≡ false = bytes_eq_ne path other differ in
    let t₁ = (fs_create path t).0 in
    let (v₁, kept) =
      Creates-others path t (fs_create path t) other ne v (fs_create_lem path t v).0 in
    let kept' =
      Writes-others path body _ t₁ _ other ne
        (fs_write_lem path body (length body) t₁ v₁ (omega arith)) in
    rw
      (
        opened,
        closed,
        fs_read_lem other 257 (fs_write path body (length body) t₁).0 (omega arith),
        fs_read_lem other 257 t (omega arith),
        kept',
        kept,
      )
      refl
