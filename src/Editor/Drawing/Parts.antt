-- ===== src/Editor/Drawing/Parts.antt =====
-- The parts of a session's drawing, each of which leaves white on black.
use zero_to_kernel.Prelude.{
  ℕ, ◌≤◌, ◌≢◌, refl, inl, inr, ◌&&◌, ◌||◌, Option, none, some, List, [], ◌∷◌, ◌==◌, ltb, leb, arith,
  Bool-cases, if_both, All, length, take, drop, bytes,
}
use zero_to_kernel.Fs.{Text, Table, Written, written, not_found, is_directory, fs_write}
use zero_to_kernel.Fs.Invariant.{IsTable}
use zero_to_kernel.Fs.Files.{Writes, no_file, at_directory, done, fs_write_lem}
use zero_to_kernel.Screen.{make_color}
use zero_to_kernel.Screen.Printf.{str}
use zero_to_kernel.Screen.Output.{format, write, color_white, color_black}
use zero_to_kernel.Screen.Output.Calls.{IsPlain, color_after}
use zero_to_kernel.Screen.Output.Formats.{
  NoTab, literals, format-end, format-text, format-d, format-s,
}
use zero_to_kernel.Screen.Output.Lines.{
  Leaves, Leaves-append, fixed, fixed-append, fixed-IsPlain, string_line, format-IsPlain,
  write-IsPlain, set_color-IsPlain,
}
use zero_to_kernel.Editor.{
  Editor, key_esc, bell, handle_backspace_key, handle_enter_key, handle_printable_char, handle_key,
  input_loop,
}
use zero_to_kernel.Editor.Drawing.{
  draw_editor_header, draw_editor_divider, display_file_content, show_result, save_and_show_result,
}

-- White on black.
abbrev pub white : ℕ
white = make_color color_white color_black

-- A call that prints bytes without a tab leaves the colour.
one-Leaves : (c : ℕ) (bs : List ℕ) → NoTab bs → Leaves c (write bs ∷ [])
unfolding color_after
one-Leaves c bs plain = ((write-IsPlain bs plain, tt), refl)

-- A key's echo.
unfoldable pub Echoes : Editor → Type 0
Echoes e = Leaves white e.echo

backspace-Echoes : (e : Editor) → Echoes e → Echoes (handle_backspace_key e)
unfolding Echoes handle_backspace_key
backspace-Echoes e h =
    if_both (λ (e : Editor). Leaves white e.echo) (ltb 0 (length e.edit_buffer)) _ _
      (Leaves-append white e.echo _ h (one-Leaves white (8 ∷ []) (omega arith))) h

enter-Echoes : (e : Editor) → Echoes e → Echoes (handle_enter_key e)
unfolding Echoes handle_enter_key
enter-Echoes e h =
    if_both (λ (e : Editor). Leaves white e.echo) (ltb (length e.edit_buffer) 256) _ _
      (Leaves-append white e.echo _ h (one-Leaves white (10 ∷ []) (omega arith))) h

bell-Leaves : Leaves white bell
unfolding bell fixed literals color_after
bell-Leaves = (fixed-IsPlain bell refl, refl)

printable-Echoes : (c : ℕ) (e : Editor) → c ≢ 9 → Echoes e → Echoes (handle_printable_char c e)
unfolding Echoes handle_printable_char
printable-Echoes c e plain h =
    if_both (λ (e : Editor). Leaves white e.echo) (ltb (length e.edit_buffer) 256) _ _
      (Leaves-append white e.echo _ h (one-Leaves white (c ∷ []) (plain, tt)))
      (Leaves-append white e.echo bell h bell-Leaves)

handle_key-Echoes : (key : ℕ) (e : Editor) → Echoes e → Echoes (handle_key key e)
unfolding handle_key
handle_key-Echoes key e h = if_both Echoes (key == 8) _ _ (backspace-Echoes e h) (
    if_both Echoes (key == 13 || key == 10) _ _ (enter-Echoes e h)
      (elim (Bool-cases (leb 32 key && ltb key 127)) [
        | inl e₁ ↦ rw e₁ (printable-Echoes key e (ground (arith, e₁)) h)
        | inr e₁ ↦ rw e₁ h
      ]))

-- The echo of a session that ends.
unfoldable pub Ended : Option (Editor × List ℕ) → Type 0
Ended none = Unit
Ended (some (e, keys)) = Echoes e

pub input_loop-Ended : (keys : List ℕ) (e : Editor) → Echoes e → Ended (input_loop keys e)
unfolding input_loop Ended
input_loop-Ended [] e h = tt
input_loop-Ended (key ∷ keys) e h =
    if_both Ended (key == key_esc) _ _ h
      (input_loop-Ended keys (handle_key key e) (handle_key-Echoes key e h))

pub header-IsPlain : (filename : Text) → NoTab filename → All IsPlain (draw_editor_header filename)
unfolding draw_editor_header fixed literals
header-IsPlain filename plain =
    let calls = draw_editor_header filename in
    fixed-append (take 2 calls) (drop 2 calls) refl
      (write-IsPlain filename plain, fixed-IsPlain (drop 3 calls) refl)

pub divider-Leaves : Leaves white draw_editor_divider
unfolding draw_editor_divider fixed literals color_after
divider-Leaves = (fixed-IsPlain draw_editor_divider refl, refl)

pub content-Leaves : (buf : List ℕ) → NoTab buf → Leaves white (display_file_content buf)
unfolding display_file_content color_after
content-Leaves buf plain =
    if_both (Leaves white) (ltb 0 (length buf)) _ _ (one-Leaves white buf plain) (tt, refl)

-- What fs_write returned can be printed.
pub IsSmall : Written → Type 0
IsSmall (written n) = n ≤ 256
IsSmall failed = Unit

Writes-IsSmall :
    (name : Text) (src : List ℕ) (n : ℕ) (t : Table) (r : Table × Written)
    → n ≤ 256
    → Writes name src n t r
    → IsSmall r.1
unfolding IsSmall
Writes-IsSmall name src n t r h (no_file _) = tt
Writes-IsSmall name src n t r h (at_directory _ _ _) = tt
Writes-IsSmall name src n t r h (done _ _ _ _ _ _) = h

pub fs_write-IsSmall :
    (name : Text) (src : List ℕ) (t : Table)
    → IsTable t
    → IsSmall (fs_write name src (length src) t).1
fs_write-IsSmall name src t v =
    Writes-IsSmall name src _ t _ (ground arith)
      (fs_write_lem name src (length src) t v (omega arith))

failed_line :
    (filename : Text)
    → NoTab filename
    → IsPlain (format (bytes "  Error: could not save '%s'\n") (str filename ∷ []))
unfolding literals
failed_line filename plain =
    string_line (bytes "  Error: could not save '") (bytes "'\n") filename refl refl plain

result-Leaves :
    (filename : Text) (w : Written)
    → NoTab filename
    → IsSmall w
    → Leaves white (show_result filename w)
unfolding show_result color_after IsSmall literals
result-Leaves filename not_found plain small =
    ((set_color-IsPlain _ _, (failed_line filename plain, (set_color-IsPlain _ _, tt))), refl)
result-Leaves filename is_directory plain small =
    ((set_color-IsPlain _ _, (failed_line filename plain, (set_color-IsPlain _ _, tt))), refl)
result-Leaves filename (written n) plain small =
    let stop = format-text (bytes " bytes)\n") [] [] refl (format-end []) in
    let count = format-text (bytes "  (") _ _ refl (format-d n _ _ (omega (arith, small)) stop) in
    let name = format-text (bytes "  Saved: ") _ _ refl (format-s filename _ _ plain count) in
    ((set_color-IsPlain _ _, (format-IsPlain _ _ name, (set_color-IsPlain _ _, tt))), refl)

pub save-Leaves :
    (filename : Text) (w : Written)
    → NoTab filename
    → IsSmall w
    → Leaves white (save_and_show_result filename w)
unfolding save_and_show_result
save-Leaves filename w plain small =
    Leaves-append white (write (10 ∷ []) ∷ []) _ (one-Leaves white (10 ∷ []) (omega arith)) (
      Leaves-append white draw_editor_divider _ divider-Leaves
        (result-Leaves filename w plain small))
