-- ===== src/Editor/Drawing/Shown.antt =====
-- Whatever the keys are, what the editor draws is performed to the end and leaves white on black.
use zero_to_kernel.Prelude.{
  ℕ, ◌≡◌, ◌⊎◌, refl, ◌∙◌, ap, subst, inl, inr, Option, none, some, List, [], ◌∷◌, ◌++◌, ◌==◌,
  if_both, All, All-append, length, bytes,
}
use zero_to_kernel.Fs.{Text, Table, Created, fs_read, fs_create}
use zero_to_kernel.Fs.Invariant.{IsTable}
use zero_to_kernel.Editor.Session.{load_file_or_create-Spares}
use zero_to_kernel.Screen.{Screen, make_color}
use zero_to_kernel.Screen.Cursor.{IsValid}
use zero_to_kernel.Screen.Output.{Call, clear, perform_all, color_white, color_black}
use zero_to_kernel.Screen.Output.Log.{echo_all}
use zero_to_kernel.Screen.Output.Calls.{
  IsPlain, color_after, color_after-append, Performs, text_of_all, texts, texts-IsPlain,
  perform_all-Performs,
}
use zero_to_kernel.Screen.Output.Formats.{NoTab, literals}
use zero_to_kernel.Screen.Output.Lines.{
  Leaves, Leaves-append, string_line, literal-IsPlain, clear-IsPlain,
}
use zero_to_kernel.Editor.{Editor, load_file_or_create, load_read, load_new}
use zero_to_kernel.Editor.Drawing.{
  draw_editor_header, draw_editor_divider, display_file_content, saved_calls, opened_calls,
  editor_calls,
}
use zero_to_kernel.Editor.Drawing.Parts.{
  white, Echoes, Ended, input_loop-Ended, header-IsPlain, divider-Leaves, content-Leaves,
  fs_write-IsSmall, save-Leaves,
}

-- Calls that are plain, and leave white on black or the colour that was there.
abbrev pub Settles : List Call → Type 0
Settles cs = All IsPlain cs × ((c : ℕ) → (color_after cs c ≡ white) ⊎ (color_after cs c ≡ c))

abbrev AllSettle : Option (List Call) → Type 0
AllSettle none = Unit
AllSettle (some cs) = Settles cs

header-white : (filename : Text) (c : ℕ) → color_after (draw_editor_header filename) c ≡ white
unfolding draw_editor_header color_after
header-white filename c = refl

frame-Settles :
    (filename : Text) (buf : List ℕ) (rest : List Call)
    → NoTab filename
    → NoTab buf
    → Leaves white rest
    → Settles (
        (clear ∷ draw_editor_header filename ++ (draw_editor_divider ++ display_file_content buf))
        ++ rest)
unfolding color_after
frame-Settles filename buf rest plain text h =
    let header = draw_editor_header filename in
    let body =
      Leaves-append white draw_editor_divider (display_file_content buf) divider-Leaves
        (content-Leaves buf text) in
    let lines = draw_editor_divider ++ display_file_content buf in
    (
      (
        clear-IsPlain,
        All-append IsPlain (header ++ lines) rest
            (All-append IsPlain header lines (header-IsPlain filename plain) body.0) h.0,
      ),
      λ c. inl (
          color_after-append (header ++ lines) rest c
          ∙ ap (color_after rest) (
              color_after-append header lines c
              ∙ ap (color_after lines) (header-white filename c)
              ∙ body.1)
          ∙ h.1),
    )

abbrev frame : Text → List ℕ → List Call
frame filename buf =
    clear ∷ draw_editor_header filename ++ (draw_editor_divider ++ display_file_content buf)

-- A session that ends draws its frame, its echo and its outcome.
saved_calls-Settles :
    (filename : Text) (buf : List ℕ) (t : Table) (o : Option (Editor × List ℕ))
    → NoTab filename
    → NoTab buf
    → IsTable t
    → Ended o
    → AllSettle (saved_calls filename t (frame filename buf) o)
unfolding Ended Echoes saved_calls
saved_calls-Settles filename buf t none plain text v h = tt
saved_calls-Settles filename buf t (some (e, rest)) plain text v h =
    frame-Settles filename buf _ plain text (
      Leaves-append white e.echo _ h
        (save-Leaves filename _ plain (fs_write-IsSmall filename e.edit_buffer t v)))

start-Echoes : (buf : List ℕ) → Echoes (record { edit_buffer = buf; echo = [] })
unfolding Echoes color_after
start-Echoes buf = (tt, refl)

opened_calls-Settles :
    (filename : Text) (keys : List ℕ) (r : Table × Option (List ℕ) × Created)
    → NoTab filename
    → IsTable r.0
    → ((buf : List ℕ) → r.1 ≡ some buf → NoTab buf)
    → AllSettle (opened_calls filename keys r)
unfolding opened_calls literals color_after
opened_calls-Settles filename keys (t, none, why) plain v text = (
  (string_line (bytes "Error: cannot open or create '") (bytes "'\n") filename refl refl plain, tt),
  λ c. inr refl,
)
opened_calls-Settles filename keys (t, some buf, why) plain v text =
    saved_calls-Settles filename buf t _ plain (text buf refl) v
      (input_loop-Ended keys _ (start-Echoes buf))

-- The text that is loaded is the file's, or empty.
load_new-NoTab : (r : Table × Created) (buf : List ℕ) → (load_new r).1 ≡ some buf → NoTab buf
unfolding load_new
load_new-NoTab (t, Created.created) buf e = let eq : [] ≡ buf = cc in subst NoTab eq tt
load_new-NoTab (t, Created.empty_name) buf e = cc
load_new-NoTab (t, Created.name_too_long) buf e = cc
load_new-NoTab (t, Created.already_exists) buf e = cc
load_new-NoTab (t, Created.table_full) buf e = cc

load_read-NoTab :
    (filename : Text) (t : Table) (o : Option (List ℕ)) (buf : List ℕ)
    → ((bs : List ℕ) → o ≡ some bs → NoTab bs)
    → (load_read filename t o).1 ≡ some buf
    → NoTab buf
unfolding load_read
load_read-NoTab filename t none buf text e = load_new-NoTab (fs_create filename t) buf e
load_read-NoTab filename t (some bs) buf text e = let eq : bs ≡ buf = cc in text buf (ap some eq)

editor_calls-Settles :
    (filename : Text) (keys : List ℕ) (t : Table)
    → NoTab filename
    → IsTable t
    → ((bs : List ℕ) → fs_read filename 257 t ≡ some bs → NoTab bs)
    → AllSettle (editor_calls filename keys t)
unfolding editor_calls literals color_after load_file_or_create
editor_calls-Settles filename keys t plain v text =
    if_both AllSettle (length filename == 0) _ _ ((literal-IsPlain _ refl, tt), λ c. inr refl)
      (opened_calls-Settles filename keys (load_read filename t (fs_read filename 257 t)) plain
        (load_file_or_create-Spares filename t v).valid
        (λ buf e. load_read-NoTab filename t (fs_read filename 257 t) buf text e))

-- On a valid table, whatever the keys are, a session of the editor that ends draws all it has to, if neither
-- the name nor the file's text has a tab: the serial port gets all its texts, the cursor is on the screen,
-- and the colour is white on black or, where no editor was opened, the one before.
pub editor_calls-Performs :
    (fuel : ℕ) (filename : Text) (keys : List ℕ) (t : Table) (cs : List Call) (s : Screen)
    → NoTab filename
    → IsTable t
    → ((bs : List ℕ) → fs_read filename 257 t ≡ some bs → NoTab bs)
    → editor_calls filename keys t ≡ some cs
    → IsValid s
    → (text : List ℕ) × (texts cs ≡ some text)
      × (c : ℕ) × Performs (echo_all text) c s (perform_all fuel cs s)
      × ((c ≡ make_color color_white color_black) ⊎ (c ≡ s.term_color))
editor_calls-Performs fuel filename keys t cs s plain v text is valid =
    let (all, settles) = subst AllSettle is (editor_calls-Settles filename keys t plain v text) in
    (
      text_of_all cs all,
      texts-IsPlain cs all,
      color_after cs s.term_color,
      perform_all-Performs fuel cs s all valid,
      settles s.term_color,
    )
