-- ===== src/Editor/Drawing.antt =====
-- What kernel/editor.c draws: the header, the divider, the text that is loaded, the outcome of the save, and
-- the whole session as calls of the terminal.
pub mod Parts
pub mod Shown
mod Tests
use zero_to_kernel.Prelude.{
  ℕ, ltb, Option, none, some, List, [], ◌∷◌, ◌++◌, ◌==◌, if◌then◌else◌, length, replicate, bytes,
}
use zero_to_kernel.Fs.{Text, Table, Created, Written, written, fs_write}
use zero_to_kernel.Fs
use zero_to_kernel.Screen.Printf.{num, str}
use zero_to_kernel.Screen.Output.{
  Call, set_color, clear, format, write, color_black, color_dark_grey, color_light_green,
  color_light_cyan, color_light_red, color_white,
}
use zero_to_kernel.Editor.{Editor, input_loop, load_file_or_create}

unfoldable pub draw_editor_header : Text → List Call
draw_editor_header filename =
    set_color color_black color_light_cyan
    ∷ write (bytes " MiniEdit  |  ")
    ∷ write filename
    ∷ write (bytes "  |  [ESC] Save & Quit   [BKSP] Delete   [ENTER] New line ")
    ∷ set_color color_white color_black
    ∷ write (10 ∷ [])
    ∷ []

abbrev pub editor_divider_width : ℕ
editor_divider_width = 80

unfoldable pub draw_editor_divider : List Call
draw_editor_divider =
    set_color color_dark_grey color_black
    ∷ write (replicate editor_divider_width b'-')
    ∷ set_color color_white color_black
    ∷ write (10 ∷ [])
    ∷ []

unfoldable pub display_file_content : List ℕ → List Call
display_file_content edit_buffer = if ltb 0 (length edit_buffer) then write edit_buffer ∷ [] else []

-- The message on what fs_write returned.
unfoldable pub show_result : Text → Written → List Call
show_result filename (written n) =
    set_color color_light_green color_black
    ∷ format (bytes "  Saved: %s  (%d bytes)\n") (str filename ∷ num n ∷ [])
    ∷ set_color color_white color_black
    ∷ []
show_result filename failed =
    set_color color_light_red color_black
    ∷ format (bytes "  Error: could not save '%s'\n") (str filename ∷ [])
    ∷ set_color color_white color_black
    ∷ []

-- save_and_show_result behind fs_write.
unfoldable pub save_and_show_result : Text → Written → List Call
save_and_show_result filename w = write (10 ∷ []) ∷ draw_editor_divider ++ show_result filename w

saved_calls : Text → Table → List Call → Option (Editor × List ℕ) → Option (List Call)
saved_calls filename t frame none = none
saved_calls filename t frame (some (e, keys)) =
    let w = (fs_write filename e.edit_buffer (length e.edit_buffer) t).1 in
    some (frame ++ (e.echo ++ save_and_show_result filename w))

opened_calls : Text → List ℕ → Table × Option (List ℕ) × Created → Option (List Call)
opened_calls filename keys (t, none, why) =
    some (format (bytes "Error: cannot open or create '%s'\n") (str filename ∷ []) ∷ [])
opened_calls filename keys (t, some buf, why) =
    let frame =
      clear ∷ draw_editor_header filename ++ (draw_editor_divider ++ display_file_content buf) in
    saved_calls filename t frame (input_loop keys (record { edit_buffer = buf; echo = [] }))

-- The calls of editor_open; `none` waits for more keys.
unfoldable pub editor_calls : Text → List ℕ → Table → Option (List Call)
unfolding opened_calls saved_calls
editor_calls filename keys t =
    if length filename == 0
    then some (write (bytes "Usage: edit [filename]\n") ∷ [])
    else opened_calls filename keys (load_file_or_create filename t)
