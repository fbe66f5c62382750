-- ===== src/Screen.antt =====
-- kernel/screen.c, the terminal. VGA memory, the history lines and the snapshot of the live screen are
-- maps from indices to 16-bit entries; a loop that fills separate cells is one update of such a map.
-- `serial` collects the bytes sent to port 0x3F8, `cursor` is the position in the CRT controller's
-- registers, and `cursor_hidden` the cursor shape that redraw_scroll sets. A function that may print
-- takes fuel for the loop of the tab character, and is `none` when the fuel runs out.
pub mod Scroll
pub mod Cursor
pub mod Tab
pub mod View
pub mod Printf
pub mod Output
mod Tests
use zero_to_kernel.Prelude.{
  ℕ, zero, suc, ◌+◌, ◌-◌, ◌*◌, ◌/◌, ◌%◌, ◌^◌, Bool, true, false, ◌&&◌, ◌||◌, Option, none, some,
  List, [], ◌∷◌, ◌++◌, ◌==◌, ltb, leb, if◌then◌else◌,
}

abbrev pub vga_cols : ℕ
vga_cols = 80

abbrev pub vga_rows_max : ℕ
vga_rows_max = 25

abbrev pub vga_rows : ℕ
vga_rows = 24

abbrev pub history_lines : ℕ
history_lines = 200

abbrev pub Grid : Type 0
Grid = ℕ → ℕ → ℕ

pub record Screen : Type 0 where
  pub vga_buf : ℕ → ℕ
  pub term_row : ℕ
  pub term_col : ℕ
  pub term_color : ℕ
  pub history_buf : Grid
  pub history_head : ℕ
  pub history_count : ℕ
  pub view_scroll : ℕ
  pub live_snapshot : Grid
  pub serial : List ℕ
  pub cursor : ℕ
  pub cursor_hidden : Bool

-- `(bg << 4) | (fg & 0x0F)` as a byte.
unfoldable pub make_color : ℕ → ℕ → ℕ
make_color fg bg = (bg * 16 + fg % 16) % 256

unfoldable pub make_vga_entry : ℕ → ℕ → ℕ
make_vga_entry c color = color * 256 + c

unfoldable pub update_cursor : Screen → Screen
update_cursor s = record s { cursor = (s.term_row * vga_cols + s.term_col) % 2 ^ 16 }

abbrev pub outs : List ℕ → Screen → Screen
outs bs s = record s { serial = s.serial ++ bs }

unfoldable pub put_cell : ℕ → ℕ → (ℕ → ℕ) → ℕ → ℕ
put_cell i v f j = if i == j then v else f j

unfoldable pub save_history_line : (ℕ → ℕ) → Screen → Screen
save_history_line line s = record s {
  history_buf = λ l c. if l == s.history_head && ltb c vga_cols then line c else s.history_buf l c;
  history_head = (s.history_head + 1) % history_lines;
  history_count =
      if ltb s.history_count history_lines then s.history_count + 1 else s.history_count;
}

-- for (col = 80 - n; col < 80; col++) vga_buf[(row - 1) * 80 + col] = vga_buf[row * 80 + col]
unfoldable pub copy_row : ℕ → ℕ → (ℕ → ℕ) → ℕ → ℕ
copy_row zero row f = f
copy_row (suc n) row f =
    let col = vga_cols - suc n in
    copy_row n row (put_cell ((row - 1) * vga_cols + col) (f (row * vga_cols + col)) f)

-- for (row = 24 - n; row < 24; row++) the loop above.
unfoldable pub copy_rows : ℕ → (ℕ → ℕ) → ℕ → ℕ
copy_rows zero f = f
copy_rows (suc n) f = copy_rows n (copy_row vga_cols (vga_rows - suc n) f)

-- for (col = 80 - n; col < 80; col++) vga_buf[23 * 80 + col] = blank
unfoldable pub blank_row : ℕ → ℕ → (ℕ → ℕ) → ℕ → ℕ
blank_row zero b f = f
blank_row (suc n) b f =
    blank_row n b (put_cell ((vga_rows - 1) * vga_cols + (vga_cols - suc n)) b f)

unfoldable pub scroll : Screen → Screen
scroll s =
    let s' = save_history_line s.vga_buf s in
    update_cursor (record s' {
      vga_buf =
          blank_row vga_cols (make_vga_entry 32 s.term_color) (copy_rows (vga_rows - 1) s'.vga_buf);
      term_row = vga_rows - 1;
    })

-- What redraw_scroll shows at row `r`, column `c` while the view is scrolled back.
unfoldable pub scrolled_cell : Screen → ℕ → ℕ → ℕ
scrolled_cell s r c =
    if ltb r s.view_scroll
    then s.history_buf ((s.history_head + history_lines - s.view_scroll + r) % history_lines) c
    else s.live_snapshot (r - s.view_scroll) c

-- Rows 0 to 23 of VGA memory from a grid; the rest stays.
unfoldable pub draw : Grid → (ℕ → ℕ) → ℕ → ℕ
draw g f i = if ltb i (vga_rows * vga_cols) then g (i / vga_cols) (i % vga_cols) else f i

unfoldable pub redraw_scroll : Screen → Screen
redraw_scroll s =
    if s.view_scroll == 0
    then update_cursor
        (record s { vga_buf = draw s.live_snapshot s.vga_buf; cursor_hidden = false })
    else record s { vga_buf = draw (scrolled_cell s) s.vga_buf; cursor_hidden = true }

-- Rows 0 to 23 of the snapshot are taken from VGA memory when the view is live.
unfoldable pub take_snapshot : Screen → Screen
take_snapshot s =
    if s.view_scroll == 0
    then record s {
      live_snapshot = λ r c.
          if ltb r vga_rows && ltb c vga_cols
          then s.vga_buf (r * vga_cols + c)
          else s.live_snapshot r c;
    }
    else s

unfoldable pub terminal_scroll_up : ℕ → Screen → Screen
terminal_scroll_up lines s =
    let s₁ = take_snapshot s in
    let wanted = s₁.view_scroll + lines in
    let s₂ = record s₁ {
      view_scroll = if ltb s₁.history_count wanted then s₁.history_count else wanted;
    } in
    if ltb 0 s₂.view_scroll then redraw_scroll s₂ else s₂

unfoldable pub terminal_scroll_down : ℕ → Screen → Screen
terminal_scroll_down lines s =
    if ltb 0 s.view_scroll
    then redraw_scroll (record s { view_scroll = s.view_scroll - lines })
    else s

-- Printing and clearing first go back to the live view.
unfoldable pub to_live : Screen → Screen
to_live s = if ltb 0 s.view_scroll then redraw_scroll (record s { view_scroll = 0 }) else s

unfoldable pub terminal_clear : Screen → Screen
terminal_clear s =
    let s' = to_live s in
    update_cursor (record s' {
      vga_buf = λ i.
          if ltb i (vga_rows_max * vga_cols) then make_vga_entry 32 s'.term_color else s'.vga_buf i;
      term_row = 0;
      term_col = 0;
    })

unfoldable pub terminal_setcolor : ℕ → ℕ → Screen → Screen
terminal_setcolor fg bg s = record s { term_color = make_color fg bg }

unfoldable pub terminal_init : Screen → Screen
terminal_init s =
    terminal_clear (record s { term_color = make_color 7 0; term_row = 0; term_col = 0 })

-- A negative argument, which no caller passes, is not modelled.
unfoldable pub terminal_setcursor : ℕ → ℕ → Screen → Screen
terminal_setcursor row col s = update_cursor (record s {
  term_row = if ltb row vga_rows then row else s.term_row;
  term_col = if ltb col vga_cols then col else s.term_col;
})

unfoldable pub newline : Screen → Screen
newline s =
    let s' = record s { term_col = 0; term_row = s.term_row + 1 } in
    outs (13 ∷ 10 ∷ []) (update_cursor (if leb vga_rows s'.term_row then scroll s' else s'))

unfoldable pub carriage_return : Screen → Screen
carriage_return s = outs (13 ∷ []) (update_cursor (record s { term_col = 0 }))

-- One cell back, to the end of the row above at a row's start.
unfoldable pub step_back : Screen → Screen
step_back s =
    if ltb 0 s.term_col
    then record s { term_col = s.term_col - 1 }
    else if ltb 0 s.term_row
    then record s { term_row = s.term_row - 1; term_col = vga_cols - 1 }
    else s

abbrev pub here : Screen → ℕ
here s = s.term_row * vga_cols + s.term_col

unfoldable pub backspace : Screen → Screen
backspace s =
    let s' = step_back s in
    outs (8 ∷ 32 ∷ 8 ∷ []) (
      update_cursor
        (record s' { vga_buf = put_cell (here s') (make_vga_entry 32 s'.term_color) s'.vga_buf }))

-- The box-drawing characters of code page 437 go to the serial port in UTF-8.
unfoldable pub serial_bytes : ℕ → List ℕ
serial_bytes c =
    if c == 179
    then 0xE2 ∷ 0x94 ∷ 0x82 ∷ []
    else if c == 195
    then 0xE2 ∷ 0x94 ∷ 0x9C ∷ []
    else if c == 196
    then 0xE2 ∷ 0x94 ∷ 0x80 ∷ []
    else if c == 192
    then 0xE2 ∷ 0x94 ∷ 0x94 ∷ []
    else c ∷ []

-- At the end of a row the cursor goes to the next, and the screen scrolls below the last.
unfoldable pub wrap : Screen → Screen
wrap s =
    let s' = record s { term_col = 0; term_row = s.term_row + 1 } in
    if leb vga_cols s.term_col then (if leb vga_rows s'.term_row then scroll s' else s') else s

unfoldable pub printable : ℕ → Screen → Screen
printable c s = update_cursor (
    wrap (
      outs (serial_bytes c) (record s {
        vga_buf = put_cell (here s) (make_vga_entry c s.term_color) s.vga_buf;
        term_col = s.term_col + 1;
      })))

-- while (term_col < next_tab) terminal_putchar(' '), in the live view, where it is `printable`.
unfoldable pub tab_loop : ℕ → ℕ → Screen → Option Screen
tab_loop zero next_tab s = none
tab_loop (suc fuel) next_tab s =
    let rest = tab_loop fuel next_tab (printable 32 s) in
    if ltb s.term_col next_tab then rest else some (update_cursor s)

-- `(term_col + 8) & ~7`
abbrev pub next_tab : Screen → ℕ
next_tab s = (s.term_col + 8) / 8 * 8

-- A character below 256.
unfoldable pub terminal_putchar : ℕ → ℕ → Screen → Option Screen
terminal_putchar fuel c s =
    let s' = to_live s in
    let tabbed = tab_loop fuel (next_tab s') s' in
    if c == 10
    then some (newline s')
    else if c == 13
    then some (carriage_return s')
    else if c == 8
    then some (backspace s')
    else if c == 9
    then tabbed
    else some (printable c s')

write_next : Option Screen → (Screen → Option Screen) → Option Screen
write_next none k = none
write_next (some s) k = k s

-- terminal_writestring; terminal_write with the first `len` bytes of its data.
unfoldable pub terminal_writestring : ℕ → List ℕ → Screen → Option Screen
unfolding write_next
terminal_writestring fuel [] s = some s
terminal_writestring fuel (c ∷ cs) s =
    write_next (terminal_putchar fuel c s) (terminal_writestring fuel cs)

restore_color : ℕ → Option Screen → Option Screen
restore_color saved none = none
restore_color saved (some s) = some (record s { term_color = saved })

unfoldable pub terminal_writecolor : ℕ → List ℕ → ℕ → ℕ → Screen → Option Screen
unfolding restore_color
terminal_writecolor fuel str fg bg s =
    restore_color s.term_color
      (terminal_writestring fuel str (record s { term_color = make_color fg bg }))
