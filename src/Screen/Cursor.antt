-- ===== src/Screen/Cursor.antt =====
-- The cursor stays on the 24 rows of 80 columns, and the history indices in their array.
use zero_to_kernel.Prelude.{
  ℕ, zero, suc, ◌+◌, ◌≤◌, ◌<◌, ◌≡◌, refl, Option, none, some, List, [], ◌∷◌, arith,
}
use zero_to_kernel.Screen.{
  Screen, vga_cols, vga_rows, history_lines, update_cursor, save_history_line, scroll,
  redraw_scroll, take_snapshot, terminal_scroll_up, terminal_scroll_down, to_live, terminal_clear,
  terminal_setcursor, newline, carriage_return, step_back, backspace, wrap, printable, tab_loop,
  next_tab, terminal_putchar, terminal_writestring, write_next,
}

pub record IsValid (s : Screen) : Type 0 where
  pub row_in : s.term_row < vga_rows
  pub col_in : s.term_col < vga_cols
  pub head_in : s.history_head < history_lines
  pub count_in : s.history_count ≤ history_lines
  pub view_in : s.view_scroll ≤ s.history_count

-- The state that the cursor's moves and scroll leave valid: only the row may be one too far.
pub scroll-IsValid :
    (s : Screen)
    → s.term_col < vga_cols
    → s.history_head < history_lines
    → s.history_count ≤ history_lines
    → s.view_scroll ≤ s.history_count
    → IsValid (scroll s)
unfolding scroll save_history_line update_cursor
scroll-IsValid s c h n v = ground arith

redraw_scroll-IsValid : (s : Screen) → IsValid s → IsValid (redraw_scroll s)
unfolding redraw_scroll update_cursor
redraw_scroll-IsValid s v = ground arith

take_snapshot-IsValid : (s : Screen) → IsValid s → IsValid (take_snapshot s)
unfolding take_snapshot
take_snapshot-IsValid s v = ground arith

pub to_live-IsValid : (s : Screen) → IsValid s → IsValid (to_live s)
unfolding to_live redraw_scroll update_cursor
to_live-IsValid s v = ground arith

newline-IsValid : (s : Screen) → IsValid s → IsValid (newline s)
unfolding newline update_cursor
newline-IsValid s v =
    let s' : Screen = record s { term_col = 0; term_row = s.term_row + 1 } in
    let w = scroll-IsValid s' (omega arith) v.head_in v.count_in v.view_in in ground arith

carriage_return-IsValid : (s : Screen) → IsValid s → IsValid (carriage_return s)
unfolding carriage_return update_cursor
carriage_return-IsValid s v = omega arith

backspace-IsValid : (s : Screen) → IsValid s → IsValid (backspace s)
unfolding backspace step_back update_cursor
backspace-IsValid s v = ground arith

wrap-IsValid :
    (s : Screen)
    → s.term_row < vga_rows
    → s.history_head < history_lines
    → s.history_count ≤ history_lines
    → s.view_scroll ≤ s.history_count
    → IsValid (wrap s)
unfolding wrap
wrap-IsValid s r h n v =
    let s' : Screen = record s { term_col = 0; term_row = s.term_row + 1 } in
    ground (arith, scroll-IsValid s' (omega arith) h n v)

update_cursor-IsValid : (s : Screen) → IsValid s → IsValid (update_cursor s)
unfolding update_cursor
update_cursor-IsValid s v = omega arith

pub printable-IsValid : (c : ℕ) (s : Screen) → IsValid s → IsValid (printable c s)
unfolding printable
printable-IsValid c s v =
    update_cursor-IsValid _ (wrap-IsValid _ v.row_in v.head_in v.count_in v.view_in)

tab_loop-IsValid :
    (fuel stop : ℕ) (s s' : Screen) → IsValid s → tab_loop fuel stop s ≡ some s' → IsValid s'
unfolding tab_loop
tab_loop-IsValid zero stop s s' v e = cc
tab_loop-IsValid (suc fuel) stop s s' v e = ground (
  arith,
  tab_loop-IsValid fuel stop (printable 32 s) s' (printable-IsValid 32 s v),
  update_cursor-IsValid s v,
)

-- terminal_putchar keeps the cursor on the screen, whatever the character.
pub terminal_putchar-IsValid :
    (fuel c : ℕ) (s s' : Screen) → IsValid s → terminal_putchar fuel c s ≡ some s' → IsValid s'
unfolding terminal_putchar
terminal_putchar-IsValid fuel c s s' v e =
    let w = to_live-IsValid s v in
    ground (
      arith,
      newline-IsValid (to_live s) w,
      carriage_return-IsValid (to_live s) w,
      backspace-IsValid (to_live s) w,
      printable-IsValid c (to_live s) w,
      tab_loop-IsValid fuel (next_tab (to_live s)) (to_live s) s' w,
    )

write_next-some :
    (m : Option Screen) (k : Screen → Option Screen) (s' : Screen)
    → write_next m k ≡ some s'
    → (s : Screen) × (m ≡ some s) × (k s ≡ some s')
unfolding write_next
write_next-some none k s' e = cc
write_next-some (some s) k s' e = (s, refl, e)

-- Writing a text keeps the cursor on the screen.
pub terminal_writestring-IsValid :
    (fuel : ℕ) (cs : List ℕ) (s s' : Screen)
    → IsValid s
    → terminal_writestring fuel cs s ≡ some s'
    → IsValid s'
unfolding terminal_writestring
terminal_writestring-IsValid fuel [] s s' v e = ground (arith, v)
terminal_writestring-IsValid fuel (c ∷ cs) s s' v e =
    let (s₁, first, rest) =
      write_next-some (terminal_putchar fuel c s) (terminal_writestring fuel cs) s' e in
    terminal_writestring-IsValid fuel cs s₁ s' (terminal_putchar-IsValid fuel c s s₁ v first) rest

-- Scrolling the view, clearing and moving the cursor keep the screen valid.
pub controls-IsValid :
    (lines row col : ℕ) (s : Screen)
    → IsValid s
    → IsValid (terminal_scroll_up lines s)
      × IsValid (terminal_scroll_down lines s)
      × IsValid (terminal_clear s)
      × IsValid (terminal_setcursor row col s)
unfolding terminal_scroll_up terminal_scroll_down terminal_clear terminal_setcursor take_snapshot
    redraw_scroll update_cursor to_live
controls-IsValid lines row col s v = (ground arith, ground arith, ground arith, ground arith)
