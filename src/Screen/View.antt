-- ===== src/Screen/View.antt =====
-- Looking back into the history, and returning to the live screen.
use zero_to_kernel.Prelude.{
  ℕ, ◌+◌, ◌-◌, ◌*◌, ◌/◌, ◌%◌, ◌≤◌, ◌<◌, ◌≡◌, true, arith, ltb, if◌then◌else◌, Bool-cases, inl, inr,
}
use zero_to_kernel.Screen.{
  Screen, vga_cols, vga_rows, history_lines, update_cursor, take_snapshot, scrolled_cell, draw,
  redraw_scroll, terminal_scroll_up, terminal_scroll_down,
}

-- From the live view, scrolling up by `lines` shows at the top the last `v` lines of the history,
-- oldest first, and below them the live screen moved down, where `v` is `lines` or, if the history
-- has fewer, their number; the cursor is hidden.
pub terminal_scroll_up_lem :
    (lines r c : ℕ) (s : Screen)
    → s.view_scroll ≡ 0
    → 0 < lines
    → 0 < s.history_count
    → r < vga_rows
    → c < vga_cols
    → let v = if ltb s.history_count lines then s.history_count else lines in
      let s' = terminal_scroll_up lines s in
      (s'.view_scroll ≡ v)
      × (s'.cursor_hidden ≡ true)
      × (s'.vga_buf (r * vga_cols + c) ≡ (
          if ltb r v
          then s.history_buf ((s.history_head + history_lines - v + r) % history_lines) c
          else s.vga_buf ((r - v) * vga_cols + c)))
unfolding terminal_scroll_up take_snapshot redraw_scroll draw scrolled_cell
terminal_scroll_up_lem lines r c s live some_lines some_history rh ch =
    let row : (r * vga_cols + c) / vga_cols ≡ r = omega arith in
    let col : (r * vga_cols + c) % vga_cols ≡ c = omega arith in
    (
      ground (arith, live),
      ground (arith, live),
      elim (Bool-cases (ltb s.history_count lines)) [
        | inl few ↦ rw few (ground (arith, live, row, col, few))
        | inr many ↦ rw many (ground (arith, live, row, col, many))
      ],
    )

-- Scrolling up from the live view and down by at least as many lines gives back each of the 24 rows.
pub terminal_scroll_down-terminal_scroll_up :
    (up down i : ℕ) (s : Screen)
    → s.view_scroll ≡ 0
    → up ≤ down
    → i < vga_rows * vga_cols
    → let s' = terminal_scroll_down down (terminal_scroll_up up s) in
      (s'.view_scroll ≡ 0) × (s'.vga_buf i ≡ s.vga_buf i)
unfolding terminal_scroll_up terminal_scroll_down take_snapshot redraw_scroll draw scrolled_cell
    update_cursor
terminal_scroll_down-terminal_scroll_up up down i s live h hi =
    let back : i / vga_cols * vga_cols + i % vga_cols ≡ i = omega arith in
    (ground (arith, live), ground (arith, live, back))
