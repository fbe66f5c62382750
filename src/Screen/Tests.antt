-- ===== src/Screen/Tests.antt =====
-- Runs of the terminal and instances of its theorems.
use zero_to_kernel.Prelude.{
  ℕ, ◌+◌, ◌*◌, ◌≡◌, refl, true, false, none, some, [], ◌∷◌, ◌++◌, arith, bytes, Option,
}
use mathlib.Core.Option
use zero_to_kernel.Prelude.{List, length}
use zero_to_kernel.Text.{itoa, utoa, digits_loop, digit, is_negative, atoi}
use zero_to_kernel.Screen.Printf.{
  str, null, num, field, in_field, convert, takes_arg, take_arg, literal, step, printf_loop,
  terminal_printf, length-field, printf_int,
}
use zero_to_kernel.Screen.{
  Screen, vga_cols, make_vga_entry, update_cursor, save_history_line, scroll, put_cell, copy_row,
  copy_rows, blank_row, to_live, terminal_clear, terminal_scroll_up, terminal_scroll_down,
  terminal_setcursor, newline, printable, wrap, serial_bytes, tab_loop, terminal_putchar,
  terminal_writestring,
}
use zero_to_kernel.Screen.Scroll.{scroll_lem}
use zero_to_kernel.Screen.Cursor.{
  IsValid, terminal_putchar-IsValid, terminal_writestring-IsValid, controls-IsValid,
}
use zero_to_kernel.Screen.Tab.{terminal_putchar_tab_hangs, terminal_putchar_tab}
use zero_to_kernel.Screen.View.{terminal_scroll_up_lem, terminal_scroll_down-terminal_scroll_up}

abbrev cursor_at : ℕ → ℕ → Screen
cursor_at row col = record {
  vga_buf = λ i. i;
  term_row = row;
  term_col = col;
  term_color = 7;
  history_buf = λ l c. l * 80 + c;
  history_head = 5;
  history_count = 5;
  view_scroll = 0;
  live_snapshot = λ r c. 0;
  serial = [];
  cursor = 0;
  cursor_hidden = false;
}

written : Option Screen
written = terminal_writestring 9 (bytes "a\tb\n") (cursor_at 23 0)

-- The text is on row 22 after the scroll.
written_lem :
    (Option.map (λ (s : Screen). s.vga_buf (22 * 80)) written ≡ some (7 * 256 + 97))
    × (Option.map (λ (s : Screen). s.vga_buf (22 * 80 + 8)) written ≡ some (7 * 256 + 98))
    × (Option.map (λ (s : Screen). s.serial) written ≡ some (bytes "a       b" ++ 13 ∷ 10 ∷ []))
unfolding written terminal_writestring terminal_putchar to_live tab_loop newline printable wrap
    serial_bytes scroll update_cursor save_history_line copy_rows copy_row blank_row put_cell
    make_vga_entry
written_lem = (refl, refl, refl)

after_a : Screen
after_a = newline (cursor_at 3 4)

putchar_newline : terminal_putchar 9 10 (cursor_at 3 4) ≡ some after_a
unfolding terminal_putchar after_a to_live
putchar_newline = refl

terminal_putchar-IsValid_instance : IsValid after_a
terminal_putchar-IsValid_instance =
    terminal_putchar-IsValid 9 10 (cursor_at 3 4) after_a (omega arith) putchar_newline

write_newline : terminal_writestring 9 (10 ∷ []) (cursor_at 3 4) ≡ some after_a
unfolding terminal_writestring terminal_putchar after_a to_live
write_newline = refl

terminal_writestring-IsValid_instance : IsValid after_a
terminal_writestring-IsValid_instance =
    terminal_writestring-IsValid 9 (10 ∷ []) (cursor_at 3 4) after_a (omega arith) write_newline

controls-IsValid_instance :
    IsValid (terminal_scroll_up 3 (cursor_at 3 4))
    × IsValid (terminal_scroll_down 3 (cursor_at 3 4))
    × IsValid (terminal_clear (cursor_at 3 4))
    × IsValid (terminal_setcursor 30 2 (cursor_at 3 4))
controls-IsValid_instance = controls-IsValid 3 30 2 (cursor_at 3 4) (omega arith)

scroll_lem_example :
    ((scroll (cursor_at 24 0)).vga_buf 3 ≡ 83)
    × ((scroll (cursor_at 24 0)).history_buf 5 7 ≡ 7)
    × ((scroll (cursor_at 24 0)).history_head ≡ 6)
    × ((scroll (cursor_at 24 0)).term_row ≡ 23)
scroll_lem_example = scroll_lem (cursor_at 24 0) 3 7 (omega arith)

terminal_putchar_tab_hangs_example : terminal_putchar 1000 9 (cursor_at 3 75) ≡ none
terminal_putchar_tab_hangs_example =
    terminal_putchar_tab_hangs 1000 (cursor_at 3 75) (omega arith) (omega arith)

terminal_putchar_tab_instance :
    (s' : Screen) × (terminal_putchar 9 9 (cursor_at 3 4) ≡ some s')
    × (s'.term_col ≡ 8)
    × (s'.term_row ≡ 3)
terminal_putchar_tab_instance = terminal_putchar_tab 9 (cursor_at 3 4) (omega arith) (omega arith)

terminal_scroll_up_lem_instance :
    let s' = terminal_scroll_up 10 (cursor_at 3 4) in
    (s'.view_scroll ≡ 5) × (s'.cursor_hidden ≡ true) × (s'.vga_buf (1 * vga_cols + 2) ≡ 82)
terminal_scroll_up_lem_instance =
    terminal_scroll_up_lem 10 1 2 (cursor_at 3 4) refl (omega arith) (omega arith) (omega arith)
      (omega arith)

terminal_scroll_down-terminal_scroll_up_instance :
    let s' = terminal_scroll_down 3 (terminal_scroll_up 3 (cursor_at 3 4)) in
    (s'.view_scroll ≡ 0) × (s'.vga_buf 100 ≡ 100)
terminal_scroll_down-terminal_scroll_up_instance =
    terminal_scroll_down-terminal_scroll_up 3 3 100 (cursor_at 3 4) refl (omega arith) (omega arith)

formats :
    (terminal_printf (bytes "%02d:%5u|%-4s|%x%%") (num 7 ∷ num 42 ∷ str (bytes "ab") ∷ num 255 ∷ [])
      ≡ some (bytes "07:   42|ab  |ff%"))
    × (terminal_printf (bytes "%-05d") (num 7 ∷ []) ≡ some (bytes "00007    "))
    × (terminal_printf (bytes "%8s") (null ∷ []) ≡ some (bytes "  (null)"))
    × (terminal_printf (bytes "%d") [] ≡ none)
unfolding terminal_printf printf_loop step take_arg takes_arg convert in_field field literal itoa
    utoa digits_loop digit is_negative
formats = (refl, refl, refl, refl)

length-field_instance :
    length (field true (record { left_justify = true; zero_pad = true; width = 5 }) (55 ∷ [])) ≡ 9
length-field_instance =
    length-field true (record { left_justify = true; zero_pad = true; width = 5 }) (55 ∷ [])

printf_int_instance :
    (s : List ℕ) × (terminal_printf (bytes "%d") (num 4294967295 ∷ []) ≡ some s)
    × (atoi s ≡ 4294967295)
printf_int_instance = printf_int 4294967295 [] (omega arith)
