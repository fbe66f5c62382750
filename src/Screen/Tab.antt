-- ===== src/Screen/Tab.antt =====
-- Which characters terminal_putchar returns from: a tab from column 72 on never ends.
use zero_to_kernel.Prelude.{
  ℕ, zero, suc, ◌+◌, ◌*◌, ◌/◌, ◌≤◌, ◌<◌, ◌≡◌, ◌≢◌, refl, ◌∙◌, true, false, none, some, arith, ltb,
  ◌==◌, Bool-cases, inl, inr,
}
use zero_to_kernel.Screen.{
  Screen, vga_cols, update_cursor, redraw_scroll, to_live, wrap, printable, tab_loop, next_tab,
  terminal_putchar,
}
use zero_to_kernel.Screen.Cursor.{IsValid, printable-IsValid, to_live-IsValid}

to_live-cursor :
    (s : Screen) → ((to_live s).term_col ≡ s.term_col) × ((to_live s).term_row ≡ s.term_row)
unfolding to_live redraw_scroll update_cursor
to_live-cursor s = ground arith

printable-cursor :
    (c : ℕ) (s : Screen)
    → s.term_col + 1 < vga_cols
    → ((printable c s).term_col ≡ s.term_col + 1) × ((printable c s).term_row ≡ s.term_row)
unfolding printable wrap update_cursor
printable-cursor c s h = ground arith

-- The loop's test holds on every valid screen.
tab_loop-none : (fuel : ℕ) (s : Screen) → IsValid s → tab_loop fuel vga_cols s ≡ none
unfolding tab_loop
tab_loop-none zero s v = refl
tab_loop-none (suc fuel) s v =
    let again : ltb s.term_col vga_cols ≡ true = ground (arith, v.col_in) in
    rw again (tab_loop-none fuel (printable 32 s) (printable-IsValid 32 s v))

-- A tab printed in the last eight columns runs its loop for ever: no amount of fuel is enough, since
-- the spaces that it prints wrap before the column reaches 80.
pub terminal_putchar_tab_hangs :
    (fuel : ℕ) (s : Screen) → IsValid s → 72 ≤ s.term_col → terminal_putchar fuel 9 s ≡ none
unfolding terminal_putchar
terminal_putchar_tab_hangs fuel s v h =
    let stop : next_tab (to_live s) ≡ vga_cols = omega (arith, to_live-cursor s, v.col_in) in
    rw stop (tab_loop-none fuel (to_live s) (to_live-IsValid s v))

tab_loop-some :
    (fuel stop : ℕ) (s : Screen)
    → s.term_col ≤ stop
    → stop < vga_cols
    → stop < s.term_col + fuel
    → (s' : Screen) × (tab_loop fuel stop s ≡ some s')
      × (s'.term_col ≡ stop)
      × (s'.term_row ≡ s.term_row)
unfolding tab_loop update_cursor
tab_loop-some zero stop s lo hi f = absurd (omega arith)
tab_loop-some (suc fuel) stop s lo hi f = elim (Bool-cases (ltb s.term_col stop)) [
  | inl more ↦
      let here = printable-cursor 32 s (ground arith) in
      let (s', got, col, row) =
        tab_loop-some fuel stop (printable 32 s) (ground (arith, here)) hi (ground (arith, here)) in
      rw more (s', got, col, row ∙ here.1)
  | inr done ↦ rw done (_, refl, ground arith, refl)
]

-- A tab before column 72 ends within nine tests of its loop, at the next multiple of 8 on the row.
pub terminal_putchar_tab :
    (fuel : ℕ) (s : Screen)
    → s.term_col < 72
    → 8 < fuel
    → (s' : Screen) × (terminal_putchar fuel 9 s ≡ some s')
      × (s'.term_col ≡ (s.term_col + 8) / 8 * 8)
      × (s'.term_row ≡ s.term_row)
unfolding terminal_putchar
terminal_putchar_tab fuel s h f =
    let (same_col, same_row) = to_live-cursor s in
    let (s', got, col, row) =
      tab_loop-some fuel (next_tab (to_live s)) (to_live s) (omega arith) (omega (arith, same_col))
        (omega arith) in
    (s', got, omega (arith, col, same_col), row ∙ same_row)

-- Every other character returns at once.
pub terminal_putchar-total :
    (fuel c : ℕ) (s : Screen) → c ≢ 9 → (s' : Screen) × (terminal_putchar fuel c s ≡ some s')
unfolding terminal_putchar
terminal_putchar-total fuel c s h =
    let tab : (c == 9) ≡ false = ground arith in
    elim (Bool-cases (c == 10)) [
      | inl e ↦ rw e (_, refl)
      | inr n₁ ↦ elim (Bool-cases (c == 13)) [
        | inl e ↦ rw (n₁, e) (_, refl)
        | inr n₂ ↦ elim (Bool-cases (c == 8)) [
          | inl e ↦ rw (n₁, n₂, e) (_, refl)
          | inr n₃ ↦ rw (n₁, n₂, n₃, tab) (_, refl)
        ]
      ]
    ]
