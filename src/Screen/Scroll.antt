-- ===== src/Screen/Scroll.antt =====
-- The copying loops of scroll move the rows up by one, and the line that leaves goes to the history.
use zero_to_kernel.Prelude.{
  ℕ, zero, suc, ◌+◌, ◌-◌, ◌*◌, ◌%◌, ◌≤◌, ◌<◌, ◌≡◌, refl, ◌∙◌, arith, ltb, leb, ◌&&◌, ◌==◌,
  if◌then◌else◌, Bool-cases, inl, inr,
}
use zero_to_kernel.Screen.{
  Screen, vga_cols, vga_rows, history_lines, update_cursor, save_history_line, scroll, put_cell,
  copy_row, copy_rows, blank_row, make_vga_entry,
}

-- One cell moved down by `k` places, then all behind it up to `hi`.
move_step :
    (d k hi i : ℕ) (f : ℕ → ℕ)
    → d < hi
    → 0 < k
    → (if leb (suc d) i && ltb i hi
        then put_cell d (f (d + k)) f (i + k)
        else put_cell d (f (d + k)) f i)
      ≡ (if leb d i && ltb i hi then f (i + k) else f i)
unfolding put_cell
move_step d k hi i f h pos = elim (Bool-cases (d == i)) [
  | inl same ↦ let e : d ≡ i = ground arith in rw e (ground arith)
  | inr differ ↦ ground arith
]

copy_row-at :
    (n row : ℕ) (f : ℕ → ℕ) (i : ℕ)
    → 0 < row
    → n ≤ vga_cols
    → copy_row n row f i
      ≡ (if leb (row * vga_cols - n) i && ltb i (row * vga_cols) then f (i + vga_cols) else f i)
unfolding copy_row
copy_row-at zero row f i pos small = ground arith
copy_row-at (suc n) row f i pos small =
    let d = row * vga_cols - suc n in
    let to : (row - 1) * vga_cols + (vga_cols - suc n) ≡ d = omega arith in
    let from : row * vga_cols + (vga_cols - suc n) ≡ d + vga_cols = omega arith in
    let next : row * vga_cols - n ≡ suc d = omega arith in
    rw (to, from)
      (copy_row-at n row (put_cell d (f (d + vga_cols)) f) i pos (omega arith)
        ∙ rw next (move_step d vga_cols (row * vga_cols) i f (omega arith) (omega arith)))

abbrev screen_end : ℕ
screen_end = (vga_rows - 1) * vga_cols

copy_rows-at :
    (n : ℕ) (f : ℕ → ℕ) (i : ℕ)
    → n < vga_rows
    → copy_rows n f i
      ≡ (if leb (screen_end - n * vga_cols) i && ltb i screen_end then f (i + vga_cols) else f i)
unfolding copy_rows
copy_rows-at zero f i small = ground arith
copy_rows-at (suc n) f i small =
    copy_rows-at n (copy_row vga_cols (vga_rows - suc n) f) i (omega arith)
    ∙ ground (
      arith,
      copy_row-at vga_cols (vga_rows - suc n) f i,
      copy_row-at vga_cols (vga_rows - suc n) f (i + vga_cols),
    )

blank_row-at :
    (n b : ℕ) (f : ℕ → ℕ) (i : ℕ)
    → n ≤ vga_cols
    → blank_row n b f i
      ≡ (if leb (vga_rows * vga_cols - n) i && ltb i (vga_rows * vga_cols) then b else f i)
unfolding blank_row put_cell
blank_row-at zero b f i small = ground arith
blank_row-at (suc n) b f i small =
    ground
      (arith, blank_row-at n b (put_cell ((vga_rows - 1) * vga_cols + (vga_cols - suc n)) b f) i)

-- scroll moves each of the rows 1 to 23 up by one, blanks row 23 in the current colour, leaves what is
-- behind it, and puts row 0 into the history line at the old head.
pub scroll_lem :
    (s : Screen) (i c : ℕ)
    → c < vga_cols
    → ((scroll s).vga_buf i ≡ (
        if ltb i ((vga_rows - 1) * vga_cols)
        then s.vga_buf (i + vga_cols)
        else if ltb i (vga_rows * vga_cols)
        then make_vga_entry 32 s.term_color
        else s.vga_buf i))
      × ((scroll s).history_buf s.history_head c ≡ s.vga_buf c)
      × ((scroll s).history_head ≡ (s.history_head + 1) % history_lines)
      × ((scroll s).term_row ≡ vga_rows - 1)
unfolding scroll save_history_line update_cursor
scroll_lem s i c h = (
  ground (
    arith,
    blank_row-at vga_cols (make_vga_entry 32 s.term_color) (copy_rows (vga_rows - 1) s.vga_buf) i,
    copy_rows-at (vga_rows - 1) s.vga_buf i,
  ),
  ground arith,
  refl,
  refl,
)
