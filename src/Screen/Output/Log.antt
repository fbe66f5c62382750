-- ===== src/Screen/Output/Log.antt =====
-- The terminal as a teletype: what a text leaves on the serial port, whatever the screen shows.
use zero_to_kernel.Prelude.{
  ℕ, ◌+◌, ◌≡◌, ◌≢◌, refl, ◌∙◌, sym, ap, inl, inr, Bool, false, Option, some, List, [], ◌∷◌, ◌++◌,
  ◌==◌, ltb, leb, if◌then◌else◌, arith, Bool-cases, if_both, All,
}
use mathlib.Core.List.{append-nil, append_assoc}
use zero_to_kernel.Screen.{
  Screen, vga_cols, vga_rows, update_cursor, save_history_line, scroll, redraw_scroll, to_live,
  newline, carriage_return, step_back, backspace, serial_bytes, wrap, printable, terminal_putchar,
  terminal_writestring,
}
use zero_to_kernel.Screen.Cursor.{IsValid, terminal_putchar-IsValid}

-- What terminal_putchar sends to the serial port for a byte that is no tab.
unfoldable pub echo : ℕ → List ℕ
echo c =
    if c == 10
    then 13 ∷ 10 ∷ []
    else if c == 13
    then 13 ∷ []
    else if c == 8
    then 8 ∷ 32 ∷ 8 ∷ []
    else serial_bytes c

unfoldable pub echo_all : List ℕ → List ℕ
echo_all [] = []
echo_all (c ∷ cs) = echo c ++ echo_all cs

-- `t` has more on the serial port than `s`, and the same colour.
pub record Follows (log : List ℕ) (s t : Screen) : Type 0 where
  pub sent : t.serial ≡ s.serial ++ log
  pub colored : t.term_color ≡ s.term_color

-- The branches of the terminal that scroll or move leave the serial port and the colour.
abbrev pub Same : Screen → Screen → Type 0
Same s t = (t.serial ≡ s.serial) × (t.term_color ≡ s.term_color)

Same-Follows : (log : List ℕ) (s r t : Screen) → Same s r → Follows log r t → Follows log s t
Same-Follows log s r t e f = record {
  sent = f.sent ∙ ap (λ l. l ++ log) e.0;
  colored = f.colored ∙ e.1;
}

pub to_live-Same : (s : Screen) → Same s (to_live s)
unfolding to_live redraw_scroll update_cursor
to_live-Same s = ground arith

scroll-Same : (s : Screen) → Same s (scroll s)
unfolding scroll save_history_line update_cursor
scroll-Same s = (refl, refl)

-- Below the last row the screen scrolls.
scrolled-Same : (b : Bool) (s : Screen) → Same s (if b then scroll s else s)
scrolled-Same b s = if_both (Same s) b _ _ (scroll-Same s) (refl, refl)

newline-Follows : (s : Screen) → Follows (13 ∷ 10 ∷ []) s (newline s)
unfolding newline update_cursor
newline-Follows s =
    let s' : Screen = record s { term_col = 0; term_row = s.term_row + 1 } in
    let e = scrolled-Same (leb vga_rows s'.term_row) s' in
    record { sent = ap (λ l. l ++ 13 ∷ 10 ∷ []) e.0; colored = e.1 }

carriage_return-Follows : (s : Screen) → Follows (13 ∷ []) s (carriage_return s)
unfolding carriage_return update_cursor
carriage_return-Follows s = record { sent = refl; colored = refl }

step_back-Same : (s : Screen) → Same s (step_back s)
unfolding step_back
step_back-Same s =
    if_both (Same s) (ltb 0 s.term_col) _ _ (refl, refl)
      (if_both (Same s) (ltb 0 s.term_row) _ _ (refl, refl) (refl, refl))

backspace-Follows : (s : Screen) → Follows (8 ∷ 32 ∷ 8 ∷ []) s (backspace s)
unfolding backspace update_cursor
backspace-Follows s =
    let e = step_back-Same s in record { sent = ap (λ l. l ++ 8 ∷ 32 ∷ 8 ∷ []) e.0; colored = e.1 }

wrap-Same : (s : Screen) → Same s (wrap s)
unfolding wrap
wrap-Same s =
    let s' : Screen = record s { term_col = 0; term_row = s.term_row + 1 } in
    if_both (Same s) (leb vga_cols s.term_col) _ _ (scrolled-Same (leb vga_rows s'.term_row) s')
      (refl, refl)

printable-Follows : (c : ℕ) (s : Screen) → Follows (serial_bytes c) s (printable c s)
unfolding printable update_cursor
printable-Follows c s = let e = wrap-Same _ in record { sent = e.0; colored = e.1 }

-- A call that succeeds, leaves the cursor on the screen, and sends `log`.
pub record Sends (log : List ℕ) (s : Screen) (o : Option Screen) : Type 0 where
  pub screen : Screen
  pub is : o ≡ some screen
  pub follows : Follows log s screen
  pub valid : IsValid screen

-- The same without the cursor.
abbrev Prints : List ℕ → Screen → Option Screen → Type 0
Prints log s o = (t : Screen) × (o ≡ some t) × Follows log s t

live-Prints : (log : List ℕ) (s t : Screen) → Follows log (to_live s) t → Prints log s (some t)
live-Prints log s t f = (t, refl, Same-Follows log s (to_live s) t (to_live-Same s) f)

terminal_putchar-Prints :
    (fuel c : ℕ) (s : Screen) → c ≢ 9 → Prints (echo c) s (terminal_putchar fuel c s)
unfolding terminal_putchar echo
terminal_putchar-Prints fuel c s plain =
    let no_tab : (c == 9) ≡ false = ground (arith, plain) in
    let l = to_live s in
    rw no_tab (elim (Bool-cases (c == 10)) [
      | inl e ↦ rw e (live-Prints _ s _ (newline-Follows l))
      | inr e ↦ rw e (elim (Bool-cases (c == 13)) [
        | inl e₁ ↦ rw e₁ (live-Prints _ s _ (carriage_return-Follows l))
        | inr e₁ ↦ rw e₁ (elim (Bool-cases (c == 8)) [
          | inl e₂ ↦ rw e₂ (live-Prints _ s _ (backspace-Follows l))
          | inr e₂ ↦ rw e₂ (live-Prints _ s _ (printable-Follows c l))
        ])
      ])
    ])

-- A byte that is no tab goes to the screen and, encoded, to the serial port.
pub terminal_putchar-Sends :
    (fuel c : ℕ) (s : Screen) → c ≢ 9 → IsValid s → Sends (echo c) s (terminal_putchar fuel c s)
terminal_putchar-Sends fuel c s plain v =
    let (t, e, f) = terminal_putchar-Prints fuel c s plain in
    record { screen = t; is = e; follows = f; valid = terminal_putchar-IsValid fuel c s t v e }

Follows-append :
    (a b : List ℕ) (s t u : Screen) → Follows a s t → Follows b t u → Follows (a ++ b) s u
Follows-append a b s t u f g = record {
  sent = g.sent ∙ ap (λ l. l ++ b) f.sent ∙ append_assoc s.serial a b;
  colored = g.colored ∙ f.colored;
}

pub terminal_writestring-Sends :
    (fuel : ℕ) (cs : List ℕ) (s : Screen)
    → All (λ c. c ≢ 9) cs
    → IsValid s
    → Sends (echo_all cs) s (terminal_writestring fuel cs s)
unfolding terminal_writestring echo_all
terminal_writestring-Sends fuel [] s plain v = record {
  screen = s;
  is = refl;
  follows = record { sent = sym (append-nil s.serial); colored = refl };
  valid = v;
}
terminal_writestring-Sends fuel (c ∷ cs) s plain v =
    let a = terminal_putchar-Sends fuel c s plain.0 v in
    let b = terminal_writestring-Sends fuel cs a.screen plain.1 a.valid in
    record {
      screen = b.screen;
      is = rw (a.is) (b.is);
      follows = Follows-append _ _ s a.screen b.screen a.follows b.follows;
      valid = b.valid;
    }
