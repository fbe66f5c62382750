-- ===== src/Shell/Readline.antt =====
-- shell_readline of kernel/shell.c: the line editor with a cursor and the history. `buf` is the byte
-- buffer of `len` bytes, a key is what keyboard_getchar returns, and the screen is that of the terminal.
-- A function that prints takes the terminal's fuel and is `none` when it runs out.
pub mod Gaps
pub mod Chars
pub mod Recall
pub mod Display
pub mod Views
pub mod Editing
pub mod Session
pub mod Typed
mod Tests
use zero_to_kernel.Prelude.{
  ℕ, zero, suc, ◌+◌, ◌-◌, Bool, true, false, ◌&&◌, ◌||◌, Option, none, some, List, [], ◌∷◌, ◌==◌,
  ltb, leb, if◌then◌else◌, length, take, drop, set, get_or, replicate,
}
use zero_to_kernel.Text.{Buffer, strlen, strncpy}
use zero_to_kernel.Screen.{
  Screen, vga_cols, terminal_putchar, terminal_writestring, terminal_setcursor,
}

pub record Line : Type 0 where
  pub buf : Buffer
  pub line_len : ℕ
  pub cursor_pos : ℕ
  pub history_idx : ℕ
  pub screen : Screen

infixl 5 ◌>>=◌
abbrev pub ◌>>=◌ {ℓ κ} : {A : Type ℓ} {B : Type κ} → Option A → (A → Option B) → Option B
none >>= f = none
some a >>= f = f a

-- for (i = line_len; i > cursor_pos; i--) buf[i] = buf[i-1], of `n` rounds from `i`.
unfoldable pub open_gap : ℕ → ℕ → Buffer → Buffer
open_gap zero i b = b
open_gap (suc n) i b = open_gap n (i - 1) (set b i (get_or b (i - 1) 0))

-- for (i = cursor_pos; i < line_len; i++) buf[i] = buf[i+1], of `n` rounds from `i`.
unfoldable pub close_gap : ℕ → ℕ → Buffer → Buffer
close_gap zero i b = b
close_gap (suc n) i b = close_gap n (i + 1) (set b i (get_or b (i + 1) 0))

-- buf[first] to buf[last - 1], which a loop prints.
unfoldable pub stretch : ℕ → ℕ → Buffer → List ℕ
stretch first last b = take (last - first) (drop first b)

-- One cell back, and one cell on.
unfoldable pub cell_back : ℕ × ℕ → ℕ × ℕ
cell_back (r, c) = if ltb 0 c then (r, c - 1) else if ltb 0 r then (r - 1, vga_cols - 1) else (r, c)

unfoldable pub cell_on : ℕ × ℕ → ℕ × ℕ
cell_on (r, c) = if ltb c (vga_cols - 1) then (r, c + 1) else (r + 1, 0)

unfoldable pub cells_back : ℕ → ℕ × ℕ → ℕ × ℕ
cells_back zero p = p
cells_back (suc n) p = cells_back n (cell_back p)

abbrev pub cell : Screen → ℕ × ℕ
cell s = (s.term_row, s.term_col)

abbrev pub set_cell : ℕ × ℕ → Screen → Screen
set_cell p s = terminal_setcursor p.0 p.1 s

unfoldable pub enter : ℕ → Line → Option Line
enter fuel l = do
  s₁ ← terminal_writestring fuel (stretch l.cursor_pos l.line_len l.buf) l.screen
  s₂ ← terminal_putchar fuel 10 s₁
  some (record l {
    buf = set l.buf l.line_len 0;
    cursor_pos = if ltb l.cursor_pos l.line_len then l.line_len else l.cursor_pos;
    screen = s₂;
  })

unfoldable pub erase : ℕ → Line → Option Line
erase fuel l =
    let p = l.cursor_pos - 1 in
    let n = l.line_len - 1 in
    let b = set (close_gap (n - p) p l.buf) n 0 in
    let erased = do
      s₁ ← terminal_putchar fuel 8 l.screen
      s₂ ← terminal_writestring fuel (stretch p n b) s₁
      s₃ ← terminal_putchar fuel 32 s₂
      some (record l { buf = b; line_len = n; cursor_pos = p; screen = set_cell (cell s₁) s₃ })
    in if ltb 0 l.cursor_pos then erased else some l

unfoldable pub go_left : Line → Line
go_left l =
    if ltb 0 l.cursor_pos
    then record l {
      cursor_pos = l.cursor_pos - 1;
      screen = set_cell (cell_back (cell l.screen)) l.screen;
    }
    else l

unfoldable pub go_right : Line → Line
go_right l =
    if ltb l.cursor_pos l.line_len
    then record l {
      cursor_pos = l.cursor_pos + 1;
      screen = set_cell (cell_on (cell l.screen)) l.screen;
    }
    else l

-- The cell behind the character typed; a scroll while the rest is printed is not followed.
unfoldable pub cell_typed : ℕ × ℕ → ℕ × ℕ
cell_typed (r, c) =
    let p : ℕ × ℕ = if leb 80 (c + 1) then (r + 1, 0) else (r, c + 1) in
    (if leb 24 p.0 then 23 else p.0, p.1)

unfoldable pub insert_char : ℕ → ℕ → ℕ → Line → Option Line
insert_char fuel len c l =
    let n = l.line_len + 1 in
    let b = set (set (open_gap (l.line_len - l.cursor_pos) l.line_len l.buf) l.cursor_pos c) n 0 in
    let typed = do
      s ← terminal_writestring fuel (stretch l.cursor_pos n b) l.screen
      some (record l {
        buf = b;
        line_len = n;
        cursor_pos = l.cursor_pos + 1;
        screen = set_cell (cell_typed (cell l.screen)) s;
      })
    in if ltb l.line_len (len - 1) then typed else some l

unfoldable pub load_history : ℕ → ℕ → List Buffer → ℕ → Line → Option Line
load_history fuel len shell_history idx l =
    let home = cells_back l.cursor_pos (cell l.screen) in
    let b = set (strncpy l.buf (get_or shell_history idx []) (len - 1)) (len - 1) 0 in
    let blank : Line = record {
      buf = set l.buf 0 0;
      line_len = 0;
      cursor_pos = 0;
      history_idx = idx;
      screen = l.screen;
    } in
    let loaded : Line = record {
      buf = b;
      line_len = strlen b;
      cursor_pos = strlen b;
      history_idx = idx;
      screen = l.screen;
    } in
    terminal_writestring fuel (replicate l.line_len 32) (set_cell home l.screen) >>= λ s.
    if idx == length shell_history
    then some (record blank { screen = set_cell home s })
    else terminal_writestring fuel (take (strlen b) b) (set_cell home s) >>= λ s'.
        some (record loaded { screen = s' })

-- Enter; the backspace and the delete character; the arrows left, right, up, down; a character.
pub data Key : Type 0 where
  enter_key erase_key left_key right_key up_key down_key other_key : Key
  char_key : ℕ → Key

unfoldable pub key_of : ℕ → Key
key_of c =
    if c == 10 || c == 13
    then enter_key
    else if c == 8 || c == 127
    then erase_key
    else if c == 0x14
    then left_key
    else if c == 0x13
    then right_key
    else if c == 0x11
    then up_key
    else if c == 0x12
    then down_key
    else if leb 32 c && ltb c 127
    then char_key c
    else other_key

-- One round of the loop for a key other than Enter.
unfoldable pub edit : ℕ → ℕ → List Buffer → Key → Line → Option Line
edit fuel len hist enter_key l = enter fuel l
edit fuel len hist erase_key l = erase fuel l
edit fuel len hist left_key l = some (go_left l)
edit fuel len hist right_key l = some (go_right l)
edit fuel len hist up_key l =
    if ltb 0 l.history_idx then load_history fuel len hist (l.history_idx - 1) l else some l
edit fuel len hist down_key l =
    if ltb l.history_idx (length hist)
    then load_history fuel len hist (l.history_idx + 1) l
    else some l
edit fuel len hist (char_key c) l = insert_char fuel len c l
edit fuel len hist other_key l = some l

-- Whether the key ends the line.
unfoldable pub ends : Key → Bool
ends enter_key = true
ends k = false

-- The loop over the keys: the line behind Enter and the keys left, or `none` as long as there is no
-- Enter.
unfoldable pub readline_loop : ℕ → ℕ → List Buffer → List ℕ → Line → Option (Line × List ℕ)
readline_loop fuel len hist [] l = none
readline_loop fuel len hist (c ∷ keys) l =
    let next = edit fuel len hist (key_of c) l in
    if ends (key_of c)
    then (next >>= λ l'. some (l', keys))
    else (next >>= λ l'. readline_loop fuel len hist keys l')

unfoldable pub shell_readline :
    ℕ → ℕ → List Buffer → Buffer → List ℕ → Screen → Option (Line × List ℕ)
unfolding readline_loop
shell_readline fuel len hist b keys s = readline_loop fuel len hist keys (record {
  buf = set b 0 0;
  line_len = 0;
  cursor_pos = 0;
  history_idx = length hist;
  screen = s;
})
