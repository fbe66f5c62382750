-- ===== src/Shell/Tools.antt =====
-- The commands of kernel/shell.c that compute: calc, color, history, passgen, date, alive, flip and
-- dice. An int is its word in two's complement; a text that a command prints is the list of its bytes.
pub mod Calc
pub mod Passwords
mod Tests
use zero_to_kernel.Prelude.{
  ℕ, zero, suc, ◌+◌, ◌-◌, ◌*◌, ◌/◌, ◌%◌, ◌^◌, Bool, true, false, ◌&&◌, ◌||◌, xor, Option, none,
  some, List, [], ◌∷◌, ◌++◌, ◌==◌, ltb, leb, if◌then◌else◌, length, take, drop, get_or, bytes,
  bytes_eq,
}
use zero_to_kernel.Text.{word, atoi, is_negative, strncmp, rand, srand}
use zero_to_kernel.Screen.Printf.{Arg, str, num, terminal_printf}
use zero_to_kernel.Fs.{Text}
use zero_to_kernel.Shell.{skip_spaces}

-- What cmd_calc does: `overrun` is a write behind buf1 or buf2, `trap` the quotient that is no int.
pub data Calculated : Type 0 where
  invalid overrun by_zero trap : Calculated
  result : ℕ → Calculated

unfoldable pub is_op : ℕ → Bool
is_op c = c == b'+' || c == b'-' || c == b'*' || c == b'/'

-- The first loop: the text in front of the operator, the operator, and the text behind it.
unfoldable pub find_op : Text → Text → Option (Text × ℕ × Text)
find_op front [] = none
find_op front (c ∷ arg) =
    let rest = find_op (front ++ c ∷ []) arg in if is_op c then some (front, c, arg) else rest

unfoldable pub magnitude : ℕ → ℕ
magnitude n = if is_negative n then word - n else n

-- The quotient of two int, cut towards 0.
unfoldable pub quotient : ℕ → ℕ → ℕ
quotient n₁ n₂ =
    let q = magnitude n₁ / magnitude n₂ in
    if xor (is_negative n₁) (is_negative n₂) then (word - q) % word else q

unfoldable pub apply : ℕ → ℕ → ℕ → Calculated
apply op n₁ n₂ =
    if op == b'+'
    then result ((n₁ + n₂) % word)
    else if op == b'-'
    then result ((n₁ + word - n₂) % word)
    else if op == b'*'
    then result (n₁ * n₂ % word)
    else if n₂ == 0
    then by_zero
    else if n₁ == 2 ^ 31 && n₂ == word - 1
    then trap
    else result (quotient n₁ n₂)

calculate : Option (Text × ℕ × Text) → Calculated
calculate none = invalid
calculate (some (buf₁, op, buf₂)) =
    if ltb 31 (length buf₁) || ltb 31 (length buf₂)
    then overrun
    else apply op (atoi (skip_spaces buf₁)) (atoi (skip_spaces buf₂))

unfoldable pub cmd_calc : Text → Calculated
unfolding calculate
cmd_calc arg = calculate (find_op [] arg)

-- The new shell_text_color; `none` prints the usage.
unfoldable pub cmd_color : Text → Option ℕ
cmd_color arg =
    if bytes_eq arg (bytes "red")
    then some 12
    else if bytes_eq arg (bytes "green")
    then some 10
    else if bytes_eq arg (bytes "blue")
    then some 9
    else if bytes_eq arg (bytes "white")
    then some 15
    else if bytes_eq arg (bytes "yellow")
    then some 14
    else if bytes_eq arg (bytes "cyan")
    then some 11
    else none

-- The lines of the loop of cmd_show_history from index `i` on.
unfoldable pub history_lines_from : ℕ → List Text → List (Option (List ℕ))
history_lines_from i [] = []
history_lines_from i (line ∷ shell_history) =
    terminal_printf (bytes "  [%d] %s\n") (num (i + 1) ∷ str line ∷ [])
    ∷ history_lines_from (i + 1) shell_history

unfoldable pub cmd_show_history : List Text → List (Option (List ℕ))
unfolding history_lines_from
cmd_show_history shell_history =
    some (bytes "\nCommand History:\n") ∷ history_lines_from 0 shell_history

pub data Alphabet : Type 0 where
  numbers_only alpha_only any_char : Alphabet

abbrev starts : Text → ℕ → Text → Bool
starts word_text n p = let d = strncmp p word_text n in d.0 == d.1

-- The first loop of cmd_passgen.
unfoldable pub alphabet : Text → Alphabet
alphabet [] = any_char
alphabet (c ∷ p) =
    let rest = alphabet p in
    if starts (bytes "number") 6 (c ∷ p)
    then numbers_only
    else if starts (bytes "alpha") 5 (c ∷ p)
    then alpha_only
    else rest

unfoldable pub password_char : Alphabet → ℕ → ℕ
password_char numbers_only r = 48 + r % 10
password_char alpha_only r = if ltb (r % 52) 26 then 65 + r % 52 else 97 + (r % 52 - 26)
password_char any_char r = 33 + r % 94

-- The characters of the second loop, from the seed before each.
unfoldable pub password : Alphabet → ℕ → ℕ → List ℕ
password a zero seed = []
password a (suc n) seed = password_char a (rand seed).0 ∷ password a n (rand seed).1

unfoldable pub password_length : Text → ℕ
password_length arg =
    let len = atoi arg in if len == 0 || is_negative len || ltb 64 len then 16 else len

unfoldable pub cmd_passgen : Text → ℕ → List ℕ
cmd_passgen arg timer_ticks = password (alphabet arg) (password_length arg) (srand timer_ticks)

unfoldable pub cmd_flip : ℕ → List ℕ
cmd_flip timer_ticks =
    if (rand (srand timer_ticks)).0 % 2 == 0 then bytes "Heads!\n" else bytes "Tails!\n"

unfoldable pub cmd_dice : ℕ → ℕ
cmd_dice timer_ticks = (rand (srand timer_ticks)).0 % 6 + 1

-- The hours, minutes and seconds that cmd_alive and cmd_sysinfo print.
unfoldable pub clock : ℕ → ℕ × ℕ × ℕ
clock secs = (secs / 3600, secs % 3600 / 60, secs % 60)

unfoldable pub cmd_alive : ℕ → Option (List ℕ)
cmd_alive secs =
    let t = clock secs in
    terminal_printf (bytes "\nUptime: %02d:%02d:%02d\n") (num t.0 ∷ num t.1 ∷ num t.2 ∷ [])

unfoldable pub cmd_date : ℕ → Option (List ℕ)
cmd_date secs =
    terminal_printf (bytes "\nSystem Date: 2026-06-11 12:00:%02d UTC (Simulated)\n")
      (num (secs % 60) ∷ [])
