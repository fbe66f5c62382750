-- ===== src/Shell/History.antt =====
-- The main loop of kernel/shell.c between the line read and the command called: the history, and the
-- split of a line into a command and its argument.
use zero_to_kernel.Prelude.{
  ℕ, zero, suc, ◌+◌, ◌-◌, ◌%◌, ◌≤◌, ◌≡◌, refl, ◌∙◌, sym, ap, inl, inr, Option, none, some, List, [],
  ◌∷◌, ◌++◌, arith, if◌then◌else◌, Bool-cases, length, take, drop, ltb, leb, ◌==◌, length-append,
  length-drop,
}
use mathlib.Core.List.{append-nil, append_assoc}
use zero_to_kernel.Text.{strchr, word}
use zero_to_kernel.Fs.{Text}
use zero_to_kernel.Shell.{skip_spaces}

abbrev pub history_max : ℕ
history_max = 10

-- The history before, and total_commands_run.
pub record Log : Type 0 where
  pub shell_history : List Text
  pub total_commands_run : ℕ

-- strcpy(shell_history[i - 1], shell_history[i]) for the last `n` lines, the first of them in front.
unfoldable pub shift : List Text → List Text
shift [] = []
shift (x ∷ []) = []
shift (x ∷ y ∷ lines) = y ∷ shift (y ∷ lines)

unfoldable pub add_line : Text → Log → Log
add_line line h = record {
  shell_history =
      if ltb (length h.shell_history) history_max
      then h.shell_history ++ take 255 line ∷ []
      else shift h.shell_history ++ take 255 line ∷ [];
  total_commands_run = (h.total_commands_run + 1) % word;
}

cut : Text → Option ℕ → Text × Text
cut line none = (take 63 line, [])
cut line (some n) = (take (if leb 64 n then 63 else n) line, skip_spaces (drop (n + 1) line))

-- The command name and its argument.
unfoldable pub split_line : Text → Text × Text
unfolding cut
split_line line = cut line (strchr line 32)

-- One line from shell_readline: a blank line does nothing, `none`; any other is logged and gives the
-- command to call.
unfoldable pub shell_step : Text → Log → Log × Option (Text × Text)
shell_step input_buf h =
    let line = skip_spaces input_buf in
    if length line == 0 then (h, none) else (add_line line h, some (split_line line))

unfoldable pub add_lines : List Text → Log → Log
add_lines [] h = h
add_lines (line ∷ lines) h = add_lines lines (add_line line h)

-- The last `n` of a list.
abbrev pub last_of : ℕ → List Text → List Text
last_of n lines = drop (length lines - n) lines

pub shift_lem : (lines : List Text) → shift lines ≡ drop 1 lines
unfolding shift
shift_lem [] = refl
shift_lem (x ∷ []) = refl
shift_lem (x ∷ y ∷ lines) = ap (◌∷◌ y) (shift_lem (y ∷ lines))

abbrev pub cut_lines : List Text → List Text
cut_lines [] = []
cut_lines (l ∷ ls) = take 255 l ∷ cut_lines ls

drop-append : (k : ℕ) (xs ys : List Text) → k ≤ length xs → drop k (xs ++ ys) ≡ drop k xs ++ ys
drop-append zero xs ys short = refl
drop-append (suc k) [] ys short = absurd (omega arith)
drop-append (suc k) (x ∷ xs) ys short = drop-append k xs ys (omega arith)

drop_one : (k : ℕ) (xs : List Text) → drop 1 (drop k xs) ≡ drop (suc k) xs
drop_one zero xs = refl
drop_one (suc k) [] = refl
drop_one (suc k) (x ∷ xs) = drop_one k xs

add_line-last :
    (all : List Text) (line : Text) (h : Log)
    → h.shell_history ≡ last_of history_max all
    → (add_line line h).shell_history ≡ last_of history_max (all ++ take 255 line ∷ [])
unfolding add_line
add_line-last all line h e =
    let n = length all in
    let y = take 255 line ∷ [] in
    let len : length (all ++ y) ≡ n + 1 = omega (arith, length-append all y) in
    let had : length h.shell_history ≡ n - (n - 10) = ap length e ∙ length-drop (n - 10) all in
    elim (Bool-cases (ltb (length h.shell_history) history_max)) [
      | inl few ↦
          let none_gone : n - 10 ≡ 0 = ground (arith, few, had) in
          let still : n + 1 - 10 ≡ 0 = ground (arith, few, had) in
          rw (few, e, len, none_gone, still) refl
      | inr ten ↦
          let many : suc (n - 10) ≡ n + 1 - 10 = ground (arith, ten, had) in
          rw (ten, e, len, shift_lem (drop (n - 10) all), drop_one (n - 10) all, many)
            (sym (drop-append (n + 1 - 10) all y (omega arith)))
    ]

-- After any sequence of lines the history holds the last ten of all lines in order, each cut to 255
-- bytes.
pub add_lines-last :
    (lines all : List Text) (h : Log)
    → h.shell_history ≡ last_of history_max all
    → (add_lines lines h).shell_history ≡ last_of history_max (all ++ cut_lines lines)
unfolding add_lines
add_lines-last [] all h e = rw (append-nil all) e
add_lines-last (line ∷ lines) all h e =
    add_lines-last lines (all ++ take 255 line ∷ []) (add_line line h) (add_line-last all line h e)
    ∙ ap (last_of history_max) (append_assoc all (take 255 line ∷ []) (cut_lines lines))
