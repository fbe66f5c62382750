-- ===== src/Shell/Lines.antt =====
-- The commands of kernel/shell.c that go through a file's text: cnt, top, btm and hunt. The text is what
-- fs_read put into the buffer before the terminator; it holds no 0.
pub mod Numbering
pub mod Hunting
pub mod Commands
pub mod Files
mod Tests
use zero_to_kernel.Prelude.{
  ℕ, zero, suc, ◌+◌, ◌-◌, ◌%◌, ◌^◌, Bool, true, false, ◌&&◌, ◌||◌, Option, none, some, List, [],
  ◌∷◌, ◌++◌, if◌then◌else◌, length, take, drop, get_or, ltb, leb, not, ◌==◌, bytes_eq, arith,
}
use zero_to_kernel.Fs.{Text}

-- A line printed: its number and its text.
abbrev pub Line : Type 0
Line = ℕ × Text

abbrev pub newline_char : ℕ
newline_char = 10

-- The loop of cmd_cnt; the counters are int, and the text has at most 256 bytes.
pub record Counts : Type 0 where
  pub lines : ℕ
  pub words : ℕ

unfoldable pub cnt_loop : Text → Bool → Counts → Counts
cnt_loop [] in_word k = k
cnt_loop (c ∷ buf) in_word k =
    let lines = if c == newline_char then k.lines + 1 else k.lines in
    let gap = c == 32 || c == newline_char || c == 9 in
    cnt_loop buf (not gap) (record {
      lines = lines;
      words = if gap then k.words else if in_word then k.words else k.words + 1;
    })

-- Text behind the last newline is a line too.
unfoldable pub open_end : Text → Bool
open_end buf = ltb 0 (length buf) && not (get_or buf (length buf - 1) 0 == newline_char)

unfoldable pub cmd_cnt : Text → Counts
cmd_cnt buf =
    let k = cnt_loop buf false (record { lines = 0; words = 0 }) in
    record { lines = if open_end buf then k.lines + 1 else k.lines; words = k.words }

-- `count` is an int below 2 ^ 31; a negative count prints nothing in `top`. `start` is the text between
-- the pointers start and p.
unfoldable pub top_loop : ℕ → ℕ → Text → Text → List Line
top_loop count line start [] =
    if ltb 0 (length start) && leb line count then (line, start) ∷ [] else []
top_loop count line start (c ∷ p) =
    let next = (line, start) ∷ top_loop count (line + 1) [] p in
    let same = top_loop count line (start ++ c ∷ []) p in
    if leb line count then (if c == newline_char then next else same) else []

unfoldable pub cmd_top : ℕ → Text → List Line
cmd_top count buf = top_loop count 1 [] buf

unfoldable pub newlines : Text → ℕ
newlines [] = 0
newlines (c ∷ p) = if c == newline_char then suc (newlines p) else newlines p

unfoldable pub total_lines : Text → ℕ
total_lines buf = newlines buf + (if open_end buf then 1 else 0)

-- `total_lines - count + 1`, at least 1.
unfoldable pub start_line : ℕ → Text → ℕ
start_line count buf =
    if ltb (total_lines buf + 1 - count) 1 then 1 else total_lines buf + 1 - count

unfoldable pub btm_loop : ℕ → ℕ → Text → Text → List Line
btm_loop start_line current_line line_start [] =
    if ltb 0 (length line_start) && leb start_line current_line
    then (current_line, line_start) ∷ []
    else []
btm_loop start_line current_line line_start (c ∷ p) =
    let rest = btm_loop start_line (current_line + 1) [] p in
    let same = btm_loop start_line current_line (line_start ++ c ∷ []) p in
    if c == newline_char
    then (if leb start_line current_line then (current_line, line_start) ∷ rest else rest)
    else same

unfoldable pub cmd_btm : ℕ → Text → List Line
cmd_btm count buf = btm_loop (start_line count buf) 1 [] buf

-- The inner loop of mini_strstr ends at the end of the needle.
unfoldable pub starts_with : Text → Text → Bool
starts_with h [] = true
starts_with [] (n ∷ needle) = false
starts_with (c ∷ h) (n ∷ needle) = if c == n then starts_with h needle else false

search_from : Text → Text → Bool
search_from [] needle = false
search_from (c ∷ h) needle = if starts_with (c ∷ h) needle then true else search_from h needle

-- Whether mini_strstr finds the needle.
unfoldable pub mini_strstr : Text → Text → Bool
unfolding search_from
mini_strstr haystack needle = if length needle == 0 then true else search_from haystack needle

unfoldable pub hunt_loop : Text → ℕ → Text → Text → List Line
hunt_loop word line start [] = if mini_strstr start word then (line, start) ∷ [] else []
hunt_loop word line start (c ∷ p) =
    let rest = hunt_loop word (line + 1) [] p in
    let same = hunt_loop word line (start ++ c ∷ []) p in
    if c == newline_char
    then (if mini_strstr start word then (line, start) ∷ rest else rest)
    else same

-- The lines that hunt prints once the file is read.
unfoldable pub cmd_hunt : Text → Text → List Line
cmd_hunt word buf = hunt_loop word 1 [] buf
