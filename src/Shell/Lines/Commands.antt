-- ===== src/Shell/Lines/Commands.antt =====
-- The commands top, btm, hunt and cnt of kernel/shell.c from their argument on: the name, the count, the
-- read of the file, and the lines printed.
use zero_to_kernel.Prelude.{
  ℕ, ◌+◌, ◌-◌, ◌%◌, ◌||◌, Option, none, some, List, [], if◌then◌else◌, length, take, drop, leb,
  ◌==◌,
}
use zero_to_kernel.Text.{strchr, atoi, is_negative, word}
use zero_to_kernel.Text.Strings.{c_string}
use zero_to_kernel.Fs.{Text, Table, fs_read}
use zero_to_kernel.Shell.{skip_spaces, resolve_path, two_args}
use zero_to_kernel.Shell.Lines.{Line, Counts, cmd_cnt, cmd_top, cmd_hunt, total_lines, btm_loop}

-- What a command prints: the usage, that there is no file, the lines, or the counts with the bytes.
pub data Shown : Type 0 where
  usage : Shown
  no_file : Text → Shown
  shown : List Line → Shown
  counted : Counts → ℕ → Shown

-- The name and the count that top and btm take.
cut_name : Text → Option ℕ → Text × ℕ
cut_name a none = (take 31 a, 10)
cut_name a (some n) = (take (if leb 32 n then 31 else n) a, atoi (skip_spaces (drop n a)))

unfoldable pub file_and_count : Text → Text × ℕ
unfolding cut_name
file_and_count arg = let a = skip_spaces arg in cut_name a (strchr a 32)

read_shown : (Text → Shown) → Text → Option Text → Shown
read_shown f path none = no_file path
read_shown f path (some buf) = f buf

unfoldable pub show_file : (Text → Shown) → Text → Table → Shown
unfolding read_shown
show_file f path t = read_shown f path (fs_read path 257 t)

-- No line has a number up to a negative count.
unfoldable pub top_lines : ℕ → Text → Shown
top_lines count buf = shown (if is_negative count then [] else cmd_top count (c_string buf))

unfoldable pub run_top : Text → Text → Table → Shown
run_top dir arg t =
    let (file, count) = file_and_count arg in
    if length file == 0 then usage else show_file (top_lines count) (resolve_path dir file) t

-- total_lines - count + 1 as an int, at least 1; `start_line` is the same for a count that is not negative.
unfoldable pub int_start_line : ℕ → Text → ℕ
int_start_line count buf =
    let n = (total_lines buf + 1 + word - count) % word in if n == 0 || is_negative n then 1 else n

unfoldable pub btm_lines : ℕ → Text → Shown
btm_lines count buf = let s = c_string buf in shown (btm_loop (int_start_line count s) 1 [] s)

unfoldable pub run_btm : Text → Text → Table → Shown
run_btm dir arg t =
    let (file, count) = file_and_count arg in
    if length file == 0 then usage else show_file (btm_lines count) (resolve_path dir file) t

hunt_args : Option (Text × Text) → Table → Shown
unfolding show_file
hunt_args none t = usage
hunt_args (some (file, needle)) t = show_file (λ buf. shown (cmd_hunt needle (c_string buf))) file t

unfoldable pub run_hunt : Text → Table → Shown
unfolding hunt_args
run_hunt arg t = hunt_args (two_args arg) t

unfoldable pub run_cnt : Text → Table → Shown
run_cnt arg t =
    if length arg == 0 then usage else show_file (λ buf. counted (cmd_cnt buf) (length buf)) arg t
