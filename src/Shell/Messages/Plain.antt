-- ===== src/Shell/Messages/Plain.antt =====
-- The prompt and the commands that only print: every call of theirs is performed, and the text colour is
-- the shell's behind them.
use zero_to_kernel.Prelude.{
  ℕ, ◌/◌, ◌%◌, ◌≤◌, ◌<◌, ◌≡◌, refl, ◌∙◌, subst, Bool, true, ◌&&◌, Option, none, some, List, [], ◌∷◌,
  ◌++◌, ◌==◌, arith, if_both, All, All-append, length, take, drop, bytes, bytes_eq,
}
use zero_to_kernel.Heap.{Heap, memory_print_stats}
use zero_to_kernel.Fs.{Text, Table, fs_get_total_files}
use zero_to_kernel.Fs.Invariant.{IsTable}
use zero_to_kernel.Text.{word}
use zero_to_kernel.Screen.{Screen, make_color}
use zero_to_kernel.Screen.Cursor.{IsValid}
use zero_to_kernel.Screen.Output.{Call, perform_all, color_black}
use zero_to_kernel.Screen.Output.Log.{echo_all}
use zero_to_kernel.Screen.Output.Calls.{
  IsPlain, color_after, color_after-append, Performs, text_of_all, texts, texts-IsPlain,
  perform_all-Performs,
}
use zero_to_kernel.Screen.Output.Formats.{NoTab, literals, format-end, format-text, format-02d}
use zero_to_kernel.Screen.Output.Lines.{
  Leaves, fixed, fixed-append, fixed-IsPlain, unsigned_line, int_line, string_line, format-IsPlain,
  write-IsPlain, literal-IsPlain, clear-IsPlain,
}
use zero_to_kernel.Shell.Tools.{clock}
use zero_to_kernel.Shell.Dispatch.{Command, State}
use zero_to_kernel.Shell.Messages.{
  print_prompt, write_lines, cmd_cmds, cmd_osinfo, cmd_wrt, cmd_memo, stats_lines, cmd_wdir,
  cmd_whoiam, cmd_rst, cmd_bye, cmd_disk, cmd_splash, cmd_ver, ref_table, find_ref, ref_found,
  cmd_ref, cmd_sysinfo, print_only,
}

-- What is printed of the other parts: words, and texts without tabs.
pub record IsShown (arg : Text) (heap : Heap) (secs : ℕ) (s : State) : Type 0 where
  pub heap_used : heap.used < word
  pub uptime : secs < word
  pub runs : s.log.total_commands_run < word
  pub files : IsTable s.fs
  pub dir : NoTab s.current_dir
  pub argument : NoTab arg

pub print_prompt-IsPlain :
    (color : ℕ) (dir : Text) → NoTab dir → All IsPlain (print_prompt color dir)
unfolding print_prompt fixed literals
print_prompt-IsPlain color dir plain =
    let calls = print_prompt color dir in
    fixed-append (take 3 calls) (drop 3 calls) refl
      (write-IsPlain dir plain, fixed-IsPlain (drop 4 calls) refl)

cmd_osinfo-Leaves : (color : ℕ) → Leaves (make_color color 0) (cmd_osinfo color)
unfolding cmd_osinfo fixed literals color_after
cmd_osinfo-Leaves color = (fixed-IsPlain (cmd_osinfo color) refl, refl)

cmd_cmds-Leaves : (color : ℕ) → Leaves (make_color color 0) (cmd_cmds color)
unfolding cmd_cmds write_lines fixed literals color_after
cmd_cmds-Leaves color = (fixed-IsPlain (cmd_cmds color) refl, refl)

cmd_splash-Leaves : (color : ℕ) → Leaves (make_color color 0) (cmd_splash color)
unfolding cmd_splash fixed literals color_after
cmd_splash-Leaves color = (fixed-IsPlain (cmd_splash color) refl, refl)

total_files-bound : (t : Table) → fs_get_total_files t ≤ length t
unfolding fs_get_total_files
total_files-bound [] = omega arith
total_files-bound (e ∷ t) = ground (arith, total_files-bound t)

pub total_files-word : (t : Table) → IsTable t → fs_get_total_files t < word
total_files-word t v = omega (arith, total_files-bound t, v.slots)

cmd_memo-Leaves : (c : ℕ) (heap : Heap) → heap.used < word → Leaves c (cmd_memo heap)
unfolding cmd_memo stats_lines literals color_after memory_print_stats
cmd_memo-Leaves c heap small = (
  (
    literal-IsPlain _ refl,
    (
      unsigned_line (bytes "Heap total : ") (bytes " bytes\n") _ refl refl (omega arith),
      (
        unsigned_line (bytes "Heap used  : ") (bytes " bytes\n") _ refl refl small,
        (unsigned_line (bytes "Heap free  : ") (bytes " bytes\n") _ refl refl (omega arith), tt),
      ),
    ),
  ),
  refl,
)

cmd_disk-Leaves : (c : ℕ) (t : Table) → IsTable t → Leaves c (cmd_disk t)
unfolding cmd_disk literals color_after
cmd_disk-Leaves c t v = (
  (
    literal-IsPlain _ refl,
    (
      int_line (bytes "Total slots : ") (bytes " files\n") _ refl refl (omega arith),
      (
        int_line (bytes "Used slots  : ") (bytes " files\n") _ refl refl (total_files-word t v),
        (
          int_line (bytes "Free slots  : ") (bytes " files\n") _ refl refl
              (omega (arith, total_files-word t v)),
          tt,
        ),
      ),
    ),
  ),
  refl,
)

cmd_sysinfo-Leaves :
    (secs : ℕ) (s : State)
    → secs < word
    → s.log.total_commands_run < word
    → IsTable s.fs
    → Leaves (make_color s.shell_text_color 0) (cmd_sysinfo secs s)
unfolding cmd_sysinfo clock fixed literals color_after
cmd_sysinfo-Leaves secs s fits runs v =
    let calls = cmd_sysinfo secs s in
    let stop = format-text (bytes "\n") [] [] refl (format-end []) in
    let seconds = format-02d (secs % 60) _ _ (omega (arith, fits)) stop in
    let minutes =
      format-02d (secs % 3600 / 60) _ _ (omega (arith, fits))
        (format-text (bytes ":") _ _ refl seconds) in
    let hours =
      format-02d (secs / 3600) _ _ (omega (arith, fits))
        (format-text (bytes ":") _ _ refl minutes) in
    (
      fixed-append (take 5 calls) (drop 5 calls) refl (
        int_line (bytes "  Files stored: ") (bytes "\n") _ refl refl (total_files-word s.fs v),
        (
          format-IsPlain _ _ (format-text (bytes "  Uptime      : ") _ _ refl hours),
          (
            int_line (bytes "  Commands run: ") (bytes "\n") _ refl refl runs,
            fixed-IsPlain (drop 8 calls) refl,
          ),
        ),
      ),
      refl,
    )

cmd_wrt-Leaves : (c : ℕ) (arg : Text) → NoTab arg → Leaves c (cmd_wrt arg)
unfolding cmd_wrt literals color_after
cmd_wrt-Leaves c arg plain = (
  (literal-IsPlain (10 ∷ []) refl, (write-IsPlain arg plain, (literal-IsPlain (10 ∷ []) refl, tt))),
  refl,
)

cmd_wdir-Leaves : (c : ℕ) (dir : Text) → NoTab dir → Leaves c (cmd_wdir dir)
unfolding cmd_wdir literals color_after
cmd_wdir-Leaves c dir plain = ((string_line [] (bytes "\n") dir refl refl plain, tt), refl)

-- Every text of the table is printed as it is.
unfoldable all_literals : List (Text × Text) → Bool
all_literals [] = true
all_literals ((name, text) ∷ rest) = literals text && all_literals rest

abbrev FoundLeaves : ℕ → Text → Option Text → Type 0
FoundLeaves c arg o = Leaves c (ref_found arg o)

find_ref-Leaves :
    (c : ℕ) (arg : Text) (table : List (Text × Text))
    → NoTab arg
    → all_literals table ≡ true
    → FoundLeaves c arg (find_ref arg table)
unfolding find_ref all_literals ref_found literals color_after
find_ref-Leaves c arg [] plain h = (
  (
    string_line (bytes "  ") (bytes " -- see 'cmds' for a full list of commands.\n") arg refl refl
        plain,
    tt,
  ),
  refl,
)
find_ref-Leaves c arg ((name, text) ∷ rest) plain h =
    let parts : (literals text ≡ true) × (all_literals rest ≡ true) = ground (arith, h) in
    if_both (FoundLeaves c arg) (bytes_eq arg name) _ _ ((literal-IsPlain text parts.0, tt), refl)
      (find_ref-Leaves c arg rest plain parts.1)

cmd_ref-Leaves : (c : ℕ) (arg : Text) → NoTab arg → Leaves c (cmd_ref arg)
unfolding cmd_ref all_literals literals color_after fixed
cmd_ref-Leaves c arg plain =
    if_both (Leaves c) (length arg == 0) _ _ ((literal-IsPlain _ refl, tt), refl)
      (find_ref-Leaves c arg ref_table plain refl)

abbrev AllLeave : ℕ → Option (List Call) → Type 0
AllLeave c none = Unit
AllLeave c (some cs) = Leaves c cs

print_only-Leaves :
    (c : Command) (arg : Text) (heap : Heap) (secs : ℕ) (s : State)
    → IsShown arg heap secs s
    → AllLeave (make_color s.shell_text_color 0) (print_only c arg heap secs s)
unfolding print_only cmd_whoiam cmd_rst cmd_bye cmd_ver literals color_after
print_only-Leaves Command.cmds arg heap secs s v = cmd_cmds-Leaves s.shell_text_color
print_only-Leaves Command.osinfo arg heap secs s v = cmd_osinfo-Leaves s.shell_text_color
print_only-Leaves Command.cls arg heap secs s v = ((clear-IsPlain, tt), refl)
print_only-Leaves Command.wrt arg heap secs s v = cmd_wrt-Leaves _ arg v.argument
print_only-Leaves Command.memo arg heap secs s v = cmd_memo-Leaves _ heap v.heap_used
print_only-Leaves Command.sysinfo arg heap secs s v =
    cmd_sysinfo-Leaves secs s v.uptime v.runs v.files
print_only-Leaves Command.wdir arg heap secs s v = cmd_wdir-Leaves _ s.current_dir v.dir
print_only-Leaves Command.whoiam arg heap secs s v = ((literal-IsPlain _ refl, tt), refl)
print_only-Leaves Command.rst arg heap secs s v = ((literal-IsPlain _ refl, tt), refl)
print_only-Leaves Command.bye arg heap secs s v = ((literal-IsPlain _ refl, tt), refl)
print_only-Leaves Command.disk arg heap secs s v = cmd_disk-Leaves _ s.fs v.files
print_only-Leaves Command.splash arg heap secs s v = cmd_splash-Leaves s.shell_text_color
print_only-Leaves Command.ver arg heap secs s v = ((literal-IsPlain _ refl, tt), refl)
print_only-Leaves Command.ref arg heap secs s v = cmd_ref-Leaves _ arg v.argument
print_only-Leaves other arg heap secs s v = tt

-- The prompt and a command that only prints are performed to the end, in a directory and with an argument
-- without tabs, on a valid table and with counters that are words: the serial port gets all their texts,
-- the cursor is on the screen and the text has the shell's colour on black.
pub print_only-Performs :
    (fuel : ℕ) (c : Command) (arg : Text) (heap : Heap) (secs : ℕ) (s : State) (cs : List Call)
    (screen : Screen)
    → IsShown arg heap secs s
    → print_only c arg heap secs s ≡ some cs
    → IsValid screen
    → (text : List ℕ) × (texts (print_prompt s.shell_text_color s.current_dir ++ cs) ≡ some text)
      × Performs
          (echo_all text)
          (make_color s.shell_text_color color_black)
          screen
          (perform_all fuel (print_prompt s.shell_text_color s.current_dir ++ cs) screen)
unfolding print_prompt color_after
print_only-Performs fuel c arg heap secs s cs screen shown is v =
    let prompt = print_prompt s.shell_text_color s.current_dir in
    let (plain, keeps) =
      subst (AllLeave (make_color s.shell_text_color 0)) is
        (print_only-Leaves c arg heap secs s shown) in
    let all : All IsPlain (prompt ++ cs) =
      All-append IsPlain prompt cs (print_prompt-IsPlain s.shell_text_color s.current_dir shown.dir)
        plain in
    let r = perform_all-Performs fuel (prompt ++ cs) screen all v in
    (
      text_of_all (prompt ++ cs) all,
      texts-IsPlain (prompt ++ cs) all,
      record {
        screen = r.screen;
        is = r.is;
        sent = r.sent;
        colored = r.colored ∙ color_after-append prompt cs screen.term_color ∙ keeps;
        valid = r.valid;
      },
    )
