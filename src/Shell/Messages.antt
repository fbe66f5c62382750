-- ===== src/Shell/Messages.antt =====
-- The prompt of kernel/shell.c and the commands that only print, as the calls that they make of the terminal.
-- What they print of other parts is an argument: the heap, the seconds since the start, the state of the
-- shell.
pub mod Plain
pub mod Files
mod Tests
use zero_to_kernel.Prelude.{
  ℕ, ◌-◌, Option, none, some, List, [], ◌∷◌, ◌++◌, ◌==◌, if◌then◌else◌, length, bytes, bytes_eq,
}
use zero_to_kernel.Heap.{Heap, memory_print_stats}
use zero_to_kernel.Fs.{Text, Table, fs_max_files, fs_get_total_files}
use zero_to_kernel.Screen.Printf.{num, str}
use zero_to_kernel.Screen.Output.{
  Call, set_color, clear, format, write, color_black, color_cyan, color_light_grey,
  color_light_blue, color_light_green, color_light_cyan, color_yellow,
}
use zero_to_kernel.Shell.Tools.{clock}
use zero_to_kernel.Shell.Dispatch.{Command, State}

unfoldable pub print_prompt : ℕ → Text → List Call
print_prompt shell_text_color current_dir =
    set_color color_light_cyan color_black
    ∷ write (bytes "minios:")
    ∷ set_color color_light_blue color_black
    ∷ write current_dir
    ∷ set_color color_light_green color_black
    ∷ write (bytes "> ")
    ∷ set_color shell_text_color color_black
    ∷ []

-- The lines of the list that cmd_cmds prints.
abbrev pub command_list : List Text
command_list =
    bytes "  cmds          -- show this list\n"
    ∷ bytes "  osinfo        -- show OS info and author\n"
    ∷ bytes "  cls           -- clear the screen\n"
    ∷ bytes "  wrt [text]    -- print text back to screen\n"
    ∷ bytes "  memo          -- show heap usage stats\n"
    ∷ bytes "  new [file]    -- create a new file\n"
    ∷ bytes "  edit [file]   -- open file in MiniEdit (ESC=save&quit)\n"
    ∷ bytes "  write  [file] -- write text to a file\n"
    ∷ bytes "  see [file]    -- display file contents\n"
    ∷ bytes "  laf           -- list all files\n"
    ∷ bytes "  date          -- show a hardcoded timestamp\n"
    ∷ bytes "  alive         -- show how long OS has been running\n"
    ∷ bytes "  calc [expr]   -- basic calculator (e.g. calc 5 + 3)\n"
    ∷ bytes "  color [color] -- change terminal text colour\n"
    ∷ bytes "  history       -- show last 10 typed commands\n"
    ∷ bytes "  todo [opts]   -- todo manager (add/list/done/clear)\n"
    ∷ bytes "  fm            -- interactive file manager\n"
    ∷ bytes "  passgen [len] -- generate a random password\n"
    ∷ bytes "  notes [opts]  -- notes app (new/list/view)\n"
    ∷ bytes "  sysinfo       -- system info dashboard\n"
    ∷ []

unfoldable pub write_lines : List Text → List Call → List Call
write_lines [] rest = rest
write_lines (line ∷ lines) rest = write line ∷ write_lines lines rest

unfoldable pub cmd_cmds : ℕ → List Call
cmd_cmds shell_text_color =
    set_color color_yellow color_black
    ∷ write (bytes "\nAvailable commands:\n")
    ∷ set_color color_light_grey color_black
    ∷ write_lines command_list (set_color shell_text_color color_black ∷ [])

unfoldable pub cmd_osinfo : ℕ → List Call
cmd_osinfo shell_text_color =
    write (bytes "\n")
    ∷ set_color color_cyan color_black
    ∷ write (bytes "  MiniOS v1.0\n")
    ∷ set_color color_light_grey color_black
    ∷ write (bytes "  Built by Ahmed Ali\n")
    ∷ write (bytes "  Stack: C99 + x86 Assembly, GRUB 2, QEMU\n")
    ∷ set_color shell_text_color color_black
    ∷ []

unfoldable pub cmd_wrt : Text → List Call
cmd_wrt arg = write (10 ∷ []) ∷ write arg ∷ write (10 ∷ []) ∷ []

-- What memory_print_stats prints.
unfoldable pub stats_lines : Heap → List Call
stats_lines heap =
    let (total, used, free) = memory_print_stats heap in
    format (bytes "Heap total : %u bytes\n") (num total ∷ [])
    ∷ format (bytes "Heap used  : %u bytes\n") (num used ∷ [])
    ∷ format (bytes "Heap free  : %u bytes\n") (num free ∷ [])
    ∷ []

unfoldable pub cmd_memo : Heap → List Call
unfolding stats_lines
cmd_memo heap = write (bytes "\n") ∷ stats_lines heap

unfoldable pub cmd_wdir : Text → List Call
cmd_wdir current_dir = format (bytes "%s\n") (str current_dir ∷ []) ∷ []

unfoldable pub cmd_whoiam : List Call
cmd_whoiam = write (bytes "root\n") ∷ []

-- What is printed before the machine stops.
unfoldable pub cmd_rst : List Call
cmd_rst = write (bytes "Restarting OS...\n") ∷ []

unfoldable pub cmd_bye : List Call
cmd_bye = write (bytes "Shutting down MiniOS... Goodbye.\n") ∷ []

unfoldable pub cmd_disk : Table → List Call
cmd_disk t =
    write (bytes "Filesystem: MiniFS v1\n")
    ∷ format (bytes "Total slots : %d files\n") (num fs_max_files ∷ [])
    ∷ format (bytes "Used slots  : %d files\n") (num (fs_get_total_files t) ∷ [])
    ∷ format (bytes "Free slots  : %d files\n") (num (fs_max_files - fs_get_total_files t) ∷ [])
    ∷ []

unfoldable pub cmd_splash : ℕ → List Call
cmd_splash shell_text_color =
    set_color color_light_cyan color_black
    ∷ write (bytes "\n  === Welcome to MiniOS ===\n\n")
    ∷ set_color shell_text_color color_black
    ∷ []

unfoldable pub cmd_ver : List Call
cmd_ver = write (bytes "MiniOS v1.0\n") ∷ []

-- The chain of comparisons of cmd_ref, with the texts.
abbrev pub ref_table : List (Text × Text)
ref_table =
    (bytes "new", bytes "  new [file] -- Create empty file\n  Example: new notes.txt\n")
    ∷ (bytes "see", bytes "  see [file] -- Display file contents\n  Example: see notes.txt\n")
    ∷ (bytes "del", bytes "  del [file] -- permanently deletes a file\n  Example: del notes.txt\n")
    ∷ (bytes "cpy", bytes "  cpy [src] [dst] -- Copy a file\n  Example: cpy notes.txt backup.txt\n")
    ∷ (
      bytes "mov",
      bytes "  mov [src] [dst] -- Move / rename a file\n  Example: mov old.txt new.txt\n",
    )
    ∷ (bytes "look", bytes "  look [name] -- Search for a file\n  Example: look todo\n")
    ∷ (bytes "laf", bytes "  laf -- List files\n  Example: laf\n")
    ∷ (bytes "wdir", bytes "  wdir -- Show current directory\n  Example: wdir\n")
    ∷ (bytes "goto", bytes "  goto [dir] -- Change directory\n  Example: goto docs\n")
    ∷ (bytes "mkd", bytes "  mkd [dir] -- Create directory\n  Example: mkd projects\n")
    ∷ (bytes "deld", bytes "  deld [dir] -- Delete directory\n  Example: deld projects\n")
    ∷ (bytes "dtree", bytes "  dtree -- Show directory tree\n  Example: dtree\n")
    ∷ (bytes "cls", bytes "  cls -- Clear screen\n  Example: cls\n")
    ∷ (bytes "wrt", bytes "  wrt [text] -- Print text\n  Example: wrt Hello from MiniOS\n")
    ∷ (bytes "osinfo", bytes "  osinfo -- OS name and version\n  Example: osinfo\n")
    ∷ (bytes "alive", bytes "  alive / uptime -- Uptime since boot\n  Example: uptime\n")
    ∷ (bytes "uptime", bytes "  alive / uptime -- Uptime since boot\n  Example: uptime\n")
    ∷ (bytes "whoiam", bytes "  whoiam -- Current user\n  Example: whoiam\n")
    ∷ (bytes "rst", bytes "  rst -- Restart OS\n  Example: rst\n")
    ∷ (bytes "bye", bytes "  bye -- Shutdown OS\n  Example: bye\n")
    ∷ (bytes "memo", bytes "  memo -- Heap memory stats\n  Example: memo\n")
    ∷ (bytes "disk", bytes "  disk -- Filesystem stats\n  Example: disk\n")
    ∷ (
      bytes "hunt",
      bytes "  hunt [file] [word] -- Search in file\n  Example: hunt notes.txt meeting\n",
    )
    ∷ (bytes "cnt", bytes "  cnt [file] -- Count words/lines\n  Example: cnt notes.txt\n")
    ∷ (bytes "top", bytes "  top [file] [n] -- First N lines\n  Example: top notes.txt 3\n")
    ∷ (bytes "btm", bytes "  btm [file] [n] -- Last N lines\n  Example: btm notes.txt 3\n")
    ∷ (bytes "todo", bytes "  todo -- To-do list manager\n  Example: todo\n")
    ∷ (bytes "calc", bytes "  calc -- Calculator\n  Example: calc\n")
    ∷ (bytes "passgen", bytes "  passgen [n] -- Password generator\n  Example: passgen 16\n")
    ∷ (bytes "flip", bytes "  flip -- Flip a coin\n  Example: flip\n")
    ∷ (bytes "dice", bytes "  dice -- Roll a dice\n  Example: dice\n")
    ∷ (bytes "color", bytes "  color [name] -- Change text colour\n  Example: color green\n")
    ∷ (bytes "splash", bytes "  splash -- Show boot screen\n  Example: splash\n")
    ∷ (bytes "ver", bytes "  ver -- Version info\n  Example: ver\n")
    ∷ (bytes "ref", bytes "  ref [cmd] -- Help for a command\n  Example: ref del\n")
    ∷ (bytes "cmds", bytes "  cmds -- List all commands\n  Example: cmds\n")
    ∷ []

unfoldable pub find_ref : Text → List (Text × Text) → Option Text
find_ref arg [] = none
find_ref arg ((name, text) ∷ rest) = if bytes_eq arg name then some text else find_ref arg rest

ref_found : Text → Option Text → List Call
ref_found arg none =
    format (bytes "  %s -- see 'cmds' for a full list of commands.\n") (str arg ∷ []) ∷ []
ref_found arg (some text) = write text ∷ []

unfoldable pub cmd_ref : Text → List Call
unfolding ref_found
cmd_ref arg =
    if length arg == 0
    then write (bytes "Usage: ref [cmd]\n") ∷ []
    else ref_found arg (find_ref arg ref_table)

abbrev pub rule : Text
rule = bytes "  ================================\n"

unfoldable pub cmd_sysinfo : ℕ → State → List Call
cmd_sysinfo secs s =
    let (h, m, sec) = clock secs in
    set_color color_light_cyan color_black
    ∷ write (bytes "\n  ================================\n")
    ∷ write (bytes "  MiniOS v1.0 - by Ahmed Ali\n")
    ∷ write rule
    ∷ set_color s.shell_text_color color_black
    ∷ format (bytes "  Files stored: %d\n") (num (fs_get_total_files s.fs) ∷ [])
    ∷ format (bytes "  Uptime      : %02d:%02d:%02d\n") (num h ∷ num m ∷ num sec ∷ [])
    ∷ format (bytes "  Commands run: %d\n") (num s.log.total_commands_run ∷ [])
    ∷ set_color color_light_cyan color_black
    ∷ write rule
    ∷ set_color s.shell_text_color color_black
    ∷ []

-- The calls of a command that only prints; `none` for the others.
unfoldable pub print_only : Command → Text → Heap → ℕ → State → Option (List Call)
print_only Command.cmds arg heap secs s = some (cmd_cmds s.shell_text_color)
print_only Command.osinfo arg heap secs s = some (cmd_osinfo s.shell_text_color)
print_only Command.cls arg heap secs s = some (clear ∷ [])
print_only Command.wrt arg heap secs s = some (cmd_wrt arg)
print_only Command.memo arg heap secs s = some (cmd_memo heap)
print_only Command.sysinfo arg heap secs s = some (cmd_sysinfo secs s)
print_only Command.wdir arg heap secs s = some (cmd_wdir s.current_dir)
print_only Command.whoiam arg heap secs s = some cmd_whoiam
print_only Command.rst arg heap secs s = some cmd_rst
print_only Command.bye arg heap secs s = some cmd_bye
print_only Command.disk arg heap secs s = some (cmd_disk s.fs)
print_only Command.splash arg heap secs s = some (cmd_splash s.shell_text_color)
print_only Command.ver arg heap secs s = some cmd_ver
print_only Command.ref arg heap secs s = some (cmd_ref arg)
print_only other arg heap secs s = none
