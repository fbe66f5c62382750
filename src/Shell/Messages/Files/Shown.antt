-- ===== src/Shell/Messages/Files/Shown.antt =====
-- What the file commands print is performed to the end.
use zero_to_kernel.Prelude.{
  ℕ, ◌≡◌, refl, ◌∙◌, subst, Bool, true, false, Option, none, some, List, [], ◌∷◌, ◌++◌, ◌==◌,
  if◌then◌else◌, arith, if_both, All-append, All-take, length, get_or, bytes, bytes_eq, is_some,
}
use zero_to_kernel.Text.Strings.{c_string}
use zero_to_kernel.Fs.{
  Text, Table, Created, created, empty_name, name_too_long, already_exists, table_full, fs_read,
}
use zero_to_kernel.Fs.Invariant.{IsTable}
use zero_to_kernel.Screen.{Screen, make_color}
use zero_to_kernel.Screen.Cursor.{IsValid}
use zero_to_kernel.Screen.Printf.{str}
use zero_to_kernel.Screen.Output.{Call, format, perform_all, color_black}
use zero_to_kernel.Screen.Output.Log.{echo_all}
use zero_to_kernel.Screen.Output.Calls.{
  IsPlain, color_after, color_after-append, Performs, text_of_all, texts, texts-IsPlain,
  perform_all-Performs,
}
use zero_to_kernel.Screen.Output.Formats.{NoTab, literals}
use zero_to_kernel.Screen.Output.Lines.{write-IsPlain, literal-IsPlain, string_line}
use zero_to_kernel.Shell.{
  resolve_path, path_bytes, strncat_room, root, Made, make_usage, no_extension, made, cmd_new,
  cmd_mkd, cmd_del,
}
use zero_to_kernel.Shell as Shell
use zero_to_kernel.Shell.Dispatch.{Command, State}
use zero_to_kernel.Shell.Messages.{print_prompt}
use zero_to_kernel.Shell.Messages.Plain.{print_prompt-IsPlain}
use zero_to_kernel.Shell.Messages.Files.{
  create_calls, created_calls, new_calls, mkd_calls, del_calls, deld_calls, read_calls, see_calls,
  cmd_look, file_calls,
}
use zero_to_kernel.Shell.Messages.Files.Rows.{IsPlainAll, AllNoTab, cmd_laf-IsPlain}

resolve_path-NoTab : (dir arg : Text) → NoTab dir → NoTab arg → NoTab (resolve_path dir arg)
unfolding resolve_path path_bytes strncat_room
resolve_path-NoTab dir arg d a =
    let slashed : NoTab (if bytes_eq dir root then dir else dir ++ root) =
      if_both NoTab (bytes_eq dir root) _ _ d (All-append _ dir root d (omega arith)) in
    if_both NoTab (length arg == 0) _ _ d (
      All-take _ 63 _ (
        if_both NoTab (length arg == 0) _ _ d (
          if_both NoTab (get_or arg 0 0 == Shell.slash) _ _ (All-take _ 63 arg a)
            (All-append _ _ _ slashed (All-take _ _ arg a)))))

c_string-NoTab : (s : List ℕ) → NoTab s → NoTab (c_string s)
unfolding c_string
c_string-NoTab [] h = tt
c_string-NoTab (c ∷ s) h = if_both NoTab (c == 0) _ _ tt (h.0, c_string-NoTab s h.1)

create_calls-IsPlain :
    (name : Text) (why : Created) → NoTab name → IsPlainAll (create_calls name why)
unfolding create_calls literals
create_calls-IsPlain name created plain = tt
create_calls-IsPlain name empty_name plain = (literal-IsPlain _ refl, tt)
create_calls-IsPlain name name_too_long plain = (literal-IsPlain _ refl, tt)
create_calls-IsPlain name already_exists plain =
    (string_line (bytes "Error: file '") (bytes "' already exists.\n") name refl refl plain, tt)
create_calls-IsPlain name table_full plain = (literal-IsPlain _ refl, tt)

created_calls-IsPlain :
    (name : Text) (why : Created) → NoTab name → IsPlainAll (created_calls name why)
unfolding created_calls literals
created_calls-IsPlain name created plain =
    (string_line (bytes "\nCreated: ") (bytes "\n") name refl refl plain, tt)
created_calls-IsPlain name empty_name plain = tt
created_calls-IsPlain name name_too_long plain = tt
created_calls-IsPlain name already_exists plain = tt
created_calls-IsPlain name table_full plain = tt

new_calls-IsPlain : (path : Text) (m : Made) → NoTab path → IsPlainAll (new_calls path m)
unfolding new_calls literals
new_calls-IsPlain path make_usage plain = (literal-IsPlain _ refl, tt)
new_calls-IsPlain path no_extension plain = (literal-IsPlain _ refl, tt)
new_calls-IsPlain path (made why) plain =
    All-append IsPlain _ _ (create_calls-IsPlain path why plain)
      (created_calls-IsPlain path why plain)

mkd_failed :
    (path : Text)
    → NoTab path
    → IsPlain (format (bytes "Error: could not create directory '%s'\n") (str path ∷ []))
unfolding literals
mkd_failed path plain =
    string_line (bytes "Error: could not create directory '") (bytes "'\n") path refl refl plain

mkd_calls-IsPlain : (path : Text) (m : Made) → NoTab path → IsPlainAll (mkd_calls path m)
unfolding mkd_calls literals
mkd_calls-IsPlain path make_usage plain = (literal-IsPlain _ refl, tt)
mkd_calls-IsPlain path no_extension plain = (literal-IsPlain _ refl, tt)
mkd_calls-IsPlain path (made created) plain =
    (string_line (bytes "Directory created: ") (bytes "\n") path refl refl plain, tt)
mkd_calls-IsPlain path (made empty_name) plain = (mkd_failed path plain, tt)
mkd_calls-IsPlain path (made name_too_long) plain = (mkd_failed path plain, tt)
mkd_calls-IsPlain path (made already_exists) plain = (mkd_failed path plain, tt)
mkd_calls-IsPlain path (made table_full) plain = (mkd_failed path plain, tt)

del_calls-IsPlain : (path : Text) (o : Option Bool) → NoTab path → IsPlainAll (del_calls path o)
unfolding del_calls literals
del_calls-IsPlain path none plain = (literal-IsPlain _ refl, tt)
del_calls-IsPlain path (some true) plain =
    (string_line (bytes "Deleted: ") (bytes "\n") path refl refl plain, tt)
del_calls-IsPlain path (some false) plain =
    (string_line (bytes "Error: file '") (bytes "' not found.\n") path refl refl plain, tt)

deld_calls-IsPlain : (path : Text) (o : Option Bool) → NoTab path → IsPlainAll (deld_calls path o)
unfolding deld_calls literals
deld_calls-IsPlain path none plain = (literal-IsPlain _ refl, tt)
deld_calls-IsPlain path (some true) plain =
    (string_line (bytes "Directory deleted: ") (bytes "\n") path refl refl plain, tt)
deld_calls-IsPlain path (some false) plain =
    (string_line (bytes "Error: directory '") (bytes "' not found.\n") path refl refl plain, tt)

read_calls-IsPlain :
    (path : Text) (o : Option (List ℕ))
    → NoTab path
    → ((bs : List ℕ) → o ≡ some bs → NoTab bs)
    → IsPlainAll (read_calls path o)
unfolding read_calls literals
read_calls-IsPlain path none plain text =
    (string_line (bytes "Error: file '") (bytes "' not found.\n") path refl refl plain, tt)
read_calls-IsPlain path (some bs) plain text = (
  literal-IsPlain (10 ∷ []) refl,
  (write-IsPlain _ (c_string-NoTab bs (text bs refl)), (literal-IsPlain (10 ∷ []) refl, tt)),
)

see_calls-IsPlain :
    (dir arg : Text) (t : Table)
    → NoTab dir
    → NoTab arg
    → ((bs : List ℕ) → fs_read (resolve_path dir arg) 257 t ≡ some bs → NoTab bs)
    → IsPlainAll (see_calls dir arg t)
unfolding see_calls literals
see_calls-IsPlain dir arg t d a text =
    if_both IsPlainAll (length arg == 0) _ _ (literal-IsPlain _ refl, tt)
      (read_calls-IsPlain _ _ (resolve_path-NoTab dir arg d a) text)

cmd_look-IsPlain :
    (dir arg : Text) (t : Table) → NoTab dir → NoTab arg → IsPlainAll (cmd_look dir arg t)
unfolding cmd_look literals
cmd_look-IsPlain dir arg t d a =
    let path = resolve_path-NoTab dir arg d a in
    if_both IsPlainAll (length arg == 0) _ _ (literal-IsPlain _ refl, tt)
      (if_both IsPlainAll (is_some (fs_read (resolve_path dir arg) 257 t)) _ _
        (string_line (bytes "Found: ") (bytes "\n") _ refl refl path, tt)
        (string_line (bytes "Not found: ") (bytes "\n") _ refl refl path, tt))

-- The names in the table, the directory and the argument have no tab, and neither has the file's text.
pub record IsShown (arg : Text) (s : State) : Type 0 where
  pub files : IsTable s.fs
  pub names : AllNoTab s.fs
  pub dir : NoTab s.current_dir
  pub argument : NoTab arg
  pub text : (bs : List ℕ) → fs_read (resolve_path s.current_dir arg) 257 s.fs ≡ some bs → NoTab bs

abbrev PlainIf : Option (List Call) → Type 0
PlainIf none = Unit
PlainIf (some cs) = IsPlainAll cs

file_calls-IsPlain :
    (c : Command) (arg : Text) (s : State) → IsShown arg s → PlainIf (file_calls c arg s)
unfolding file_calls
file_calls-IsPlain Command.new arg s v =
    new_calls-IsPlain _ (cmd_new s.current_dir arg s.fs).1
      (resolve_path-NoTab _ arg v.dir v.argument)
file_calls-IsPlain Command.see arg s v =
    see_calls-IsPlain s.current_dir arg s.fs v.dir v.argument v.text
file_calls-IsPlain Command.laf arg s v = cmd_laf-IsPlain s.current_dir s.fs v.files v.names
file_calls-IsPlain Command.del arg s v =
    del_calls-IsPlain _ (cmd_del s.current_dir arg s.fs).1
      (resolve_path-NoTab _ arg v.dir v.argument)
file_calls-IsPlain Command.look arg s v = cmd_look-IsPlain s.current_dir arg s.fs v.dir v.argument
file_calls-IsPlain Command.mkd arg s v =
    mkd_calls-IsPlain _ (cmd_mkd s.current_dir arg s.fs).1
      (resolve_path-NoTab _ arg v.dir v.argument)
file_calls-IsPlain Command.deld arg s v =
    deld_calls-IsPlain _ (cmd_del s.current_dir arg s.fs).1
      (resolve_path-NoTab _ arg v.dir v.argument)
file_calls-IsPlain other arg s v = tt

prompt-color :
    (color : ℕ) (dir : Text) (now : ℕ)
    → color_after (print_prompt color dir) now ≡ make_color color color_black
unfolding print_prompt color_after
prompt-color color dir now = refl

-- On a valid table, what new, see, laf, del, look, mkd or deld prints, and the prompt behind it, is
-- performed to the end where no text has a tab: the serial port gets all their texts, the cursor is on the
-- screen, and the text has the shell's colour on black again, whatever a listing has set.
pub file_calls-Performs :
    (fuel : ℕ) (c : Command) (arg : Text) (s : State) (cs : List Call) (screen : Screen)
    → IsShown arg s
    → file_calls c arg s ≡ some cs
    → IsValid screen
    → (text : List ℕ) × (texts (cs ++ print_prompt s.shell_text_color s.current_dir) ≡ some text)
      × Performs
          (echo_all text)
          (make_color s.shell_text_color color_black)
          screen
          (perform_all fuel (cs ++ print_prompt s.shell_text_color s.current_dir) screen)
file_calls-Performs fuel c arg s cs screen v is valid =
    let prompt = print_prompt s.shell_text_color s.current_dir in
    let plain =
      All-append IsPlain cs prompt (subst PlainIf is (file_calls-IsPlain c arg s v))
        (print_prompt-IsPlain s.shell_text_color s.current_dir v.dir) in
    let r = perform_all-Performs fuel (cs ++ prompt) screen plain valid in
    (
      text_of_all (cs ++ prompt) plain,
      texts-IsPlain (cs ++ prompt) plain,
      record {
        screen = r.screen;
        is = r.is;
        sent = r.sent;
        colored = r.colored ∙ color_after-append cs prompt screen.term_color ∙ prompt-color _ _ _;
        valid = r.valid;
      },
    )
