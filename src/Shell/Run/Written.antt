-- ===== src/Shell/Run/Written.antt =====
-- What is typed into a file with write or edit is what see shows.
use zero_to_kernel.Prelude.{
  ℕ, ◌+◌, ◌≤◌, ◌<◌, ◌≡◌, ◌≢◌, refl, ◌∙◌, ap, inl, inr, false, List, [], ◌∷◌, ◌++◌, arith, ltb,
  if◌then◌else◌, ◌==◌, length, length-append, take, take_all, All, All-map, some, bytes, bytes_eq,
  bytes_eq_refl, eq_of_bytes_eq, get_or, Bool-cases, if_both,
}
use zero_to_kernel.Text.Strings.{c_string}
use zero_to_kernel.Editor.{key_esc}
use zero_to_kernel.Editor.Session.{editor_open-Typed}
use zero_to_kernel.Keyboard.Lines.{keyboard_readline_typed}
use zero_to_kernel.Shell.{path_overruns}
use zero_to_kernel.Fs.{fs_read, Text, Table, fs_write, Written, written}
use zero_to_kernel.Fs.Lookup.{File, lookup}
use zero_to_kernel.Fs.Invariant.{IsTable}
use zero_to_kernel.Fs.Files.{
  file, fs_read_lem, Writes, no_file, at_directory, done, fs_write_lem, fs_read-fs_write,
}
use zero_to_kernel.Screen.{Screen}
use zero_to_kernel.Screen.Cursor.{IsValid}
use zero_to_kernel.Shell.{resolve_path, cmd_see, strncat_room, path_bytes, root, slash}
use zero_to_kernel.Shell.Readline.Views.{IsPlain, no_nul}
use zero_to_kernel.Shell.Readline.Session.{IsEnter}
use zero_to_kernel.Shell.Typing.{typed, cmd_write}
use zero_to_kernel.Shell.Dispatch.{
  cmd_edit, Command, State, returns, effect_of, overruns_path, prints_tab, has_tab, file_has_tab,
  find_command, command_of, run_command,
}
use zero_to_kernel.Shell.Run.{Session, goes_on, after_round, shell_turn}
use zero_to_kernel.Shell.Run.Turns.{IsSession}
use zero_to_kernel.Shell.Run.Commands.{
  IsPrinted, IsCommandLine, command_line, logged, shell_turn_line,
}

command_of-write : command_of (bytes "write") ≡ Command.write
unfolding command_of find_command bytes_eq
command_of-write = refl

c_string-own : (s : List ℕ) → All (λ c. c ≢ 0) s → c_string s ≡ s
unfolding c_string
c_string-own [] h = refl
c_string-own (c ∷ s) h =
    let z : (c == 0) ≡ false = ground (arith, h.0) in rw z (ap (λ t. c ∷ t) (c_string-own s h.1))

typed_text :
    (text rest : List ℕ)
    → All IsPlain text
    → length text < 255
    → typed 256 (text ++ 13 ∷ rest) ≡ some (text, rest)
unfolding typed
typed_text text rest plain short =
    let input =
      All-map text
        (λ c (h : IsPlain c).
          (omega (arith, h), omega (arith, h), omega (arith, h), omega (arith, h)))
        plain in
    let room : length text + 1 < 256 = omega (arith, short) in
    rw (keyboard_readline_typed 256 text rest input room)
      (ap (λ t. some (t, rest)) (c_string-own text (no_nul text plain)))

-- A name that fits into the line behind the command.
pub record IsWord (name : Text) : Type 0 where
  pub printed : IsPrinted name
  pub there : 0 < length name
  pub fits : length name < 250

wrote :
    (name : Text) (src : List ℕ) (n : ℕ) (t : Table) (f : File) (r : Table × Written)
    → lookup name t ≡ some f
    → f.dir ≡ false
    → Writes name src n t r
    → r.1 ≡ written n
wrote name src n t f r look plain (no_file gone) = cc
wrote name src n t f r look plain (at_directory g is dir) =
    let same : g ≡ f = cc in let no : g.dir ≡ false = ap (λ x. x.dir) same ∙ plain in cc
wrote name src n t f r look plain (done t' g v is d upd) = refl

IsWord-line :
    (cmd name : Text)
    → IsPrinted cmd
    → 0 < length cmd
    → length cmd ≤ 5
    → IsWord name
    → IsCommandLine cmd name
IsWord-line cmd name printed pos short word = record {
  cmd_printed = printed;
  cmd_there = pos;
  cmd_fits = omega (arith, short);
  arg_printed = word.printed;
  line_fits = omega (arith, short, word.fits);
}

write_runs :
    (name : Text) (text rest : List ℕ) (s : State)
    → IsWord name
    → path_overruns s.current_dir name ≡ false
    → All IsPlain text
    → length text < 255
    → run_command (command_of (bytes "write")) name (text ++ 13 ∷ rest) s
      ≡ returns
          (record s { fs = (fs_write (resolve_path s.current_dir name) text (length text) s.fs).0 })
          rest
unfolding run_command overruns_path prints_tab effect_of cmd_write
write_runs name text rest s word fits plain short =
    let there : (length name == 0) ≡ false = ground (arith, word.there) in
    rw (command_of-write, fits, there, typed_text text rest plain short) refl

see_written :
    (dir name : Text) (text : List ℕ) (t : Table) (f : File)
    → IsWord name
    → IsTable t
    → lookup (resolve_path dir name) t ≡ some f
    → f.dir ≡ false
    → length text < 255
    → cmd_see dir name (fs_write (resolve_path dir name) text (length text) t).0 ≡ some text
unfolding cmd_see
see_written dir name text t f word v look no_dir short =
    let path = resolve_path dir name in
    let there : (length name == 0) ≡ false = ground (arith, word.there) in
    let small : (if ltb 256 (length text) then 256 else length text) ≡ length text =
      ground (arith, short) in
    let done =
      wrote path text _ t f _ look no_dir
        (fs_write_lem path text (length text) t v (omega arith)) in
    let read = fs_read-fs_write path text (length text) 257 t v (omega arith) (omega arith) done in
    rw there (
      read
      ∙ rw small (
          ap some (
            ap (take 256) (take_all _ text (omega arith))
            ∙ take_all 256 text (omega (arith, short)))))

-- In a well-formed session, the keys of `write NAME`, a printable text of at most 254 bytes and Enter, with a
-- word of at most 249 bytes that names a file by a path that fits its buffer: the turn ends with the keys
-- behind, and `see NAME` then shows the text.
pub see-write :
    (fuel : ℕ) (screen : Screen) (r : Session) (name text : Text) (c : ℕ) (rest : List ℕ) (f : File)
    → IsSession r
    → IsValid screen
    → IsWord name
    → path_overruns r.state.current_dir name ≡ false
    → All IsPlain text
    → length text < 255
    → IsEnter c
    → r.keys ≡ command_line (bytes "write") name ++ c ∷ (text ++ 13 ∷ rest)
    → lookup (resolve_path r.state.current_dir name) r.state.fs ≡ some f
    → f.dir ≡ false
    → (r' : Session) × (shell_turn fuel screen r ≡ goes_on r')
      × (r'.keys ≡ rest)
      × (cmd_see r'.state.current_dir name r'.state.fs ≡ some text)
unfolding after_round
see-write fuel screen r name text c rest f v valid word fits plain short end e look no_dir =
    let line = IsWord-line (bytes "write") name (omega arith) (omega arith) (omega arith) word in
    let s = logged (command_line (bytes "write") name) r.state in
    let path = resolve_path r.state.current_dir name in
    let (b, sized, turn) =
      shell_turn_line fuel screen r (bytes "write") name c _ v valid line end e in
    (
      record {
        state = record s { fs = (fs_write path text (length text) s.fs).0 };
        keys = rest;
        input_buf = b;
      },
      turn ∙ rw (write_runs name text rest s word fits plain short) refl,
      refl,
      see_written r.state.current_dir name text r.state.fs f word v.state.files look no_dir short,
    )

command_of-edit : command_of (bytes "edit") ≡ Command.edit
unfolding command_of find_command bytes_eq
command_of-edit = refl

take-there : (s : Text) → 0 < length s → 0 < length (take 63 s)
take-there [] pos = absurd (omega (arith, pos))
take-there (c ∷ s) pos = omega arith

append-there : (d rest : Text) → 0 < length d → 0 < length (d ++ rest)
append-there d rest pos = omega (arith, length-append d rest, pos)

dir-there : (dir : Text) → 0 < length (if bytes_eq dir root then dir else dir ++ root)
dir-there dir = elim (Bool-cases (bytes_eq dir root)) [
  | inl e ↦ rw e (let same = eq_of_bytes_eq dir root e in rw same (omega arith))
  | inr e ↦ rw e (omega (arith, length-append dir root))
]

-- A path that is resolved is not empty.
path-there : (dir name : Text) → 0 < length name → 0 < length (resolve_path dir name)
unfolding resolve_path path_bytes strncat_room
path-there dir name pos =
    let named : (length name == 0) ≡ false = ground (arith, pos) in
    rw named (
      take-there _ (
        if_both (λ (s : Text). 0 < length s) (get_or name 0 0 == slash) _ _ (take-there name pos)
          (append-there _ _ (dir-there dir))))

-- A file whose text fits and has no tab is opened.
edit_runs :
    (name : Text) (keys : List ℕ) (s : State) (f : File)
    → IsWord name
    → path_overruns s.current_dir name ≡ false
    → lookup (resolve_path s.current_dir name) s.fs ≡ some f
    → length f.contents ≤ 256
    → f.dir ≡ false
    → has_tab f.contents ≡ false
    → run_command (command_of (bytes "edit")) name keys s ≡ cmd_edit name keys s
unfolding run_command overruns_path prints_tab file_has_tab effect_of
edit_runs name keys s f word fits look small no_dir no_tab =
    let there : (length name == 0) ≡ false = ground (arith, word.there) in
    let read : fs_read (resolve_path s.current_dir name) 257 s.fs ≡ some f.contents =
      fs_read_lem (resolve_path s.current_dir name) 257 s.fs (omega arith)
      ∙ rw (look, no_dir) (ap some (take_all 256 f.contents small)) in
    rw (command_of-edit, fits, there, read, no_tab) refl

-- In a well-formed session, the keys of `edit NAME`, a printable text and ESC, with a word of at most 249
-- bytes that names a file, by a path that fits its buffer, whose text has no tab and leaves room: the turn
-- ends with the keys behind, and `see NAME` then shows the old text with the new one behind.
pub see-edit :
    (fuel : ℕ) (screen : Screen) (r : Session) (name text : Text) (c : ℕ) (rest : List ℕ) (f : File)
    → IsSession r
    → IsValid screen
    → IsWord name
    → path_overruns r.state.current_dir name ≡ false
    → All IsPlain text
    → length f.contents + length text ≤ 256
    → IsEnter c
    → r.keys ≡ command_line (bytes "edit") name ++ c ∷ (text ++ key_esc ∷ rest)
    → lookup (resolve_path r.state.current_dir name) r.state.fs ≡ some f
    → f.dir ≡ false
    → has_tab f.contents ≡ false
    → (r' : Session) × (shell_turn fuel screen r ≡ goes_on r')
      × (r'.keys ≡ rest)
      × (cmd_see r'.state.current_dir name r'.state.fs ≡ some (f.contents ++ text))
unfolding after_round cmd_edit cmd_see
see-edit fuel screen r name text c rest f v valid word fits plain room end e look no_dir no_tab =
    let line = IsWord-line (bytes "edit") name (omega arith) (omega arith) (omega arith) word in
    let s = logged (command_line (bytes "edit") name) r.state in
    let path = resolve_path r.state.current_dir name in
    let there : (length name == 0) ≡ false = ground (arith, word.there) in
    let (b, sized, turn) =
      shell_turn_line fuel screen r (bytes "edit") name c _ v valid line end e in
    let (t, opened, upd) =
      editor_open-Typed path text rest r.state.fs f v.state.files (path-there _ name word.there)
        look no_dir plain room in
    let new : lookup path t ≡ some (file false (f.contents ++ text)) =
      upd path ∙ rw (bytes_eq_refl path) refl in
    (
      record { state = record s { fs = t }; keys = rest; input_buf = b },
      turn
          ∙ rw
              (
                edit_runs name _ s f word fits look (omega (arith, room)) no_dir no_tab,
                there,
                opened,
              )
              refl,
      refl,
      rw there (
          fs_read_lem path 257 t (omega arith)
          ∙ rw new (
              ap some (
                take_all 256 (f.contents ++ text)
                  (omega (arith, length-append f.contents text, room))))),
    )
