-- ===== src/Shell/Typing.antt =====
-- The commands of kernel/shell.c that read the keyboard: write, notes and fm. The keys are the characters
-- that keyboard_getchar will return; `none` waits for more of them, or has echoed a tab. A command gives
-- back the keys that it leaves. What is printed round the prompts is left out.
pub mod Notes
pub mod Manager
mod Tests
use zero_to_kernel.Prelude.{
  ℕ, zero, suc, ◌+◌, ◌-◌, Bool, true, false, ◌&&◌, ◌||◌, Option, none, some, List, [], ◌∷◌, ◌++◌,
  ◌==◌, ltb, leb, if◌then◌else◌, length, take, drop, bytes, bytes_eq,
}
use zero_to_kernel.Text.Strings.{c_string}
use zero_to_kernel.Keyboard.{keyboard_readline}
use zero_to_kernel.Keyboard
use zero_to_kernel.Fs.{
  Text, Table, Created, created, fs_create, fs_read, fs_write, Written, fs_delete,
}
use zero_to_kernel.Fs.Listing.{Row, fs_list_notes}
use zero_to_kernel.Shell.{resolve_path}
use zero_to_kernel.Shell.Todo.{open_quote, close_quote}

infixl 5 ◌>>=◌
abbrev pub ◌>>=◌ {ℓ κ} : {A : Type ℓ} {B : Type κ} → Option A → (A → Option B) → Option B
none >>= f = none
some a >>= f = f a

-- A C string read into a buffer of `len` bytes, and the keys left.
unfoldable pub typed : ℕ → List ℕ → Option (Text × List ℕ)
typed len keys = keyboard_readline len keys >>= λ l. some (c_string l.text, l.rest)

-- The written size, or `none` for the usage message.
unfoldable pub cmd_write : Text → Text → List ℕ → Table → Option (Table × Option Written × List ℕ)
cmd_write dir arg keys t =
    let path = resolve_path dir arg in
    if length arg == 0
    then some (t, none, keys)
    else (typed 256 keys >>= λ l.
        let w = fs_write path l.0 (length l.0) t in some (w.0, some w.1, l.1))

-- What cmd_notes answers. A name of 59 bytes or more overruns raw_filename.
pub data Noted : Type 0 where
  saved missing overrun usage : Noted
  listed : List Row → Noted
  viewed : Text → Text → Noted

abbrev pub prefix : Text
prefix = bytes "note_"

unfoldable pub save_note : Text → Text → Text → Table → Table
save_note dir title body t =
    let path = resolve_path dir (prefix ++ take 20 title) in
    (fs_write path body (length body) (fs_create path t).0).0

unfoldable pub notes_new : Text → List ℕ → Table → Option (Table × Noted × List ℕ)
notes_new dir keys t = typed 32 keys >>= λ title.
    typed 256 title.1 >>= λ body. some (save_note dir title.0 body.0 t, saved, body.1)

view_read : Text → Option Text → Noted
view_read title none = missing
view_read title (some read_buf) = viewed title read_buf

unfoldable pub notes_view : Text → Text → Table → Noted
unfolding view_read
notes_view dir arg t =
    let title = open_quote arg in
    let name = close_quote title in
    if leb 59 (length name)
    then overrun
    else view_read title (fs_read (resolve_path dir (prefix ++ name)) 257 t)

unfoldable pub cmd_notes : Text → Text → List ℕ → Table → Option (Table × Noted × List ℕ)
cmd_notes dir arg keys t =
    if bytes_eq arg (bytes "new")
    then notes_new dir keys t
    else if bytes_eq arg (bytes "list")
    then some (t, listed (fs_list_notes dir t), keys)
    else if bytes_eq (take 5 arg) (bytes "view ")
    then some (t, notes_view dir (drop 5 arg) t, keys)
    else some (t, usage, keys)

-- One round of the loop of cmd_fm, behind the key that chooses. The names are not resolved.
fill_new : Text → List ℕ → Table × Created → Option (Table × List ℕ)
fill_new name keys (t, created) =
    typed 256 keys >>= λ text. some ((fs_write name text.0 (length text.0) t).0, text.1)
fill_new name keys (t, failed) = some (t, keys)

unfoldable pub fm_create : List ℕ → Table → Option (Table × List ℕ)
unfolding fill_new
fm_create keys t = typed 64 keys >>= λ name. fill_new name.0 name.1 (fs_create name.0 t)

any_key : Option Text → List ℕ → Option (List ℕ)
any_key none keys = some keys
any_key (some read_buf) [] = none
any_key (some read_buf) (c ∷ keys) = some keys

unfoldable pub fm_read : List ℕ → Table → Option (Table × List ℕ)
unfolding any_key
fm_read keys t =
    typed 64 keys >>= λ name. any_key (fs_read name.0 257 t) name.1 >>= λ rest. some (t, rest)

unfoldable pub fm_delete : List ℕ → Table → Option (Table × List ℕ)
fm_delete keys t = typed 64 keys >>= λ name. some ((fs_delete name.0 t).0, name.1)

abbrev pub either : ℕ → ℕ → ℕ → Bool
either c lower upper = c == lower || c == upper

unfoldable pub fm_round : ℕ → List ℕ → Table → Option (Table × List ℕ)
fm_round c keys t =
    if either c b'c' b'C'
    then fm_create keys t
    else if either c b'r' b'R'
    then fm_read keys t
    else if either c b'd' b'D'
    then fm_delete keys t
    else some (t, keys)

-- The loop until `q`; each round takes a key, so that fuel above the number of keys is enough.
pub data Managed : Type 0 where
  out_of_fuel waiting : Managed
  quit : Table → List ℕ → Managed

and_on : Option (Table × List ℕ) → (Table → List ℕ → Managed) → Managed
and_on none k = waiting
and_on (some (t, keys)) k = k t keys

unfoldable pub cmd_fm : ℕ → List ℕ → Table → Managed
unfolding and_on
cmd_fm zero keys t = out_of_fuel
cmd_fm (suc fuel) [] t = waiting
cmd_fm (suc fuel) (c ∷ keys) t =
    let rest = and_on (fm_round c keys t) (λ t' keys'. cmd_fm fuel keys' t') in
    if either c b'q' b'Q' then quit t keys else rest
