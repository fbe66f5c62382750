-- ===== src/Shell/Typing/Manager.antt =====
-- cmd_fm: the loop ends, and the file table stays well formed, whatever is typed.
use zero_to_kernel.Prelude.{
  ℕ, zero, suc, ◌-◌, ◌≤◌, ◌<◌, Bool, false, ◌||◌, Option, none, some, List, [], ◌∷◌, ◌++◌, ◌==◌,
  ltb, arith, if_both, length, take,
}
use zero_to_kernel.Text.Strings.{c_string}
use zero_to_kernel.Keyboard.{readline_loop, keyboard_readline}
use zero_to_kernel.Keyboard
use zero_to_kernel.Fs.{
  Text, Table, Created, created, empty_name, name_too_long, already_exists, table_full, fs_create,
  fs_read, fs_write, fs_delete, Written,
}
use zero_to_kernel.Fs.Invariant.{IsTable}
use zero_to_kernel.Fs.Files.{
  fs_create_lem, Creates-IsTable, fs_write_lem, Writes, no_file, at_directory, done,
  fs_delete-Deletes, Deletes, absent, removed,
}
use zero_to_kernel.Shell.Typing.{
  ◌>>=◌, typed, fill_new, fm_create, any_key, fm_read, fm_delete, fm_round, Managed, out_of_fuel,
  waiting, quit, and_on, cmd_fm, either,
}

pub fs_create-IsTable : (name : Text) (t : Table) → IsTable t → IsTable (fs_create name t).0
fs_create-IsTable name t v = Creates-IsTable false name t _ v (fs_create_lem name t v).0

Writes-IsTable :
    (name : Text) (src : List ℕ) (n : ℕ) (t : Table) (r : Table × Written)
    → IsTable t
    → Writes name src n t r
    → IsTable r.0
Writes-IsTable name src n t r v (no_file _) = v
Writes-IsTable name src n t r v (at_directory _ _ _) = v
Writes-IsTable name src n t r v (done _ _ v' _ _ _) = v'

pub fs_write-IsTable :
    (name : Text) (src : List ℕ) (t : Table)
    → IsTable t
    → IsTable (fs_write name src (length src) t).0
fs_write-IsTable name src t v =
    Writes-IsTable name src _ t _ v (fs_write_lem name src (length src) t v (omega arith))

Deletes-IsTable :
    (name : Text) (t : Table) (r : Table × Bool) → IsTable t → Deletes name t r → IsTable r.0
Deletes-IsTable name t r v (absent _) = v
Deletes-IsTable name t r v (removed _ _ v' _ _ _) = v'

pub fs_delete-IsTable : (name : Text) (t : Table) → IsTable t → IsTable (fs_delete name t).0
fs_delete-IsTable name t v = Deletes-IsTable name t _ v (fs_delete-Deletes name t v)

abbrev Shorter : ℕ → Option Keyboard.Line → Type 0
Shorter n none = Unit
Shorter n (some l) = length l.rest ≤ n

Shorter-le : (n m : ℕ) (o : Option Keyboard.Line) → n ≤ m → Shorter n o → Shorter m o
Shorter-le n m none h s = tt
Shorter-le n m (some l) h s = omega (arith, s)

readline_loop-Shorter :
    (room : ℕ) (keys buf out : List ℕ) → Shorter (length keys) (readline_loop room keys buf out)
unfolding readline_loop
readline_loop-Shorter room [] buf out = ground arith
readline_loop-Shorter room (c ∷ keys) buf out =
    let P = Shorter (suc (length keys)) in
    let erased =
      Shorter-le _ _ _ (omega arith)
        (readline_loop-Shorter room keys (take (length buf - 1) buf) (out ++ 8 ∷ [])) in
    let ignored = Shorter-le _ _ _ (omega arith) (readline_loop-Shorter room keys buf out) in
    let typed_on =
      Shorter-le _ _ _ (omega arith)
        (readline_loop-Shorter room keys (buf ++ c ∷ []) (out ++ c ∷ [])) in
    if_both P (ltb (length buf) room) _ _
      (if_both P (c == 10 || c == 13) _ _ (omega arith) (
        if_both P (c == 8) _ _ (if_both P (ltb 0 (length buf)) _ _ erased ignored)
          (if_both P (c == 9) _ _ tt typed_on)))
      (omega arith)

-- What a round keeps: a table that is well formed, and no more keys than before.
abbrev Keeps : ℕ → Option (Table × List ℕ) → Type 0
Keeps n none = Unit
Keeps n (some (t, keys)) = IsTable t × (length keys ≤ n)

abbrev pub Reads : ℕ → Option (Text × List ℕ) → Type 0
Reads n none = Unit
Reads n (some (s, keys)) = length keys ≤ n

Shorter-Reads :
    (n : ℕ) (o : Option Keyboard.Line)
    → Shorter n o
    → Reads n (o >>= λ l. some (c_string l.text, l.rest))
Shorter-Reads n none h = tt
Shorter-Reads n (some l) h = h

pub typed-Reads : (len : ℕ) (keys : List ℕ) → Reads (length keys) (typed len keys)
unfolding typed keyboard_readline
typed-Reads len keys = Shorter-Reads _ _ (readline_loop-Shorter (len - 1) keys [] [])

Reads-Keeps :
    (n : ℕ) (o : Option (Text × List ℕ)) (k : Text × List ℕ → Option (Table × List ℕ))
    → Reads n o
    → ((s : Text) (keys : List ℕ) → length keys ≤ n → Keeps n (k (s, keys)))
    → Keeps n (o >>= k)
Reads-Keeps n none k h next = tt
Reads-Keeps n (some (s, keys)) k h next = next s keys h

fill_new-Keeps :
    (name : Text) (keys : List ℕ) (r : Table × Created)
    → IsTable r.0
    → Keeps (length keys) (fill_new name keys r)
unfolding fill_new
fill_new-Keeps name keys (t, created) v =
    Reads-Keeps (length keys) (typed 256 keys) _ (typed-Reads 256 keys)
      (λ s rest fewer. (fs_write-IsTable name s t v, fewer))
fill_new-Keeps name keys (t, empty_name) v = (v, omega arith)
fill_new-Keeps name keys (t, name_too_long) v = (v, omega arith)
fill_new-Keeps name keys (t, already_exists) v = (v, omega arith)
fill_new-Keeps name keys (t, table_full) v = (v, omega arith)

Keeps-le : (n m : ℕ) (o : Option (Table × List ℕ)) → n ≤ m → Keeps n o → Keeps m o
Keeps-le n m none h k = tt
Keeps-le n m (some (t, keys)) h k = (k.0, omega (arith, k.1))

any_key-Keeps :
    (o : Option Text) (keys : List ℕ) (t : Table)
    → IsTable t
    → Keeps (length keys) (any_key o keys >>= λ rest. some (t, rest))
unfolding any_key
any_key-Keeps none keys t v = (v, omega arith)
any_key-Keeps (some read_buf) [] t v = tt
any_key-Keeps (some read_buf) (c ∷ keys) t v = (v, omega arith)

fm_round-Keeps :
    (c : ℕ) (keys : List ℕ) (t : Table) → IsTable t → Keeps (length keys) (fm_round c keys t)
unfolding fm_round fm_create fm_read fm_delete
fm_round-Keeps c keys t v =
    let P = Keeps (length keys) in
    let named = typed-Reads 64 keys in
    let creates = Reads-Keeps (length keys) (typed 64 keys) _ named (λ name rest fewer.
      Keeps-le _ _ _ fewer
        (fill_new-Keeps name rest (fs_create name t) (fs_create-IsTable name t v))) in
    let reads =
      Reads-Keeps (length keys) (typed 64 keys) _ named
        (λ name rest fewer. Keeps-le _ _ _ fewer (any_key-Keeps (fs_read name 257 t) rest t v)) in
    let deletes =
      Reads-Keeps (length keys) (typed 64 keys) _ named
        (λ name rest fewer. (fs_delete-IsTable name t v, fewer)) in
    if_both P (either c b'c' b'C') _ _ creates (
      if_both P (either c b'r' b'R') _ _ reads
        (if_both P (either c b'd' b'D') _ _ deletes (v, omega arith)))

-- The loop did not run out of fuel, and what it leaves is well formed.
abbrev pub Ends : Managed → Type 0
Ends out_of_fuel = ⊥
Ends waiting = Unit
Ends (quit t keys) = IsTable t

and_on-Ends :
    (n : ℕ) (o : Option (Table × List ℕ)) (k : Table → List ℕ → Managed)
    → Keeps n o
    → ((t : Table) (keys : List ℕ) → IsTable t → length keys ≤ n → Ends (k t keys))
    → Ends (and_on o k)
unfolding and_on
and_on-Ends n none k h next = tt
and_on-Ends n (some (t, keys)) k h next = next t keys h.0 h.1

-- With fuel above the number of keys the file manager waits for more keys or quits, with a well-formed
-- table, whatever the keys are.
pub cmd_fm-Ends :
    (fuel : ℕ) (keys : List ℕ) (t : Table)
    → IsTable t
    → length keys < fuel
    → Ends (cmd_fm fuel keys t)
unfolding cmd_fm
cmd_fm-Ends zero keys t v enough = omega (arith, enough)
cmd_fm-Ends (suc fuel) [] t v enough = tt
cmd_fm-Ends (suc fuel) (c ∷ keys) t v enough = if_both Ends (either c b'q' b'Q') _ _ v (
    and_on-Ends (length keys) (fm_round c keys t) _ (fm_round-Keeps c keys t v)
      (λ t' keys' v' fewer. cmd_fm-Ends fuel keys' t' v' (omega (arith, enough, fewer))))

-- The keys that the file manager leaves are no more than it had.
abbrev pub LeavesFewer : ℕ → Managed → Type 0
LeavesFewer n out_of_fuel = Unit
LeavesFewer n waiting = Unit
LeavesFewer n (quit t keys) = length keys ≤ n

LeavesFewer-le : (n m : ℕ) (o : Managed) → n ≤ m → LeavesFewer n o → LeavesFewer m o
LeavesFewer-le n m out_of_fuel h k = tt
LeavesFewer-le n m waiting h k = tt
LeavesFewer-le n m (quit t keys) h k = omega (arith, k)

and_on-LeavesFewer :
    (n : ℕ) (o : Option (Table × List ℕ)) (k : Table → List ℕ → Managed)
    → Keeps n o
    → ((t : Table) (keys : List ℕ) → IsTable t → LeavesFewer (length keys) (k t keys))
    → LeavesFewer n (and_on o k)
unfolding and_on
and_on-LeavesFewer n none k h next = tt
and_on-LeavesFewer n (some (t, keys)) k h next = LeavesFewer-le _ _ _ h.1 (next t keys h.0)

pub cmd_fm-LeavesFewer :
    (fuel : ℕ) (keys : List ℕ) (t : Table)
    → IsTable t
    → LeavesFewer (length keys) (cmd_fm fuel keys t)
unfolding cmd_fm
cmd_fm-LeavesFewer zero keys t v = tt
cmd_fm-LeavesFewer (suc fuel) [] t v = tt
cmd_fm-LeavesFewer (suc fuel) (c ∷ keys) t v =
    if_both (LeavesFewer (suc (length keys))) (either c b'q' b'Q') _ _ (omega arith) (
      LeavesFewer-le (length keys) _ _ (omega arith) (
        and_on-LeavesFewer (length keys) (fm_round c keys t) _ (fm_round-Keeps c keys t v)
          (λ t' keys' v'. cmd_fm-LeavesFewer fuel keys' t' v')))
