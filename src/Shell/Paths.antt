-- ===== src/Shell/Paths.antt =====
-- Paths: what resolve_path and goto build, and when it fits the buffer of 64 bytes.
use zero_to_kernel.Prelude.{
  ℕ, zero, suc, ◌+◌, ◌-◌, ◌%◌, ◌≤◌, ◌<◌, ◌≡◌, ◌≢◌, ◌⊎◌, refl, ap, inl, inr, Bool, true, false, ◌||◌,
  Option, none, some, ◌++◌, arith, length-append, bytes_eq_ne, if◌then◌else◌, Bool-cases, length,
  take, get_or, bytes, bytes_eq, length-take, take_all, ◌==◌,
}
use mathlib.Core.List.{append_assoc}
use zero_to_kernel.Text.{word, strrchr}
use zero_to_kernel.Fs.{Text, Table, fs_is_dir}
use zero_to_kernel.Shell.{
  slash, root, home, strncat_room, path_bytes, parent, up_to, goto_target, cmd_goto,
}

-- What is in the buffer never exceeds the room if it did not before.
strncat_room_fits :
    (room : ℕ) (dest src : Text)
    → room < word
    → length dest ≤ room
    → length (strncat_room room dest src) ≤ room
unfolding strncat_room
strncat_room_fits room dest src small fits =
    let n = (room + word - length dest) % word in
    omega (arith, length-append dest (take n src), length-take n src)

if_fits :
    (n : ℕ) (b : Bool) (x y : Text) → length x ≤ n → length y ≤ n → length (if b then x else y) ≤ n
if_fits n true x y hx hy = hx
if_fits n false x y hx hy = hy

-- The path that resolve_path builds, with its terminator, fits the 64 bytes of out_path when the current
-- directory has at most 62 bytes.
pub path_bytes_fits : (dir arg : Text) → length dir ≤ 62 → length (path_bytes dir arg) < 64
unfolding path_bytes
path_bytes_fits dir arg short =
    let base =
      if_fits 63 (bytes_eq dir root) dir (dir ++ root) (omega arith)
        (omega (arith, length-append dir root)) in
    let fits = if_fits 63 (length arg == 0) dir _ (omega arith) (
      if_fits 63 (get_or arg 0 0 == slash) (take 63 arg) _ (omega (arith, length-take 63 arg))
        (strncat_room_fits 63 _ arg (omega arith) base)) in
    omega (arith, fits)

-- In a current directory of 63 bytes every name that does not start with a slash makes resolve_path write
-- at least 65 bytes and the whole name into the 64 bytes of out_path.
pub path_bytes_overflow :
    (dir arg : Text)
    → length dir ≡ 63
    → 0 < length arg
    → length arg < word - 1
    → get_or arg 0 0 ≢ slash
    → path_bytes dir arg ≡ dir ++ (root ++ arg)
unfolding path_bytes strncat_room
path_bytes_overflow dir arg full some_name short rel =
    let n0 : (length arg == 0) ≡ false = ground arith in
    let n1 : (get_or arg 0 0 == slash) ≡ false = ground (arith, rel) in
    let n2 : bytes_eq dir root ≡ false =
      bytes_eq_ne dir root (λ e. absurd (omega (arith, ap length e))) in
    let n3 : length (dir ++ root) ≡ 64 = omega (arith, length-append dir root) in
    let n4 : take (word - 1) arg ≡ arg = take_all (word - 1) arg (omega arith) in
    rw (n0, n1, n2, n3, n4) (append_assoc dir root arg)

length-up_to : (d : Text) (o : Option ℕ) → length d ≤ 63 → length (up_to d o) ≤ 63
unfolding up_to
length-up_to d none short = omega arith
length-up_to d (some zero) short = omega arith
length-up_to d (some (suc i)) short = omega (arith, length-take (suc i) d)

-- The directory that goto tries is at most 63 bytes long, so that new_dir holds it.
pub goto_target_fits : (dir arg : Text) → length dir ≤ 63 → length (goto_target dir arg) ≤ 63
unfolding goto_target parent
goto_target_fits dir arg short =
    let up =
      if_fits 63 (bytes_eq dir root || bytes_eq dir home) dir (up_to dir (strrchr dir slash)) short
        (length-up_to dir (strrchr dir slash) short) in
    let base =
      if_fits 63 (get_or dir (length dir - 1) 0 == slash) dir (strncat_room 63 dir root) short
        (strncat_room_fits 63 dir root (omega arith) short) in
    if_fits 63 (length arg == 0) home _ (omega arith) (
      if_fits 63 (bytes_eq arg (bytes "..")) (parent dir) _ up (
        if_fits 63 (get_or arg 0 0 == slash) (take 63 arg) _ (omega (arith, length-take 63 arg))
          (strncat_room_fits 63 _ arg (omega arith) base)))

-- goto either goes to a directory of the filesystem whose path fits current_dir, and says so, or stays.
pub cmd_goto_lem :
    (t : Table) (arg dir : Text)
    → length dir ≤ 63
    → ((cmd_goto t arg dir ≡ (goto_target dir arg, true))
        × (fs_is_dir (goto_target dir arg) t ≡ true)
        × (length (goto_target dir arg) ≤ 63))
      ⊎ ((cmd_goto t arg dir ≡ (dir, false)) × (fs_is_dir (goto_target dir arg) t ≡ false))
unfolding cmd_goto
cmd_goto_lem t arg dir short = elim (Bool-cases (fs_is_dir (goto_target dir arg) t)) [
  | inl e ↦ inl (rw e (refl, refl, goto_target_fits dir arg short))
  | inr e ↦ inr (rw e (refl, refl))
]
