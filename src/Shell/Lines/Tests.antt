-- ===== src/Shell/Lines/Tests.antt =====
-- Runs of top, btm, hunt and cnt on a file in the table, and an instance of the theorem on top and btm.
use zero_to_kernel.Prelude.{◌≡◌, refl, [], ◌∷◌, ◌++◌, bytes, bytes_eq}
use zero_to_kernel.Text.{strchr, atoi, atoi_loop, is_digit, is_negative}
use zero_to_kernel.Text.Strings.{c_string}
use zero_to_kernel.Fs.{
  Text, Table, fs_find, fs_free_slot, fill_slot, fs_create, fs_create_dir, fs_init, fs_write,
  fs_read, store,
}
use zero_to_kernel.Shell.{home, strncat_room, path_bytes, resolve_path, skip_spaces, two_args}
use zero_to_kernel.Shell.Lines.{
  cnt_loop, open_end, cmd_cnt, top_loop, cmd_top, newlines, total_lines, btm_loop, starts_with,
  mini_strstr, hunt_loop, cmd_hunt,
}
use zero_to_kernel.Shell.Lines.Commands.{
  usage, no_file, shown, counted, file_and_count, show_file, top_lines, run_top, int_start_line,
  btm_lines, run_btm, run_hunt, run_cnt,
}

abbrev poem : Text
poem = bytes "ab c" ++ 10 ∷ bytes "de" ++ 10 ∷ bytes "f"

with_poem : Table
with_poem = (fs_write (bytes "/root/a") poem 9 (fs_create (bytes "/root/a") fs_init).0).0

commands :
    (run_top home (bytes "a 1") with_poem ≡ shown ((1, bytes "ab c") ∷ []))
    × (run_top home (bytes "a -1") with_poem ≡ shown [])
    × (run_btm home (bytes "a 1") with_poem ≡ shown ((3, bytes "f") ∷ []))
    × (run_btm home (bytes "a -1") with_poem ≡ shown [])
    × (run_top home (bytes "b") with_poem ≡ no_file (bytes "/root/b"))
    × (run_hunt (bytes "a d") with_poem ≡ no_file (bytes "a"))
    × (run_hunt (bytes "/root/a d") with_poem ≡ shown ((2, bytes "de") ∷ []))
    × (run_hunt (bytes "a") with_poem ≡ usage)
    × (run_cnt (bytes "/root/a") with_poem ≡ counted (record { lines = 3; words = 4 }) 9)
unfolding with_poem run_top run_btm run_hunt run_cnt file_and_count show_file top_lines btm_lines
    int_start_line cmd_cnt cnt_loop open_end cmd_top top_loop btm_loop total_lines newlines cmd_hunt
    hunt_loop mini_strstr starts_with c_string atoi atoi_loop is_digit is_negative skip_spaces
    strchr two_args resolve_path path_bytes strncat_room fs_read fs_find fs_write store fs_create
    fs_create_dir fs_init fs_free_slot fill_slot bytes_eq
commands = (refl, refl, refl, refl, refl, refl, refl, refl, refl)
