-- ===== src/Fs/Tree/Tests.antt =====
-- The tree of a small table and instances of the theorems on it.
use zero_to_kernel.Prelude.{◌≡◌, refl, true, false, some, [], ◌∷◌, arith, bytes, bytes_eq}
use zero_to_kernel.Text.{strcmp}
use zero_to_kernel.Fs.{Table, fs_find, fs_free_slot, fill_slot, fs_create, fs_create_dir, fs_init}
use zero_to_kernel.Fs.Files.{fs_init-IsTable}
use zero_to_kernel.Fs.Listing.{has_slash, child_name}
use zero_to_kernel.Fs.Tree.{
  child, child_indices, after, pass, passes, sorted_children, print_children,
  fs_print_tree_internal, fs_print_tree,
}
use zero_to_kernel.Fs.Tree.Ends.{Prints, fs_print_tree-Prints}
use zero_to_kernel.Fs.Tree.Sort.{Sorts, sorted_children-Sorts}

three_files : Table
three_files =
    (fs_create (bytes "/root/d/x")
      (fs_create_dir (bytes "/root/d")
        (fs_create (bytes "/root/b") (fs_create (bytes "/root/c") fs_init).0).0).0).0

shown :
    fs_print_tree (bytes "/root") three_files
    ≡ some (
        record { is_last_arr = []; is_last = false; text = bytes "b"; dir = false }
        ∷ record { is_last_arr = []; is_last = false; text = bytes "c"; dir = false }
        ∷ record { is_last_arr = []; is_last = true; text = bytes "d"; dir = true }
        ∷ record { is_last_arr = true ∷ []; is_last = true; text = bytes "x"; dir = false }
        ∷ [])
unfolding three_files fs_print_tree fs_print_tree_internal print_children sorted_children passes
    pass after strcmp child_indices child child_name has_slash fs_create fs_create_dir fs_init
    fs_find fs_free_slot fill_slot bytes_eq
shown = refl

fs_print_tree-Prints_example : Prints (fs_print_tree (bytes "/") fs_init)
fs_print_tree-Prints_example =
    fs_print_tree-Prints (bytes "/") fs_init fs_init-IsTable.0 (omega arith) (omega arith)

sorted_children-Sorts_example :
    Sorts three_files
      (child_indices (bytes "/root") 0 three_files)
      (sorted_children (bytes "/root") three_files)
sorted_children-Sorts_example = sorted_children-Sorts (bytes "/root") three_files
