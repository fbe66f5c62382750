-- ===== src/Fs/Tree.antt =====
-- fs_print_tree of kernel/filesystem.c: the children of a directory, their sort, and the lines printed.
pub mod Ends
pub mod Sort
mod Tests
use zero_to_kernel.Prelude.{
  ℕ, zero, suc, ◌+◌, ◌-◌, Bool, true, false, not, ◌&&◌, Option, none, some, List, [], ◌∷◌, ◌++◌,
  ◌==◌, ltb, leb, if◌then◌else◌, length, get_or, bytes,
}
use zero_to_kernel.Text.{strcmp}
use zero_to_kernel.Fs.{Text, FileEntry, Table, blank}
use zero_to_kernel.Fs.Listing.{has_slash, child_name}

-- The name below the directory, if the entry is one of its children: used, named and without a slash.
child_of : Option Text → Option Text
child_of none = none
child_of (some child) = if ltb 0 (length child) && not (has_slash child) then some child else none

unfoldable pub child : Text → FileEntry → Option Text
unfolding child_of
child dir e = if e.used then child_of (child_name dir e.name) else none

put_index : Option Text → ℕ → List ℕ → List ℕ
put_index none i rest = rest
put_index (some child) i rest = i ∷ rest

-- child_indices, from index `i` of the table on.
unfoldable pub child_indices : Text → ℕ → Table → List ℕ
unfolding put_index
child_indices dir i [] = []
child_indices dir i (e ∷ t) = put_index (child dir e) i (child_indices dir (i + 1) t)

-- strcmp(name1, name2) > 0
unfoldable pub after : Table → ℕ → ℕ → Bool
after t i j = let c = strcmp (get_or t i blank).name (get_or t j blank).name in ltb c.1 c.0

-- The inner loop of the sort, with `n` comparisons left, and the outer one.
unfoldable pub pass : Table → ℕ → List ℕ → List ℕ
pass t (suc n) (i ∷ j ∷ rest) =
    if after t i j then j ∷ pass t n (i ∷ rest) else i ∷ pass t n (j ∷ rest)
pass t n xs = xs

unfoldable pub passes : Table → ℕ → List ℕ → List ℕ
passes t zero xs = xs
passes t (suc n) xs = passes t n (pass t (suc n) xs)

unfoldable pub sorted_children : Text → Table → List ℕ
sorted_children dir t = let xs = child_indices dir 0 t in passes t (length xs - 1) xs

-- A line: for each ancestor whether it was the last of its directory, then the same of the entry itself,
-- the name below the directory, and whether it is a directory.
pub record Branch : Type 0 where
  pub is_last_arr : List Bool
  pub is_last : Bool
  pub text : Text
  pub dir : Bool

abbrev pub Branches : Type 0
Branches = Option (List Branch)

-- The lines of the children: `below` prints a directory, at one more in depth. An index of 32 or more
-- would leave is_last_arr, and is `none` like the end of the fuel.
text_of : Option Text → Text
text_of none = []
text_of (some child) = child

is_end : List ℕ → Bool
is_end [] = true
is_end (k ∷ rest) = false

joined : List Branch → Branches → Branches → Branches
joined line none rest = none
joined line (some below) none = none
joined line (some below) (some rest) = some (line ++ below ++ rest)

unfoldable pub print_children :
    (Text → List Bool → Branches) → Table → Text → List Bool → List ℕ → Branches
unfolding text_of is_end joined
print_children below t dir flags [] = some []
print_children below t dir flags (k ∷ rest) =
    let e = get_or t k blank in
    let last = is_end rest in
    let line : Branch = record {
      is_last_arr = flags;
      is_last = last;
      text = text_of (child dir e);
      dir = e.is_dir;
    } in
    let inside = if leb 32 (length flags) then none else below e.name (flags ++ last ∷ []) in
    joined (line ∷ []) (if e.is_dir then inside else some [])
      (print_children below t dir flags rest)

unfoldable pub fs_print_tree_internal : ℕ → Table → Text → List Bool → Branches
fs_print_tree_internal zero t dir flags = none
fs_print_tree_internal (suc fuel) t dir flags =
    print_children (fs_print_tree_internal fuel t) t dir flags (sorted_children dir t)

-- The lines below the one with the directory's name. A path of 63 bytes has no deeper descendants than
-- the fuel allows.
unfoldable pub fs_print_tree : Text → Table → Branches
fs_print_tree dir t = fs_print_tree_internal 64 t dir []
