-- ===== src/Fs/Tree/Ends.antt =====
-- fs_print_tree ends, and no index leaves is_last_arr: a child's path is longer than its directory's, by
-- two bytes but in the root, and no path has more than 63.
use zero_to_kernel.Prelude.{
  ℕ, zero, suc, ◌+◌, ◌*◌, ◌≤◌, ◌<◌, ◌≡◌, refl, sym, ap, subst, inl, inr, Bool, true, false, ◌&&◌,
  Option, none, some, List, [], ◌∷◌, ◌++◌, ◌==◌, leb, if◌then◌else◌, arith, Bool-cases, if_both,
  length, take, drop, get_or, bytes, bytes_eq, eq_of_bytes_eq, All, length-append, length-drop,
}
use zero_to_kernel.Fs.{Text, FileEntry, Table, blank}
use zero_to_kernel.Fs.Invariant.{IsTable, AllFit, AllFit-get_or}
use zero_to_kernel.Fs.Listing.{child_name}
use zero_to_kernel.Fs.Tree.{
  child_of, child, put_index, child_indices, after, pass, passes, sorted_children, Branch, Branches,
  text_of, is_end, joined, print_children, fs_print_tree_internal, fs_print_tree,
}

-- An entry is a child of a directory.
abbrev IsChild : Text → Table → ℕ → Type 0
IsChild dir t k = (c : Text) × (child dir (get_or t k blank) ≡ some c)

-- How much longer the path of a child is than that of its directory.
abbrev Deeper : Text → Text → Type 0
Deeper dir name =
    (length dir < length name) × ((d : ℕ) → 2 * d ≤ length dir → 2 * (d + 1) ≤ length name)

child_of-some : (o : Option Text) (c : Text) → child_of o ≡ some c → (o ≡ some c) × (0 < length c)
unfolding child_of
child_of-some none c e = cc
child_of-some (some child) c e = ground (arith, e)

behind :
    (b : Bool) (n : ℕ) (name c : Text)
    → (if b then some (drop n name) else none) ≡ some c
    → 0 < length c
    → n < length name
behind true n name c e long = ground (arith, e, long, length-drop n name)
behind false n name c e long = cc

child_name-Deeper :
    (dir name c : Text)
    → 0 < length dir
    → child_name dir name ≡ some c
    → 0 < length c
    → Deeper dir name
unfolding child_name
child_name-Deeper dir name c pos e long = elim (Bool-cases (bytes_eq dir (bytes "/"))) [
  | inl root ↦
      let one : length dir ≡ 1 = ap length (eq_of_bytes_eq dir (bytes "/") root) in
      let e' =
        subst
          (λ b.
            (if b
              then (if get_or name 0 0 == 47 then some (drop 1 name) else none)
              else if bytes_eq (take (length dir) name) dir && get_or name (length dir) 0 == 47
              then some (drop (length dir + 1) name)
              else none)
            ≡ some c)
          root e in
      let more : 1 < length name = behind (get_or name 0 0 == 47) 1 name c e' long in
      (omega (arith, one, more), λ d h. omega (arith, one, more, h))
  | inr inner ↦
      let e' =
        subst
          (λ b.
            (if b
              then (if get_or name 0 0 == 47 then some (drop 1 name) else none)
              else if bytes_eq (take (length dir) name) dir && get_or name (length dir) 0 == 47
              then some (drop (length dir + 1) name)
              else none)
            ≡ some c)
          inner e in
      let more : length dir + 1 < length name =
        behind (bytes_eq (take (length dir) name) dir && get_or name (length dir) 0 == 47)
          (length dir + 1) name c e' long in
      (omega (arith, more), λ d h. omega (arith, more, h))
]

if_child :
    (b : Bool) (o : Option Text) (c : Text)
    → (if b then child_of o else none) ≡ some c
    → (o ≡ some c) × (0 < length c)
if_child true o c e = child_of-some o c e
if_child false o c e = cc

child-Deeper :
    (dir : Text) (e : FileEntry) (c : Text)
    → 0 < length dir
    → child dir e ≡ some c
    → Deeper dir e.name
unfolding child
child-Deeper dir e c pos h =
    let (named, long) = if_child e.used (child_name dir e.name) c h in
    child_name-Deeper dir e.name c pos named long

module _ (P : ℕ → Type 0) (t : Table) where
  pass-All : (n : ℕ) (xs : List ℕ) → All P xs → All P (pass t n xs)
  unfolding pass
  pass-All zero xs all = all
  pass-All (suc n) [] all = tt
  pass-All (suc n) (i ∷ []) all = all
  pass-All (suc n) (i ∷ j ∷ rest) (hi, (hj, h)) =
      if_both (All P) (after t i j) _ _ (hj, pass-All n (i ∷ rest) (hi, h))
        (hi, pass-All n (j ∷ rest) (hj, h))

  passes-All : (n : ℕ) (xs : List ℕ) → All P xs → All P (passes t n xs)
  unfolding passes
  passes-All zero xs all = all
  passes-All (suc n) xs all = passes-All n _ (pass-All (suc n) xs all)

put_index-All :
    (dir : Text) (t : Table) (o : Option Text) (i : ℕ) (rest : List ℕ)
    → child dir (get_or t i blank) ≡ o
    → All (IsChild dir t) rest
    → All (IsChild dir t) (put_index o i rest)
unfolding put_index
put_index-All dir t none i rest e all = all
put_index-All dir t (some c) i rest e all = ((c, e), all)

-- The entries before index `i`, then the rest of the table.
child_indices-All :
    (dir : Text) (t : Table) (i : ℕ) (u : Table)
    → ((k : ℕ) → get_or u k blank ≡ get_or t (i + k) blank)
    → All (IsChild dir t) (child_indices dir i u)
unfolding child_indices
child_indices-All dir t i [] same = tt
child_indices-All dir t i (e ∷ u) same =
    let rest = child_indices-All dir t (i + 1) u (λ k. ground (arith, same (suc k))) in
    let first : e ≡ get_or t i blank = ground (arith, same 0) in
    put_index-All dir t (child dir e) i _ (ap (child dir) (sym first)) rest

sorted_children-All : (dir : Text) (t : Table) → All (IsChild dir t) (sorted_children dir t)
unfolding sorted_children
sorted_children-All dir t =
    passes-All (IsChild dir t) t _ _
      (child_indices-All dir t 0 t (λ k. ap (λ n. get_or t n blank) (omega arith)))

-- A result that is there.
abbrev pub Prints : Branches → Type 0
Prints o = (lines : List Branch) × (o ≡ some lines)

joined-Prints :
    (line : List Branch) (o rest : Branches) → Prints o → Prints rest → Prints (joined line o rest)
unfolding joined
joined-Prints line none rest (_, e) h = cc
joined-Prints line (some below) none h (_, e) = cc
joined-Prints line (some below) (some rest) h h' = (_, refl)

print_children-Prints :
    (below : Text → List Bool → Branches) (t : Table) (dir : Text) (flags : List Bool) (xs : List ℕ)
    → length flags < 32
    → All (IsChild dir t) xs
    → ((k : ℕ) (last : Bool)
        → IsChild dir t k
        → Prints (below (get_or t k blank).name (flags ++ last ∷ [])))
    → Prints (print_children below t dir flags xs)
unfolding print_children
print_children-Prints below t dir flags [] room all prints = ([], refl)
print_children-Prints below t dir flags (k ∷ rest) room all prints =
    let inside : leb 32 (length flags) ≡ false = ground arith in
    let e = get_or t k blank in
    let line : Branch = record {
      is_last_arr = flags;
      is_last = is_end rest;
      text = text_of (child dir e);
      dir = e.is_dir;
    } in
    joined-Prints (line ∷ []) _ _
      (rw inside
        (if_both Prints (get_or t k blank).is_dir _ _ (prints k (is_end rest) all.0) ([], refl)))
      (print_children-Prints below t dir flags rest room all.1 prints)

internal-Prints :
    (t : Table) (fuel : ℕ) (dir : Text) (flags : List Bool)
    → AllFit t
    → 0 < length dir
    → length dir < 64
    → 2 * length flags ≤ length dir
    → 64 ≤ length dir + fuel
    → Prints (fs_print_tree_internal fuel t dir flags)
unfolding fs_print_tree_internal
internal-Prints t zero dir flags fit pos short depth enough = absurd (omega arith)
internal-Prints t (suc fuel) dir flags fit pos short depth enough =
    print_children-Prints (fs_print_tree_internal fuel t) t dir flags (sorted_children dir t)
      (omega arith) (sorted_children-All dir t)
      (λ k last is_child.
        let e = get_or t k blank in
        let (longer, deeper) = child-Deeper dir e is_child.0 pos is_child.1 in
        let named : length e.name < 64 = (AllFit-get_or t k fit).name in
        let one_more : length (flags ++ last ∷ []) ≡ length flags + 1 =
          omega (arith, length-append flags (last ∷ [])) in
        internal-Prints t fuel e.name (flags ++ last ∷ []) fit (omega (arith, longer)) named
          (omega (arith, deeper (length flags) depth, one_more)) (omega (arith, longer, enough)))

-- For every path that current_dir can hold the tree is printed: the recursion ends within 64 levels and
-- no index leaves the 32 entries of is_last_arr, whatever the names in the table are.
pub fs_print_tree-Prints :
    (dir : Text) (t : Table)
    → IsTable t
    → 0 < length dir
    → length dir < 64
    → Prints (fs_print_tree dir t)
unfolding fs_print_tree
fs_print_tree-Prints dir t v pos short =
    internal-Prints t 64 dir [] v.fit pos short (omega arith) (omega arith)
