-- ===== src/Fs/Files.antt =====
-- What each operation on files does to the map from names to files, on every branch.
use zero_to_kernel.Prelude.{
  ℕ, suc, ◌-◌, ◌≤◌, ◌<◌, ◌≡◌, ◌⊎◌, refl, ◌∙◌, sym, ap, ap₂, inl, inr, Bool, true, false, Option,
  none, some, List, [], ◌++◌, arith, ◌==◌, ltb, leb, if◌then◌else◌, Bool-cases, length, get_or, set,
  take, drop, bytes, bytes_eq, bytes_eq_refl, length-set, length-take, take_all, take-take,
  take-append, is_some,
}
use zero_to_kernel.Fs.{
  Text, FileEntry, Table, blank, fs_find, fs_free_slot, fill_slot, store, use_slot, create_entry,
  write_at, read_at, clear_at, fs_create, fs_create_dir, fs_write, fs_read, fs_delete, fs_init,
  fs_get_total_files, fs_max_files, fs_max_filename, fs_max_filesize, Created, created, empty_name,
  name_too_long, already_exists, table_full, Written, not_found, is_directory, written,
}
use zero_to_kernel.Fs.Lookup.{
  File, file_of, lookup, Found, missing, at, fs_find-Found, Free, full, slot, fs_free_slot-Free,
  lookup-set_free, lookup-set_found, total-set_free, total-set-blank,
}
use zero_to_kernel.Fs.Invariant.{
  IsTable, zeroed-IsTable, AllFit-set, AllFit-get_or, Fits-blank, Fits-fill_slot, Fits-store,
  Distinct-set_free, Distinct-set_found, Distinct-set-blank, lookup-set-blank,
}

abbrev pub file : Bool → List ℕ → File
file d bs = record { dir = d; contents = bs }

-- `t'` maps `name` to `f` and every other name as `t` does.
abbrev pub Updates : Text → Option File → Table → Table → Type 0
Updates name f t t' = (m : Text) → lookup m t' ≡ (if bytes_eq name m then f else lookup m t)

pub data Creates (dir : Bool) (name : Text) (t : Table) : Table × Created → Type 0 where
  bad_empty : length name ≡ 0 → Creates dir name t (t, empty_name)
  bad_long : fs_max_filename ≤ length name → Creates dir name t (t, name_too_long)
  bad_present : (f : File) → lookup name t ≡ some f → Creates dir name t (t, already_exists)
  bad_full : fs_get_total_files t ≡ fs_max_files → Creates dir name t (t, table_full)
  made :
      (t' : Table)
      → IsTable t'
      → 0 < length name
      → length name < fs_max_filename
      → lookup name t ≡ none
      → Updates name (some (file dir [])) t t'
      → fs_get_total_files t' ≡ suc (fs_get_total_files t)
      → Creates dir name t (t', created)

use_slot-Creates :
    (dir : Bool) (name : Text) (t : Table) (o : Option ℕ)
    → 0 < length name
    → length name < fs_max_filename
    → lookup name t ≡ none
    → IsTable t
    → Free t o
    → Creates dir name t (use_slot dir name t o)
unfolding use_slot fill_slot
use_slot-Creates dir name t none there short new v (full all) = bad_full (all ∙ v.slots)
use_slot-Creates dir name t (some i) there short new v (slot _ lt free) =
    let e = fill_slot dir name (get_or t i blank) in
    let same : take 63 name ≡ name = take_all 63 name (omega arith) in
    let new' : lookup e.name t ≡ none = ap (λ k. lookup k t) same ∙ new in
    made (set t i e)
      (record {
        slots = length-set t i e ∙ v.slots;
        fit =
            AllFit-set t i e (Fits-fill_slot dir name (get_or t i blank) (AllFit-get_or t i v.fit))
              v.fit;
        distinct = Distinct-set_free t i e lt free refl new' v.distinct;
      })
      there short new
      (λ m.
        lookup-set_free t i e m lt free refl new'
        ∙ ap (λ k. if bytes_eq k m then some (file dir []) else lookup m t) same)
      (total-set_free t i e lt free refl)

-- The search of fs_find, as a lookup.
Found-cases :
    (name : Text) (t : Table) (o : Option ℕ)
    → Found name t o
    → (is_some o ≡ false) × (lookup name t ≡ none)
      ⊎ (is_some o ≡ true) × ((f : File) × (lookup name t ≡ some f))
Found-cases name t none (missing h) = inl (refl, h)
Found-cases name t (some i) (at _ lt used is h) = inr (refl, (_, h))

create_entry-Creates :
    (dir : Bool) (name : Text) (t : Table)
    → IsTable t
    → Creates dir name t (create_entry dir name t)
unfolding create_entry
create_entry-Creates dir name t v = elim (Bool-cases (length name == 0)) [
  | inl empty ↦ rw empty (bad_empty (ground arith))
  | inr some_name ↦ elim (Bool-cases (leb fs_max_filename (length name))) [
    | inl long ↦ rw (some_name, long) (bad_long (ground arith))
    | inr short ↦ elim (Found-cases name t (fs_find name t) (fs_find-Found name t)) [
      | inl (absent, new) ↦
          rw (some_name, short, absent)
            (use_slot-Creates dir name t (fs_free_slot t) (ground (arith, some_name))
              (ground (arith, short)) new v (fs_free_slot-Free t))
      | inr (present, (f, is)) ↦ rw (some_name, short, present) (bad_present f is)
    ]
  ]
]

-- On a valid table, fs_create and fs_create_dir fail and change nothing when the name is empty, has more than
-- 63 bytes or is taken, or all 32 slots are used; otherwise the name, and no other, gets a new empty file or
-- directory, and the count grows by one.
pub fs_create_lem :
    (name : Text) (t : Table)
    → IsTable t
    → Creates false name t (fs_create name t) × Creates true name t (fs_create_dir name t)
unfolding fs_create fs_create_dir
fs_create_lem name t v = (create_entry-Creates false name t v, create_entry-Creates true name t v)

-- Each outcome leaves a valid table.
pub Creates-IsTable :
    (dir : Bool) (name : Text) (t : Table) (r : Table × Created)
    → IsTable t
    → Creates dir name t r
    → IsTable r.0
Creates-IsTable dir name t r v (bad_empty _) = v
Creates-IsTable dir name t r v (bad_long _) = v
Creates-IsTable dir name t r v (bad_present _ _) = v
Creates-IsTable dir name t r v (bad_full _) = v
Creates-IsTable dir name t r v (made _ v' _ _ _ _ _) = v'

-- After fs_init the table is valid and holds the directory /root alone.
pub fs_init-IsTable :
    IsTable fs_init
    × ((m : Text)
        → lookup m fs_init ≡ (if bytes_eq (bytes "/root") m then some (file true []) else none))
unfolding fs_init fs_create_dir create_entry fs_find fs_free_slot fill_slot lookup bytes_eq
fs_init-IsTable = (
  record {
    slots = refl;
    fit = (omega arith, (zeroed-IsTable 31).0);
    distinct = (λ u. refl, (zeroed-IsTable 31).1);
  },
  λ m. refl,
)

pub data Writes (name : Text) (src : List ℕ) (n : ℕ) (t : Table) : Table × Written → Type 0 where
  no_file : lookup name t ≡ none → Writes name src n t (t, not_found)
  at_directory :
      (f : File) → lookup name t ≡ some f → f.dir ≡ true → Writes name src n t (t, is_directory)
  done :
      (t' : Table) (f : File)
      → IsTable t'
      → lookup name t ≡ some f
      → f.dir ≡ false
      → Updates name (some (file false (take n src))) t t'
      → Writes name src n t (t', written n)

-- The bytes written come back, whatever stood behind them.
file_of-store :
    (src : List ℕ) (n : ℕ) (e : FileEntry)
    → n ≤ length src
    → e.is_dir ≡ false
    → file_of (store src n e) ≡ file false (take n src)
unfolding store
file_of-store src n e l plain =
    let len : length (take n src) ≡ n = omega (arith, length-take n src) in
    let back : take n (take n src ++ drop (length (take n src)) e.content) ≡ take n src =
      ap (λ k. take k (take n src ++ drop (length (take n src)) e.content)) (sym len)
      ∙ take-append (take n src) (drop (length (take n src)) e.content) in
    ap₂ file plain back

store_keeps :
    (src : List ℕ) (n : ℕ) (e : FileEntry)
    → ((store src n e).used ≡ e.used) × ((store src n e).name ≡ e.name)
unfolding store
store_keeps src n e = (refl, refl)

write_at-Writes :
    (name : Text) (src : List ℕ) (n : ℕ) (t : Table) (o : Option ℕ)
    → IsTable t
    → n ≤ fs_max_filesize
    → n ≤ length src
    → fs_find name t ≡ o
    → Found name t o
    → Writes name src n t (write_at src n t o)
unfolding write_at
write_at-Writes name src n t none v h l e (missing absent) = no_file absent
write_at-Writes name src n t (some i) v h l e (at _ lt used is look) =
    elim (Bool-cases (get_or t i blank).is_dir) [
      | inl dir ↦ rw dir (at_directory _ look dir)
      | inr plain ↦
          let old = get_or t i blank in
          let new = store src n old in
          let (keeps_used, keeps_name) = store_keeps src n old in
          rw plain (
            done (set t i new) (file_of old)
              (record {
                slots = length-set t i new ∙ v.slots;
                fit = AllFit-set t i new (Fits-store src n old h l (AllFit-get_or t i v.fit)) v.fit;
                distinct =
                    Distinct-set_found t i new name e (keeps_used ∙ used) (keeps_name ∙ is)
                      v.distinct;
              })
              look plain
              (λ m.
                lookup-set_found t i new name m e (keeps_used ∙ used) (keeps_name ∙ is)
                ∙ ap (λ f. if bytes_eq name m then some f else lookup m t)
                    (file_of-store src n old l plain)))
    ]

-- fs_write fails and changes nothing on a missing name and on a directory; on a file it replaces the
-- contents by the first 256 of the `len` bytes given, and returns how many that are.
pub fs_write_lem :
    (name : Text) (src : List ℕ) (len : ℕ) (t : Table)
    → IsTable t
    → len ≤ length src
    → Writes name src
        (if ltb fs_max_filesize len then fs_max_filesize else len)
        t
        (fs_write name src len t)
unfolding fs_write
fs_write_lem name src len t v l =
    write_at-Writes name src (if ltb fs_max_filesize len then fs_max_filesize else len) t
      (fs_find name t) v (ground arith) (ground arith) refl (fs_find-Found name t)

-- What fs_read returns for a lookup: the contents cut to the buffer less its terminator.
abbrev pub reads : ℕ → Option File → Option (List ℕ)
reads buf_size none = none
reads buf_size (some f) = if f.dir then none else some (take (buf_size - 1) f.contents)

take_least :
    (room size : ℕ) (c : List ℕ)
    → take (if ltb room size then room else size) c ≡ take (suc room - 1) (take size c)
take_least room size c =
    let back : suc room - 1 ≡ room = omega arith in
    elim (Bool-cases (ltb room size)) [
      | inl less ↦ rw (less, back) (sym (take-take room size c (ground arith)))
      | inr more ↦
          let short : length (take size c) ≤ room = ground (arith, length-take size c) in
          rw (more, back) (sym (take_all room (take size c) short))
    ]

read_at_lem :
    (name : Text) (room : ℕ) (t : Table) (o : Option ℕ)
    → Found name t o
    → read_at room t o ≡ reads (suc room) (lookup name t)
unfolding read_at
read_at_lem name room t none (missing h) = rw h refl
read_at_lem name room t (some i) (at _ lt used is look) = rw look (
    ap (λ c. if (get_or t i blank).is_dir then none else some c)
      (take_least room (get_or t i blank).size (get_or t i blank).content))

-- fs_read returns the contents of the file of that name, cut to the buffer less one byte, and fails
-- on a missing name and on a directory.
pub fs_read_lem :
    (name : Text) (buf_size : ℕ) (t : Table)
    → 0 < buf_size
    → fs_read name buf_size t ≡ reads buf_size (lookup name t)
unfolding fs_read
fs_read_lem name buf_size t h =
    let e : suc (buf_size - 1) ≡ buf_size = omega arith in
    read_at_lem name (buf_size - 1) t (fs_find name t) (fs_find-Found name t)
    ∙ ap (λ b. reads b (lookup name t)) e

pub data Deletes (name : Text) (t : Table) : Table × Bool → Type 0 where
  absent : lookup name t ≡ none → Deletes name t (t, false)
  removed :
      (t' : Table) (f : File)
      → IsTable t'
      → lookup name t ≡ some f
      → Updates name none t t'
      → suc (fs_get_total_files t') ≡ fs_get_total_files t
      → Deletes name t (t', true)

clear_at-Deletes :
    (name : Text) (t : Table) (o : Option ℕ)
    → IsTable t
    → fs_find name t ≡ o
    → Found name t o
    → Deletes name t (clear_at t o)
unfolding clear_at
clear_at-Deletes name t none v e (missing h) = absent h
clear_at-Deletes name t (some i) v e (at _ lt used is look) =
    removed (set t i blank) (file_of (get_or t i blank))
      (record {
        slots = length-set t i blank ∙ v.slots;
        fit = AllFit-set t i blank Fits-blank v.fit;
        distinct = Distinct-set-blank t i name e v.distinct;
      })
      look (λ m. lookup-set-blank t i name m v.distinct e) (total-set-blank t i name e)

-- fs_delete takes the name, and no other, out of the map, counts one file less and keeps the table
-- valid; on a missing name it says so and changes nothing.
pub fs_delete-Deletes : (name : Text) (t : Table) → IsTable t → Deletes name t (fs_delete name t)
unfolding fs_delete
fs_delete-Deletes name t v = clear_at-Deletes name t (fs_find name t) v refl (fs_find-Found name t)

read_back :
    (name : Text) (src : List ℕ) (n buf_size : ℕ) (t : Table) (r : Table × Written)
    → 0 < buf_size
    → Writes name src n t r
    → r.1 ≡ written n
    → fs_read name buf_size r.0 ≡ some (take (buf_size - 1) (take n src))
read_back name src n buf_size t r h (no_file _) e = cc
read_back name src n buf_size t r h (at_directory _ _ _) e = cc
read_back name src n buf_size t r h (done t' f v look plain upd) e =
    fs_read_lem name buf_size t' h
    ∙ ap (reads buf_size) (
        upd name
        ∙ ap (λ b. if b then some (file false (take n src)) else lookup name t)
            (bytes_eq_refl name))

-- Reading a file after a successful write gives the bytes written, the first 256 of them at most,
-- cut to the buffer.
pub fs_read-fs_write :
    (name : Text) (src : List ℕ) (len buf_size : ℕ) (t : Table)
    → IsTable t
    → len ≤ length src
    → 0 < buf_size
    → (fs_write name src len t).1
      ≡ written (if ltb fs_max_filesize len then fs_max_filesize else len)
    → fs_read name buf_size (fs_write name src len t).0
      ≡ some (
          take (buf_size - 1) (take (if ltb fs_max_filesize len then fs_max_filesize else len) src))
fs_read-fs_write name src len buf_size t v l h e =
    read_back name src (if ltb fs_max_filesize len then fs_max_filesize else len) buf_size t
      (fs_write name src len t) h (fs_write_lem name src len t v l) e
