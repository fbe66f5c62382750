-- ===== src/Shell/Copying.antt =====
-- What cpy, mov and rename do to the map from names to files, on every branch.
use zero_to_kernel.Prelude.{
  ℕ, ◌≤◌, ◌≡◌, ◌≢◌, refl, ◌∙◌, sym, ap, inl, inr, Bool, false, ◌&&◌, Option, none, some, List, [],
  ◌∷◌, arith, if◌then◌else◌, Bool-cases, length, bytes_eq, bytes_eq_refl, length-take, take_all,
  ltb, subst,
}
use zero_to_kernel.Fs.{Text, Table, Created, created, fs_create, fs_write, fs_delete, Written}
use zero_to_kernel.Fs.Lookup.{File, file_of, lookup}
use zero_to_kernel.Fs.Invariant.{IsTable, AllFit}
use zero_to_kernel.Fs.Files.{
  file, Updates, Creates, made, bad_empty, bad_long, bad_present, bad_full, fs_create_lem, Writes,
  no_file, at_directory, done, fs_write_lem, reads, fs_read_lem, Deletes, absent, removed,
  fs_delete-Deletes,
}
use zero_to_kernel.Shell.{
  Copied, source_not_found, not_created, copied, fill, copy_read, copy_file, drop_source, move_file,
}

-- A file holds at most 256 bytes.
pub lookup_short :
    (name : Text) (t : Table) (f : File)
    → AllFit t
    → lookup name t ≡ some f
    → length f.contents ≤ 256
unfolding lookup
lookup_short name [] f all e = cc
lookup_short name (d ∷ t) f all e = elim (Bool-cases (d.used && bytes_eq d.name name)) [
  | inl here ↦
      let same : some (file_of d) ≡ some f =
        subst (λ b. (if b then some (file_of d) else lookup name t) ≡ some f) here e in
      let eq : file_of d ≡ f = cc in
      subst (λ g. length g.contents ≤ 256) eq
        (omega (arith, length-take d.size d.content, all.0.size))
  | inr away ↦
      lookup_short name t f all.1
        (subst (λ b. (if b then some (file_of d) else lookup name t) ≡ some f) away e)
]

-- The outcomes of copying `src` to `dst`: the table is unchanged, or `dst` is new and holds what `src`
-- holds.
pub data Copies (src dst : Text) (t : Table) : Table × Copied → Type 0 where
  no_source : reads 257 (lookup src t) ≡ none → Copies src dst t (t, source_not_found)
  no_target :
      (c : Created) → c ≢ created → fs_create dst t ≡ (t, c) → Copies src dst t (t, not_created)
  new_file :
      (t' : Table) (f : File)
      → IsTable t'
      → f.dir ≡ false
      → lookup src t ≡ some f
      → lookup dst t ≡ none
      → Updates dst (some f) t t'
      → Copies src dst t (t', copied src dst)

-- A second update of a name takes the first one's place.
Updates-Updates :
    (name : Text) (f g : Option File) (t t' u : Table)
    → Updates name f t t'
    → Updates name g t' u
    → Updates name g t u
Updates-Updates name f g t t' u first second m = second m ∙ (elim (Bool-cases (bytes_eq name m)) [
  | inl e ↦ rw e refl
  | inr e ↦ rw e (first m ∙ rw e refl)
])

Writes-empty :
    (dst : Text) (bs : List ℕ) (n : ℕ) (t : Table) (r : Table × Written)
    → lookup dst t ≡ some (file false [])
    → n ≡ length bs
    → Writes dst bs n t r
    → IsTable r.0 × Updates dst (some (file false bs)) t r.0
Writes-empty dst bs n t r look e (no_file gone) = cc
Writes-empty dst bs n t r look e (at_directory f is dir) =
    let same : f ≡ file false [] = cc in let no : f.dir ≡ false = ap (λ g. g.dir) same in cc
Writes-empty dst bs n t r look e (done t' f v is plain upd) = (
  v,
  λ m.
      upd m
      ∙ ap (λ k. if bytes_eq dst m then some (file false k) else lookup m t)
          (take_all n bs (omega (arith, e))),
)

fs_write-empty :
    (dst : Text) (bs : List ℕ) (t : Table)
    → IsTable t
    → lookup dst t ≡ some (file false [])
    → length bs ≤ 256
    → IsTable (fs_write dst bs (length bs) t).0
      × Updates dst (some (file false bs)) t (fs_write dst bs (length bs) t).0
fs_write-empty dst bs t v look short =
    Writes-empty dst bs (if ltb 256 (length bs) then 256 else length bs) t
      (fs_write dst bs (length bs) t) look (ground arith)
      (fs_write_lem dst bs (length bs) t v (omega arith))

fill-Copies :
    (src dst : Text) (t : Table) (f : File) (r : Table × Created)
    → f.dir ≡ false
    → lookup src t ≡ some f
    → length f.contents ≤ 256
    → fs_create dst t ≡ r
    → Creates false dst t r
    → Copies src dst t (fill src dst f.contents r)
unfolding fill
fill-Copies src dst t f r plain look short e (bad_empty _) =
    no_target Created.empty_name (λ x. cc) e
fill-Copies src dst t f r plain look short e (bad_long _) =
    no_target Created.name_too_long (λ x. cc) e
fill-Copies src dst t f r plain look short e (bad_present _ _) =
    no_target Created.already_exists (λ x. cc) e
fill-Copies src dst t f r plain look short e (bad_full _) = no_target Created.table_full (λ x. cc) e
fill-Copies src dst t f r plain look short e (made t' v' _ _ new upd _) =
    let (valid, wrote) =
      fs_write-empty dst f.contents t' v' (upd dst ∙ rw (bytes_eq_refl dst) refl) short in
    let same : file false f.contents ≡ f = ap (λ d. file d f.contents) (sym plain) in
    new_file (fs_write dst f.contents (length f.contents) t').0 f valid plain look new (
      subst (λ g. Updates dst (some g) t (fs_write dst f.contents (length f.contents) t').0) same
        (Updates-Updates dst (some (file false [])) (some (file false f.contents)) t t' _ upd
          wrote))

copy_read-Copies :
    (src dst : Text) (t : Table) (o : Option File)
    → IsTable t
    → lookup src t ≡ o
    → Copies src dst t (copy_read src dst t (reads 257 o))
unfolding copy_read
copy_read-Copies src dst t none v e = no_source (rw e refl)
copy_read-Copies src dst t (some f) v e = elim (Bool-cases f.dir) [
  | inl dir ↦ rw dir (no_source (rw e (rw dir refl)))
  | inr plain ↦
      let short = lookup_short src t f v.fit e in
      rw (plain, take_all 256 f.contents short)
        (fill-Copies src dst t f (fs_create dst t) plain e short refl (fs_create_lem dst t v).0)
]

-- Copying a file to a new name makes that name hold what the source holds and changes no other name;
-- when the source is no file or the target cannot be created, the table is unchanged.
pub copy_file-Copies :
    (src dst : Text) (t : Table) → IsTable t → Copies src dst t (copy_file src dst t)
unfolding copy_file
copy_file-Copies src dst t v =
    rw (fs_read_lem src 257 t (omega arith)) (copy_read-Copies src dst t (lookup src t) v refl)

-- The outcomes of moving `src` to `dst`.
pub data Moves (src dst : Text) (t : Table) : Table × Copied → Type 0 where
  unread : reads 257 (lookup src t) ≡ none → Moves src dst t (t, source_not_found)
  unplaced :
      (c : Created) → c ≢ created → fs_create dst t ≡ (t, c) → Moves src dst t (t, not_created)
  moved :
      (t' : Table) (f : File)
      → IsTable t'
      → f.dir ≡ false
      → lookup src t ≡ some f
      → lookup dst t ≡ none
      → ((m : Text)
          → lookup m t'
            ≡ (if bytes_eq src m then none else if bytes_eq dst m then some f else lookup m t))
      → Moves src dst t (t', copied src dst)

delete-Moves :
    (src dst : Text) (t t' : Table) (f : File) (r : Table × Bool)
    → f.dir ≡ false
    → lookup src t ≡ some f
    → lookup dst t ≡ none
    → Updates dst (some f) t t'
    → Deletes src t' r
    → Moves src dst t (r.0, copied src dst)
delete-Moves src dst t t' f r plain look new upd (absent gone) =
    let there : lookup src t' ≡ some f =
      upd src ∙ (elim (Bool-cases (bytes_eq dst src)) [ inl e ↦ rw e refl | inr e ↦ rw e look ]) in
    cc
delete-Moves src dst t t' f r plain look new upd (removed u g v _ out _) =
    moved u f v plain look new (λ m. out m ∙ rw (upd m) refl)

drop_source-Moves :
    (src dst : Text) (t : Table) (r : Table × Copied)
    → Copies src dst t r
    → Moves src dst t (drop_source r)
unfolding drop_source
drop_source-Moves src dst t r (no_source h) = unread h
drop_source-Moves src dst t r (no_target c h e) = unplaced c h e
drop_source-Moves src dst t r (new_file t' f v plain look new upd) =
    delete-Moves src dst t t' f (fs_delete src t') plain look new upd (fs_delete-Deletes src t' v)

-- Moving or renaming a file takes its name away, makes the new name hold what it held and changes no
-- other name, or else leaves the table as it is.
pub move_file-Moves :
    (src dst : Text) (t : Table) → IsTable t → Moves src dst t (move_file src dst t)
unfolding move_file
move_file-Moves src dst t v =
    drop_source-Moves src dst t (copy_file src dst t) (copy_file-Copies src dst t v)
