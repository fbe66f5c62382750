-- ===== src/Fs/Invariant.antt =====
-- The invariant of the table: 32 entries, fields within their arrays, and no name twice.
use zero_to_kernel.Prelude.{
  ℕ, zero, suc, ◌≤◌, ◌<◌, ◌≡◌, ◌∙◌, sym, ap, inl, inr, Bool, true, false, ◌&&◌, none, some, List,
  [], ◌∷◌, arith, if◌then◌else◌, Bool-cases, length, get_or, set, take, drop, bytes_eq,
  bytes_eq_iff, length-take, length-drop, length-append, replicate,
}
use zero_to_kernel.Fs.{
  Text, FileEntry, Table, blank, fs_find, fill_slot, store, fs_max_files, fs_max_filename,
  fs_max_filesize, copy_over,
}
use zero_to_kernel.Fs.Lookup.{lookup, lookup-set_free, lookup-set_found, map-suc}

abbrev pub Distinct : Table → Type 0
Distinct [] = Unit
Distinct (e ∷ t) = (e.used ≡ true → lookup e.name t ≡ none) × Distinct t

-- The name and its terminator fit into 64 bytes, and the size counts bytes of the data array.
pub record Fits (e : FileEntry) : Type 0 where
  pub name : length e.name < fs_max_filename
  pub array : length e.content ≡ fs_max_filesize
  pub size : e.size ≤ fs_max_filesize

abbrev pub AllFit : Table → Type 0
AllFit [] = Unit
AllFit (e ∷ t) = Fits e × AllFit t

pub record IsTable (t : Table) : Type 0 where
  pub slots : length t ≡ fs_max_files
  pub fit : AllFit t
  pub distinct : Distinct t

-- Clearing the slot that fs_find returns takes the name out of a table without duplicates.
pub lookup-set-blank :
    (t : Table) (i : ℕ) (n m : Text)
    → Distinct t
    → fs_find n t ≡ some i
    → lookup m (set t i blank) ≡ (if bytes_eq n m then none else lookup m t)
unfolding lookup fs_find
lookup-set-blank [] i n m dis found = cc
lookup-set-blank (d ∷ t) i n m dis found = elim (Bool-cases (d.used && bytes_eq d.name n)) [
  | inl here ↦
      let first : i ≡ 0 = ground arith in
      let same : d.name ≡ n = ground (arith, bytes_eq_iff d.name n) in
      let gone : lookup n t ≡ none = rw (← same) (dis.0 (ground arith)) in
      elim (Bool-cases (bytes_eq n m)) [
        | inl e ↦ rw (first, e) (ap (λ k. lookup k t) (sym ((bytes_eq_iff n m).0 e)) ∙ gone)
        | inr ne ↦ rw (first, ne) (ground (arith, same, ne))
      ]
  | inr away ↦
      let (j, found', at_) = map-suc (fs_find n t) i (rw away at found) in
      rw at_ (
        ground (
          arith,
          lookup-set-blank t j n m dis.1 found',
          bytes_eq_iff d.name n,
          bytes_eq_iff d.name m,
          bytes_eq_iff n m,
        ))
]

pub Distinct-set_free :
    (t : Table) (i : ℕ) (e : FileEntry)
    → i < length t
    → (get_or t i blank).used ≡ false
    → e.used ≡ true
    → lookup e.name t ≡ none
    → Distinct t
    → Distinct (set t i e)
unfolding lookup
Distinct-set_free [] i e lt free used new dis = tt
Distinct-set_free (d ∷ t) zero e lt free used new dis = (λ _. ground (arith, new), dis.1)
Distinct-set_free (d ∷ t) (suc i) e lt free used new dis = (
  λ u.
      lookup-set_free t i e d.name (omega arith) free used (ground (arith, new))
      ∙ ground (arith, u, new, dis.0 u, bytes_eq_iff e.name d.name, bytes_eq_iff d.name e.name),
  Distinct-set_free t i e (omega arith) free used (ground (arith, new)) dis.1,
)

pub Distinct-set_found :
    (t : Table) (i : ℕ) (e : FileEntry) (n : Text)
    → fs_find n t ≡ some i
    → e.used ≡ true
    → e.name ≡ n
    → Distinct t
    → Distinct (set t i e)
unfolding lookup fs_find
Distinct-set_found [] i e n found used is dis = tt
Distinct-set_found (d ∷ t) i e n found used is dis =
    elim (Bool-cases (d.used && bytes_eq d.name n)) [
      | inl here ↦
          let first : i ≡ 0 = ground arith in
          let same : d.name ≡ e.name = ground (arith, is, bytes_eq_iff d.name n) in
          rw first (λ _. rw (← same) (dis.0 (ground arith)), dis.1)
      | inr away ↦
          let (j, found', at_) = map-suc (fs_find n t) i (rw away at found) in
          rw at_ (
            λ u.
                lookup-set_found t j e n d.name found' used is
                ∙ ground (arith, u, away, dis.0 u, bytes_eq_iff n d.name, bytes_eq_iff d.name n),
            Distinct-set_found t j e n found' used is dis.1,
          )
    ]

pub Distinct-set-blank :
    (t : Table) (i : ℕ) (n : Text) → fs_find n t ≡ some i → Distinct t → Distinct (set t i blank)
unfolding fs_find
Distinct-set-blank [] i n found dis = tt
Distinct-set-blank (d ∷ t) i n found dis = elim (Bool-cases (d.used && bytes_eq d.name n)) [
  | inl here ↦ let first : i ≡ 0 = ground arith in rw first (λ u. absurd (not_used u), dis.1)
  | inr away ↦
      let (j, found', at_) = map-suc (fs_find n t) i (rw away at found) in
      rw at_ (
        λ u. lookup-set-blank t j n d.name dis.1 found' ∙ ground (arith, dis.0 u),
        Distinct-set-blank t j n found' dis.1,
      )
]
  where
    not_used : false ≡ true → ⊥
    not_used t = cc

pub AllFit-set : (t : Table) (i : ℕ) (e : FileEntry) → Fits e → AllFit t → AllFit (set t i e)
AllFit-set [] i e f all = tt
AllFit-set (d ∷ t) zero e f all = (f, all.1)
AllFit-set (d ∷ t) (suc i) e f all = (all.0, AllFit-set t i e f all.1)

pub Fits-blank : Fits blank
Fits-blank = omega arith

pub AllFit-get_or : (t : Table) (i : ℕ) → AllFit t → Fits (get_or t i blank)
AllFit-get_or [] i all = Fits-blank
AllFit-get_or (d ∷ t) zero all = all.0
AllFit-get_or (d ∷ t) (suc i) all = AllFit-get_or t i all.1

pub Fits-fill_slot :
    (dir : Bool) (name : Text) (e : FileEntry) → Fits e → Fits (fill_slot dir name e)
unfolding fill_slot
Fits-fill_slot dir name e f = omega (arith, length-take 63 name, f.array)

pub Fits-store :
    (src : List ℕ) (n : ℕ) (e : FileEntry)
    → n ≤ fs_max_filesize
    → n ≤ length src
    → Fits e
    → Fits (store src n e)
unfolding store
Fits-store src n e h l f =
    let array : length (copy_over (take n src) e.content) ≡ fs_max_filesize = omega (
      arith,
      f.array,
      length-append (take n src) (drop (length (take n src)) e.content),
      length-take n src,
      length-drop (length (take n src)) e.content,
    ) in
    record { name = f.name; array = array; size = h }

pub zeroed-IsTable : (n : ℕ) → AllFit (replicate n blank) × Distinct (replicate n blank)
zeroed-IsTable zero = (tt, tt)
zeroed-IsTable (suc n) =
    let (fit, dis) = zeroed-IsTable n in ((Fits-blank, fit), (λ u. absurd (not_used u), dis))
  where
    not_used : false ≡ true → ⊥
    not_used t = cc
