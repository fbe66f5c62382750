-- ===== src/Fs/Lookup.antt =====
-- The table as a map from names to files, and what a write to one slot does to the map.
use zero_to_kernel.Prelude.{
  ℕ, zero, suc, ◌<◌, ◌≡◌, refl, inl, inr, Bool, true, false, ◌&&◌, Option, none, some, List, [],
  ◌∷◌, arith, if◌then◌else◌, Bool-cases, length, get_or, set, take, bytes_eq, bytes_eq_iff,
}
use mathlib.Core.Option
use zero_to_kernel.Fs.{Text, FileEntry, Table, blank, fs_find, fs_free_slot, fs_get_total_files}

-- What a client can see of a file: whether it is a directory, and its bytes.
pub record File : Type 0 where
  pub dir : Bool
  pub contents : List ℕ

abbrev pub file_of : FileEntry → File
file_of e = record { dir = e.is_dir; contents = take e.size e.content }

unfoldable pub lookup : Text → Table → Option File
lookup name [] = none
lookup name (e ∷ t) = if e.used && bytes_eq e.name name then some (file_of e) else lookup name t

-- What fs_find returns is the first slot with the name.
pub data Found (name : Text) (t : Table) : Option ℕ → Type 0 where
  missing : lookup name t ≡ none → Found name t none
  at :
      (i : ℕ)
      → i < length t
      → (get_or t i blank).used ≡ true
      → (get_or t i blank).name ≡ name
      → lookup name t ≡ some (file_of (get_or t i blank))
      → Found name t (some i)

Found-cons :
    (name : Text) (e : FileEntry) (t : Table) (o : Option ℕ)
    → (e.used && bytes_eq e.name name) ≡ false
    → Found name t o
    → Found name (e ∷ t) (Option.map suc o)
unfolding lookup
Found-cons name e t none away (missing h) = missing (rw away h)
Found-cons name e t (some i) away (at _ lt used is h) = at (suc i) (omega arith) used is (rw away h)

pub fs_find-Found : (name : Text) (t : Table) → Found name t (fs_find name t)
unfolding fs_find lookup
fs_find-Found name [] = missing refl
fs_find-Found name (e ∷ t) = elim (Bool-cases (e.used && bytes_eq e.name name)) [
  | inl here ↦
      let parts : (e.used ≡ true) × (bytes_eq e.name name ≡ true) = ground arith in
      rw here (at 0 (omega arith) parts.0 ((bytes_eq_iff e.name name).0 parts.1) (rw here refl))
  | inr away ↦ rw away (Found-cons name e t (fs_find name t) away (fs_find-Found name t))
]

pub data Free (t : Table) : Option ℕ → Type 0 where
  full : fs_get_total_files t ≡ length t → Free t none
  slot : (i : ℕ) → i < length t → (get_or t i blank).used ≡ false → Free t (some i)

Free-cons :
    (e : FileEntry) (t : Table) (o : Option ℕ)
    → e.used ≡ true
    → Free t o
    → Free (e ∷ t) (Option.map suc o)
unfolding fs_get_total_files
Free-cons e t none used (full all) = full (ground (arith, used, all))
Free-cons e t (some i) used (slot _ lt free) = slot (suc i) (omega arith) free

pub fs_free_slot-Free : (t : Table) → Free t (fs_free_slot t)
unfolding fs_free_slot fs_get_total_files
fs_free_slot-Free [] = full refl
fs_free_slot-Free (e ∷ t) = elim (Bool-cases e.used) [
  | inl used ↦ simp used (Free-cons e t (fs_free_slot t) used (fs_free_slot-Free t))
  | inr free ↦ simp free (slot 0 (omega arith) free)
]

-- A new entry in a free slot, under a name that the table lacks.
pub lookup-set_free :
    (t : Table) (i : ℕ) (e : FileEntry) (m : Text)
    → i < length t
    → (get_or t i blank).used ≡ false
    → e.used ≡ true
    → lookup e.name t ≡ none
    → lookup m (set t i e) ≡ (if bytes_eq e.name m then some (file_of e) else lookup m t)
unfolding lookup
lookup-set_free [] i e m lt free used new = absurd (omega arith)
lookup-set_free (d ∷ t) zero e m lt free used new = rw (free, used) refl
lookup-set_free (d ∷ t) (suc i) e m lt free used new = ground (
  arith,
  lookup-set_free t i e m,
  bytes_eq_iff d.name m,
  bytes_eq_iff e.name m,
  bytes_eq_iff d.name e.name,
)

-- An inversion of the index that the loops return.
pub map-suc :
    (o : Option ℕ) (i : ℕ) → Option.map suc o ≡ some i → (j : ℕ) × (o ≡ some j) × (i ≡ suc j)
map-suc none i e = cc
map-suc (some j) i e = (j, refl, ground arith)

-- A new entry under the same name, in the slot that fs_find returns.
pub lookup-set_found :
    (t : Table) (i : ℕ) (e : FileEntry) (n m : Text)
    → fs_find n t ≡ some i
    → e.used ≡ true
    → e.name ≡ n
    → lookup m (set t i e) ≡ (if bytes_eq n m then some (file_of e) else lookup m t)
unfolding lookup fs_find
lookup-set_found [] i e n m found used is = cc
lookup-set_found (d ∷ t) i e n m found used is = elim (Bool-cases (d.used && bytes_eq d.name n)) [
  | inl here ↦
      let first : i ≡ 0 = ground arith in
      rw first (
        ground (
          arith,
          bytes_eq_iff d.name n,
          bytes_eq_iff e.name m,
          bytes_eq_iff d.name m,
          bytes_eq_iff n m,
        ))
  | inr away ↦
      let (j, found', at_) = map-suc (fs_find n t) i (rw away at found) in
      rw at_ (
        ground (
          arith,
          lookup-set_found t j e n m found' used is,
          bytes_eq_iff d.name n,
          bytes_eq_iff d.name m,
          bytes_eq_iff n m,
        ))
]

pub total-set_free :
    (t : Table) (i : ℕ) (e : FileEntry)
    → i < length t
    → (get_or t i blank).used ≡ false
    → e.used ≡ true
    → fs_get_total_files (set t i e) ≡ suc (fs_get_total_files t)
unfolding fs_get_total_files
total-set_free [] i e lt free used = absurd (omega arith)
total-set_free (d ∷ t) zero e lt free used = rw (free, used) (omega arith)
total-set_free (d ∷ t) (suc i) e lt free used =
    omega (arith, total-set_free t i e (omega arith) free used)

-- The same, when the slot that fs_find returns is cleared.
pub total-set-blank :
    (t : Table) (i : ℕ) (n : Text)
    → fs_find n t ≡ some i
    → suc (fs_get_total_files (set t i blank)) ≡ fs_get_total_files t
unfolding fs_get_total_files fs_find
total-set-blank [] i n found = cc
total-set-blank (d ∷ t) i n found = elim (Bool-cases (d.used && bytes_eq d.name n)) [
  | inl here ↦
      let first : i ≡ 0 = ground arith in
      let used : d.used ≡ true = ground arith in rw (first, used) (omega arith)
  | inr away ↦
      let (j, found', at_) = map-suc (fs_find n t) i (rw away at found) in
      rw at_ (omega (arith, total-set-blank t j n found'))
]
