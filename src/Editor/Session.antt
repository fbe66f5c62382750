-- ===== src/Editor/Session.antt =====
-- What a session of the editor does to the file.
use zero_to_kernel.Prelude.{
  ℕ, ◌+◌, ◌-◌, ◌≤◌, ◌<◌, ◌≡◌, refl, ◌∙◌, ap, inl, inr, true, false, ◌&&◌, ◌||◌, Option, none, some,
  List, [], ◌∷◌, ◌++◌, ◌==◌, arith, Bool-cases, All, ltb, leb, if◌then◌else◌, length, length-append,
  length-take, take_all, bytes_eq, subst, map,
}
use mathlib.Core.List.{append-nil, append_assoc}
use zero_to_kernel.Screen.Output.{write}
use zero_to_kernel.Fs.{Text, Table, Created, fs_create, fs_read, Written, written, fs_write}
use zero_to_kernel.Fs.Lookup.{File, lookup}
use zero_to_kernel.Fs.Invariant.{IsTable}
use zero_to_kernel.Fs.Files.{
  file, Updates, Creates, bad_empty, bad_long, bad_present, bad_full, made, fs_create_lem, Writes,
  no_file, at_directory, done, fs_write_lem, fs_read_lem,
}
use zero_to_kernel.Editor.{
  Editor, key_esc, handle_backspace_key, handle_enter_key, handle_printable_char, handle_key,
  input_loop, Outcome, saved, load_new, load_read, load_file_or_create, save, run_editor_input_loop,
  opened, editor_open,
}

-- Every key keeps the text within the 256 bytes of a file.
handle_key_bound :
    (key : ℕ) (e : Editor)
    → length e.edit_buffer ≤ 256
    → length (handle_key key e).edit_buffer ≤ 256
unfolding handle_key handle_backspace_key handle_enter_key handle_printable_char
handle_key_bound key e short = ground (
  arith,
  length-append e.edit_buffer (10 ∷ []),
  length-append e.edit_buffer (key ∷ []),
  length-take (length e.edit_buffer - 1) e.edit_buffer,
)

-- The text that a session saves fits a file.
pub input_loop_bound :
    (keys : List ℕ) (e f : Editor) (rest : List ℕ)
    → length e.edit_buffer ≤ 256
    → input_loop keys e ≡ some (f, rest)
    → length f.edit_buffer ≤ 256
unfolding input_loop
input_loop_bound [] e f rest short h = cc
input_loop_bound (key ∷ keys) e f rest short h = elim (Bool-cases (key == key_esc)) [
  | inl esc ↦
      let same : some (e, keys) ≡ some (f, rest) =
        subst
          (λ b. (if b then some (e, keys) else input_loop keys (handle_key key e)) ≡ some (f, rest))
          esc h in
      let eq : e ≡ f = cc in subst (λ g. length g.edit_buffer ≤ 256) eq short
  | inr more ↦ input_loop_bound keys (handle_key key e) f rest (handle_key_bound key e short) (
      subst
        (λ b. (if b then some (e, keys) else input_loop keys (handle_key key e)) ≡ some (f, rest))
        more h)
]

-- A key that puts itself into the buffer.
abbrev pub Typed : ℕ → Type 0
Typed c = (32 ≤ c) × (c < 127)

-- The editor after the text `s` is typed.
abbrev after : List ℕ → Editor → Editor
after s e = record {
  edit_buffer = e.edit_buffer ++ s;
  echo = e.echo ++ map (λ c. write (c ∷ [])) s;
}

handle_key-Typed :
    (c : ℕ) (e : Editor) → Typed c → length e.edit_buffer < 256 → handle_key c e ≡ after (c ∷ []) e
unfolding handle_key handle_printable_char
handle_key-Typed c e typed short =
    let n1 : (c == 8) ≡ false = ground arith in
    let n2 : (c == 13 || c == 10) ≡ false = ground arith in
    let n3 : (leb 32 c && ltb c 127) ≡ true = ground arith in
    let n4 : ltb (length e.edit_buffer) 256 ≡ true = ground arith in rw (n1, n2, n3, n4) refl

input_loop-Typed :
    (s rest : List ℕ) (e : Editor)
    → All Typed s
    → length e.edit_buffer + length s ≤ 256
    → input_loop (s ++ key_esc ∷ rest) e ≡ some (after s e, rest)
unfolding input_loop
input_loop-Typed [] rest e typed short = rw (append-nil e.edit_buffer, append-nil e.echo) refl
input_loop-Typed (c ∷ s) rest e (here, typed) short =
    let n : (c == key_esc) ≡ false = ground arith in
    rw (n, handle_key-Typed c e here (omega arith))
      (input_loop-Typed s rest (after (c ∷ []) e) typed
          (omega (arith, length-append e.edit_buffer (c ∷ [])))
        ∙ rw
            (
              append_assoc e.edit_buffer (c ∷ []) s,
              append_assoc e.echo (write (c ∷ []) ∷ []) (map (λ c. write (c ∷ [])) s),
            )
            refl)

-- A save of a text that fits, into a file that is there.
save_lem :
    (name : Text) (buf : List ℕ) (t : Table) (f : File) (r : Table × Written) (n : ℕ)
    → lookup name t ≡ some f
    → f.dir ≡ false
    → n ≡ length buf
    → Writes name buf n t r
    → (r.1 ≡ written (length buf)) × Updates name (some (file false buf)) t r.0
save_lem name buf t f r n look plain e (no_file gone) = cc
save_lem name buf t f r n look plain e (at_directory g is dir) =
    let same : g ≡ f = cc in let no : g.dir ≡ false = ap (λ x. x.dir) same ∙ plain in cc
save_lem name buf t f r n look plain e (done t' g v is d upd) = (
  ap written e,
  λ m.
      upd m
      ∙ ap (λ k. if bytes_eq name m then some (file false k) else lookup m t)
          (take_all n buf (omega (arith, e))),
)

-- Typing text and ESC in a file appends the text to it, reports its new length, and changes no other
-- file, when the old and the new text together have at most 256 bytes.
pub editor_open-Typed :
    (name : Text) (s rest : List ℕ) (t : Table) (f : File)
    → IsTable t
    → 0 < length name
    → lookup name t ≡ some f
    → f.dir ≡ false
    → All Typed s
    → length f.contents + length s ≤ 256
    → (t' : Table) × (editor_open name (s ++ key_esc ∷ rest) t
        ≡ some (t', saved (written (length (f.contents ++ s))) rest))
      × Updates name (some (file false (f.contents ++ s))) t t'
unfolding editor_open opened load_file_or_create load_read run_editor_input_loop save
editor_open-Typed name s rest t f v named look plain typed short =
    let n : (length name == 0) ≡ false = ground arith in
    let got : fs_read name 257 t ≡ some f.contents =
      fs_read_lem name 257 t (omega arith)
      ∙ rw (look, plain, take_all 256 f.contents (omega arith)) refl in
    let buf = f.contents ++ s in
    let small : (if ltb 256 (length buf) then 256 else length buf) ≡ length buf =
      ground (arith, length-append f.contents s) in
    let (wrote, upd) =
      save_lem name buf t f (fs_write name buf (length buf) t) _ look plain small
        (fs_write_lem name buf (length buf) t v (omega arith)) in
    (
      (fs_write name buf (length buf) t).0,
      rw
          (
            n,
            got,
            input_loop-Typed s rest (record { edit_buffer = f.contents; echo = [] }) typed short,
            wrote,
          )
          refl,
      upd,
    )

-- `t'` is a valid table that maps every name but `name` as `t` does.
pub record Spares (name : Text) (t t' : Table) : Type 0 where
  pub valid : IsTable t'
  pub others : (m : Text) → bytes_eq name m ≡ false → lookup m t' ≡ lookup m t

Updates-Spares :
    (name : Text) (f : Option File) (t t' : Table)
    → IsTable t'
    → Updates name f t t'
    → Spares name t t'
Updates-Spares name f t t' v upd = record { valid = v; others = λ m ne. upd m ∙ rw ne refl }

Spares-Spares :
    (name : Text) (t t' u : Table) → Spares name t t' → Spares name t' u → Spares name t u
Spares-Spares name t t' u p q = record {
  valid = q.valid;
  others = λ m ne. q.others m ne ∙ p.others m ne;
}

Writes-Spares :
    (name : Text) (src : List ℕ) (n : ℕ) (t : Table) (r : Table × Written)
    → IsTable t
    → Writes name src n t r
    → Spares name t r.0
Writes-Spares name src n t r v (no_file _) = record { valid = v; others = λ m ne. refl }
Writes-Spares name src n t r v (at_directory _ _ _) = record { valid = v; others = λ m ne. refl }
Writes-Spares name src n t r v (done t' f v' _ _ upd) = Updates-Spares name _ t t' v' upd

save-Spares :
    (name : Text) (t t' : Table) (o : Option (Editor × List ℕ)) (out : Outcome)
    → IsTable t
    → save name t o ≡ some (t', out)
    → Spares name t t'
unfolding save
save-Spares name t t' none out v e = cc
save-Spares name t t' (some (d, keys)) out v e =
    let wrote =
      Writes-Spares name d.edit_buffer _ t (fs_write name d.edit_buffer (length d.edit_buffer) t) v
        (fs_write_lem name d.edit_buffer (length d.edit_buffer) t v (omega arith)) in
    let same : (fs_write name d.edit_buffer (length d.edit_buffer) t).0 ≡ t' = cc in
    subst (Spares name t) same wrote

opened-Spares :
    (name : Text) (keys : List ℕ) (t t' : Table) (r : Table × Option (List ℕ) × Created)
    (out : Outcome)
    → Spares name t r.0
    → opened name keys r ≡ some (t', out)
    → Spares name t t'
unfolding opened run_editor_input_loop
opened-Spares name keys t t' (u, none, why) out p e =
    let same : u ≡ t' = cc in subst (Spares name t) same p
opened-Spares name keys t t' (u, some buf, why) out p e = Spares-Spares name t u t' p (
    save-Spares name u t' (input_loop keys (record { edit_buffer = buf; echo = [] })) out p.valid e)

load_new-Spares :
    (name : Text) (t : Table) (r : Table × Created)
    → IsTable t
    → Creates false name t r
    → Spares name t (load_new r).0
unfolding load_new
load_new-Spares name t r v (bad_empty _) = record { valid = v; others = λ m ne. refl }
load_new-Spares name t r v (bad_long _) = record { valid = v; others = λ m ne. refl }
load_new-Spares name t r v (bad_present _ _) = record { valid = v; others = λ m ne. refl }
load_new-Spares name t r v (bad_full _) = record { valid = v; others = λ m ne. refl }
load_new-Spares name t r v (made t' v' _ _ _ upd _) = Updates-Spares name _ t t' v' upd

load_read-Spares :
    (name : Text) (t : Table) (o : Option (List ℕ))
    → IsTable t
    → Spares name t (load_read name t o).0
unfolding load_read
load_read-Spares name t none v =
    load_new-Spares name t (fs_create name t) v (fs_create_lem name t v).0
load_read-Spares name t (some bs) v = record { valid = v; others = λ m ne. refl }

pub load_file_or_create-Spares :
    (name : Text) (t : Table) → IsTable t → Spares name t (load_file_or_create name t).0
unfolding load_file_or_create
load_file_or_create-Spares name t v = load_read-Spares name t (fs_read name 257 t) v

-- Whatever the keys, a session that ends leaves a valid table and every other file as it was.
pub editor_open-Spares :
    (name : Text) (keys : List ℕ) (t t' : Table) (out : Outcome)
    → IsTable t
    → editor_open name keys t ≡ some (t', out)
    → Spares name t t'
unfolding editor_open load_file_or_create
editor_open-Spares name keys t t' out v e = elim (Bool-cases (length name == 0)) [
  | inl no_name ↦
      let same : some (t, Outcome.usage) ≡ some (t', out) =
        subst
          (λ b.
            (if b then some (t, Outcome.usage) else opened name keys (load_file_or_create name t))
            ≡ some (t', out))
          no_name e in
      let eq : t ≡ t' = cc in subst (Spares name t) eq (record { valid = v; others = λ m ne. refl })
  | inr named ↦
      opened-Spares name keys t t' (load_file_or_create name t) out
        (load_read-Spares name t (fs_read name 257 t) v)
        (subst
          (λ b.
            (if b then some (t, Outcome.usage) else opened name keys (load_file_or_create name t))
            ≡ some (t', out))
          named e)
]
