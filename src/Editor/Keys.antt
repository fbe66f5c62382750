-- ===== src/Editor/Keys.antt =====
-- A session of the editor leaves no more keys than it had.
use zero_to_kernel.Prelude.{
  ℕ, suc, ◌≤◌, Option, none, some, List, [], ◌∷◌, ◌==◌, arith, if_both, length,
}
use zero_to_kernel.Fs.{Text, Table, Created}
use zero_to_kernel.Editor.{
  Editor, key_esc, handle_key, input_loop, Outcome, saved, cannot_open, usage, load_file_or_create,
  save, run_editor_input_loop, opened, editor_open,
}

abbrev Fewer : ℕ → Option (Editor × List ℕ) → Type 0
Fewer n none = Unit
Fewer n (some (e, rest)) = length rest ≤ n

Fewer-le : (n m : ℕ) (o : Option (Editor × List ℕ)) → n ≤ m → Fewer n o → Fewer m o
Fewer-le n m none h k = tt
Fewer-le n m (some (e, rest)) h k = omega (arith, k)

input_loop-Fewer : (keys : List ℕ) (e : Editor) → Fewer (length keys) (input_loop keys e)
unfolding input_loop
input_loop-Fewer [] e = tt
input_loop-Fewer (key ∷ keys) e =
    if_both (Fewer (suc (length keys))) (key == key_esc) _ _ (omega arith)
      (Fewer-le (length keys) _ _ (omega arith) (input_loop-Fewer keys (handle_key key e)))

-- The keys behind the ESC are at most `n`.
abbrev pub Leaves : ℕ → Option (Table × Outcome) → Type 0
Leaves n none = Unit
Leaves n (some (t, saved w rest)) = length rest ≤ n
Leaves n (some (t, usage)) = Unit
Leaves n (some (t, cannot_open why)) = Unit

save-Leaves :
    (n : ℕ) (path : Text) (t : Table) (o : Option (Editor × List ℕ))
    → Fewer n o
    → Leaves n (save path t o)
unfolding save
save-Leaves n path t none h = tt
save-Leaves n path t (some (e, rest)) h = h

opened-Leaves :
    (path : Text) (keys : List ℕ) (r : Table × Option (List ℕ) × Created)
    → Leaves (length keys) (opened path keys r)
unfolding opened run_editor_input_loop
opened-Leaves path keys (t, none, why) = tt
opened-Leaves path keys (t, some buf, why) =
    save-Leaves (length keys) path t _
      (input_loop-Fewer keys (record { edit_buffer = buf; echo = [] }))

pub editor_open-Leaves :
    (path : Text) (keys : List ℕ) (t : Table) → Leaves (length keys) (editor_open path keys t)
unfolding editor_open
editor_open-Leaves path keys t =
    if_both (Leaves (length keys)) (length path == 0) _ _ tt
      (opened-Leaves path keys (load_file_or_create path t))
