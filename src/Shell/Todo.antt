-- ===== src/Shell/Todo.antt =====
-- The to-do list of kernel/shell.c. The list holds the first todo_count entries of the array.
use zero_to_kernel.Prelude.{
  ℕ, zero, suc, ◌+◌, ◌-◌, ◌%◌, ◌≤◌, ◌<◌, ◌≡◌, refl, ◌∙◌, sym, ap, inl, inr, Bool, true, false, ◌&&◌,
  Option, none, some, List, [], ◌∷◌, ◌++◌, arith, if◌then◌else◌, Bool-cases, length, take, drop,
  get_or, ltb, leb, ◌==◌, length-append, length-set, get_elem?, set, ◌⊎◌, subst, bytes, bytes_eq,
  if_both, All,
}
use mathlib.Core.Option
use zero_to_kernel.Text.{atoi, word}
use zero_to_kernel.Fs.{Text}

abbrev pub todo_max : ℕ
todo_max = 20

pub record Todo : Type 0 where
  pub id : ℕ
  pub done : Bool
  pub text : Text

pub record Todos : Type 0 where
  pub items : List Todo
  pub todo_next_id : ℕ

-- What cmd_todo prints.
pub data Answer : Type 0 where
  full added marked not_found cleared usage : Answer
  listed : List Todo → Answer

abbrev pub quote : ℕ
quote = b'"'

unfoldable pub open_quote : Text → Text
open_quote s = if get_or s 0 0 == quote then drop 1 s else s

unfoldable pub close_quote : Text → Text
close_quote s =
    if ltb 0 (length s) && get_or s (length s - 1) 0 == quote then take (length s - 1) s else s

-- A text of 64 bytes or more does not fit its field, so that strncpy and the terminator overrun it: `none`,
-- since what the memory holds then is not defined.
unfoldable pub todo_add : Text → Todos → Option (Todos × Answer)
todo_add arg t =
    let text = close_quote (open_quote arg) in
    if leb todo_max (length t.items)
    then some (t, full)
    else if leb 64 (length text)
    then none
    else some (
      record {
        items = t.items ++ record { id = t.todo_next_id; done = false; text = text } ∷ [];
        todo_next_id = (t.todo_next_id + 1) % word;
      },
      added,
    )

-- The loop of `done`: the first item with the id is marked.
unfoldable pub mark_done : ℕ → List Todo → Option (List Todo)
mark_done id [] = none
mark_done id (x ∷ xs) =
    let rest = Option.map (λ ys. x ∷ ys) (mark_done id xs) in
    if x.id == id then some (record x { done = true } ∷ xs) else rest

marked_as : Todos → Option (List Todo) → Todos × Answer
marked_as t none = (t, not_found)
marked_as t (some xs) = (record t { items = xs }, marked)

unfoldable pub cmd_todo : Text → Todos → Option (Todos × Answer)
unfolding marked_as
cmd_todo arg t =
    if bytes_eq (take 4 arg) (bytes "add ")
    then todo_add (drop 4 arg) t
    else if bytes_eq arg (bytes "list")
    then some (t, listed t.items)
    else if bytes_eq (take 5 arg) (bytes "done ")
    then some (marked_as t (mark_done (atoi (drop 5 arg)) t.items))
    else if bytes_eq arg (bytes "clear")
    then some (record { items = []; todo_next_id = 1 }, cleared)
    else some (t, usage)

todo_next : Option (Todos × Answer) → (Todos → Option Todos) → Option Todos
todo_next none k = none
todo_next (some (t, a)) k = k t

-- Some todo commands; `none` if one of them overruns a text.
unfoldable pub run_todos : List Text → Todos → Option Todos
unfolding todo_next
run_todos [] t = some t
run_todos (arg ∷ args) t = todo_next (cmd_todo arg t) (run_todos args)

-- The ids are lo, lo + 1, ... in the order of the list, and each text fits its field.
unfoldable pub Numbered : ℕ → List Todo → Type 0
Numbered lo [] = Unit
Numbered lo (x ∷ xs) = (x.id ≡ lo) × (length x.text < 64) × Numbered (suc lo) xs

-- At most 20 items with the ids from 1 on, each with a text that fits its field.
pub record IsTodos (t : Todos) : Type 0 where
  pub bounded : length t.items ≤ todo_max
  pub numbered : Numbered 1 t.items
  pub next : t.todo_next_id ≡ suc (length t.items)

Numbered-append :
    (lo : ℕ) (xs : List Todo) (x : Todo)
    → Numbered lo xs
    → x.id ≡ lo + length xs
    → length x.text < 64
    → Numbered lo (xs ++ x ∷ [])
unfolding Numbered
Numbered-append lo [] x all e short = (omega (arith, e), short, tt)
Numbered-append lo (y ∷ ys) x (id, fits, all) e short =
    (id, fits, Numbered-append (suc lo) ys x all (omega (arith, e)) short)

-- A command's list, if there is one, is such a list.
abbrev pub Leaves : Option (Todos × Answer) → Type 0
Leaves none = Unit
Leaves (some (t, a)) = IsTodos t

todo_add-Leaves : (arg : Text) (t : Todos) → IsTodos t → Leaves (todo_add arg t)
unfolding todo_add
todo_add-Leaves arg t v =
    let text = close_quote (open_quote arg) in
    let x : Todo = record { id = t.todo_next_id; done = false; text = text } in
    elim (Bool-cases (leb todo_max (length t.items))) [
      | inl e ↦ rw e v
      | inr room ↦ elim (Bool-cases (leb 64 (length text))) [
        | inl e ↦ rw (room, e) tt
        | inr short ↦
            rw (room, short)
              (record {
                bounded = ground (arith, room, length-append t.items (x ∷ []));
                numbered =
                    Numbered-append 1 t.items x v.numbered (omega (arith, v.next))
                      (ground (arith, short));
                next = ground (arith, room, v.next, length-append t.items (x ∷ []));
              })
      ]
    ]

-- What `done` does to a list numbered from `lo` on: the item with the id, found by its place, is marked.
pub data Marks (id lo : ℕ) (xs : List Todo) : Option (List Todo) → Type 0 where
  no_item : (id < lo) ⊎ (lo + length xs ≤ id) → Marks id lo xs none
  item :
      (i : ℕ) (x : Todo) (ys : List Todo)
      → id ≡ lo + i
      → get_elem? xs i ≡ some x
      → ys ≡ set xs i (record x { done = true })
      → Marks id lo xs (some ys)

Marks-cons :
    (id lo : ℕ) (x : Todo) (xs : List Todo) (o : Option (List Todo))
    → x.id ≡ lo
    → (x.id == id) ≡ false
    → Marks id (suc lo) xs o
    → Marks id lo (x ∷ xs) (Option.map (λ ys. x ∷ ys) o)
Marks-cons id lo x xs o e ne (no_item out) = no_item (ground (arith, out, ne, e))
Marks-cons id lo x xs o e ne (item i y ys at found is) =
    item (suc i) y (x ∷ ys) (omega (arith, at)) found (ap (◌∷◌ x) is)

-- `done` marks the item whose place the id names, and no other; it fails on an id outside the list's.
pub mark_done-Marks :
    (id lo : ℕ) (xs : List Todo) → Numbered lo xs → Marks id lo xs (mark_done id xs)
unfolding mark_done Numbered
mark_done-Marks id lo [] all = no_item (ground arith)
mark_done-Marks id lo (x ∷ xs) (e, fits, all) = elim (Bool-cases (x.id == id)) [
  | inl here ↦ rw here (item 0 x _ (ground (arith, here, e)) refl refl)
  | inr away ↦ rw away (Marks-cons id lo x xs _ e away (mark_done-Marks id (suc lo) xs all))
]

Numbered-set :
    (lo i : ℕ) (xs : List Todo) (x : Todo)
    → Numbered lo xs
    → get_elem? xs i ≡ some x
    → Numbered lo (set xs i (record x { done = true }))
unfolding Numbered
Numbered-set lo i [] x all e = cc
Numbered-set lo zero (y ∷ ys) x (id, fits, all) e =
    let same : y ≡ x = cc in
    (ap (λ z. z.id) (sym same) ∙ id, subst (λ z. length z.text < 64) same fits, all)
Numbered-set lo (suc i) (y ∷ ys) x (id, fits, all) e =
    (id, fits, Numbered-set (suc lo) i ys x all e)

marked_as-IsTodos :
    (id : ℕ) (t : Todos) (o : Option (List Todo))
    → IsTodos t
    → Marks id 1 t.items o
    → IsTodos (marked_as t o).0
unfolding marked_as
marked_as-IsTodos id t o v (no_item _) = v
marked_as-IsTodos id t o v (item i x ys at found is) =
    let len : length ys ≡ length t.items =
      ap length is ∙ length-set t.items i (record x { done = true }) in
    record {
      bounded = omega (arith, len, v.bounded);
      numbered = subst (Numbered 1) (sym is) (Numbered-set 1 i t.items x v.numbered found);
      next = omega (arith, len, v.next);
    }

pub cmd_todo-Leaves : (arg : Text) (t : Todos) → IsTodos t → Leaves (cmd_todo arg t)
unfolding cmd_todo Numbered
cmd_todo-Leaves arg t v =
    let id = atoi (drop 5 arg) in
    if_both Leaves (bytes_eq (take 4 arg) (bytes "add ")) _ _ (todo_add-Leaves (drop 4 arg) t v) (
      if_both Leaves (bytes_eq arg (bytes "list")) _ _ v (
        if_both Leaves (bytes_eq (take 5 arg) (bytes "done ")) _ _
          (marked_as-IsTodos id t (mark_done id t.items) v
            (mark_done-Marks id 1 t.items v.numbered))
          (if_both Leaves (bytes_eq arg (bytes "clear")) _ _ (omega arith) v)))

-- The text that a command adds, if it adds one, is shorter than its field.
abbrev pub IsShort : Text → Type 0
IsShort arg =
    bytes_eq (take 4 arg) (bytes "add ") ≡ true
    → length (close_quote (open_quote (drop 4 arg))) < 64

abbrev Returns : Option (Todos × Answer) → Type 0
Returns o = (r : Todos × Answer) × (o ≡ some r)

cmd_todo-Returns : (arg : Text) (t : Todos) → IsShort arg → Returns (cmd_todo arg t)
unfolding cmd_todo todo_add
cmd_todo-Returns arg t short = elim (Bool-cases (bytes_eq (take 4 arg) (bytes "add "))) [
  | inl add ↦
      let fits : leb 64 (length (close_quote (open_quote (drop 4 arg)))) ≡ false =
        ground (arith, short add) in
      rw add (if_both Returns (leb todo_max (length t.items)) _ _ (_, refl) (rw fits (_, refl)))
  | inr other ↦ rw other (
      if_both Returns (bytes_eq arg (bytes "list")) _ _ (_, refl)
        (if_both Returns (bytes_eq (take 5 arg) (bytes "done ")) _ _ (_, refl)
          (if_both Returns (bytes_eq arg (bytes "clear")) _ _ (_, refl) (_, refl))))
]

-- Todo commands none of which adds a text of 64 bytes or more all return: then there are at most 20
-- tasks, with the ids 1, 2, ... in order, the next id follows them, and each text fits its 64 bytes.
pub run_todos-IsTodos :
    (args : List Text) (t : Todos)
    → All IsShort args
    → IsTodos t
    → (t' : Todos) × (run_todos args t ≡ some t') × IsTodos t'
unfolding run_todos todo_next
run_todos-IsTodos [] t short v = (t, refl, v)
run_todos-IsTodos (arg ∷ args) t short v =
    let (r, e) = cmd_todo-Returns arg t short.0 in
    let (t', run, w) =
      run_todos-IsTodos args r.0 short.1 (subst Leaves e (cmd_todo-Leaves arg t v)) in
    (t', rw e run, w)
