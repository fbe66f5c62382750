-- ===== src/Shell/Readline/Editing.antt =====
-- Each key of the line editor does to its state what it is to do to the line with a cursor, and the
-- state stays well formed.
use zero_to_kernel.Prelude.{
  ℕ, ◌+◌, ◌-◌, ◌≤◌, ◌<◌, ◌≡◌, ◌≢◌, refl, ◌∙◌, sym, ap, inl, inr, Bool, true, false, some, List, [],
  ◌∷◌, ◌==◌, ltb, if◌then◌else◌, arith, Bool-cases, length, take, set, get_or, replicate,
  All-append, All-take, All-drop, All-replicate, All-get_or, length-set, get_or-set_self,
}
use mathlib.Core.List.{append-nil}
use zero_to_kernel.Text.{Buffer}
use zero_to_kernel.Shell.Readline.{
  Line, stretch, enter, erase, go_left, go_right, insert_char, load_history, Key, enter_key,
  erase_key, left_key, right_key, up_key, down_key, other_key, char_key, edit, cell, cells_back,
  set_cell,
}
use zero_to_kernel.Shell.Readline.Gaps.{take-suc, stretch-nil, stretch-cons}
use zero_to_kernel.Shell.Readline.Chars.{
  with_char, without_char, length-with_char, length-without_char, with_char_lem, without_char_lem,
  stretch-with_char, take-stretch, left_lem, take-set, get_or-with_char, get_or-without_char,
}
use zero_to_kernel.Shell.Readline.Recall.{strncpy_whole}
use zero_to_kernel.Shell.Readline.Display.{putchar-Shows, writestring-Shows, set_cell-IsValid}
use zero_to_kernel.Shell.Readline.Views.{
  IsPlain, view_of, press, view, IsHistory, IsLine, Edits, no_tab, no_nul, edits, length-before,
  length-after, stay, view_eq, end_pos, get_or_end, length-get_or,
}

-- What a key needs: a character key is printable.
abbrev pub IsKey : Key → Type 0
IsKey (char_key c) = IsPlain c
IsKey k = Unit

module _ (fuel len : ℕ) (hist : List Buffer) where
  size_of :
      (l : Line) → IsLine len hist l → length (view l).before + length (view l).after ≡ l.line_len
  size_of l v = omega (arith, length-before l len hist v, length-after l len hist v, v.inside)

  insert_char-Edits :
      (c : ℕ) (l : Line)
      → IsPlain c
      → IsLine len hist l
      → Edits len hist (insert_char fuel len c l) (press len hist (char_key c) (view l))
  unfolding insert_char press stretch view
  insert_char-Edits c l plain v = elim (Bool-cases (ltb l.line_len (len - 1))) [
    | inl room ↦
        let fits : l.line_len + 1 < length l.buf = ground (arith, room, v.sized) in
        let b = with_char l.cursor_pos l.line_len c l.buf in
        let out = stretch-with_char l.cursor_pos l.line_len c l.buf v.inside fits in
        let tail = no_tab (c ∷ stretch l.cursor_pos l.line_len l.buf) (plain, v.plain_after) in
        let (s, e, shown) =
          writestring-Shows fuel (c ∷ stretch l.cursor_pos l.line_len l.buf) l.screen tail
            v.shown in
        let law = with_char_lem l.cursor_pos l.line_len c l.buf v.inside fits in
        rw (size_of l v, room, out, e)
          (edits len hist _ _ _ refl (view_eq law.0 law.1 refl)
            (length-with_char l.cursor_pos l.line_len c l.buf ∙ v.sized) (ground (arith, room))
            (omega (arith, v.inside))
            (ground (
              arith,
              get_or-with_char l.cursor_pos l.line_len c (l.line_len + 1) l.buf v.inside fits,
            ))
            v.placed (All-append IsPlain _ _ v.plain_before (plain, tt)) v.plain_after
            (set_cell-IsValid _ s shown))
    | inr full ↦ rw (size_of l v, full) (stay len hist l _ v refl)
  ]

  erase-Edits :
      (l : Line)
      → IsLine len hist l
      → Edits len hist (erase fuel l) (press len hist erase_key (view l))
  unfolding erase press stretch view
  erase-Edits l v = elim (Bool-cases (ltb 0 l.cursor_pos)) [
    | inl some_before ↦
        let p = l.cursor_pos - 1 in
        let n = l.line_len - 1 in
        let b = without_char p n l.buf in
        let low : p ≤ n = ground (arith, v.inside) in
        let room : n < length l.buf = ground (arith, v.sized, v.ended) in
        let p_on : p + 1 ≡ l.cursor_pos = ground (arith, some_before) in
        let n_on : n + 1 ≡ l.line_len = ground (arith, some_before, v.inside) in
        let law = without_char_lem p n l.buf low room in
        let behind : stretch p n b ≡ stretch l.cursor_pos l.line_len l.buf =
          law.1 ∙ rw (p_on, n_on) refl in
        let (s₁, e₁, v₁) = putchar-Shows fuel 8 l.screen (omega arith) v.shown in
        let (s₂, e₂, v₂) =
          writestring-Shows fuel (stretch l.cursor_pos l.line_len l.buf) s₁ (no_tab _ v.plain_after)
            v₁ in
        let (s₃, e₃, v₃) = putchar-Shows fuel 32 s₂ (omega arith) v₂ in
        let front =
          (left_lem l.cursor_pos l.line_len l.buf v.inside (omega (arith, v.sized, v.ended))).0 in
        rw (some_before, e₁, behind, e₂, e₃)
          (edits len hist _ _ _ refl (view_eq (law.0 ∙ sym front) behind refl)
            (length-without_char p n l.buf ∙ v.sized) (omega (arith, v.ended, n_on)) low
            (ground (arith, get_or-without_char p n n l.buf low room)) v.placed
            (All-take IsPlain _ _ v.plain_before) v.plain_after (set_cell-IsValid _ s₃ v₃))
    | inr none_before ↦
        let p_off : l.cursor_pos - 1 ≡ l.cursor_pos = ground (arith, none_before) in
        let front =
          (left_lem l.cursor_pos l.line_len l.buf v.inside (omega (arith, v.sized, v.ended))).0 in
        rw none_before
          (stay len hist l _ v (view_eq (sym (front ∙ ap (λ t. take t l.buf) p_off)) refl refl))
  ]

  go_left-Edits :
      (l : Line)
      → IsLine len hist l
      → Edits len hist (some (go_left l)) (press len hist left_key (view l))
  unfolding go_left press view
  go_left-Edits l v =
      let fits : l.line_len ≤ length l.buf = omega (arith, v.sized, v.ended) in
      let (front, behind) = left_lem l.cursor_pos l.line_len l.buf v.inside fits in
      elim (Bool-cases (ltb 0 l.cursor_pos)) [
        | inl some_before ↦ rw some_before (
            edits len hist _ _ _ refl (view_eq (sym front) (sym behind) refl) v.sized v.ended
              (omega (arith, v.inside)) v.closed v.placed (All-take IsPlain _ _ v.plain_before)
              (All-append IsPlain _ _ (All-drop IsPlain _ _ v.plain_before) v.plain_after)
              (set_cell-IsValid _ l.screen v.shown))
        | inr none_before ↦
            let p_off : l.cursor_pos - 1 ≡ l.cursor_pos = ground (arith, none_before) in
            rw none_before (
              stay len hist l _ v (
                view_eq (sym (front ∙ ap (λ t. take t l.buf) p_off))
                  (sym (behind ∙ ap (λ t. stretch t l.line_len l.buf) p_off)) refl))
      ]

  go_right-Edits :
      (l : Line)
      → IsLine len hist l
      → Edits len hist (some (go_right l)) (press len hist right_key (view l))
  unfolding go_right press view
  go_right-Edits l v = elim (Bool-cases (ltb l.cursor_pos l.line_len)) [
    | inl some_after ↦
        let low : l.cursor_pos < l.line_len = ground (arith, some_after) in
        let first =
          stretch-cons l.cursor_pos l.line_len l.buf low (omega (arith, v.sized, v.ended)) in
        let char = take-suc l.cursor_pos l.buf (omega (arith, low, v.sized, v.ended)) in
        rw some_after (
          edits len hist _ _ _ refl (view_eq (char ∙ rw first refl) (rw first refl) refl) v.sized
            v.ended (omega (arith, low)) v.closed v.placed
            (All-append IsPlain _ _ v.plain_before (All-take IsPlain 1 _ v.plain_after))
            (All-drop IsPlain 1 _ v.plain_after) (set_cell-IsValid _ l.screen v.shown))
    | inr none_after ↦
        let at_end : l.line_len ≡ l.cursor_pos = ground (arith, none_after, v.inside) in
        let nothing : stretch l.cursor_pos l.line_len l.buf ≡ [] =
          ap (λ t. stretch l.cursor_pos t l.buf) at_end ∙ stretch-nil l.cursor_pos l.buf in
        rw none_after
          (stay len hist l _ v (view_eq (sym (rw nothing (append-nil _))) (rw nothing refl) refl))
  ]

  enter-Edits :
      (l : Line)
      → IsLine len hist l
      → Edits len hist (enter fuel l) (press len hist enter_key (view l))
  unfolding enter press view
  enter-Edits l v =
      let fits : l.line_len ≤ length l.buf = omega (arith, v.sized, v.ended) in
      let (s₁, e₁, v₁) =
        writestring-Shows fuel _ l.screen
          (no_tab (stretch l.cursor_pos l.line_len l.buf) v.plain_after) v.shown in
      let (s₂, e₂, v₂) = putchar-Shows fuel 10 s₁ (omega arith) v₁ in
      let whole =
        take-set l.line_len l.line_len 0 l.buf (omega arith)
        ∙ take-stretch l.cursor_pos l.line_len l.buf v.inside fits in
      rw (e₁, e₂, end_pos l.cursor_pos l.line_len v.inside)
        (edits len hist _ _ _ refl (view_eq whole (stretch-nil l.line_len _) refl)
          (length-set l.buf l.line_len 0 ∙ v.sized) v.ended (omega arith)
          (get_or-set_self l.buf l.line_len 0 0 (omega (arith, v.sized, v.ended))) v.placed
          (All-append IsPlain _ _ v.plain_before v.plain_after) tt v₂)

  load_history-Edits :
      (i : ℕ) (l : Line)
      → IsHistory len hist
      → i ≤ length hist
      → IsLine len hist l
      → Edits len hist (load_history fuel len hist i l) (view_of (get_or hist i []) [] i)
  unfolding load_history view
  load_history-Edits i l past placed v =
      let home = cells_back l.cursor_pos (cell l.screen) in
      let (s₁, e₁, v₁) =
        writestring-Shows fuel (replicate l.line_len 32) (set_cell home l.screen)
          (All-replicate (λ c. c ≢ 9) l.line_len 32 (omega arith))
          (set_cell-IsValid home l.screen v.shown) in
      let v₂ = set_cell-IsValid home s₁ v₁ in
      elim (Bool-cases (i == length hist)) [
        | inl newest ↦
            let nothing : get_or hist i [] ≡ [] = get_or_end hist i (ground (arith, newest)) in
            rw (e₁, newest, nothing)
              (edits len hist _ _ _ refl (view_eq refl (stretch-nil 0 (set l.buf 0 0)) refl)
                (length-set l.buf 0 0 ∙ v.sized) (omega (arith, v.ended)) (omega arith)
                (get_or-set_self l.buf 0 0 0 (omega (arith, v.sized, v.ended))) placed tt tt v₂)
        | inr older ↦
            let h = get_or hist i [] in
            let plain = All-get_or IsPlain hist i past.0 in
            let short : length h < len = length-get_or len hist i past.1 (omega (arith, v.ended)) in
            let (long, text, closed, size) =
              strncpy_whole l.buf h (len - 1) (no_nul h plain) (omega (arith, short))
                (omega (arith, v.sized, short)) in
            let (s₂, e₂, v₃) = writestring-Shows fuel h (set_cell home s₁) (no_tab h plain) v₂ in
            rw (e₁, older, long, text, e₂)
              (edits len hist _ _ _ refl (view_eq text (stretch-nil (length h) _) refl)
                (size ∙ v.sized) short (omega arith) closed placed plain tt v₃)
      ]

  recall-Edits :
      (b : Bool) (i : ℕ) (l : Line)
      → IsHistory len hist
      → IsLine len hist l
      → (b ≡ true → i ≤ length hist)
      → Edits len hist
          (if b then load_history fuel len hist i l else some l)
          (if b then view_of (get_or hist i []) [] i else view l)
  recall-Edits true i l past v placed = load_history-Edits i l past (placed refl) v
  recall-Edits false i l past v placed = stay len hist l _ v refl

  pub edit-Edits :
      (k : Key) (l : Line)
      → IsKey k
      → IsHistory len hist
      → IsLine len hist l
      → Edits len hist (edit fuel len hist k l) (press len hist k (view l))
  unfolding edit
  edit-Edits enter_key l key past v = enter-Edits l v
  edit-Edits erase_key l key past v = erase-Edits l v
  edit-Edits left_key l key past v = go_left-Edits l v
  edit-Edits right_key l key past v = go_right-Edits l v
  edit-Edits up_key l key past v =
      unfold press view in
      recall-Edits (ltb 0 l.history_idx) (l.history_idx - 1) l past v (λ h. omega (arith, v.placed))
  edit-Edits down_key l key past v =
      unfold press view in
      recall-Edits (ltb l.history_idx (length hist)) (l.history_idx + 1) l past v
        (λ h. ground (arith, h))
  edit-Edits (char_key c) l key past v = insert_char-Edits c l key v
  edit-Edits other_key l key past v = unfold press in stay len hist l _ v refl
