-- ===== src/Shell/Readline/Session.antt =====
-- A whole line: the keys up to Enter, and the line that the shell gets.
use zero_to_kernel.Prelude.{
  ℕ, zero, suc, ◌≤◌, ◌<◌, ◌≡◌, ◌≢◌, refl, ◌∙◌, sym, ap, subst, ◌⊎◌, Bool, true, false, ◌&&◌, ◌||◌,
  Option, none, some, List, [], ◌∷◌, ◌++◌, ◌==◌, ltb, leb, if◌then◌else◌, arith, length, take, set,
  get_or, All, All-append, length-set, length-take, get_or-set_self,
}
use mathlib.Core.List.{append-nil}
use zero_to_kernel.Text.{Buffer}
use zero_to_kernel.Text.Strings.{c_string}
use zero_to_kernel.Screen.{Screen}
use zero_to_kernel.Screen.Cursor.{IsValid}
use zero_to_kernel.Shell.Readline.{
  Line, stretch, Key, enter_key, key_of, ends, edit, ◌>>=◌, readline_loop, shell_readline,
}
use zero_to_kernel.Shell.Readline.Chars.{take-stretch}
use zero_to_kernel.Shell.Readline.Views.{
  IsPlain, View, view_of, press, view, IsHistory, IsLine, no_nul,
}
use zero_to_kernel.Shell.Readline.Editing.{IsKey, edit-Edits}

-- What the editor is to do with a sequence of keys.
unfoldable pub presses : ℕ → List Buffer → List ℕ → View → View
presses len hist [] v = v
presses len hist (c ∷ keys) v = presses len hist keys (press len hist (key_of c) v)

abbrev pub IsEnter : ℕ → Type 0
IsEnter c = (c ≡ 10) ⊎ (c ≡ 13)

if_IsKey : (b : Bool) (x y : Key) → (b ≡ true → IsKey x) → IsKey y → IsKey (if b then x else y)
if_IsKey true x y hx hy = hx refl
if_IsKey false x y hx hy = hy

key_of-IsKey : (c : ℕ) → IsKey (key_of c)
unfolding key_of
key_of-IsKey c =
    if_IsKey (c == 10 || c == 13) _ _ (λ e. tt)
      (if_IsKey (c == 8 || c == 127) _ _ (λ e. tt)
        (if_IsKey (c == 0x14) _ _ (λ e. tt)
          (if_IsKey (c == 0x13) _ _ (λ e. tt)
            (if_IsKey (c == 0x11) _ _ (λ e. tt)
              (if_IsKey (c == 0x12) _ _ (λ e. tt)
                (if_IsKey (leb 32 c && ltb c 127) _ _ (λ e. (ground (arith, e), ground (arith, e)))
                  tt))))))

key_of-enter : (c : ℕ) → IsEnter c → key_of c ≡ enter_key
unfolding key_of
key_of-enter c h = let e : (c == 10 || c == 13) ≡ true = ground (arith, h) in rw e refl

if_goes_on :
    (b : Bool) (x y : Key) → ends x ≡ false → ends y ≡ false → ends (if b then x else y) ≡ false
if_goes_on true x y hx hy = hx
if_goes_on false x y hx hy = hy

goes_on : (c : ℕ) → c ≢ 10 → c ≢ 13 → ends (key_of c) ≡ false
unfolding key_of ends
goes_on c h k =
    let e : (c == 10 || c == 13) ≡ false = ground (arith, h, k) in
    rw e (
      if_goes_on (c == 8 || c == 127) _ _ refl (
        if_goes_on (c == 0x14) _ _ refl (
          if_goes_on (c == 0x13) _ _ refl (
            if_goes_on (c == 0x11) _ _ refl (
              if_goes_on (c == 0x12) _ _ refl
                (if_goes_on (leb 32 c && ltb c 127) _ _ refl refl))))))

c_string-take :
    (n : ℕ) (b : Buffer)
    → All (λ c. c ≢ 0) (take n b)
    → n < length b
    → get_or b n 0 ≡ 0
    → c_string b ≡ take n b
unfolding c_string
c_string-take n [] plain room closed = absurd (omega arith)
c_string-take zero (x ∷ b) plain room closed = rw closed refl
c_string-take (suc n) (x ∷ b) plain room closed =
    let z : (x == 0) ≡ false = ground (arith, plain.0) in
    rw z (ap (λ t. x ∷ t) (c_string-take n b plain.1 (omega arith) closed))

-- The whole text of a line with a cursor.
abbrev pub text_of : View → List ℕ
text_of v = v.before ++ v.after

pub text_of_line :
    (len : ℕ) (hist : List Buffer) (l : Line)
    → IsLine len hist l
    → (c_string l.buf ≡ text_of (view l))
      × (length (c_string l.buf) ≡ l.line_len)
      × All IsPlain (c_string l.buf)
unfolding view
text_of_line len hist l v =
    let fits : l.line_len ≤ length l.buf = omega (arith, v.sized, v.ended) in
    let split = take-stretch l.cursor_pos l.line_len l.buf v.inside fits in
    let plain =
      subst (All IsPlain) (sym split) (All-append IsPlain _ _ v.plain_before v.plain_after) in
    let text =
      c_string-take l.line_len l.buf (no_nul _ plain) (omega (arith, v.sized, v.ended)) v.closed in
    (
      text ∙ split,
      ap length text ∙ omega (arith, length-take l.line_len l.buf, fits),
      subst (All IsPlain) (sym text) plain,
    )

bind_none :
    (o : Option Line) (k : Line → Option (Line × List ℕ))
    → ((l : Line) → k l ≡ none)
    → (o >>= k) ≡ none
bind_none none k h = refl
bind_none (some l) k h = h l

module _ (fuel len : ℕ) (hist : List Buffer) (past : IsHistory len hist) where
  readline_loop_lem :
      (keys : List ℕ) (c : ℕ) (rest : List ℕ) (l : Line)
      → All (λ k. (k ≢ 10) × (k ≢ 13)) keys
      → IsEnter c
      → IsLine len hist l
      → (l' : Line) × (readline_loop fuel len hist (keys ++ c ∷ rest) l ≡ some (l', rest))
        × IsLine len hist l'
        × (view l' ≡ press len hist enter_key (presses len hist keys (view l)))
  unfolding readline_loop presses ends
  readline_loop_lem [] c rest l typing end v =
      let (l', e, v', same) = edit-Edits fuel len hist enter_key l tt past v in
      (l', rw (key_of-enter c end, ends, e) refl, v', same)
  readline_loop_lem (k ∷ keys) c rest l typing end v =
      let (l₁, e, v₁, same) = edit-Edits fuel len hist (key_of k) l (key_of-IsKey k) past v in
      let (l', e', v', same') = readline_loop_lem keys c rest l₁ typing.1 end v₁ in
      (l', rw (goes_on k typing.0.0 typing.0.1, e) e', v', rw (sym same) same')

  pub shell_readline-IsLine :
      (b : Buffer) (keys : List ℕ) (c : ℕ) (rest : List ℕ) (s : Screen)
      → length b ≡ len
      → 0 < len
      → IsValid s
      → All (λ k. (k ≢ 10) × (k ≢ 13)) keys
      → IsEnter c
      → (l : Line) × (shell_readline fuel len hist b (keys ++ c ∷ rest) s ≡ some (l, rest))
        × IsLine len hist l
        × (text_of (view l) ≡ text_of (presses len hist keys (view_of [] [] (length hist))))
  unfolding shell_readline press
  shell_readline-IsLine b keys c rest s sized pos valid typing end =
      let l₀ : Line = record {
        buf = set b 0 0;
        line_len = 0;
        cursor_pos = 0;
        history_idx = length hist;
        screen = s;
      } in
      let blank : view l₀ ≡ view_of [] [] (length hist) = unfold view stretch in refl in
      let v₀ : IsLine len hist l₀ = record {
        sized = length-set b 0 0 ∙ sized;
        ended = pos;
        inside = omega arith;
        closed = get_or-set_self b 0 0 0 (omega (arith, sized));
        placed = omega arith;
        plain_before = subst (λ w. All IsPlain w.before) (sym blank) tt;
        plain_after = subst (λ w. All IsPlain w.after) (sym blank) tt;
        shown = valid;
      } in
      let (l, e, v, same) = readline_loop_lem keys c rest l₀ typing end v₀ in
      (l, e, v, ap text_of same ∙ rw blank (append-nil _))

  -- With a history of printable lines that fit, the keys up to Enter give a line, whatever they are: the
  -- buffer holds the text that the line with a cursor has then, printable and shorter than the buffer,
  -- the keys behind Enter are left, and the cursor is still on the screen.
  pub shell_readline_lem :
      (b : Buffer) (keys : List ℕ) (c : ℕ) (rest : List ℕ) (s : Screen)
      → length b ≡ len
      → 0 < len
      → IsValid s
      → All (λ k. (k ≢ 10) × (k ≢ 13)) keys
      → IsEnter c
      → (l : Line) × (shell_readline fuel len hist b (keys ++ c ∷ rest) s ≡ some (l, rest))
        × (c_string l.buf ≡ text_of (presses len hist keys (view_of [] [] (length hist))))
        × (length (c_string l.buf) < len)
        × All IsPlain (c_string l.buf)
        × IsValid l.screen
  shell_readline_lem b keys c rest s sized pos valid typing end =
      let (l, e, v, same) = shell_readline-IsLine b keys c rest s sized pos valid typing end in
      let (whole, size, plain) = text_of_line len hist l v in
      (l, e, whole ∙ same, omega (arith, size, v.ended), plain, v.shown)

  -- Without an Enter the line goes on.
  readline_loop_waits :
      (keys : List ℕ) (l : Line)
      → All (λ k. (k ≢ 10) × (k ≢ 13)) keys
      → readline_loop fuel len hist keys l ≡ none
  unfolding readline_loop
  readline_loop_waits [] l typing = refl
  readline_loop_waits (k ∷ keys) l typing = rw (goes_on k typing.0.0 typing.0.1) (
      bind_none (edit fuel len hist (key_of k) l) (readline_loop fuel len hist keys)
        (λ l'. readline_loop_waits keys l' typing.1))

  pub shell_readline_waits :
      (b : Buffer) (keys : List ℕ) (s : Screen)
      → All (λ k. (k ≢ 10) × (k ≢ 13)) keys
      → shell_readline fuel len hist b keys s ≡ none
  unfolding shell_readline
  shell_readline_waits b keys s typing = readline_loop_waits keys _ typing
