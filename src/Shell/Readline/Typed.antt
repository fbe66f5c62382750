-- ===== src/Shell/Readline/Typed.antt =====
-- What the shell gets for plain text, and the lines of its history.
use zero_to_kernel.Prelude.{
  ℕ, zero, suc, ◌+◌, ◌-◌, ◌≤◌, ◌<◌, ◌≡◌, refl, ◌∙◌, sym, ap, inl, inr, true, false, ◌&&◌, ◌||◌,
  some, List, [], ◌∷◌, ◌++◌, ◌==◌, ltb, leb, arith, Bool-cases, length, take, All, All-map,
  All-append, All-take, All-drop, take_all, length-append, length-take,
}
use mathlib.Core.List.{append-nil, append_assoc}
use zero_to_kernel.Text.{Buffer}
use zero_to_kernel.Text.Strings.{c_string}
use zero_to_kernel.Screen.{Screen}
use zero_to_kernel.Screen.Cursor.{IsValid}
use zero_to_kernel.Shell.Readline.{Line, char_key, key_of, shell_readline}
use zero_to_kernel.Shell.{skip_spaces}
use zero_to_kernel.Shell.History.{Log, history_max, shell_step, add_line, shift_lem}
use zero_to_kernel.Shell.Readline.Views.{IsPlain, view_of, press, IsHistory, view_eq}
use zero_to_kernel.Shell.Readline.Session.{presses, IsEnter, text_of, shell_readline_lem}

key_of-plain : (c : ℕ) → IsPlain c → key_of c ≡ char_key c
unfolding key_of
key_of-plain c h =
    let e₁ : (c == 10 || c == 13) ≡ false = ground (arith, h) in
    let e₂ : (c == 8 || c == 127) ≡ false = ground (arith, h) in
    let e₃ : (c == 0x14) ≡ false = ground (arith, h) in
    let e₄ : (c == 0x13) ≡ false = ground (arith, h) in
    let e₅ : (c == 0x11) ≡ false = ground (arith, h) in
    let e₆ : (c == 0x12) ≡ false = ground (arith, h) in
    let e₇ : (leb 32 c && ltb c 127) ≡ true = ground (arith, h) in
    rw (e₁, e₂, e₃, e₄, e₅, e₆, e₇) refl

take_cut : (n : ℕ) (xs ys : List ℕ) → n ≤ length xs → take n (xs ++ ys) ≡ take n xs
take_cut zero xs ys h = refl
take_cut (suc n) [] ys h = absurd (omega arith)
take_cut (suc n) (z ∷ xs) ys h = ap (λ t. z ∷ t) (take_cut n xs ys (omega arith))

pub presses-plain :
    (len : ℕ) (hist : List Buffer) (typed before : List ℕ) (i : ℕ)
    → All IsPlain typed
    → length before ≤ len - 1
    → presses len hist typed (view_of before [] i) ≡ view_of (take (len - 1) (before ++ typed)) [] i
unfolding presses press
presses-plain len hist [] before i plain h =
    rw (append-nil before, take_all (len - 1) before h) refl
presses-plain len hist (c ∷ typed) before i plain h =
    rw (key_of-plain c plain.0) (elim (Bool-cases (ltb (length before + 0) (len - 1))) [
      | inl room ↦
          let fits : length (before ++ c ∷ []) ≤ len - 1 =
            ground (arith, room, length-append before (c ∷ [])) in
          rw room (
            presses-plain len hist typed (before ++ c ∷ []) i plain.1 fits
            ∙ rw (append_assoc before (c ∷ []) typed) refl)
      | inr full ↦
          let end : len - 1 ≤ length before = ground (arith, full) in
          rw full (
            presses-plain len hist typed before i plain.1 h
            ∙ view_eq
                (take_cut (len - 1) before typed end
                  ∙ sym (take_cut (len - 1) before (c ∷ typed) end))
                refl refl)
    ])

-- Printable characters and Enter give these characters, cut to what fits into the buffer.
pub shell_readline_typed :
    (fuel len : ℕ) (hist : List Buffer) (b : Buffer) (typed : List ℕ) (c : ℕ) (rest : List ℕ)
    (s : Screen)
    → IsHistory len hist
    → length b ≡ len
    → 0 < len
    → IsValid s
    → All IsPlain typed
    → IsEnter c
    → (l : Line) × (shell_readline fuel len hist b (typed ++ c ∷ rest) s ≡ some (l, rest))
      × (c_string l.buf ≡ take (len - 1) typed)
shell_readline_typed fuel len hist b typed c rest s past sized pos valid plain end =
    let going = All-map typed (λ k (h : IsPlain k). (omega (arith, h), omega (arith, h))) plain in
    let (l, e, text, short, printable, shown) =
      shell_readline_lem fuel len hist past b typed c rest s sized pos valid going end in
    (
      l,
      e,
      text
          ∙ ap text_of (presses-plain len hist typed [] (length hist) plain (omega arith))
          ∙ append-nil _,
    )

skip_spaces-All : (P : ℕ → Type 0) (line : List ℕ) → All P line → All P (skip_spaces line)
unfolding skip_spaces
skip_spaces-All P [] all = tt
skip_spaces-All P (c ∷ line) all = elim (Bool-cases (c == 32 || c == 9)) [
  | inl blank ↦ rw blank (skip_spaces-All P line all.1)
  | inr text ↦ rw text all
]

-- The lines that the shell reads keep its history printable, with lines shorter than their 256 bytes.
pub shell_step-IsHistory :
    (line : List ℕ) (log : Log)
    → All IsPlain line
    → IsHistory 256 log.shell_history
    → IsHistory 256 (shell_step line log).0.shell_history
unfolding shell_step add_line
shell_step-IsHistory line log plain past = elim (Bool-cases (length (skip_spaces line) == 0)) [
  | inl blank ↦ rw blank past
  | inr text ↦
      let kept = skip_spaces-All IsPlain line plain in
      let cut = All-take IsPlain 255 _ kept in
      let short : length (take 255 (skip_spaces line)) < 256 =
        omega (arith, length-take 255 (skip_spaces line)) in
      rw text (elim (Bool-cases (ltb (length log.shell_history) history_max)) [
        | inl room ↦
            rw room (All-append _ _ _ past.0 (cut, tt), All-append _ _ _ past.1 (short, tt))
        | inr full ↦
            rw (full, shift_lem log.shell_history)
              (
                All-append _ _ _ (All-drop _ 1 _ past.0) (cut, tt),
                All-append _ _ _ (All-drop _ 1 _ past.1) (short, tt),
              )
      ])
]
