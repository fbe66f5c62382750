-- ===== src/Keyboard/Lines.antt =====
-- keyboard_readline: the bound on what it stores, and what it stores for plain text.
use zero_to_kernel.Prelude.{
  ℕ, ◌+◌, ◌-◌, ◌≤◌, ◌<◌, ◌≡◌, ◌≢◌, refl, ◌∙◌, subst, inl, inr, true, false, Option, none, some,
  List, [], ◌∷◌, ◌++◌, arith, ◌==◌, ltb, Bool-cases, length, take, All, length-append, length-take,
}
use mathlib.Core.List.{append-nil, append_assoc}
use zero_to_kernel.Keyboard.{Line, readline_loop, keyboard_readline}

abbrev Within : ℕ → Option Line → Type 0
Within room none = Unit
Within room (some l) = length l.text ≤ room

readline_loop-Within :
    (room : ℕ) (keys buf out : List ℕ)
    → length buf ≤ room
    → Within room (readline_loop room keys buf out)
unfolding readline_loop
readline_loop-Within room [] buf out h = ground arith
readline_loop-Within room (c ∷ keys) buf out h = elim (Bool-cases (ltb (length buf) room)) [
  | inr full ↦ rw full h
  | inl free ↦ ground (
    arith,
    free,
    readline_loop-Within room keys (take (length buf - 1) buf) (out ++ 8 ∷ []),
    readline_loop-Within room keys buf out,
    readline_loop-Within room keys (buf ++ c ∷ []) (out ++ c ∷ []),
    length-append buf (c ∷ []),
    length-take (length buf - 1) buf,
  )
]

-- A line read into a buffer of `len` bytes leaves room for its terminator.
pub keyboard_readline_bound :
    (len : ℕ) (keys : List ℕ) (l : Line)
    → 0 < len
    → keyboard_readline len keys ≡ some l
    → length l.text < len
unfolding keyboard_readline
keyboard_readline_bound len keys l h e =
    let w = subst (Within (len - 1)) e (readline_loop-Within (len - 1) keys [] [] (omega arith)) in
    omega (arith, w)

-- A character that readline takes as text, and that is no tab.
abbrev pub IsText : ℕ → Type 0
IsText c = (c ≢ 8) × (c ≢ 9) × (c ≢ 10) × (c ≢ 13)

readline_loop-typed :
    (room : ℕ) (s buf out rest : List ℕ)
    → All IsText s
    → length buf + length s < room
    → readline_loop room (s ++ 13 ∷ rest) buf out
      ≡ some (record { text = buf ++ s; echo = out ++ s ++ 10 ∷ []; rest = rest })
unfolding readline_loop
readline_loop-typed room [] buf out rest all h =
    let fits : ltb (length buf) room ≡ true = ground arith in
    rw (fits, append-nil buf, append-nil out) refl
readline_loop-typed room (c ∷ s) buf out rest all h =
    let fits : ltb (length buf) room ≡ true = ground arith in
    let not_lf : (c == 10) ≡ false = ground (arith, all.0) in
    let not_cr : (c == 13) ≡ false = ground (arith, all.0) in
    let not_bs : (c == 8) ≡ false = ground (arith, all.0) in
    let no_tab : (c == 9) ≡ false = ground (arith, all.0) in
    rw (fits, not_lf, not_cr, not_bs, no_tab)
      (readline_loop-typed room s (buf ++ c ∷ []) (out ++ c ∷ []) rest all.1
          (omega (arith, length-append buf (c ∷ [])))
        ∙ rw (append_assoc buf (c ∷ []) s, append_assoc out (c ∷ []) s) refl)

-- Text without tabs, backspaces and line ends, ended by Enter, that is shorter than the buffer is stored and
-- echoed as typed, and the keys behind Enter are left.
pub keyboard_readline_typed :
    (len : ℕ) (s rest : List ℕ)
    → All IsText s
    → length s + 1 < len
    → keyboard_readline len (s ++ 13 ∷ rest)
      ≡ some (record { text = s; echo = s ++ 10 ∷ []; rest = rest })
unfolding keyboard_readline
keyboard_readline_typed len s rest all h =
    readline_loop-typed (len - 1) s [] [] rest all (omega arith)
