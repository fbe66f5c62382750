-- ===== src/Screen/Output/Lines.antt =====
-- Calls of the terminal that are plain: literals, and formats with one argument.
use zero_to_kernel.Prelude.{
  ℕ, ◌<◌, ◌≡◌, ◌≢◌, refl, ◌∙◌, ap, Bool, true, false, ◌&&◌, List, [], ◌∷◌, ◌++◌, arith, All,
  All-append, subst,
}
use mathlib.Core.List.{append-nil}
use zero_to_kernel.Text.{word}
use zero_to_kernel.Screen.Printf.{Arg, num, str, terminal_printf}
use zero_to_kernel.Screen.Output.{Call, set_color, clear, format, write, text_of}
use zero_to_kernel.Screen.Output.Calls.{IsPlain, color_after, color_after-append}
use zero_to_kernel.Screen.Output.Formats.{
  format-text, format-s, format-u, format-d, literals, format-end, NoTab, Prints,
}

pub format-IsPlain : (fmt : List ℕ) (args : List Arg) → Prints fmt args → IsPlain (format fmt args)
unfolding text_of terminal_printf
format-IsPlain fmt args (t, e, plain) = record { text = t; is = e; no_tab = plain }

literals-plain : (s : List ℕ) → literals s ≡ true → All (λ c. c ≢ 9) s
unfolding literals
literals-plain [] h = tt
literals-plain (c ∷ s) h =
    let parts : (c ≢ 9) × (literals s ≡ true) = ground (arith, h) in
    (parts.0, literals-plain s parts.1)

pub write-IsPlain : (bs : List ℕ) → All (λ c. c ≢ 9) bs → IsPlain (write bs)
unfolding text_of
write-IsPlain bs plain = record { text = bs; is = refl; no_tab = plain }

pub literal-IsPlain : (bs : List ℕ) → literals bs ≡ true → IsPlain (write bs)
literal-IsPlain bs h = write-IsPlain bs (literals-plain bs h)

pub set_color-IsPlain : (fg bg : ℕ) → IsPlain (set_color fg bg)
unfolding text_of
set_color-IsPlain fg bg = record { text = []; is = refl; no_tab = tt }

pub clear-IsPlain : IsPlain clear
unfolding text_of
clear-IsPlain = record { text = []; is = refl; no_tab = tt }

-- Calls that are plain whatever the state is.
unfoldable pub fixed : List Call → Bool
fixed [] = true
fixed (set_color fg bg ∷ cs) = fixed cs
fixed (clear ∷ cs) = fixed cs
fixed (format fmt args ∷ cs) = false
fixed (write bs ∷ cs) = literals bs && fixed cs

-- Fixed calls in front of others.
pub fixed-append :
    (cs rest : List Call) → fixed cs ≡ true → All IsPlain rest → All IsPlain (cs ++ rest)
unfolding fixed
fixed-append [] rest h p = p
fixed-append (set_color fg bg ∷ cs) rest h p = (set_color-IsPlain fg bg, fixed-append cs rest h p)
fixed-append (clear ∷ cs) rest h p = (clear-IsPlain, fixed-append cs rest h p)
fixed-append (format fmt args ∷ cs) rest h p = cc
fixed-append (write bs ∷ cs) rest h p =
    let parts : (literals bs ≡ true) × (fixed cs ≡ true) = ground (arith, h) in
    (literal-IsPlain bs parts.0, fixed-append cs rest parts.1 p)

-- A list of calls that are plain whatever the state is.
pub fixed-IsPlain : (cs : List Call) → fixed cs ≡ true → All IsPlain cs
fixed-IsPlain cs h = subst (All IsPlain) (append-nil cs) (fixed-append cs [] h tt)

-- A line with one number in it.
pub unsigned_line :
    (pre post : List ℕ) (v : ℕ)
    → literals pre ≡ true
    → literals post ≡ true
    → v < word
    → IsPlain (format (pre ++ b'%' ∷ b'u' ∷ (post ++ [])) (num v ∷ []))
unsigned_line pre post v h k fits =
    format-IsPlain _ _
      (format-text pre _ _ h (format-u v _ _ fits (format-text post [] [] k (format-end []))))

pub int_line :
    (pre post : List ℕ) (v : ℕ)
    → literals pre ≡ true
    → literals post ≡ true
    → v < word
    → IsPlain (format (pre ++ b'%' ∷ b'd' ∷ (post ++ [])) (num v ∷ []))
int_line pre post v h k fits =
    format-IsPlain _ _
      (format-text pre _ _ h (format-d v _ _ fits (format-text post [] [] k (format-end []))))

pub string_line :
    (pre post s : List ℕ)
    → literals pre ≡ true
    → literals post ≡ true
    → NoTab s
    → IsPlain (format (pre ++ b'%' ∷ b's' ∷ (post ++ [])) (str s ∷ []))
string_line pre post s h k plain =
    format-IsPlain _ _
      (format-text pre _ _ h (format-s s _ _ plain (format-text post [] [] k (format-end []))))

-- The calls are plain, and leave the colour `c` if it was set before.
abbrev pub Leaves : ℕ → List Call → Type 0
Leaves c cs = All IsPlain cs × (color_after cs c ≡ c)

-- Calls that leave the colour, one behind the other.
pub Leaves-append : (c : ℕ) (xs ys : List Call) → Leaves c xs → Leaves c ys → Leaves c (xs ++ ys)
Leaves-append c xs ys a b =
    (All-append IsPlain xs ys a.0 b.0, color_after-append xs ys c ∙ ap (color_after ys) a.1 ∙ b.1)
