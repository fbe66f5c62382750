-- ===== src/Screen/Output/Formats.antt =====
-- The formats that the shell prints: a format whose letters have their arguments gives a text without tabs.
use zero_to_kernel.Prelude.{
  ℕ, zero, suc, ◌-◌, ◌/◌, ◌%◌, ◌≤◌, ◌<◌, ◌≡◌, ◌≢◌, refl, inl, inr, Bool, true, false, ◌&&◌, not,
  Option, none, some, List, [], ◌∷◌, ◌++◌, ◌==◌, if◌then◌else◌, arith, Bool-cases, if_both, All,
  All-map, All-append, All-replicate, length, subst,
}
use mathlib.Core.Option
use zero_to_kernel.Text.{word, digit, digits_loop, digits_fuel, utoa, itoa}
use zero_to_kernel.Text.Numbers.{atoi-itoa, atoi-utoa}
use zero_to_kernel.Screen.Printf.{
  Arg, num, str, text, Spec, no_spec, fill_up, field, in_field, convert, takes_arg, take_arg, step,
  printf_loop,
}

abbrev pub NoTab : List ℕ → Type 0
NoTab s = All (λ c. c ≢ 9) s

-- A text that is there and has no tab.
abbrev pub IsText : Option (List ℕ) → Type 0
IsText o = (t : List ℕ) × (o ≡ some t) × All (λ c. c ≢ 9) t

-- No byte below the sign.
abbrev Above : List ℕ → Type 0
Above s = All (λ c. 45 ≤ c) s

digit-above : (r : ℕ) → 45 ≤ digit r
unfolding digit
digit-above r = ground arith

digits_loop-Above :
    (k base v : ℕ) (out s : List ℕ) → Above out → digits_loop k base v out ≡ some s → Above s
unfolding digits_loop
digits_loop-Above zero base v out s h e = cc
digits_loop-Above (suc k) base v out s h e = elim (Bool-cases (v == 0)) [
  | inl z ↦
      let same : some out ≡ some s =
        subst
          (λ b.
            (if b then some out else digits_loop k base (v / base) (digit (v % base) ∷ out))
            ≡ some s)
          z e in
      let eq : out ≡ s = cc in subst Above eq h
  | inr more ↦
      digits_loop-Above k base (v / base) (digit (v % base) ∷ out) s (digit-above (v % base), h)
        (subst
          (λ b.
            (if b then some out else digits_loop k base (v / base) (digit (v % base) ∷ out))
            ≡ some s)
          more e)
]

no_tabs : (s : List ℕ) → Above s → All (λ c. c ≢ 9) s
no_tabs s h = All-map s (λ c (a : 45 ≤ c). omega (arith, a)) h

-- A number that has all its digits has them in a text.
AboveAll : Option (List ℕ) → Type 0
AboveAll o = (s : List ℕ) → o ≡ some s → Above s

signed-above :
    (b : Bool) (o : Option (List ℕ))
    → AboveAll o
    → AboveAll (Option.map (λ ds. if b then 45 ∷ ds else ds) o)
unfolding AboveAll
signed-above b none h s e = cc
signed-above b (some ds) h s e =
    let eq : (if b then 45 ∷ ds else ds) ≡ s = cc in
    subst Above eq (if_both Above b _ _ (omega arith, h ds refl) (h ds refl))

utoa-above : (v : ℕ) → AboveAll (utoa v 10)
unfolding utoa AboveAll
utoa-above v =
    if_both AboveAll (v == 0) _ _ (λ s e. let eq : 48 ∷ [] ≡ s = cc in subst Above eq (omega arith))
      (λ s e. digits_loop-Above digits_fuel 10 v [] s tt e)

itoa-above : (v : ℕ) → AboveAll (itoa v 10)
unfolding itoa AboveAll
itoa-above v =
    if_both AboveAll _ _ _
      (λ s (e : some (48 ∷ []) ≡ some s). let eq : 48 ∷ [] ≡ s = cc in subst Above eq (omega arith))
      (signed-above _ _ (λ s e. digits_loop-Above digits_fuel 10 _ [] s tt e))

utoa-IsText : (v : ℕ) → v < word → IsText (utoa v 10)
unfolding AboveAll
utoa-IsText v fits = let (s, e, _) = atoi-utoa v fits in (s, e, no_tabs s (utoa-above v s e))

itoa-IsText : (v : ℕ) → v < word → IsText (itoa v 10)
unfolding AboveAll
itoa-IsText v fits = let (s, e, _) = atoi-itoa v fits in (s, e, no_tabs s (itoa-above v s e))

-- What a format prints from text on.
abbrev pub Prints : List ℕ → List Arg → Type 0
Prints fmt args = IsText (printf_loop fmt text no_spec args)

-- A byte of a format that is printed as it is.
unfoldable pub literals : List ℕ → Bool
literals [] = true
literals (c ∷ s) = not (c == b'%') && not (c == 9) && literals s

more-IsText :
    (s : List ℕ) (o : Option (List ℕ))
    → All (λ c. c ≢ 9) s
    → IsText o
    → IsText (Option.map (λ out. s ++ out) o)
more-IsText s o h (t, e, plain) = rw e (s ++ t, refl, All-append _ s t h plain)

pub format-end : (args : List Arg) → Prints [] args
unfolding printf_loop
format-end args = ([], refl, tt)

pub format-text :
    (pre fmt : List ℕ) (args : List Arg)
    → literals pre ≡ true
    → Prints fmt args
    → Prints (pre ++ fmt) args
unfolding printf_loop step literals
format-text [] fmt args h p = p
format-text (c ∷ pre) fmt args h p =
    let parts : ((c == b'%') ≡ false) × (c ≢ 9) × (literals pre ≡ true) = ground (arith, h) in
    let rest = format-text pre fmt args parts.2 p in
    rw (parts.0) (more-IsText (c ∷ []) _ (parts.1, tt) rest)

padded :
    (zeros : Bool) (spec : Spec) (s : List ℕ)
    → All (λ c. c ≢ 9) s
    → All (λ c. c ≢ 9) (field zeros spec s)
unfolding field
padded zeros spec s h =
    let P = All (λ (c : ℕ). c ≢ 9) in
    let fill : (c : ℕ) → c ≢ 9 → P (fill_up c spec s) =
      λ c n. All-replicate _ (spec.width - length s) c n in
    All-append _ _ _
      (if_both P zeros _ _ (fill 48 (omega arith))
        (if_both P spec.left_justify _ _ tt (fill 32 (omega arith))))
      (All-append _ _ _ h (if_both P spec.left_justify _ _ (fill 32 (omega arith)) tt))

pub format-d :
    (v : ℕ) (fmt : List ℕ) (args : List Arg)
    → v < word
    → Prints fmt args
    → Prints (b'%' ∷ b'd' ∷ fmt) (num v ∷ args)
unfolding printf_loop step take_arg takes_arg convert in_field
format-d v fmt args fits p =
    let (s, e, plain) = itoa-IsText v fits in
    rw e (more-IsText [] _ tt (more-IsText _ _ (padded _ no_spec s plain) p))

pub format-u :
    (v : ℕ) (fmt : List ℕ) (args : List Arg)
    → v < word
    → Prints fmt args
    → Prints (b'%' ∷ b'u' ∷ fmt) (num v ∷ args)
unfolding printf_loop step take_arg takes_arg convert in_field
format-u v fmt args fits p =
    let (s, e, plain) = utoa-IsText v fits in
    rw e (more-IsText [] _ tt (more-IsText _ _ (padded _ no_spec s plain) p))

pub format-s :
    (s fmt : List ℕ) (args : List Arg)
    → All (λ c. c ≢ 9) s
    → Prints fmt args
    → Prints (b'%' ∷ b's' ∷ fmt) (str s ∷ args)
unfolding printf_loop step take_arg takes_arg convert in_field
format-s s fmt args plain p = more-IsText [] _ tt (more-IsText _ _ (padded false no_spec s plain) p)

pub format-02d :
    (v : ℕ) (fmt : List ℕ) (args : List Arg)
    → v < word
    → Prints fmt args
    → Prints (b'%' ∷ b'0' ∷ b'2' ∷ b'd' ∷ fmt) (num v ∷ args)
unfolding printf_loop step take_arg takes_arg convert in_field
format-02d v fmt args fits p =
    let (s, e, plain) = itoa-IsText v fits in
    rw e (
      more-IsText [] _ tt
        (more-IsText [] _ tt (more-IsText [] _ tt (more-IsText _ _ (padded _ _ s plain) p))))

pub format-24s :
    (s fmt : List ℕ) (args : List Arg)
    → All (λ c. c ≢ 9) s
    → Prints fmt args
    → Prints (b'%' ∷ b'-' ∷ b'2' ∷ b'4' ∷ b's' ∷ fmt) (str s ∷ args)
unfolding printf_loop step take_arg takes_arg convert in_field
format-24s s fmt args plain p = more-IsText [] _ tt (
    more-IsText [] _ tt
      (more-IsText [] _ tt (more-IsText [] _ tt (more-IsText _ _ (padded _ _ s plain) p))))
