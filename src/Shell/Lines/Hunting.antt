-- ===== src/Shell/Lines/Hunting.antt =====
-- What hunt prints, and when mini_strstr finds a word.
use zero_to_kernel.Prelude.{
  ℕ, ◌+◌, ◌<◌, ◌≡◌, ◌↔◌, refl, ap, ap₂, inl, inr, true, false, List, [], ◌∷◌, ◌++◌, if◌then◌else◌,
  length, ltb, ◌==◌, arith, Bool-cases,
}
use zero_to_kernel.Fs.{Text}
use zero_to_kernel.Shell.Lines.{
  Line, newline_char, mini_strstr, starts_with, hunt_loop, cmd_hunt, search_from,
}
use zero_to_kernel.Shell.Lines.Numbering.{lines_from}

-- The lines that contain a word.
unfoldable pub lines_with : Text → List Line → List Line
lines_with word [] = []
lines_with word ((n, l) ∷ ls) =
    let rest = lines_with word ls in if mini_strstr l word then (n, l) ∷ rest else rest

hunt_loop-lines :
    (word : Text) (n : ℕ) (start p : Text)
    → mini_strstr [] word ≡ false
    → hunt_loop word n start p ≡ lines_with word (lines_from n start p)
unfolding hunt_loop lines_from lines_with
hunt_loop-lines word n [] [] h = rw h refl
hunt_loop-lines word n (s ∷ start) [] h =
    let some_text : ltb 0 (length (s ∷ start)) ≡ true = ground arith in rw some_text refl
hunt_loop-lines word n start (c ∷ p) h = elim (Bool-cases (c == newline_char)) [
  | inl nl ↦ rw (nl, hunt_loop-lines word (n + 1) [] p h) refl
  | inr more ↦ rw more (hunt_loop-lines word n (start ++ c ∷ []) p h)
]

-- hunt prints, with their numbers, the lines in which mini_strstr finds the word.
pub cmd_hunt-lines :
    (word buf : Text) → 0 < length word → cmd_hunt word buf ≡ lines_with word (lines_from 1 [] buf)
unfolding cmd_hunt mini_strstr search_from
cmd_hunt-lines word buf some_word = hunt_loop-lines word 1 [] buf (ground arith)

-- The word occurs in the text.
pub Occurs : Text → Text → Type 0
Occurs h needle = (a : Text) × (b : Text) × (h ≡ a ++ (needle ++ b))

starts_with_lem : (h needle : Text) → starts_with h needle ≡ true → (b : Text) × (h ≡ needle ++ b)
unfolding starts_with
starts_with_lem h [] e = (h, refl)
starts_with_lem [] (n ∷ needle) e = cc
starts_with_lem (c ∷ h) (n ∷ needle) e =
    let parts : (c ≡ n) × (starts_with h needle ≡ true) = ground arith in
    let (b, rest) = starts_with_lem h needle parts.1 in (b, ap₂ ◌∷◌ parts.0 rest)

starts_with-append : (needle b : Text) → starts_with (needle ++ b) needle ≡ true
unfolding starts_with
starts_with-append [] b = refl
starts_with-append (n ∷ needle) b = ground (arith, starts_with-append needle b)

search_lem : (h needle : Text) → search_from h needle ≡ true → Occurs h needle
unfolding search_from Occurs
search_lem [] needle e = cc
search_lem (c ∷ h) needle e = elim (Bool-cases (starts_with (c ∷ h) needle)) [
  | inl here ↦ let (b, is) = starts_with_lem (c ∷ h) needle here in ([], b, is)
  | inr later ↦ let (a, b, is) = search_lem h needle (ground arith) in (c ∷ a, b, ap (◌∷◌ c) is)
]

search-append :
    (a needle b : Text) → 0 < length needle → search_from (a ++ (needle ++ b)) needle ≡ true
unfolding search_from
search-append [] [] b some_word = absurd (omega arith)
search-append [] (n ∷ needle) b some_word = rw (starts_with-append (n ∷ needle) b) refl
search-append (c ∷ a) needle b some_word = ground (arith, search-append a needle b)

-- mini_strstr finds a word that is not empty exactly when it occurs in the text.
pub mini_strstr_lem :
    (h needle : Text) → 0 < length needle → (mini_strstr h needle ≡ true) ↔ Occurs h needle
unfolding mini_strstr Occurs
mini_strstr_lem h needle some_word =
    let n : (length needle == 0) ≡ false = ground arith in
    rw n
      (search_lem h needle, λ o. let (a, b, is) = o in rw is (search-append a needle b some_word))
