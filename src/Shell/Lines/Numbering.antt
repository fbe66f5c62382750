-- ===== src/Shell/Lines/Numbering.antt =====
-- The lines of a text, described once, and what cnt, top and btm print of them.
use zero_to_kernel.Prelude.{
  ℕ, zero, suc, ◌+◌, ◌-◌, ◌≡◌, refl, ◌∙◌, sym, ap, inl, inr, Bool, true, false, List, [], ◌∷◌, ◌++◌,
  if◌then◌else◌, length, take, drop, get_or, ltb, leb, not, ◌==◌, arith, Bool-cases, length-append,
}
use zero_to_kernel.Fs.{Text}
use zero_to_kernel.Shell.Lines.{
  Line, newline_char, Counts, cnt_loop, open_end, cmd_cnt, top_loop, cmd_top, newlines, total_lines,
  start_line, btm_loop, cmd_btm,
}

-- The lines of a text, numbered from `n` on, with `start` in front of the first: each ends at a newline,
-- and what follows the last newline is a line if it is not empty.
unfoldable pub lines_from : ℕ → Text → Text → List Line
lines_from n start [] = if ltb 0 (length start) then (n, start) ∷ [] else []
lines_from n start (c ∷ p) =
    let next = (n, start) ∷ lines_from (n + 1) [] p in
    let same = lines_from n (start ++ c ∷ []) p in if c == newline_char then next else same

take-nil : (k : ℕ) → take {A = Line} k [] ≡ []
take-nil zero = refl
take-nil (suc k) = refl

drop-nil : (k : ℕ) → drop {A = Line} k [] ≡ []
drop-nil zero = refl
drop-nil (suc k) = refl

top_loop-lines :
    (count n k : ℕ) (start p : Text)
    → k ≡ count + 1 - n
    → top_loop count n start p ≡ take k (lines_from n start p)
unfolding top_loop lines_from
top_loop-lines count n zero start [] e = ground arith
top_loop-lines count n zero start (c ∷ p) e =
    let past : leb n count ≡ false = ground arith in rw past refl
top_loop-lines count n (suc k) start [] e =
    let here : leb n count ≡ true = ground arith in
    elim (Bool-cases (ltb 0 (length start))) [
      | inl some_text ↦ rw (here, some_text, take-nil k) refl
      | inr no_text ↦ rw (here, no_text) refl
    ]
top_loop-lines count n (suc k) start (c ∷ p) e =
    let here : leb n count ≡ true = ground arith in
    elim (Bool-cases (c == newline_char)) [
      | inl nl ↦
          rw (here, nl)
            (ap (◌∷◌ (n, start)) (top_loop-lines count (n + 1) k [] p (omega (arith, e))))
      | inr more ↦ rw (here, more) (top_loop-lines count n (suc k) (start ++ c ∷ []) p e)
    ]

-- top prints the first `count` lines.
pub cmd_top-lines : (count : ℕ) (buf : Text) → cmd_top count buf ≡ take count (lines_from 1 [] buf)
unfolding cmd_top
cmd_top-lines count buf = top_loop-lines count 1 count [] buf (omega arith)

btm_loop-lines :
    (from n k : ℕ) (start p : Text)
    → k ≡ from - n
    → btm_loop from n start p ≡ drop k (lines_from n start p)
unfolding btm_loop lines_from
btm_loop-lines from n zero start [] e = ground arith
btm_loop-lines from n (suc k) start [] e =
    let early : leb from n ≡ false = ground arith in
    elim (Bool-cases (ltb 0 (length start))) [
      | inl some_text ↦ rw (early, some_text, drop-nil k) refl
      | inr no_text ↦ rw no_text refl
    ]
btm_loop-lines from n zero start (c ∷ p) e =
    let late : leb from n ≡ true = ground arith in
    elim (Bool-cases (c == newline_char)) [
      | inl nl ↦
          rw (late, nl)
            (ap (◌∷◌ (n, start)) (btm_loop-lines from (n + 1) zero [] p (omega (arith, e))))
      | inr more ↦ rw more (btm_loop-lines from n zero (start ++ c ∷ []) p e)
    ]
btm_loop-lines from n (suc k) start (c ∷ p) e =
    let early : leb from n ≡ false = ground arith in
    elim (Bool-cases (c == newline_char)) [
      | inl nl ↦ rw (early, nl) (btm_loop-lines from (n + 1) k [] p (omega (arith, e)))
      | inr more ↦ rw more (btm_loop-lines from n (suc k) (start ++ c ∷ []) p e)
    ]

-- Whether text follows the last newline, from whether text stands before.
ends_open : Bool → Text → Bool
ends_open b [] = b
ends_open b (c ∷ p) = ends_open (not (c == newline_char)) p

ends_open-last :
    (c : ℕ) (p : Text)
    → not (get_or (c ∷ p) (length p) 0 == newline_char) ≡ ends_open (not (c == newline_char)) p
unfolding ends_open
ends_open-last c [] = refl
ends_open-last c (d ∷ p) = ends_open-last d p

open_end-ends_open : (p : Text) → open_end p ≡ ends_open false p
unfolding open_end ends_open
open_end-ends_open [] = refl
open_end-ends_open (c ∷ p) =
    let one : ltb 0 (suc (length p)) ≡ true = ground arith in
    let e : suc (length p) - 1 ≡ length p = omega arith in rw (one, e) (ends_open-last c p)

length-lines_from :
    (n : ℕ) (start p : Text)
    → length (lines_from n start p)
      ≡ newlines p + (if ends_open (ltb 0 (length start)) p then 1 else 0)
unfolding lines_from newlines ends_open
length-lines_from n start [] = ground arith
length-lines_from n start (c ∷ p) = elim (Bool-cases (c == newline_char)) [
  | inl nl ↦
      let rest : length (lines_from (n + 1) [] p)
          ≡ newlines p + (if ends_open false p then 1 else 0) =
        length-lines_from (n + 1) [] p in
      rw nl (omega (arith, rest))
  | inr more ↦
      let some_text : ltb 0 (length (start ++ c ∷ [])) ≡ true =
        ground (arith, length-append start (c ∷ [])) in
      rw more (length-lines_from n (start ++ c ∷ []) p ∙ rw some_text refl)
]

total_lines_lem : (buf : Text) → total_lines buf ≡ length (lines_from 1 [] buf)
unfolding total_lines
total_lines_lem buf = rw (open_end-ends_open buf) (sym (length-lines_from 1 [] buf))

-- btm prints the last `count` lines, with their numbers in the whole text.
pub cmd_btm-lines :
    (count : ℕ) (buf : Text)
    → cmd_btm count buf ≡ drop (length (lines_from 1 [] buf) - count) (lines_from 1 [] buf)
unfolding cmd_btm start_line
cmd_btm-lines count buf =
    btm_loop-lines (start_line count buf) 1 (length (lines_from 1 [] buf) - count) [] buf
      (ground (arith, total_lines_lem buf))

cnt_loop-lines :
    (buf : Text) (b : Bool) (k : Counts) → (cnt_loop buf b k).lines ≡ k.lines + newlines buf
unfolding cnt_loop newlines
cnt_loop-lines [] b k = omega arith
cnt_loop-lines (c ∷ buf) b k = cnt_loop-lines buf _ _ ∙ ground arith

-- The number of lines that cnt prints is that of the lines that top and btm number.
pub cmd_cnt-lines : (buf : Text) → (cmd_cnt buf).lines ≡ length (lines_from 1 [] buf)
unfolding cmd_cnt
cmd_cnt-lines buf = ground (
  arith,
  cnt_loop-lines buf false (record { lines = 0; words = 0 }),
  open_end-ends_open buf,
  length-lines_from 1 [] buf,
)
