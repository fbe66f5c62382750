-- ===== src/Shell/Tools/Calc.antt =====
-- cmd_calc: the operator is the first of the four characters, wherever it stands.
use zero_to_kernel.Prelude.{
  ℕ, ◌-◌, ◌*◌, ◌/◌, ◌%◌, ◌^◌, ◌≤◌, ◌<◌, ◌≡◌, ◌≢◌, refl, ◌∙◌, ap, ◌⊎◌, inl, inr, Bool, true, false,
  ◌&&◌, ◌||◌, xor, none, some, [], ◌∷◌, ◌++◌, ◌==◌, ltb, leb, if◌then◌else◌, arith, Bool-cases,
  length, All,
}
use mathlib.Core.List.{append-nil, append_assoc}
use zero_to_kernel.Text.{word, atoi, is_negative}
use zero_to_kernel.Fs.{Text}
use zero_to_kernel.Shell.{skip_spaces}
use zero_to_kernel.Shell.Tools.{
  invalid, overrun, result, is_op, find_op, magnitude, quotient, apply, calculate, cmd_calc,
}

find_op_lem :
    (front left right : Text) (op : ℕ)
    → All (λ c. is_op c ≡ false) left
    → is_op op ≡ true
    → find_op front (left ++ op ∷ right) ≡ some (front ++ left, op, right)
unfolding find_op
find_op_lem front [] right op plain operator = rw (operator, append-nil front) refl
find_op_lem front (c ∷ left) right op plain operator = rw plain.0 (
    find_op_lem (front ++ c ∷ []) left right op plain.1 operator
    ∙ rw (append_assoc front (c ∷ []) left) refl)

find_op-none : (front arg : Text) → All (λ c. is_op c ≡ false) arg → find_op front arg ≡ none
unfolding find_op
find_op-none front [] plain = refl
find_op-none front (c ∷ arg) plain = rw plain.0 (find_op-none (front ++ c ∷ []) arg plain.1)

-- A text without an operator is invalid. Otherwise the first operator is applied to the numbers in front
-- of it and behind it; if one of the two texts has more than 31 bytes, its buffer is overrun.
pub cmd_calc_lem :
    (left right : Text) (op : ℕ)
    → All (λ c. is_op c ≡ false) left
    → is_op op ≡ true
    → (cmd_calc left ≡ invalid)
      × (cmd_calc (left ++ op ∷ right) ≡ (
          if ltb 31 (length left) || ltb 31 (length right)
          then overrun
          else apply op (atoi (skip_spaces left)) (atoi (skip_spaces right))))
unfolding cmd_calc calculate
cmd_calc_lem left right op plain operator = (
  ap calculate (find_op-none [] left plain),
  ap calculate (find_op_lem [] left right op plain operator),
)

-- The sign of a first number is taken for the operator: the first operand is then 0, and what follows the
-- sign, up to a character that is no digit, is subtracted from it.
pub cmd_calc_negative :
    (right : Text)
    → length right ≤ 31
    → cmd_calc (b'-' ∷ right) ≡ result ((word - atoi (skip_spaces right)) % word)
unfolding apply is_op atoi skip_spaces
cmd_calc_negative right short =
    let fits : ltb 31 (length right) ≡ false = ground arith in
    (cmd_calc_lem [] right b'-' tt refl).1 ∙ rw fits refl

quotient_bound : (a b : ℕ) → b ≢ 0 → a / b ≤ a
quotient_bound a b nz = grind arith

quotient_half : (a b : ℕ) → 2 ≤ b → 2 * (a / b) ≤ a
quotient_half a b two = grind arith

magnitude_bound : (n : ℕ) → n < word → magnitude n ≤ 2 ^ 31
unfolding magnitude is_negative
magnitude_bound n h = ground arith

signed_lem :
    (b : Bool) (q : ℕ)
    → q ≤ 2 ^ 31
    → (b ≡ false → q < 2 ^ 31)
    → (magnitude (if b then (word - q) % word else q) ≡ q)
      × ((if b then (word - q) % word else q) ≢ 0
          → is_negative (if b then (word - q) % word else q) ≡ b)
unfolding magnitude is_negative
signed_lem true q bound strict = (ground arith, λ nz. ground arith)
signed_lem false q bound strict = let h = strict refl in (ground arith, λ nz. ground arith)

magnitude_ne : (n : ℕ) → n < word → n ≢ 0 → magnitude n ≢ 0
unfolding magnitude is_negative
magnitude_ne n h nz e = ground arith

smaller :
    (n₁ n₂ : ℕ)
    → n₁ < word
    → n₂ < word
    → (n₁ ≢ 2 ^ 31) ⊎ (n₂ ≢ word - 1)
    → xor (is_negative n₁) (is_negative n₂) ≡ false
    → magnitude n₂ ≡ 1
    → magnitude n₁ < 2 ^ 31
unfolding magnitude is_negative xor
smaller n₁ n₂ h₁ h₂ safe e unit = ground arith

same_sign :
    (n₁ n₂ : ℕ)
    → n₁ < word
    → n₂ < word
    → n₂ ≢ 0
    → (n₁ ≢ 2 ^ 31) ⊎ (n₂ ≢ word - 1)
    → xor (is_negative n₁) (is_negative n₂) ≡ false
    → magnitude n₁ / magnitude n₂ < 2 ^ 31
same_sign n₁ n₂ h₁ h₂ nz safe e =
    let m = magnitude_ne n₂ h₂ nz in
    let largest = magnitude_bound n₁ h₁ in
    elim (Bool-cases (leb 2 (magnitude n₂))) [
      | inl more ↦
          omega (arith, largest, quotient_half (magnitude n₁) (magnitude n₂) (ground (arith, more)))
      | inr one ↦
          let q = quotient_bound (magnitude n₁) (magnitude n₂) m in
          let unit : magnitude n₂ ≡ 1 = ground (arith, one, m) in
          omega (arith, q, smaller n₁ n₂ h₁ h₂ safe e unit)
    ]

-- What an int stands for: its magnitude, and whether it is below 0. The quotient is cut towards 0, and
-- the two numbers that are not divided are a divisor of 0 and the quotient 2 ^ 31.
pub apply_quotient :
    (n₁ n₂ : ℕ)
    → n₁ < word
    → n₂ < word
    → n₂ ≢ 0
    → (n₁ ≢ 2 ^ 31) ⊎ (n₂ ≢ word - 1)
    → (q : ℕ) × (apply b'/' n₁ n₂ ≡ result q)
      × (magnitude q ≡ magnitude n₁ / magnitude n₂)
      × (q ≢ 0 → is_negative q ≡ xor (is_negative n₁) (is_negative n₂))
unfolding apply quotient
apply_quotient n₁ n₂ h₁ h₂ nz safe =
    let q = magnitude n₁ / magnitude n₂ in
    let m : magnitude n₂ ≢ 0 = magnitude_ne n₂ h₂ nz in
    let bound : q ≤ 2 ^ 31 =
      omega (arith, quotient_bound (magnitude n₁) (magnitude n₂) m, magnitude_bound n₁ h₁) in
    let b = xor (is_negative n₁) (is_negative n₂) in
    let not_zero : (n₂ == 0) ≡ false = ground arith in
    let no_trap : (n₁ == 2 ^ 31 && n₂ == word - 1) ≡ false = ground arith in
    let (mag, sign) = signed_lem b q bound (same_sign n₁ n₂ h₁ h₂ nz safe) in
    (_, rw (not_zero, no_trap) refl, mag, sign)
