-- ===== src/Shell/Tools/Tests.antt =====
-- Runs of the commands that compute and instances of their theorems.
use zero_to_kernel.Prelude.{
  ℕ, ◌-◌, ◌/◌, ◌%◌, ◌≡◌, ◌≢◌, refl, inl, xor, none, some, leb, ◌&&◌, if◌then◌else◌, arith, bytes,
  bytes_eq, length, All,
}
use zero_to_kernel.Text.{word, atoi, atoi_loop, is_digit, is_negative, strncmp, rand, srand}
use zero_to_kernel.Shell.{skip_spaces}
use zero_to_kernel.Shell.Tools.{
  invalid, by_zero, result, is_op, find_op, magnitude, quotient, apply, cmd_calc, cmd_color,
  numbers_only, alphabet, password, password_char, password_length, cmd_passgen, clock,
}
use zero_to_kernel.Shell.Tools.Calc.{cmd_calc_lem, cmd_calc_negative, apply_quotient}
use zero_to_kernel.Shell.Tools.Passwords.{cmd_passgen_lem, Belongs}

-- A negative first operand is lost: -5 + 3 is taken for 0 - 5.
calc_runs :
    (cmd_calc (bytes "5 + 3") ≡ result 8)
    × (cmd_calc (bytes "3 - 5") ≡ result (word - 2))
    × (cmd_calc (bytes "7 / 0") ≡ by_zero)
    × (cmd_calc (bytes "7 / -2") ≡ result (word - 3))
    × (cmd_calc (bytes "-5 + 3") ≡ result (word - 5))
    × (cmd_calc (bytes "five") ≡ invalid)
unfolding cmd_calc find_op is_op apply atoi atoi_loop is_digit skip_spaces quotient magnitude
    is_negative xor
calc_runs = (refl, refl, refl, refl, refl, refl)

others :
    (cmd_color (bytes "green") ≡ some 10)
    × (cmd_color (bytes "pink") ≡ none)
    × (alphabet (bytes "8 numbers") ≡ numbers_only)
    × (cmd_passgen (bytes "4 number") 7 ≡ bytes "4684")
    × (clock 3725 ≡ (1, 2, 5))
unfolding cmd_color bytes_eq alphabet strncmp cmd_passgen password password_char password_length
    rand srand atoi atoi_loop is_digit is_negative clock
others = (refl, refl, refl, refl, refl)

cmd_calc_lem_instance :
    (cmd_calc (bytes "12 ") ≡ invalid)
    × (cmd_calc (bytes "12 * 3")
        ≡ apply b'*' (atoi (skip_spaces (bytes "12 "))) (atoi (skip_spaces (bytes " 3"))))
unfolding is_op
cmd_calc_lem_instance = cmd_calc_lem (bytes "12 ") (bytes " 3") b'*' (refl, (refl, (refl, tt))) refl

cmd_calc_negative_instance :
    cmd_calc (bytes "-5 + 3") ≡ result ((word - atoi (skip_spaces (bytes "5 + 3"))) % word)
cmd_calc_negative_instance = cmd_calc_negative (bytes "5 + 3") (omega arith)

apply_quotient_instance :
    (q : ℕ) × (apply b'/' 7 (word - 2) ≡ result q)
    × (magnitude q ≡ magnitude 7 / magnitude (word - 2))
    × (q ≢ 0 → is_negative q ≡ xor (is_negative 7) (is_negative (word - 2)))
apply_quotient_instance =
    apply_quotient 7 (word - 2) (omega arith) (omega arith) (omega arith) (inl (omega arith))

cmd_passgen_lem_instance :
    (length (cmd_passgen (bytes "4 number") 7) ≡ (
      if leb 1 (atoi (bytes "4 number")) && leb (atoi (bytes "4 number")) 64
      then atoi (bytes "4 number")
      else 16))
    × All (Belongs (alphabet (bytes "4 number"))) (cmd_passgen (bytes "4 number") 7)
cmd_passgen_lem_instance = cmd_passgen_lem (bytes "4 number") 7
