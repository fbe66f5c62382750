-- ===== src/Shell/Tools/Passwords.antt =====
-- The passwords of cmd_passgen and the clock of cmd_alive.
use zero_to_kernel.Prelude.{
  ℕ, zero, suc, ◌+◌, ◌*◌, ◌%◌, ◌≤◌, ◌<◌, ◌≡◌, ◌⊎◌, inl, inr, refl, ◌∙◌, ◌&&◌, ltb, leb,
  if◌then◌else◌, arith, Bool-cases, length, All,
}
use zero_to_kernel.Text.{atoi, is_negative, rand, srand}
use zero_to_kernel.Fs.{Text}
use zero_to_kernel.Shell.Tools.{
  Alphabet, numbers_only, alpha_only, any_char, alphabet, password_char, password, password_length,
  cmd_passgen, clock,
}

-- The characters of an alphabet: the ten digits, the 52 letters, or the 94 characters that can be seen.
abbrev pub Belongs : Alphabet → ℕ → Type 0
Belongs numbers_only c = (48 ≤ c) × (c ≤ 57)
Belongs alpha_only c = ((65 ≤ c) × (c ≤ 90)) ⊎ ((97 ≤ c) × (c ≤ 122))
Belongs any_char c = (33 ≤ c) × (c ≤ 126)

password_char-Belongs : (a : Alphabet) (r : ℕ) → Belongs a (password_char a r)
unfolding password_char
password_char-Belongs numbers_only r = omega arith
password_char-Belongs alpha_only r = elim (Bool-cases (ltb (r % 52) 26)) [
  | inl e ↦ rw e (inl (omega arith, ground (arith, e)))
  | inr e ↦ rw e (inr (ground (arith, e), ground (arith, e)))
]
password_char-Belongs any_char r = omega arith

password_lem :
    (a : Alphabet) (n seed : ℕ)
    → (length (password a n seed) ≡ n) × All (Belongs a) (password a n seed)
unfolding password
password_lem a zero seed = (refl, tt)
password_lem a (suc n) seed =
    let (len, belong) = password_lem a n (rand seed).1 in
    (omega (arith, len), (password_char-Belongs a (rand seed).0, belong))

-- Whatever the time, a password has the length asked for if that is from 1 to 64, and 16 characters if
-- it is not; all of them belong to the alphabet asked for.
pub cmd_passgen_lem :
    (arg : Text) (ticks : ℕ)
    → (length (cmd_passgen arg ticks)
        ≡ (if leb 1 (atoi arg) && leb (atoi arg) 64 then atoi arg else 16))
      × All (Belongs (alphabet arg)) (cmd_passgen arg ticks)
unfolding cmd_passgen password_length is_negative
cmd_passgen_lem arg ticks =
    let (len, belong) = password_lem (alphabet arg) (password_length arg) (srand ticks) in
    (len ∙ ground arith, belong)

-- The clock's time is the number of seconds, with minutes and seconds below 60.
pub clock_lem :
    (secs : ℕ)
    → ((clock secs).0 * 3600 + (clock secs).1 * 60 + (clock secs).2 ≡ secs)
      × ((clock secs).1 < 60)
      × ((clock secs).2 < 60)
unfolding clock
clock_lem secs = omega arith
