-- ===== src/Text/Tests.antt =====
-- Runs of the string and number functions and instances of their theorems.
use zero_to_kernel.Prelude.{
  ℕ, ◌-◌, ◌^◌, ◌<◌, ◌≡◌, ◌↔◌, refl, some, List, [], ◌∷◌, ◌++◌, arith, bytes, replicate,
}
use zero_to_kernel.Text.{
  memset, memcpy, memcmp, strlen, strcmp, strncmp, strncpy, strchr, strcat, append_n, strncat,
  later, strrchr, digit, digits_loop, utoa, itoa, is_negative, is_digit, atoi_loop, atoi, srand,
  rand, word,
}
use zero_to_kernel.Text.Strings.{c_string, c_string-strcat, c_string-strncpy, strcmp_zero}
use zero_to_kernel.Text.Numbers.{atoi-utoa, atoi-itoa, rand_bounds}

copied :
    (memset (1 ∷ 2 ∷ 3 ∷ []) 300 2 ≡ 44 ∷ 44 ∷ 3 ∷ [])
    × (memcpy (1 ∷ 2 ∷ 3 ∷ []) (7 ∷ 8 ∷ []) 2 ≡ 7 ∷ 8 ∷ 3 ∷ [])
    × (memcmp (1 ∷ 2 ∷ []) (1 ∷ 5 ∷ []) 2 ≡ (2, 5))
    × (strncmp (bytes "add x") (bytes "add ") 4 ≡ (0, 0))
    × (strncat (97 ∷ 0 ∷ 9 ∷ 9 ∷ []) (bytes "xyz") 1 ≡ 97 ∷ 120 ∷ 0 ∷ 9 ∷ [])
    × (strchr (bytes "a.b") 46 ≡ some 1)
    × (strrchr (bytes "/a/b") 47 ≡ some 2)
    × (strrchr (bytes "ab") 0 ≡ some 2)
unfolding memset memcpy memcmp strncmp strncat append_n strchr strrchr later
copied = (refl, refl, refl, refl, refl, refl, refl, refl)

numbers :
    (utoa 48879 16 ≡ some (bytes "beef"))
    × (itoa (2 ^ 32 - 7) 10 ≡ some (bytes "-7"))
    × (itoa (2 ^ 31) 10 ≡ some (bytes "-2147483648"))
    × (atoi (bytes "+12x") ≡ 12)
    × ((rand (srand 1)).0 ≡ 16838)
unfolding utoa itoa digits_loop digit is_negative is_digit atoi_loop atoi srand rand
numbers = (refl, refl, refl, refl, refl)

atoi-utoa_instance : (s : List ℕ) × (utoa 4096 10 ≡ some s) × (atoi s ≡ 4096)
atoi-utoa_instance = atoi-utoa 4096 (omega arith)

atoi-itoa_example : (s : List ℕ) × (itoa (2 ^ 31) 10 ≡ some s) × (atoi s ≡ 2 ^ 31)
atoi-itoa_example = atoi-itoa (2 ^ 31) (omega arith)

rand_bounds_instance : ((rand 1).0 < 32768) × ((rand 1).1 < word)
rand_bounds_instance = rand_bounds 1

abbrev ab : List ℕ
ab = bytes "ab" ++ replicate 4 0

c_string-strcat_instance : c_string (strcat ab (bytes "cd")) ≡ c_string ab ++ c_string (bytes "cd")
unfolding strlen
c_string-strcat_instance = c_string-strcat ab (bytes "cd") (omega arith)

c_string-strncpy_instance : c_string (strncpy ab (bytes "xyz") 5) ≡ c_string (bytes "xyz")
unfolding strlen
c_string-strncpy_instance = c_string-strncpy ab (bytes "xyz") 5 (omega arith) (omega arith)

strcmp_zero_instance :
    ((strcmp ab (bytes "ab")).0 ≡ (strcmp ab (bytes "ab")).1)
    ↔ (c_string ab ≡ c_string (bytes "ab"))
strcmp_zero_instance = strcmp_zero ab (bytes "ab")
