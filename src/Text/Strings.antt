-- ===== src/Text/Strings.antt =====
-- kernel/memory.c: what the string functions do to the C strings in their buffers.
use zero_to_kernel.Prelude.{
  ℕ, zero, suc, ◌+◌, ◌<◌, ◌≤◌, ◌≡◌, ◌↔◌, refl, List, [], ◌∷◌, ◌++◌, arith, ◌==◌, if◌then◌else◌,
  Bool-cases, inl, inr, length,
}
use zero_to_kernel.Text.{Buffer, strlen, strcmp, strcpy, pad, strncpy, strcat}

-- The C string that a buffer holds.
unfoldable pub c_string : Buffer → List ℕ
c_string [] = []
c_string (c ∷ s) = if c == 0 then [] else c ∷ c_string s

-- strlen is the length of the C string.
pub strlen_lem : (s : Buffer) → strlen s ≡ length (c_string s)
unfolding strlen c_string
strlen_lem [] = refl
strlen_lem (c ∷ s) = ground (arith, strlen_lem s)

-- strcpy puts the source's C string into a buffer that has room for it and its terminator.
pub c_string-strcpy :
    (dest src : Buffer) → strlen src < length dest → c_string (strcpy dest src) ≡ c_string src
unfolding strlen c_string strcpy
c_string-strcpy [] src room = absurd (omega arith)
c_string-strcpy (d ∷ dest) [] room = refl
c_string-strcpy (d ∷ dest) (c ∷ src) room = elim (Bool-cases (c == 0)) [
  | inl z ↦ rw z refl
  | inr nz ↦ ground (arith, nz, c_string-strcpy dest src)
]

-- strcat appends the source's C string to that of a buffer with room for both and the terminator.
pub c_string-strcat :
    (dest src : Buffer)
    → strlen dest + strlen src < length dest
    → c_string (strcat dest src) ≡ c_string dest ++ c_string src
unfolding strlen c_string strcat
c_string-strcat [] src room = absurd (omega arith)
c_string-strcat (d ∷ dest) src room = elim (Bool-cases (d == 0)) [
  | inl z ↦ rw z (c_string-strcpy (d ∷ dest) src (ground (arith, z)))
  | inr nz ↦ ground (arith, nz, c_string-strcat dest src)
]

c_string-pad : (dest : Buffer) (n : ℕ) → 0 < n → c_string (pad dest n) ≡ []
unfolding c_string pad
c_string-pad dest zero pos = absurd (omega arith)
c_string-pad [] (suc n) pos = refl
c_string-pad (d ∷ dest) (suc n) pos = refl

-- strncpy with a count beyond the source's length, into a buffer of that count at least, copies the
-- whole C string.
pub c_string-strncpy :
    (dest src : Buffer) (n : ℕ)
    → strlen src < n
    → n ≤ length dest
    → c_string (strncpy dest src n) ≡ c_string src
unfolding strlen c_string strncpy
c_string-strncpy dest src zero short room = absurd (omega arith)
c_string-strncpy dest [] (suc n) short room = c_string-pad dest (suc n) (omega arith)
c_string-strncpy [] (c ∷ src) (suc n) short room = absurd (omega arith)
c_string-strncpy (d ∷ dest) (c ∷ src) (suc n) short room = elim (Bool-cases (c == 0)) [
  | inl z ↦ rw z (c_string-pad (d ∷ dest) (suc n) (omega arith))
  | inr nz ↦ ground (arith, nz, c_string-strncpy dest src n)
]

∷_inj : (p q : ℕ) (a b : List ℕ) → p ∷ a ≡ q ∷ b → a ≡ b
∷_inj p q a b e = cc

-- strcmp returns 0 for equal C strings, and only for them.
pub strcmp_zero : (a b : Buffer) → ((strcmp a b).0 ≡ (strcmp a b).1) ↔ (c_string a ≡ c_string b)
unfolding c_string strcmp
strcmp_zero [] [] = (λ e. refl, λ e. refl)
strcmp_zero [] (q ∷ b) = elim (Bool-cases (q == 0)) [
  | inl z ↦ rw z (λ e. refl, λ e. ground (arith, z))
  | inr z ↦ rw z (λ e. absurd (ground (arith, z, e)), λ e. cc)
]
strcmp_zero (p ∷ a) [] = elim (Bool-cases (p == 0)) [
  | inl z ↦ rw z (λ e. refl, λ e. ground (arith, z))
  | inr z ↦ rw z (λ e. absurd (ground (arith, z, e)), λ e. cc)
]
strcmp_zero (p ∷ a) (q ∷ b) =
    let rest = strcmp_zero a b in
    (λ e. ground (arith, rest.0), λ e. ground (arith, rest.1, ∷_inj p q (c_string a) (c_string b)))
