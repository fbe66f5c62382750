-- ===== src/Shell/Readline/Recall.antt =====
-- What load_history copies into the buffer: a line of the history, ended by a 0.
use zero_to_kernel.Prelude.{
  ℕ, zero, suc, ◌≤◌, ◌<◌, ◌≡◌, ◌≢◌, refl, ◌∙◌, ap, false, [], ◌∷◌, ◌==◌, arith, length, take, set,
  get_or, All, length-set,
}
use zero_to_kernel.Text.{Buffer, strlen, strncpy, pad}

length-pad : (dest : Buffer) (n : ℕ) → length (pad dest n) ≡ length dest
unfolding pad
length-pad dest zero = refl
length-pad [] (suc n) = refl
length-pad (d ∷ dest) (suc n) = omega (arith, length-pad dest n)

length-strncpy : (dest src : Buffer) (n : ℕ) → length (strncpy dest src n) ≡ length dest
unfolding strncpy
length-strncpy dest src zero = refl
length-strncpy dest [] (suc n) = length-pad dest (suc n)
length-strncpy [] (c ∷ src) (suc n) = refl
length-strncpy (d ∷ dest) (c ∷ src) (suc n) =
    ground (arith, length-strncpy dest src n, length-pad (d ∷ dest) (suc n))

copied_whole :
    (dest src : Buffer) (n : ℕ)
    → All (λ c. c ≢ 0) src
    → length src ≤ n
    → n < length dest
    → (strlen (set (strncpy dest src n) n 0) ≡ length src)
      × (take (length src) (set (strncpy dest src n) n 0) ≡ src)
      × (get_or (set (strncpy dest src n) n 0) (length src) 0 ≡ 0)
unfolding strncpy strlen pad
copied_whole [] src n nonzero fits room = absurd (omega arith)
copied_whole (d ∷ dest) [] zero nonzero fits room = (refl, refl, refl)
copied_whole (d ∷ dest) (c ∷ src) zero nonzero fits room = absurd (omega arith)
copied_whole (d ∷ dest) [] (suc n) nonzero fits room = (refl, refl, refl)
copied_whole (d ∷ dest) (c ∷ src) (suc n) nonzero fits room =
    let z : (c == 0) ≡ false = ground (arith, nonzero.0) in
    let rest = copied_whole dest src n nonzero.1 (omega arith) (omega arith) in
    rw z (rw z (ap suc rest.0), ap (λ t. c ∷ t) rest.1, rest.2)

-- A line without a 0 that fits is copied whole.
pub strncpy_whole :
    (dest src : Buffer) (n : ℕ)
    → All (λ c. c ≢ 0) src
    → length src ≤ n
    → n < length dest
    → (strlen (set (strncpy dest src n) n 0) ≡ length src)
      × (take (length src) (set (strncpy dest src n) n 0) ≡ src)
      × (get_or (set (strncpy dest src n) n 0) (length src) 0 ≡ 0)
      × (length (set (strncpy dest src n) n 0) ≡ length dest)
strncpy_whole dest src n nonzero fits room =
    let (len, text, closed) = copied_whole dest src n nonzero fits room in
    (len, text, closed, length-set (strncpy dest src n) n 0 ∙ length-strncpy dest src n)
