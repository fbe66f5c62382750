-- ===== src/Shell/Readline/Gaps.antt =====
-- The two loops that move bytes of the line, and the stretch of it that a loop prints.
use zero_to_kernel.Prelude.{
  ℕ, zero, suc, ◌+◌, ◌-◌, ◌≤◌, ◌<◌, ◌≡◌, ◌≢◌, refl, ◌∙◌, ap, ap₂, inl, inr, ◌&&◌, [], ◌∷◌, ◌++◌,
  ◌==◌, ltb, leb, if◌then◌else◌, arith, Bool-cases, length, take, drop, set, get_or, length-set,
  get_or-set_self, get_or-set_ne,
}
use zero_to_kernel.Text.{Buffer}
use zero_to_kernel.Shell.Readline.{open_gap, close_gap, stretch}

pub get_or-set :
    (xs : Buffer) (i j v : ℕ)
    → i < length xs
    → get_or (set xs i v) j 0 ≡ (if j == i then v else get_or xs j 0)
get_or-set xs i j v room = elim (Bool-cases (j == i)) [
  | inl e ↦ let eq : j ≡ i = ground (arith, e) in rw e (rw eq (get_or-set_self xs i v 0 room))
  | inr e ↦ let ne : i ≢ j = ground (arith, e) in rw e (get_or-set_ne xs i j v 0 ne)
]

pub length-open_gap : (n i : ℕ) (b : Buffer) → length (open_gap n i b) ≡ length b
unfolding open_gap
length-open_gap zero i b = refl
length-open_gap (suc n) i b = length-open_gap n (i - 1) _ ∙ length-set b i _

pub length-close_gap : (n i : ℕ) (b : Buffer) → length (close_gap n i b) ≡ length b
unfolding close_gap
length-close_gap zero i b = refl
length-close_gap (suc n) i b = length-close_gap n (i + 1) _ ∙ length-set b i _

pub open_gap_lem :
    (n i j : ℕ) (b : Buffer)
    → n ≤ i
    → i < length b
    → get_or (open_gap n i b) j 0
      ≡ (if ltb (i - n) j && leb j i then get_or b (j - 1) 0 else get_or b j 0)
unfolding open_gap
open_gap_lem zero i j b low room = ground arith
open_gap_lem (suc n) i j b low room =
    let b' = set b i (get_or b (i - 1) 0) in
    let len : length b' ≡ length b = length-set b i _ in
    let rest = open_gap_lem n (i - 1) j b' (omega arith) (omega (arith, len)) in
    let here = get_or-set b i j (get_or b (i - 1) 0) room in
    let before = get_or-set b i (j - 1) (get_or b (i - 1) 0) room in
    rest
    ∙ rw (here, before)
        (elim (Bool-cases (j == i)) [
          | inl e ↦ let eq : j ≡ i = ground (arith, e) in rw eq (ground arith)
          | inr e ↦ rw e (ground (arith, e))
        ])

pub close_gap_lem :
    (n i j : ℕ) (b : Buffer)
    → i + n < length b
    → get_or (close_gap n i b) j 0
      ≡ (if leb i j && ltb j (i + n) then get_or b (j + 1) 0 else get_or b j 0)
unfolding close_gap
close_gap_lem zero i j b room = ground arith
close_gap_lem (suc n) i j b room =
    let b' = set b i (get_or b (i + 1) 0) in
    let len : length b' ≡ length b = length-set b i _ in
    let rest = close_gap_lem n (i + 1) j b' (omega (arith, len)) in
    let here = get_or-set b i j (get_or b (i + 1) 0) (omega arith) in
    let behind = get_or-set b i (j + 1) (get_or b (i + 1) 0) (omega arith) in
    rest
    ∙ rw (here, behind)
        (elim (Bool-cases (j == i)) [
          | inl e ↦ let eq : j ≡ i = ground (arith, e) in rw eq (ground arith)
          | inr e ↦ rw e (ground (arith, e))
        ])

take-drop-cons :
    (k i : ℕ) (xs : Buffer)
    → i < length xs
    → take (suc k) (drop i xs) ≡ get_or xs i 0 ∷ take k (drop (suc i) xs)
take-drop-cons k i [] room = absurd (omega arith)
take-drop-cons k zero (x ∷ xs) room = refl
take-drop-cons k (suc i) (x ∷ xs) room = take-drop-cons k i xs (omega arith)

-- Two stretches are equal if their bytes are.
pub stretch_ext :
    (k i j : ℕ) (xs ys : Buffer)
    → i + k ≤ length xs
    → j + k ≤ length ys
    → ((m : ℕ) → m < k → get_or xs (i + m) 0 ≡ get_or ys (j + m) 0)
    → take k (drop i xs) ≡ take k (drop j ys)
stretch_ext zero i j xs ys hx hy same = refl
stretch_ext (suc k) i j xs ys hx hy same =
    rw (take-drop-cons k i xs (omega arith), take-drop-cons k j ys (omega arith))
      (ap₂ ◌∷◌ (ground (arith, same 0)) (
        stretch_ext k (suc i) (suc j) xs ys (omega arith) (omega arith)
          (λ m small. ground (arith, small, same (suc m)))))

-- The first byte of a stretch.
pub stretch-cons :
    (p n : ℕ) (b : Buffer)
    → p < n
    → n ≤ length b
    → stretch p n b ≡ get_or b p 0 ∷ stretch (p + 1) n b
unfolding stretch
stretch-cons p n b low room =
    let size : n - p ≡ suc (n - (p + 1)) = omega arith in
    let on : p + 1 ≡ suc p = omega arith in
    rw (size, on) (take-drop-cons (n - suc p) p b (omega arith))

pub stretch-nil : (n : ℕ) (b : Buffer) → stretch n n b ≡ []
unfolding stretch
stretch-nil n b = let e : n - n ≡ 0 = omega arith in rw e refl

pub take-suc :
    (p : ℕ) (xs : Buffer) → p < length xs → take (p + 1) xs ≡ take p xs ++ get_or xs p 0 ∷ []
take-suc p [] room = absurd (omega arith)
take-suc zero (x ∷ xs) room = refl
take-suc (suc p) (x ∷ xs) room =
    let e : suc p + 1 ≡ suc (p + 1) = omega arith in
    rw e (ap (λ t. x ∷ t) (take-suc p xs (omega arith)))
