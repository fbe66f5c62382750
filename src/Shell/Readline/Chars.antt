-- ===== src/Shell/Readline/Chars.antt =====
-- The line with a character more or less: what stands in front of the cursor and behind it.
use zero_to_kernel.Prelude.{
  ℕ, zero, suc, ◌+◌, ◌-◌, ◌≤◌, ◌<◌, ◌≡◌, refl, ◌∙◌, sym, ap, ap₂, ◌&&◌, [], ◌∷◌, ◌++◌, ◌==◌, ltb,
  leb, if◌then◌else◌, arith, length, take, drop, set, get_or, length-set, length-append,
}
use zero_to_kernel.Text.{Buffer}
use zero_to_kernel.Shell.Readline.{open_gap, close_gap, stretch}
use zero_to_kernel.Shell.Readline.Gaps.{
  get_or-set, length-open_gap, length-close_gap, open_gap_lem, close_gap_lem, stretch_ext,
  stretch-cons, take-suc,
}

-- The buffer after a character is inserted at `p` into a line of `n`.
abbrev pub with_char : ℕ → ℕ → ℕ → Buffer → Buffer
with_char p n c b = set (set (open_gap (n - p) n b) p c) (n + 1) 0

-- The buffer after the character at `p` is taken out of a line that then has `n`.
abbrev pub without_char : ℕ → ℕ → Buffer → Buffer
without_char p n b = set (close_gap (n - p) p b) n 0

pub get_or-with_char :
    (p n c j : ℕ) (b : Buffer)
    → p ≤ n
    → n + 1 < length b
    → get_or (with_char p n c b) j 0 ≡ (
        if j == n + 1
        then 0
        else if j == p
        then c
        else if ltb p j && leb j n
        then get_or b (j - 1) 0
        else get_or b j 0)
get_or-with_char p n c j b low room =
    let len₁ : length (open_gap (n - p) n b) ≡ length b = length-open_gap (n - p) n b in
    let len₂ = length-set (open_gap (n - p) n b) p c in
    let start : n - (n - p) ≡ p = omega arith in
    let gap = open_gap_lem (n - p) n j b (omega arith) (omega arith) in
    get_or-set (set (open_gap (n - p) n b) p c) (n + 1) j 0 (omega (arith, len₁, len₂))
    ∙ rw (get_or-set (open_gap (n - p) n b) p j c (omega (arith, len₁)), gap, start) refl

pub get_or-without_char :
    (p n j : ℕ) (b : Buffer)
    → p ≤ n
    → n < length b
    → get_or (without_char p n b) j 0
      ≡ (if j == n then 0 else if leb p j && ltb j n then get_or b (j + 1) 0 else get_or b j 0)
get_or-without_char p n j b low room =
    let len₁ : length (close_gap (n - p) p b) ≡ length b = length-close_gap (n - p) p b in
    let stop : p + (n - p) ≡ n = omega arith in
    let gap = close_gap_lem (n - p) p j b (omega arith) in
    get_or-set (close_gap (n - p) p b) n j 0 (omega (arith, len₁)) ∙ rw (gap, stop) refl

pub length-with_char : (p n c : ℕ) (b : Buffer) → length (with_char p n c b) ≡ length b
length-with_char p n c b = length-set _ (n + 1) 0 ∙ length-set _ p c ∙ length-open_gap (n - p) n b

pub length-without_char : (p n : ℕ) (b : Buffer) → length (without_char p n b) ≡ length b
length-without_char p n b = length-set _ n 0 ∙ length-close_gap (n - p) p b

-- The line in front of the cursor grows by the character; behind it, it stays.
pub with_char_lem :
    (p n c : ℕ) (b : Buffer)
    → p ≤ n
    → n + 1 < length b
    → (take (p + 1) (with_char p n c b) ≡ take p b ++ c ∷ [])
      × (stretch (p + 1) (n + 1) (with_char p n c b) ≡ stretch p n b)
unfolding stretch
with_char_lem p n c b low room =
    let b' = with_char p n c b in
    let len : length b' ≡ length b = length-with_char p n c b in
    let front : take p b' ≡ take p b =
      stretch_ext p 0 0 b' b (omega (arith, len)) (omega arith)
        (λ m small. ground (arith, small, get_or-with_char p n c (0 + m) b low room)) in
    let char : get_or b' p 0 ≡ c = ground (arith, get_or-with_char p n c p b low room) in
    let size : n + 1 - (p + 1) ≡ n - p = omega arith in
    (
      take-suc p b' (omega (arith, len)) ∙ rw (front, char) refl,
      rw size (
          stretch_ext (n - p) (p + 1) p b' b (omega (arith, len)) (omega arith)
            (λ m small. ground (arith, small, get_or-with_char p n c (p + 1 + m) b low room))),
    )

-- What is printed from the character on.
pub stretch-with_char :
    (p n c : ℕ) (b : Buffer)
    → p ≤ n
    → n + 1 < length b
    → stretch p (n + 1) (with_char p n c b) ≡ c ∷ stretch p n b
unfolding stretch
stretch-with_char p n c b low room =
    let b' = with_char p n c b in
    let len : length b' ≡ length b = length-with_char p n c b in
    let char : get_or b' p 0 ≡ c = ground (arith, get_or-with_char p n c p b low room) in
    stretch-cons p (n + 1) b' (omega arith) (omega (arith, len))
    ∙ ap₂ ◌∷◌ char ((with_char_lem p n c b low room).1)

-- The line in front of the position stays; behind it, it loses its first character.
pub without_char_lem :
    (p n : ℕ) (b : Buffer)
    → p ≤ n
    → n < length b
    → (take p (without_char p n b) ≡ take p b)
      × (stretch p n (without_char p n b) ≡ stretch (p + 1) (n + 1) b)
unfolding stretch
without_char_lem p n b low room =
    let b' = without_char p n b in
    let len : length b' ≡ length b = length-without_char p n b in
    let size : n + 1 - (p + 1) ≡ n - p = omega arith in
    (
      stretch_ext p 0 0 b' b (omega (arith, len)) (omega arith)
          (λ m small. ground (arith, small, get_or-without_char p n (0 + m) b low room)),
      rw size (
          stretch_ext (n - p) p (p + 1) b' b (omega (arith, len)) (omega arith)
            (λ m small. ground (arith, small, get_or-without_char p n (p + m) b low room))),
    )

-- A stretch continues what is in front of it.
pub take-stretch :
    (p n : ℕ) (b : Buffer) → p ≤ n → n ≤ length b → take n b ≡ take p b ++ stretch p n b
unfolding stretch
take-stretch zero n b low room = let e : n - 0 ≡ n = omega arith in rw e refl
take-stretch (suc p) n [] low room = absurd (omega arith)
take-stretch (suc p) zero (x ∷ b) low room = absurd (omega arith)
take-stretch (suc p) (suc n) (x ∷ b) low room =
    let size : suc n - suc p ≡ n - p = omega arith in
    rw size (ap (λ t. x ∷ t) (take-stretch p n b (omega arith) (omega arith)))

take-last : (xs : Buffer) (x : ℕ) → take (length (xs ++ x ∷ []) - 1) (xs ++ x ∷ []) ≡ xs
take-last [] x = refl
take-last (y ∷ xs) x =
    let len : length (xs ++ x ∷ []) ≡ suc (length (xs ++ x ∷ []) - 1) =
      omega (arith, length-append xs (x ∷ [])) in
    let out : suc (length (xs ++ x ∷ [])) - 1 ≡ suc (length (xs ++ x ∷ []) - 1) =
      omega (arith, len) in
    rw out (ap (λ t. y ∷ t) (take-last xs x))

drop-last : (xs : Buffer) (x : ℕ) → drop (length (xs ++ x ∷ []) - 1) (xs ++ x ∷ []) ≡ x ∷ []
drop-last [] x = refl
drop-last (y ∷ xs) x =
    let len : length (xs ++ x ∷ []) ≡ suc (length (xs ++ x ∷ []) - 1) =
      omega (arith, length-append xs (x ∷ [])) in
    let out : suc (length (xs ++ x ∷ [])) - 1 ≡ suc (length (xs ++ x ∷ []) - 1) =
      omega (arith, len) in
    rw out (drop-last xs x)

-- The text in front of the cursor without its last character, and that character in front of the rest.
pub left_lem :
    (p n : ℕ) (b : Buffer)
    → p ≤ n
    → n ≤ length b
    → (take (length (take p b) - 1) (take p b) ≡ take (p - 1) b)
      × (drop (length (take p b) - 1) (take p b) ++ stretch p n b ≡ stretch (p - 1) n b)
left_lem zero n b low room = (refl, refl)
left_lem (suc p) n b low room =
    let on : suc p ≡ p + 1 = omega arith in
    let back : p + 1 - 1 ≡ p = omega arith in
    let cut : take (p + 1) b ≡ take p b ++ get_or b p 0 ∷ [] = take-suc p b (omega arith) in
    rw (on, back, cut)
      (
        take-last (take p b) (get_or b p 0),
        rw (drop-last (take p b) (get_or b p 0)) (sym (stretch-cons p n b (omega arith) room)),
      )

-- A write behind a prefix leaves it.
pub take-set : (n i v : ℕ) (b : Buffer) → n ≤ i → take n (set b i v) ≡ take n b
take-set zero i v b h = refl
take-set (suc n) zero v b h = absurd (omega arith)
take-set (suc n) (suc i) v [] h = refl
take-set (suc n) (suc i) v (x ∷ b) h = ap (λ t. x ∷ t) (take-set n i v b (omega arith))
