-- ===== src/Text/Numbers.antt =====
-- kernel/memory.c: itoa and utoa against atoi.
use zero_to_kernel.Prelude.{
  ℕ, zero, suc, ◌+◌, ◌-◌, ◌*◌, ◌/◌, ◌%◌, ◌^◌, ◌<◌, ◌≡◌, refl, sym, ap, ◌∙◌, true, false, Option,
  some, List, [], ◌∷◌, arith, ◌==◌, leb, Bool-cases, inl, inr,
}
use zero_to_kernel.Text.{
  word, digit, digits_loop, digits_fuel, utoa, itoa, is_negative, is_digit, atoi_loop, atoi, rand,
}

digit_lem : (r : ℕ) → r < 10 → (digit r ≡ 48 + r) × (is_digit (digit r) ≡ true)
unfolding digit is_digit
digit_lem r small = ground arith

-- How many numbers have at most k binary digits.
count_of : ℕ → ℕ
count_of zero = 1
count_of (suc k) = 2 * count_of k

atoi_loop-digit :
    (v r : ℕ) (out : List ℕ)
    → r < 10
    → v * 10 + r < word
    → atoi_loop v (digit r ∷ out) ≡ atoi_loop (v * 10 + r) out
unfolding atoi_loop
atoi_loop-digit v r out small fits =
    let e : (v * 10 + digit r + word - 48) % word ≡ v * 10 + r =
      rw ((digit_lem r small).0) (omega (arith, fits)) in
    rw ((digit_lem r small).1, e) refl

-- Reading what digits_loop returns from 0 on gives the number in front of `out`; the first byte is a
-- digit.
record Reads (v : ℕ) (out : List ℕ) (r : Option (List ℕ)) : Type 0 where
  c : ℕ
  s : List ℕ
  got : r ≡ some (c ∷ s)
  first : is_digit c ≡ true
  value : atoi_loop 0 (c ∷ s) ≡ atoi_loop v out

digits_loop-Reads :
    (k v : ℕ) (out : List ℕ)
    → v < count_of k
    → v < word
    → 0 < v
    → Reads v out (digits_loop (suc k) 10 v out)
unfolding digits_loop count_of
digits_loop-Reads zero v out small fits pos = absurd (omega arith)
digits_loop-Reads (suc k) v out small fits pos =
    let d = digit_lem (v % 10) (omega arith) in
    let e : v / 10 * 10 + v % 10 ≡ v = omega arith in
    let one : atoi_loop (v / 10) (digit (v % 10) ∷ out) ≡ atoi_loop v out =
      atoi_loop-digit (v / 10) (v % 10) out (omega arith) (omega arith)
      ∙ ap (λ n. atoi_loop n out) e in
    let nz : (v == 0) ≡ false = ground arith in
    rw nz elim (Bool-cases (v / 10 == 0)) [
      | inl z ↦
          let v0 : v / 10 ≡ 0 = ground (arith, z) in
          record {
            c = digit (v % 10);
            s = out;
            got = rw z refl;
            first = d.1;
            value = ap (λ n. atoi_loop n (digit (v % 10) ∷ out)) (sym v0) ∙ one;
          }
      | inr z ↦
          let r =
            digits_loop-Reads k (v / 10) (digit (v % 10) ∷ out) (omega arith) (omega arith)
              (ground (arith, z)) in
          record { c = r.c; s = r.s; got = r.got; first = r.first; value = r.value ∙ one }
    ]

atoi-digits : (c : ℕ) (s : List ℕ) → is_digit c ≡ true → atoi (c ∷ s) ≡ atoi_loop 0 (c ∷ s)
unfolding atoi is_digit
atoi-digits c s h = ground arith

Reads-word : (v : ℕ) → v < word → 0 < v → Reads v [] (digits_loop digits_fuel 10 v [])
unfolding count_of
Reads-word v fits pos = digits_loop-Reads 32 v [] fits fits pos

atoi-zero : atoi (48 ∷ []) ≡ 0
unfolding atoi atoi_loop is_digit
atoi-zero = refl

atoi_loop-nil : (v : ℕ) → atoi_loop v [] ≡ v
unfolding atoi_loop
atoi_loop-nil v = refl

atoi-minus : (s : List ℕ) → atoi (45 ∷ s) ≡ (word - atoi_loop 0 s) % word
unfolding atoi
atoi-minus s = refl

-- utoa in base 10 ends on every unsigned int, and atoi reads the number back.
pub atoi-utoa : (v : ℕ) → v < word → (s : List ℕ) × (utoa v 10 ≡ some s) × (atoi s ≡ v)
unfolding utoa
atoi-utoa v fits = elim (Bool-cases (v == 0)) [
  | inl z ↦ rw z (48 ∷ [], refl, atoi-zero ∙ sym (ground (arith, z)))
  | inr z ↦
      let r = Reads-word v fits (ground (arith, z)) in
      rw z (r.c ∷ r.s, r.got, atoi-digits r.c r.s r.first ∙ r.value ∙ atoi_loop-nil v)
]

-- itoa in base 10 ends on every int, the most negative one included, and atoi reads the int back.
pub atoi-itoa : (v : ℕ) → v < word → (s : List ℕ) × (itoa v 10 ≡ some s) × (atoi s ≡ v)
unfolding itoa is_negative
atoi-itoa v fits = elim (Bool-cases (leb (2 ^ 31) v)) [
  | inl neg ↦
      let e : (word - v) % word ≡ word - v = ground (arith, neg) in
      let r = Reads-word (word - v) (ground (arith, neg)) (omega (arith, fits)) in
      let nz : (word - v == 0) ≡ false = ground (arith, neg) in
      let back : (word - (word - v)) % word ≡ v = ground (arith, neg) in
      rw neg rw e rw nz rw (r.got) (
        45 ∷ r.c ∷ r.s,
        refl,
        atoi-minus (r.c ∷ r.s)
            ∙ ap (λ n. (word - n) % word) (r.value ∙ atoi_loop-nil (word - v))
            ∙ back,
      )
  | inr plus ↦ rw plus elim (Bool-cases (v == 0)) [
    | inl z ↦ rw z (48 ∷ [], refl, atoi-zero ∙ sym (ground (arith, z)))
    | inr z ↦
        let r = Reads-word v fits (ground (arith, z)) in
        rw z rw (r.got) (r.c ∷ r.s, refl, atoi-digits r.c r.s r.first ∙ r.value ∙ atoi_loop-nil v)
  ]
]

-- rand returns a number below 32768, and its seed stays a 32-bit word.
pub rand_bounds : (seed : ℕ) → ((rand seed).0 < 32768) × ((rand seed).1 < word)
unfolding rand
rand_bounds seed = omega arith
