-- ===== src/Fs/Tree/Sort.antt =====
-- The bubble sort of fs_print_tree: the children come in the order of strcmp on their names, each once.
use zero_to_kernel.Prelude.{
  ℕ, zero, suc, ◌-◌, ◌≡◌, refl, ap, subst, inl, inr, Bool, true, false, List, [], ◌∷◌, ◌++◌, ltb,
  arith, Bool-cases, length, get_or, All,
}
use mathlib.Core.List.{Perm, append-nil, append_assoc}
use mathlib.Core.List.Perm
use zero_to_kernel.Text.{Buffer, strcmp}
use zero_to_kernel.Fs.{Text, Table, blank}
use zero_to_kernel.Fs.Tree.{child_indices, after, pass, passes, sorted_children}

-- strcmp(a, b) > 0
abbrev greater : Buffer → Buffer → Bool
greater a b = ltb (strcmp a b).1 (strcmp a b).0

greater_asym : (a b : Buffer) → greater a b ≡ true → greater b a ≡ false
unfolding strcmp
greater_asym [] [] h = refl
greater_asym [] (q ∷ b) h = ground (arith, h)
greater_asym (p ∷ a) [] h = ground (arith, h)
greater_asym (p ∷ a) (q ∷ b) h = ground (arith, h, greater_asym a b)

greater_trans : (a b c : Buffer) → greater a b ≡ false → greater b c ≡ false → greater a c ≡ false
unfolding strcmp
greater_trans [] b [] h k = refl
greater_trans [] b (r ∷ c) h k = ground arith
greater_trans (p ∷ a) [] [] h k = h
greater_trans (p ∷ a) [] (r ∷ c) h k = ground (arith, h, k)
greater_trans (p ∷ a) (q ∷ b) [] h k = ground (arith, h, k)
greater_trans (p ∷ a) (q ∷ b) (r ∷ c) h k = ground (arith, h, k, greater_trans a b c)

-- Entry `i` does not come after entry `j`.
abbrev pub UpTo : Table → ℕ → ℕ → Type 0
UpTo t i j = after t i j ≡ false

abbrev AllUpTo : Table → List ℕ → List ℕ → Type 0
AllUpTo t zs ys = All (λ y. All (UpTo t y) zs) ys

abbrev pub Sorted : Table → List ℕ → Type 0
Sorted t [] = Unit
Sorted t (x ∷ xs) = All (UpTo t x) xs × Sorted t xs

-- What a pass over `i ∷ xs` leaves in front of `zs`: the greatest comes last.
record Passed (t : Table) (i : ℕ) (xs zs : List ℕ) (n : ℕ) : Type 0 where
  ys : List ℕ
  m : ℕ
  is : pass t n (i ∷ xs ++ zs) ≡ ys ++ m ∷ zs
  len : length ys ≡ n
  perm : Perm (ys ++ m ∷ []) (i ∷ xs)
  first : UpTo t i m
  bound : All (λ y. UpTo t y m) ys
  keeps : (ws : List ℕ) → AllUpTo t ws (i ∷ xs) → AllUpTo t ws ys × All (UpTo t m) ws

UpTo-refl : (t : Table) (i : ℕ) → UpTo t i i
unfolding after
UpTo-refl t i = elim (Bool-cases (greater (get_or t i blank).name (get_or t i blank).name)) [
  | inl h ↦ greater_asym (get_or t i blank).name (get_or t i blank).name h
  | inr h ↦ h
]

UpTo-trans : (t : Table) (i j k : ℕ) → UpTo t i j → UpTo t j k → UpTo t i k
unfolding after
UpTo-trans t i j k =
    greater_trans (get_or t i blank).name (get_or t j blank).name (get_or t k blank).name

UpTo-after : (t : Table) (i j : ℕ) → after t i j ≡ true → UpTo t j i
unfolding after
UpTo-after t i j = greater_asym (get_or t i blank).name (get_or t j blank).name

pass-Passed : (t : Table) (n i : ℕ) (xs zs : List ℕ) → length xs ≡ n → Passed t i xs zs n
unfolding pass
pass-Passed t zero i [] zs e = record {
  ys = [];
  m = i;
  is = refl;
  len = refl;
  perm = Perm.rfl;
  first = UpTo-refl t i;
  bound = tt;
  keeps = λ ws h. (tt, h.0);
}
pass-Passed t zero i (j ∷ xs) zs e = absurd (omega arith)
pass-Passed t (suc n) i [] zs e = absurd (omega arith)
pass-Passed t (suc n) i (j ∷ xs) zs e = elim (Bool-cases (after t i j)) [
  | inl swaps ↦
      let r = pass-Passed t n i xs zs (omega (arith, e)) in
      record {
        ys = j ∷ r.ys;
        m = r.m;
        is = rw swaps (ap (◌∷◌ j) r.is);
        len = ap suc r.len;
        perm = Perm.trans (Perm.cons j r.perm) (Perm.swap i j xs);
        first = r.first;
        bound = (UpTo-trans t j i r.m (UpTo-after t i j swaps) r.first, r.bound);
        keeps = λ ws h. let k = r.keeps ws (h.0, h.1.1) in ((h.1.0, k.0), k.1);
      }
  | inr stays ↦
      let r = pass-Passed t n j xs zs (omega (arith, e)) in
      record {
        ys = i ∷ r.ys;
        m = r.m;
        is = rw stays (ap (◌∷◌ i) r.is);
        len = ap suc r.len;
        perm = Perm.cons i r.perm;
        first = UpTo-trans t i j r.m stays r.first;
        bound = (UpTo-trans t i j r.m stays r.first, r.bound);
        keeps = λ ws h. let k = r.keeps ws h.1 in ((h.0, k.0), k.1);
      }
]

AllUpTo-cons :
    (t : Table) (m : ℕ) (zs ys : List ℕ)
    → All (λ y. UpTo t y m) ys
    → AllUpTo t zs ys
    → AllUpTo t (m ∷ zs) ys
AllUpTo-cons t m zs [] h k = tt
AllUpTo-cons t m zs (y ∷ ys) h k = ((h.0, k.0), AllUpTo-cons t m zs ys h.1 k.1)

AllUpTo-nil : (t : Table) (ys : List ℕ) → AllUpTo t [] ys
AllUpTo-nil t [] = tt
AllUpTo-nil t (y ∷ ys) = (tt, AllUpTo-nil t ys)

-- A list in order that holds what `xs` holds.
abbrev pub Sorts : Table → List ℕ → List ℕ → Type 0
Sorts t xs out = Sorted t out × Perm out xs

passes-Sorts :
    (t : Table) (n : ℕ) (xs zs : List ℕ)
    → length xs ≡ suc n
    → Sorted t zs
    → AllUpTo t zs xs
    → Sorts t (xs ++ zs) (passes t n (xs ++ zs))
unfolding passes
passes-Sorts t n [] zs e s h = absurd (omega (arith, e))
passes-Sorts t zero (x ∷ []) zs e s h = ((h.0, s), Perm.rfl)
passes-Sorts t zero (x ∷ y ∷ xs) zs e s h = absurd (omega (arith, e))
passes-Sorts t (suc n) (x ∷ xs) zs e s h =
    let r = pass-Passed t (suc n) x xs zs (omega (arith, e)) in
    let kept = r.keeps zs h in
    let rest =
      passes-Sorts t n r.ys (r.m ∷ zs) r.len (kept.1, s)
        (AllUpTo-cons t r.m zs r.ys r.bound kept.0) in
    let moved : Perm (r.ys ++ r.m ∷ zs) (x ∷ xs ++ zs) =
      subst (λ l. Perm l (x ∷ xs ++ zs)) (append_assoc r.ys (r.m ∷ []) zs)
        (Perm.append_right zs r.perm) in
    rw (r.is) (rest.0, Perm.trans rest.1 moved)

sorts : (t : Table) (xs : List ℕ) → Sorts t xs (passes t (length xs - 1) xs)
unfolding passes
sorts t [] = (tt, Perm.rfl)
sorts t (x ∷ xs) =
    let e : suc (length xs) - 1 ≡ length xs = omega arith in
    let r = passes-Sorts t (length xs) (x ∷ xs) [] refl tt (AllUpTo-nil t (x ∷ xs)) in
    rw e (subst (λ l. Sorts t l (passes t (length xs) l)) (append-nil (x ∷ xs)) r)

-- The entries that fs_print_tree prints below a directory are its children, each as often as the scan of
-- the table found it, and none stands before one whose name is smaller in strcmp's order.
pub sorted_children-Sorts :
    (dir : Text) (t : Table) → Sorts t (child_indices dir 0 t) (sorted_children dir t)
unfolding sorted_children
sorted_children-Sorts dir t = sorts t (child_indices dir 0 t)
