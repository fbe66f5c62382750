-- ===== src/Heap/Coalesce.antt =====
-- The laws of `release` and `coalesce` on block lists.
use zero_to_kernel.Prelude.{
  ℕ, ◌+◌, ◌-◌, ◌≤◌, ◌≡◌, refl, ◌∙◌, ap, sym, inl, inr, Bool, true, false, Option, none, some, List,
  [], ◌∷◌, arith, ◌&&◌, ◌==◌, ==_refl, ==_iff, subst, leb, leb→le, Bool-cases,
}
use mathlib.Core.List.{Perm, tail}
use mathlib.Core.List.Perm
use zero_to_kernel.Heap.{header_size, align_bytes}
use zero_to_kernel.Heap.Blocks.{
  Block, after, split, alloc, release, coalesce_from, coalesce, allocated, size_at, Separate,
  IsCoalesced,
}
use mathlib.Core.Option

-- Coalescing a list with no free neighbours changes nothing.
coalesce_from-id :
    (n : ℕ) (f : Bool) (bs : List Block) → Separate f bs → coalesce_from n f bs ≡ (n, f) ∷ bs
unfolding coalesce_from
coalesce_from-id n f [] s = refl
coalesce_from-id n f ((m, g) ∷ bs) s = rw (s.0, coalesce_from-id m g bs s.1)

Separate-coalesce_from :
    (e : Bool) (n : ℕ) (f : Bool) (bs : List Block)
    → (e && f) ≡ false
    → Separate e (coalesce_from n f bs)
unfolding coalesce_from
Separate-coalesce_from e n f [] h = (h, tt)
Separate-coalesce_from e n f ((m, g) ∷ bs) h = elim (Bool-cases (f && g)) [
  | inl both ↦ rw both (Separate-coalesce_from e (n + (header_size + m)) f bs h)
  | inr apart ↦ rw apart (h, Separate-coalesce_from f m g bs apart)
]

pub coalesce-IsCoalesced : (bs : List Block) → IsCoalesced (coalesce bs)
unfolding coalesce
coalesce-IsCoalesced [] = tt
coalesce-IsCoalesced ((n, f) ∷ bs) = Separate-coalesce_from false n f bs refl

-- Merging free blocks leaves the allocated ones where they are.
allocated-coalesce_from :
    (a n : ℕ) (f : Bool) (bs : List Block)
    → allocated a (coalesce_from n f bs) ≡ allocated a ((n, f) ∷ bs)
unfolding coalesce_from allocated
allocated-coalesce_from a n f [] = refl
allocated-coalesce_from a n true ((m, true) ∷ bs) =
    let end : after a (n + (header_size + m)) ≡ after (after a n) m = omega arith in
    allocated-coalesce_from a (n + (header_size + m)) true bs ∙ rw end refl
allocated-coalesce_from a n true ((m, false) ∷ bs) = allocated-coalesce_from (after a n) m false bs
allocated-coalesce_from a n false ((m, g) ∷ bs) =
    ap (λ t. (a, n) ∷ t) (allocated-coalesce_from (after a n) m g bs)

pub allocated-coalesce : (bs : List Block) → allocated 0 (coalesce bs) ≡ allocated 0 bs
unfolding coalesce
allocated-coalesce [] = refl
allocated-coalesce ((n, f) ∷ bs) = allocated-coalesce_from 0 n f bs

-- Releasing a block takes it, and no other, off the allocated ones.
pub allocated-release :
    (p a n : ℕ) (bs : List Block)
    → size_at p a bs ≡ some n
    → Perm (allocated a bs) ((p, n) ∷ allocated a (release p a bs))
unfolding size_at allocated release
allocated-release p a n [] e = cc
allocated-release p a n ((m, true) ∷ bs) e = elim (Bool-cases (p == a)) [
  | inl here ↦ absurd (not_none (rw here at e))
  | inr away ↦ rw away (allocated-release p (after a m) n bs (rw away at e))
]
  where
    not_none : ◌≡◌ {A = Option ℕ} none (some n) → ⊥
    not_none t = cc
allocated-release p a n ((m, false) ∷ bs) e = elim (Bool-cases (p == a)) [
  | inl here ↦
      let at : p ≡ a = (==_iff p a).0 here in
      let fits : m ≡ n = ground arith in rw here (rw (at, fits) (Perm.refl _))
  | inr away ↦ rw away (
      Perm.trans (Perm.cons (a, m) (allocated-release p (after a m) n bs (rw away at e)))
        (Perm.swap _ _ _))
]

-- After `alloc`, releasing the same block behind a block (m, g) and coalescing gives the list back.
undo-split :
    (size m a n : ℕ) (g : Bool) (bs : List Block)
    → size ≤ n
    → Separate g ((n, true) ∷ bs)
    → coalesce_from m g (release a a (split size n bs)) ≡ (m, g) ∷ (n, true) ∷ bs
unfolding split release coalesce_from
undo-split size m a n g bs h s = elim (Bool-cases (leb (header_size + align_bytes) (n - size))) [
  | inl big ↦
      let whole : size + (header_size + (n - size - header_size)) ≡ n = ground arith in
      rw (big, ==_refl a, s.0, whole) (ap (λ t. (m, g) ∷ t) (coalesce_from-id n true bs s.1))
  | inr small ↦ rw (small, ==_refl a, s.0) (ap (λ t. (m, g) ∷ t) (coalesce_from-id n true bs s.1))
]

abbrev Undone : ℕ → ℕ → Bool → List Block → Option (ℕ × List Block) → Type 0
Undone a m g bs none = Unit
Undone a m g bs (some (p, bs')) = (a ≤ p) × (coalesce_from m g (release p a bs') ≡ (m, g) ∷ bs)

Undone-cons :
    (a m n : ℕ) (g f : Bool) (bs : List Block) (o : Option (ℕ × List Block))
    → (g && f) ≡ false
    → Undone (after a n) n f bs o
    → Undone a m g ((n, f) ∷ bs) (Option.map (λ t. (t.0, (n, f) ∷ t.1)) o)
unfolding release coalesce_from
Undone-cons a m n g f bs none s h = tt
Undone-cons a m n g f bs (some (p, bs')) s h =
    let away : (p == a) ≡ false = ground (arith, h.0) in
    (omega (arith, h.0), rw (away, s) (ap (λ t. (m, g) ∷ t) h.1))

alloc-Undone :
    (size a m : ℕ) (g : Bool) (bs : List Block) → Separate g bs → Undone a m g bs (alloc size a bs)
unfolding alloc
alloc-Undone size a m g [] s = tt
alloc-Undone size a m g ((n, false) ∷ bs) s =
    Undone-cons a m n g false bs (alloc size (after a n) bs) s.0
      (alloc-Undone size (after a n) n false bs s.1)
alloc-Undone size a m g ((n, true) ∷ bs) s = elim (Bool-cases (leb size n)) [
  | inl fits ↦ rw fits (omega arith, undo-split size m a n g bs (leb→le size n fits) s)
  | inr small ↦ rw small (
      Undone-cons a m n g true bs (alloc size (after a n) bs) s.0
        (alloc-Undone size (after a n) n true bs s.1))
]

coalesce-cons : (bs : List Block) → coalesce_from 0 false bs ≡ (0, false) ∷ coalesce bs
unfolding coalesce coalesce_from
coalesce-cons [] = refl
coalesce-cons ((n, f) ∷ bs) = refl

-- On a coalesced list, releasing what was just allocated gives the list back.
pub alloc-release :
    (size p : ℕ) (bs bs' : List Block)
    → IsCoalesced bs
    → alloc size 0 bs ≡ some (p, bs')
    → coalesce (release p 0 bs') ≡ bs
alloc-release size p bs bs' s e =
    let (_, back) = subst (Undone 0 0 false bs) e (alloc-Undone size 0 0 false bs s) in
    ap tail (sym (coalesce-cons (release p 0 bs')) ∙ back)
