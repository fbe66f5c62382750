-- ===== src/Heap/Laws.antt =====
-- What first fit, release and coalescing do to the blocks that the callers hold.
use zero_to_kernel.Prelude.{
  ℕ, ◌+◌, ◌-◌, ◌≤◌, ◌<◌, ◌≡◌, refl, ◌⊎◌, inl, inr, Bool, true, false, Option, none, some, List, [],
  ◌∷◌, arith, ◌==◌, ==_refl, leb, leb→le, Bool-cases, All,
}
use mathlib.Core.Option
use mathlib.Core.List.{Perm}
use mathlib.Core.List.Perm
use zero_to_kernel.Heap.{header_size, align_bytes}
use zero_to_kernel.Heap.Blocks.{Block, after, split, alloc, span, allocated, size_at}

-- The block at `p` of size `n` and another allocated block do not overlap, headers included.
abbrev pub Beside : ℕ → ℕ → ℕ × ℕ → Type 0
Beside p n (q, m) = (q + header_size + m ≤ p) ⊎ (p + header_size + n ≤ q)

abbrev pub TooSmall : ℕ → Block → Type 0
TooSmall size (n, true) = n < size
TooSmall size (n, false) = Unit

-- A block of size `n` was taken at `p` for a request of `size`.
pub record Fresh (size a p n : ℕ) (bs bs' : List Block) : Type 0 where
  pub fits : size ≤ n
  pub above : a ≤ p
  pub fitted : ¬ All (TooSmall size) bs
  pub inside : p + header_size + n ≤ a + span bs
  pub spans : span bs' ≡ span bs
  pub found : size_at p a bs' ≡ some n
  pub apart : All (Beside p n) (allocated a bs)
  pub added : Perm (allocated a bs') ((p, n) ∷ allocated a bs)

abbrev pub AllocSpec : ℕ → ℕ → List Block → Option (ℕ × List Block) → Type 0
AllocSpec size a bs none = All (TooSmall size) bs
AllocSpec size a bs (some (p, bs')) = (n : ℕ) × Fresh size a p n bs bs'

-- All blocks of a list lie at or behind its start.
allocated_above :
    (p n a : ℕ) (bs : List Block) → p + header_size + n ≤ a → All (Beside p n) (allocated a bs)
unfolding allocated
allocated_above p n a [] h = tt
allocated_above p n a ((m, true) ∷ bs) h = allocated_above p n (after a m) bs (omega arith)
allocated_above p n a ((m, false) ∷ bs) h =
    (inr h, allocated_above p n (after a m) bs (omega arith))

split-Fresh :
    (size a n : ℕ) (bs : List Block)
    → size ≤ n
    → (m : ℕ) × Fresh size a a m ((n, true) ∷ bs) (split size n bs)
unfolding split span allocated size_at
split-Fresh size a n bs h = elim (Bool-cases (leb (header_size + align_bytes) (n - size))) [
  | inl big ↦
      let end : after (after a size) (n - size - header_size) ≡ after a n = ground arith in
      rw big (
        size,
        record {
          fits = omega arith;
          above = omega arith;
          fitted = λ t. absurd (omega (arith, t.0));
          inside = omega arith;
          spans = ground arith;
          found = rw (==_refl a) refl;
          apart = allocated_above a size (after a n) bs (omega arith);
          added = rw end (Perm.refl _);
        },
      )
  | inr small ↦ rw small (
    n,
    record {
      fits = h;
      above = omega arith;
      fitted = λ t. absurd (omega (arith, t.0));
      inside = omega arith;
      spans = refl;
      found = rw (==_refl a) refl;
      apart = allocated_above a n (after a n) bs (omega arith);
      added = Perm.refl _;
    },
  )
]

AllocSpec-cons :
    (size a n : ℕ) (f : Bool) (bs : List Block) (o : Option (ℕ × List Block))
    → TooSmall size (n, f)
    → AllocSpec size (after a n) bs o
    → AllocSpec size a ((n, f) ∷ bs) (Option.map (λ t. (t.0, (n, f) ∷ t.1)) o)
unfolding span allocated size_at
AllocSpec-cons size a n f bs none small h = (small, h)
AllocSpec-cons size a n true bs (some (p, bs')) small (m, h) =
    let away : (p == a) ≡ false = ground (arith, h.above) in
    (
      m,
      record {
        fits = h.fits;
        above = omega (arith, h.above);
        fitted = λ t. h.fitted t.1;
        inside = omega (arith, h.inside);
        spans = omega (arith, h.spans);
        found = rw away h.found;
        apart = h.apart;
        added = h.added;
      },
    )
AllocSpec-cons size a n false bs (some (p, bs')) small (m, h) =
    let away : (p == a) ≡ false = ground (arith, h.above) in
    (
      m,
      record {
        fits = h.fits;
        above = omega (arith, h.above);
        fitted = λ t. h.fitted t.1;
        inside = omega (arith, h.inside);
        spans = omega (arith, h.spans);
        found = rw away h.found;
        apart = (inl h.above, h.apart);
        added = Perm.trans (Perm.cons (a, n) h.added) (Perm.swap _ _ _);
      },
    )

-- First fit serves a request from a fresh block, or every free block is too small.
pub alloc-AllocSpec : (size a : ℕ) (bs : List Block) → AllocSpec size a bs (alloc size a bs)
unfolding alloc
alloc-AllocSpec size a [] = tt
alloc-AllocSpec size a ((n, false) ∷ bs) =
    AllocSpec-cons size a n false bs (alloc size (after a n) bs) tt
      (alloc-AllocSpec size (after a n) bs)
alloc-AllocSpec size a ((n, true) ∷ bs) = elim (Bool-cases (leb size n)) [
  | inl fits ↦ rw fits (split-Fresh size a n bs (leb→le size n fits))
  | inr small ↦ rw small (
      AllocSpec-cons size a n true bs (alloc size (after a n) bs) (ground arith)
        (alloc-AllocSpec size (after a n) bs))
]
