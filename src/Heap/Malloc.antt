-- ===== src/Heap/Malloc.antt =====
-- kmalloc on the linked headers does what `alloc` does on the block list.
use zero_to_kernel.Prelude.{
  ℕ, zero, suc, ◌+◌, ◌-◌, ◌%◌, ◌≤◌, ◌<◌, ◌≡◌, refl, ◌∙◌, Bool, true, false, none, some, Option,
  List, [], ◌∷◌, inl, inr, arith, leb, leb→le, Bool-cases, length,
}
use mathlib.Core.Option
use zero_to_kernel.Heap.{
  Ptr, header, Cells, Heap, heap, write, header_size, align_bytes, size_mod, Run, returned,
  take_block, kmalloc_loop,
}
use zero_to_kernel.Heap.Blocks.{Block, after, split, alloc, usage}
use zero_to_kernel.Heap.Layout.{link, Layout, Layout-frame, write_above, write_below, write_self}

-- A run that took a block with its header at `p`, and left the blocks `bs'` from `a` on.
abbrev pub Took : Cells → Ptr → ℕ → ℕ → List Block → ℕ → List Block → Ptr × Heap → Type 0
Took c hd u a bs p bs' r =
    (d : Cells) × (taken : ℕ) × (r ≡ (some (p + header_size), heap d hd ((u + taken) % size_mod)))
    × (usage bs' ≡ usage bs + taken)
    × Layout d a bs'
    × (link a bs' ≡ link a bs)
    × ((q : ℕ) → q < a → d q ≡ c q)

module _ (c : Cells) (hd : Ptr) (u size a n : ℕ) (bs : List Block) where
  -- The two headers that a split writes, and the blocks behind them.
  split-Layout :
      (next : Ptr)
      → Layout c (after a n) bs
      → next ≡ link (after a n) bs
      → size + header_size ≤ n
      → Layout
          (write
            (write c (after a size) (header (n - size - header_size) true next))
            a
            (header size false (some (after a size))))
          a
          ((size, false) ∷ (n - size - header_size, true) ∷ bs)
  split-Layout next l e fits =
      let end : after (after a size) (n - size - header_size) ≡ after a n = omega arith in
      (
        write_self _ a _,
        (
          write_above _ a _ (after a size) (omega arith)
              ∙ write_self c (after a size) _
              ∙ rw (end, e) refl,
          rw end (
              Layout-frame c _ (after a n) bs
                (λ q h. write_above _ a _ q (omega arith) ∙ write_above c _ _ q (omega arith)) l),
        ),
      )

  take_block-split :
      Layout c a ((n, true) ∷ bs)
      → size ≤ n
      → leb (header_size + align_bytes) (n - size) ≡ true
      → Took c hd u a ((n, true) ∷ bs) a (split size n bs) (take_block size a (heap c hd u))
  unfolding take_block split usage
  take_block-split l fits big =
      rw (l.0, big)
        (
          _,
          size + header_size,
          refl,
          omega arith,
          split-Layout _ l.1 refl (ground arith),
          refl,
          λ q h. write_below _ a _ q h ∙ write_below c _ _ q (omega arith),
        )

  take_block-whole :
      Layout c a ((n, true) ∷ bs)
      → leb (header_size + align_bytes) (n - size) ≡ false
      → Took c hd u a ((n, true) ∷ bs) a (split size n bs) (take_block size a (heap c hd u))
  unfolding take_block split usage
  take_block-whole l small =
      rw (l.0, small)
        (
          _,
          n + header_size,
          refl,
          omega arith,
          (
            write_self c a _,
            Layout-frame c _ (after a n) bs (λ q h. write_above c a _ q (omega arith)) l.1,
          ),
          refl,
          λ q h. write_below c a _ q h,
        )

  take_block-Took :
      Layout c a ((n, true) ∷ bs)
      → size ≤ n
      → Took c hd u a ((n, true) ∷ bs) a (split size n bs) (take_block size a (heap c hd u))
  take_block-Took l fits = elim (Bool-cases (leb (header_size + align_bytes) (n - size))) [
    | inl big ↦ take_block-split l fits big
    | inr small ↦ take_block-whole l small
  ]

-- The loop fails and changes nothing where no block fits, and takes the block of `alloc` elsewhere.
abbrev pub Outcome :
    Cells → Ptr → ℕ → ℕ → List Block → Option (ℕ × List Block) → Run (Ptr × Heap) → Type 0
Outcome c hd u a bs none r = r ≡ returned (none, heap c hd u)
Outcome c hd u a bs (some (p, bs')) r =
    (s : Ptr × Heap) × (r ≡ returned s) × Took c hd u a bs p bs' s

Outcome-cons :
    (c : Cells) (hd : Ptr) (u a n : ℕ) (f : Bool) (bs : List Block) (o : Option (ℕ × List Block))
    (r : Run (Ptr × Heap))
    → c a ≡ header n f (link (after a n) bs)
    → Outcome c hd u (after a n) bs o r
    → Outcome c hd u a ((n, f) ∷ bs) (Option.map (λ t. (t.0, (n, f) ∷ t.1)) o) r
unfolding usage
Outcome-cons c hd u a n f bs none r e h = h
Outcome-cons c hd u a n f bs (some (p, bs')) r e (s, got, (d, taken, is, use_, l, lk, same)) = (
  s,
  got,
  (
    d,
    taken,
    is,
    omega (arith, use_),
    (same a (omega arith) ∙ e ∙ rw lk refl, l),
    refl,
    λ q h. same q (omega arith),
  ),
)

pub kmalloc_loop-Outcome :
    (k size u : ℕ) (hd : Ptr) (c : Cells) (a : ℕ) (bs : List Block)
    → Layout c a bs
    → length bs < k
    → Outcome c hd u a bs (alloc size a bs) (kmalloc_loop k size (link a bs) (heap c hd u))
unfolding kmalloc_loop alloc
kmalloc_loop-Outcome zero size u hd c a bs l fuel = absurd (omega arith)
kmalloc_loop-Outcome (suc k) size u hd c a [] l fuel = refl
kmalloc_loop-Outcome (suc k) size u hd c a ((n, false) ∷ bs) l fuel = rw l.0 (
    Outcome-cons c hd u a n false bs (alloc size (after a n) bs) _ l.0
      (kmalloc_loop-Outcome k size u hd c (after a n) bs l.1 (omega arith)))
kmalloc_loop-Outcome (suc k) size u hd c a ((n, true) ∷ bs) l fuel =
    elim (Bool-cases (leb size n)) [
      | inl fits ↦
          rw (l.0, fits) (_, refl, take_block-Took c hd u size a n bs l (leb→le size n fits))
      | inr small ↦
          rw (l.0, small)
            (Outcome-cons c hd u a n true bs (alloc size (after a n) bs) _ l.0
              (kmalloc_loop-Outcome k size u hd c (after a n) bs l.1 (omega arith)))
    ]
