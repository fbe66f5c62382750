-- ===== src/Heap/Layout.antt =====
-- When the linked headers in memory are a given list of blocks that tile the heap up to its end.
use zero_to_kernel.Prelude.{
  ℕ, ◌+◌, ◌-◌, ◌*◌, ◌≤◌, ◌<◌, ◌≡◌, refl, ◌∙◌, true, none, some, List, [], ◌∷◌, arith, length,
}
use zero_to_kernel.Heap.{
  Ptr, Header, header, Cells, Heap, write, heap_size, header_size, memory_init, list_fuel,
}
use zero_to_kernel.Heap.Blocks.{Block, after, span, usage}

-- The pointer to the first block of a list that starts at `a`.
abbrev pub link : ℕ → List Block → Ptr
link a [] = none
link a (b ∷ bs) = some a

abbrev pub Layout : Cells → ℕ → List Block → Type 0
Layout c a [] = a ≡ heap_size
Layout c a ((n, f) ∷ bs) = (c a ≡ header n f (link (after a n) bs)) × Layout c (after a n) bs

-- The allocator's state holds the block list `bs`, and heap_used counts its allocated blocks.
pub record IsHeap (h : Heap) (bs : List Block) : Type 0 where
  pub first : h.head ≡ link 0 bs
  pub chain : Layout h.cell 0 bs
  pub counted : h.used ≡ usage bs

-- The blocks reach exactly to the end of the heap.
pub span-Layout : (c : Cells) (a : ℕ) (bs : List Block) → Layout c a bs → a + span bs ≡ heap_size
unfolding span
span-Layout c a [] l = omega (arith, l)
span-Layout c a ((n, f) ∷ bs) l = omega (arith, span-Layout c (after a n) bs l.1)

pub length-le-span : (bs : List Block) → 12 * length bs ≤ span bs
unfolding span
length-le-span [] = omega arith
length-le-span ((n, f) ∷ bs) = omega (arith, length-le-span bs)

pub usage-le-span : (bs : List Block) → usage bs ≤ span bs
unfolding usage span
usage-le-span [] = omega arith
usage-le-span ((n, f) ∷ bs) = ground (arith, usage-le-span bs)

-- A list within the heap is shorter than the fuel of the loops.
pub length-lt-list_fuel : (c : Cells) (bs : List Block) → Layout c 0 bs → length bs < list_fuel
length-lt-list_fuel c bs l = omega (arith, span-Layout c 0 bs l, length-le-span bs)

-- Headers below the list may change.
pub Layout-frame :
    (c d : Cells) (a : ℕ) (bs : List Block)
    → ((q : ℕ) → a ≤ q → d q ≡ c q)
    → Layout c a bs
    → Layout d a bs
Layout-frame c d a [] same l = l
Layout-frame c d a ((n, f) ∷ bs) same l =
    (same a (omega arith) ∙ l.0, Layout-frame c d (after a n) bs (λ q h. same q (omega arith)) l.1)

pub write_above : (c : Cells) (p : ℕ) (b : Header) (q : ℕ) → p < q → write c p b q ≡ c q
unfolding write
write_above c p b q h = ground arith

pub write_below : (c : Cells) (p : ℕ) (b : Header) (q : ℕ) → q < p → write c p b q ≡ c q
unfolding write
write_below c p b q h = ground arith

pub write_self : (c : Cells) (p : ℕ) (b : Header) → write c p b p ≡ b
unfolding write
write_self c p b = ground arith

-- memory_init makes one free block of the whole heap.
pub memory_init-IsHeap : (h : Heap) → IsHeap (memory_init h) ((heap_size - header_size, true) ∷ [])
unfolding memory_init usage write
memory_init-IsHeap h = record { first = refl; chain = (refl, refl); counted = refl }
