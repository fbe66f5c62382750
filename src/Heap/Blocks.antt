-- ===== src/Heap/Blocks.antt =====
-- What the allocator does, on the list of the blocks that tile the heap: each has its usable size
-- and whether it is free, and its address follows from the blocks before it.
use zero_to_kernel.Prelude.{
  ℕ, ◌+◌, ◌-◌, ◌≡◌, Bool, true, false, ◌&&◌, Option, none, some, List, [], ◌∷◌, ◌==◌, leb,
  if◌then◌else◌,
}
use mathlib.Core.Option
use zero_to_kernel.Heap.{header_size, align_bytes}

abbrev pub Block : Type 0
Block = ℕ × Bool

-- The address of the block after one of size `n` at `a`.
abbrev pub after : ℕ → ℕ → ℕ
after a n = a + header_size + n

-- First fit, with a split if a header and one aligned unit are left over. The result is the address
-- of the block's header.
unfoldable pub split : ℕ → ℕ → List Block → List Block
split size n bs =
    if leb (header_size + align_bytes) (n - size)
    then (size, false) ∷ (n - size - header_size, true) ∷ bs
    else (n, false) ∷ bs

unfoldable pub alloc : ℕ → ℕ → List Block → Option (ℕ × List Block)
unfolding split
alloc size a [] = none
alloc size a ((n, f) ∷ bs) =
    let rest = alloc size (after a n) bs in
    if f && leb size n
    then some (a, split size n bs)
    else Option.map (λ r. (r.0, (n, f) ∷ r.1)) rest

-- Mark the block at address `p` free.
unfoldable pub release : ℕ → ℕ → List Block → List Block
release p a [] = []
release p a ((n, f) ∷ bs) = if p == a then (n, true) ∷ bs else (n, f) ∷ release p (after a n) bs

-- Merge runs of free blocks, from a first block on.
unfoldable pub coalesce_from : ℕ → Bool → List Block → List Block
coalesce_from n f [] = (n, f) ∷ []
coalesce_from n f ((m, g) ∷ bs) =
    let merged = coalesce_from (n + (header_size + m)) f bs in
    let apart = (n, f) ∷ coalesce_from m g bs in if f && g then merged else apart

unfoldable pub coalesce : List Block → List Block
unfolding coalesce_from
coalesce [] = []
coalesce ((n, f) ∷ bs) = coalesce_from n f bs

-- The bytes that a block list takes up, headers included, and those of its allocated blocks.
unfoldable pub span : List Block → ℕ
span [] = 0
span ((n, f) ∷ bs) = n + header_size + span bs

unfoldable pub usage : List Block → ℕ
usage [] = 0
usage ((n, f) ∷ bs) = (if f then 0 else n + header_size) + usage bs

-- The allocated blocks with their addresses, which is what the callers of kmalloc hold.
unfoldable pub allocated : ℕ → List Block → List (ℕ × ℕ)
allocated a [] = []
allocated a ((n, f) ∷ bs) = let rest = allocated (after a n) bs in if f then rest else (a, n) ∷ rest

-- The size of the allocated block at address `p`, if there is one.
unfoldable pub size_at : ℕ → ℕ → List Block → Option ℕ
size_at p a [] = none
size_at p a ((n, f) ∷ bs) =
    let rest = size_at p (after a n) bs in if p == a then (if f then none else some n) else rest

-- No free block stands beside another.
abbrev pub Separate : Bool → List Block → Type 0
Separate f [] = Unit
Separate f ((m, g) ∷ bs) = ((f && g) ≡ false) × Separate g bs

abbrev pub IsCoalesced : List Block → Type 0
IsCoalesced = Separate false
