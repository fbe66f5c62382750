-- ===== src/Heap/Tests.antt =====
-- Runs of the allocator and instances of its theorems.
use zero_to_kernel.Prelude.{
  ℕ, ◌+◌, ◌-◌, ◌%◌, ◌≤◌, ◌<◌, ◌≡◌, ◌≢◌, refl, true, false, ◌==◌, if◌then◌else◌, ◌^◌, none, some,
  List, [], ◌∷◌, arith,
}
use mathlib.Core.List.{Perm}
use zero_to_kernel.Heap.{
  Ptr, header, Heap, heap, heap_size, Run, out_of_fuel, returned, write, align_up, take_block,
  mark_free, merge, coalesce_loop, kmalloc_loop, kmalloc, kfree, memory_init,
}
use zero_to_kernel.Heap.Blocks.{Block, allocated, size_at, usage, IsCoalesced}
use zero_to_kernel.Heap.Layout.{IsHeap, memory_init-IsHeap}
use zero_to_kernel.Heap.Service.{
  Serves, align_up_bounds, kmalloc-Serves, kfree_lem, kfree-kmalloc, kmalloc_wraps,
  kmalloc-memory_init,
}

abbrev empty : Heap
empty = heap (λ a. header 0 false none) none 0

abbrev one_block : List Block
one_block = (262132, true) ∷ []

-- One allocated block of 16 bytes, then the rest.
abbrev two_blocks : List Block
two_blocks = (16, false) ∷ (262104, true) ∷ []

abbrev two_cells : Heap
two_cells =
    heap (λ a. if a == 0 then header 16 false (some 28) else header 262104 true none) (some 0) 28

two_cells-IsHeap : IsHeap two_cells two_blocks
unfolding usage
two_cells-IsHeap = record { first = refl; chain = (refl, (refl, refl)); counted = refl }

infixl 5 ◌>>=◌
abbrev ◌>>=◌ : {A B : Type 0} → Run A → (A → Run B) → Run B
returned a >>= f = f a
out_of_fuel >>= f = out_of_fuel

-- malloc, malloc, free the first, malloc again: the hole is used.
script : Run (Ptr × Ptr × Ptr × ℕ)
script = do
  (p, h₁) ← kmalloc 10 (memory_init empty)
  (q, h₂) ← kmalloc 100 h₁
  h₃ ← kfree p h₂
  (r, h₄) ← kmalloc 16 h₃
  returned (p, q, r, h₄.used)

reuse : script ≡ returned (some 12, some 40, some 12, 16 + 12 + 104 + 12)
unfolding script kmalloc kmalloc_loop take_block align_up kfree mark_free coalesce_loop merge
    memory_init write
reuse = refl

align_up_bounds_instance : (13 ≤ align_up 13) × (align_up 13 < 21) × (align_up 13 % 8 ≡ 0)
align_up_bounds_instance = align_up_bounds 13 (omega arith)

kmalloc-Serves_example : Serves two_cells two_blocks (align_up 100) (kmalloc 100 two_cells)
kmalloc-Serves_example = kmalloc-Serves two_cells two_blocks 100 two_cells-IsHeap (omega arith)

kfree_lem_example :
    (h' : Heap) × (bs' : List Block) × (kfree (some 12) two_cells ≡ returned h')
    × IsHeap h' bs'
    × IsCoalesced bs'
    × Perm (allocated 0 two_blocks) ((0, 16) ∷ allocated 0 bs')
unfolding size_at
kfree_lem_example = kfree_lem two_cells 0 16 two_blocks two_cells-IsHeap refl

-- The heap after a request for 10 bytes.
abbrev served_ten : Heap
served_ten =
    heap
      (write (write (memory_init empty).cell 28 (header 262104 true none)) 0
        (header 16 false (some 28)))
      (some 0) 28

kmalloc_ten : kmalloc 10 (memory_init empty) ≡ returned (some 12, served_ten)
unfolding kmalloc kmalloc_loop take_block align_up memory_init write
kmalloc_ten = refl

kfree-kmalloc_example :
    (h'' : Heap) × (kfree (some 12) served_ten ≡ returned h'') × IsHeap h'' one_block
kfree-kmalloc_example =
    kfree-kmalloc (memory_init empty) served_ten one_block 10 12 (memory_init-IsHeap empty)
      (refl, tt) (omega arith) kmalloc_ten

kmalloc_wraps_example :
    (h' : Heap) × (kmalloc (2 ^ 32 - 1) (memory_init empty) ≡ returned (some 12, h'))
    × (heap_size < 2 ^ 32 - 1)
kmalloc_wraps_example =
    kmalloc_wraps (memory_init empty) 262132 (2 ^ 32 - 1) [] (memory_init-IsHeap empty)
      (omega arith) (omega arith)

kmalloc-memory_init_instance :
    (h' : Heap) × (kmalloc 10 (memory_init empty) ≡ returned (some 12, h')) × (12 % 8 ≢ 0)
kmalloc-memory_init_instance = kmalloc-memory_init empty 10 (omega arith) (omega arith)
