-- ===== src/Heap/Service.antt =====
-- kmalloc and kfree as their callers see them.
use zero_to_kernel.Prelude.{
  ℕ, ◌+◌, ◌-◌, ◌%◌, ◌≤◌, ◌<◌, ◌≡◌, ◌≢◌, refl, ◌∙◌, ap, sym, subst, true, false, Option, none, some,
  List, [], ◌∷◌, arith, ◌==◌, leb, All,
}
use mathlib.Core.List.{Perm}
use zero_to_kernel.Heap.{
  Ptr, Heap, heap, heap_size, header_size, align_bytes, size_mod, Run, returned, align_up,
  memory_init, kmalloc, kmalloc_loop, list_fuel, kfree,
}
use zero_to_kernel.Heap.Blocks.{Block, alloc, release, coalesce, allocated, size_at, IsCoalesced}
use zero_to_kernel.Heap.Layout.{
  IsHeap, length-lt-list_fuel, usage-le-span, span-Layout, memory_init-IsHeap,
}
use zero_to_kernel.Heap.Malloc.{Outcome, kmalloc_loop-Outcome}
use zero_to_kernel.Heap.Free.{kfree-IsHeap}
use zero_to_kernel.Heap.Coalesce.{
  coalesce-IsCoalesced, allocated-coalesce, allocated-release, alloc-release,
}
use zero_to_kernel.Heap.Laws.{Fresh, TooSmall, AllocSpec, alloc-AllocSpec}

-- Rounding up to a multiple of 8 does not wrap below the last seven values of size_t.
pub align_up_bounds :
    (n : ℕ)
    → n + align_bytes ≤ size_mod
    → (n ≤ align_up n) × (align_up n < n + align_bytes) × (align_up n % align_bytes ≡ 0)
unfolding align_up
align_up_bounds n h = (omega arith, omega arith, omega arith)

-- No block fits and nothing changes, or a fresh block is handed out and the state is a heap again.
pub data Serves (h : Heap) (bs : List Block) (size : ℕ) : Run (Ptr × Heap) → Type 0 where
  refused : All (TooSmall size) bs → Serves h bs size (returned (none, h))
  served :
      (p n : ℕ) (h' : Heap) (bs' : List Block)
      → IsHeap h' bs'
      → Fresh size 0 p n bs bs'
      → alloc size 0 bs ≡ some (p, bs')
      → Serves h bs size (returned (some (p + header_size), h'))

Outcome-Serves :
    (h : Heap) (bs : List Block) (size : ℕ) (o : Option (ℕ × List Block)) (r : Run (Ptr × Heap))
    → IsHeap h bs
    → alloc size 0 bs ≡ o
    → AllocSpec size 0 bs o
    → Outcome h.cell h.head h.used 0 bs o r
    → Serves h bs size r
Outcome-Serves h bs size none r v is_none small e = rw e (refused small)
Outcome-Serves h bs size (some (p, bs')) r v is_some (n, fresh)
      (s, got, (d, taken, is, use_, l, lk, same)) =
    rw (got, is)
      (served p n _ bs'
        (record {
          first = v.first ∙ sym lk;
          chain = l;
          counted = omega (arith, v.counted, use_, usage-le-span bs', span-Layout d 0 bs' l);
        })
        fresh is_some)

-- kmalloc of a request that is not zero: the pointer is NULL and nothing changes exactly when each
-- free block is smaller than the rounded request; otherwise it points behind the header of a fresh
-- block, and memory holds the new block list.
pub kmalloc-Serves :
    (h : Heap) (bs : List Block) (size : ℕ)
    → IsHeap h bs
    → size ≢ 0
    → Serves h bs (align_up size) (kmalloc size h)
unfolding kmalloc
kmalloc-Serves h bs size v ne =
    let run =
      kmalloc_loop-Outcome list_fuel (align_up size) h.used h.head h.cell 0 bs v.chain
        (length-lt-list_fuel h.cell bs v.chain) in
    let test : (size == 0) ≡ false = ground arith in
    rw test (
      Outcome-Serves h bs (align_up size) (alloc (align_up size) 0 bs) _ v refl
        (alloc-AllocSpec (align_up size) 0 bs) (rw (← v.first) at run))

-- Freeing the pointer of an allocated block succeeds: that block, and no other, leaves the allocated
-- ones, no free block is left beside another, and memory holds the new block list.
pub kfree_lem :
    (h : Heap) (p n : ℕ) (bs : List Block)
    → IsHeap h bs
    → size_at p 0 bs ≡ some n
    → (h' : Heap) × (bs' : List Block) × (kfree (some (p + header_size)) h ≡ returned h')
      × IsHeap h' bs'
      × IsCoalesced bs'
      × Perm (allocated 0 bs) ((p, n) ∷ allocated 0 bs')
kfree_lem h p n bs v e =
    let (h', got, v') = kfree-IsHeap h p n bs v e in
    let left = coalesce (release p 0 bs) in
    (
      h',
      left,
      got,
      v',
      coalesce-IsCoalesced (release p 0 bs),
      rw (allocated-coalesce (release p 0 bs)) (allocated-release p 0 n bs e),
    )

free_served :
    (h h' : Heap) (bs : List Block) (size ptr : ℕ) (r : Run (Ptr × Heap))
    → IsCoalesced bs
    → Serves h bs size r
    → r ≡ returned (some ptr, h')
    → (h'' : Heap) × (kfree (some ptr) h' ≡ returned h'') × IsHeap h'' bs
free_served h h' bs size ptr r s (refused small) e = absurd (no e)
  where
    no : ◌≡◌ {A = Run (Ptr × Heap)} (returned (none, h)) (returned (some ptr, h')) → ⊥
    no t = cc
free_served h h' bs size ptr r s (served p n h₁ bs' v fresh is) e =
    let same : h₁ ≡ h' = cc in
    let pointer : p + header_size ≡ ptr = ground arith in
    let (h'', got, v'') = kfree-IsHeap h₁ p n bs' v fresh.found in
    (h'', rw (← pointer, ← same) got, subst (IsHeap h'') (alloc-release size p bs bs' s is) v'')

-- On a heap without free neighbours, freeing the block that kmalloc has just returned gives the
-- block list of before.
pub kfree-kmalloc :
    (h h' : Heap) (bs : List Block) (size ptr : ℕ)
    → IsHeap h bs
    → IsCoalesced bs
    → size ≢ 0
    → kmalloc size h ≡ returned (some ptr, h')
    → (h'' : Heap) × (kfree (some ptr) h' ≡ returned h'') × IsHeap h'' bs
kfree-kmalloc h h' bs size ptr v s ne e =
    free_served h h' bs (align_up size) ptr (kmalloc size h) s (kmalloc-Serves h bs size v ne) e

-- A free first block that is large enough is taken.
kmalloc_first :
    (h : Heap) (n size : ℕ) (bs : List Block)
    → IsHeap h ((n, true) ∷ bs)
    → size ≢ 0
    → align_up size ≤ n
    → (h' : Heap) × (kmalloc size h ≡ returned (some header_size, h'))
unfolding kmalloc alloc
kmalloc_first h n size bs v ne fits =
    let all = (n, true) ∷ bs in
    let test : (size == 0) ≡ false = ground arith in
    let fit : leb (align_up size) n ≡ true = ground arith in
    let run =
      kmalloc_loop-Outcome list_fuel (align_up size) h.used h.head h.cell 0 all v.chain
        (length-lt-list_fuel h.cell all v.chain) in
    let step : kmalloc size h ≡ kmalloc_loop list_fuel (align_up size) h.head h = rw test refl in
    let (r, got, took) = rw fit at run in
    (
      heap took.0 h.head ((h.used + took.1) % size_mod),
      step
          ∙ ap (λ p. kmalloc_loop list_fuel (align_up size) p h) v.first
          ∙ got
          ∙ ap returned took.2,
    )

-- A request of one of the last seven values of size_t wraps to 0 bytes in align_up, and is served
-- from the first block of a heap that starts with a free block, although it exceeds the heap.
pub kmalloc_wraps :
    (h : Heap) (n size : ℕ) (bs : List Block)
    → IsHeap h ((n, true) ∷ bs)
    → size_mod < size + align_bytes
    → size < size_mod
    → (h' : Heap) × (kmalloc size h ≡ returned (some header_size, h')) × (heap_size < size)
unfolding align_up
kmalloc_wraps h n size bs v lo hi =
    let (h', got) = kmalloc_first h n size bs v (omega arith) (omega arith) in
    (h', got, omega arith)

-- After memory_init every request of up to 262128 bytes is answered by offset 12, which is no multiple
-- of 8.
pub kmalloc-memory_init :
    (h : Heap) (size : ℕ)
    → size ≢ 0
    → size + 16 ≤ heap_size
    → (h' : Heap) × (kmalloc size (memory_init h) ≡ returned (some header_size, h'))
      × (header_size % align_bytes ≢ 0)
unfolding align_up
kmalloc-memory_init h size ne fits =
    let (h', got) =
      kmalloc_first (memory_init h) (heap_size - header_size) size [] (memory_init-IsHeap h) ne
        (omega arith) in
    (h', got, omega arith)
