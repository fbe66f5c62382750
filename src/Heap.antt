-- ===== src/Heap.antt =====
-- kernel/memory.c, the heap allocator. The array heap_storage is a map from byte offsets to the
-- block header that stands there; a pointer into it is `some offset`, and NULL is `none`. A loop
-- over the block list takes fuel and says so when it has too little. size_t is 32 bits wide, and a
-- header takes 12 bytes (three 4-byte fields).
pub mod Blocks
pub mod Layout
pub mod Malloc
pub mod Free
pub mod Laws
pub mod Coalesce
pub mod Service
mod Tests
use zero_to_kernel.Prelude.{
  ℕ, zero, suc, ◌+◌, ◌-◌, ◌*◌, ◌/◌, ◌%◌, ◌^◌, Bool, true, false, ◌&&◌, Option, none, some, ◌==◌,
  leb, if◌then◌else◌,
}

-- size_t
abbrev pub size_mod : ℕ
size_mod = 2 ^ 32

abbrev pub heap_size : ℕ
heap_size = 1024 * 256

abbrev pub align_bytes : ℕ
align_bytes = 8

-- sizeof(block_header_t)
abbrev pub header_size : ℕ
header_size = 12

abbrev pub Ptr : Type 0
Ptr = Option ℕ

pub record Header : Type 0 where
  pub size : ℕ
  pub free : Bool
  pub next : Ptr

abbrev pub header : ℕ → Bool → Ptr → Header
header n f q = record { size = n; free = f; next = q }

abbrev pub Cells : Type 0
Cells = ℕ → Header

-- heap_storage, heap_head and heap_used
pub record Heap : Type 0 where
  pub cell : Cells
  pub head : Ptr
  pub used : ℕ

abbrev pub heap : Cells → Ptr → ℕ → Heap
heap c p u = record { cell = c; head = p; used = u }

unfoldable pub write : Cells → ℕ → Header → Cells
write c p b q = if p == q then b else c q

-- `n & ~7` clears the low three bits.
unfoldable pub align_up : ℕ → ℕ
align_up n = (n + align_bytes - 1) % size_mod / align_bytes * align_bytes

unfoldable pub memory_init : Heap → Heap
memory_init h = heap (write h.cell 0 (header (heap_size - header_size) true none)) (some 0) 0

pub data Run {ℓ} (A : Type ℓ) : Type ℓ where
  out_of_fuel : Run A
  returned : A → Run A

-- The body of the loop of kmalloc once a block fits: split it if enough is left over, mark it.
unfoldable pub take_block : ℕ → ℕ → Heap → Ptr × Heap
take_block size p h =
    if leb (header_size + align_bytes) leftover
    then (
      some (p + header_size),
      record h {
        cell =
            write (write h.cell rest (header (leftover - header_size) true cur.next)) p
              (header size false (some rest));
        used = (h.used + (size + header_size)) % size_mod;
      },
    )
    else (
      some (p + header_size),
      record h {
        cell = write h.cell p (record cur { free = false });
        used = (h.used + (cur.size + header_size)) % size_mod;
      },
    )
  where
    cur : Header
    cur = h.cell p

    leftover : ℕ
    leftover = cur.size - size

    rest : ℕ
    rest = p + header_size + size

unfoldable pub kmalloc_loop : ℕ → ℕ → Ptr → Heap → Run (Ptr × Heap)
kmalloc_loop zero size cur h = out_of_fuel
kmalloc_loop (suc k) size none h = returned (none, h)
kmalloc_loop (suc k) size (some p) h =
    let next = kmalloc_loop k size (h.cell p).next h in
    if (h.cell p).free && leb size (h.cell p).size then returned (take_block size p h) else next

-- Blocks of at least a header fill the heap, so a list has at most heap_size / 12 of them.
abbrev pub list_fuel : ℕ
list_fuel = heap_size

unfoldable pub kmalloc : ℕ → Heap → Run (Ptr × Heap)
kmalloc size h =
    if size == 0 then returned (none, h) else kmalloc_loop list_fuel (align_up size) h.head h

-- Both `cur` and its successor are free: `cur` takes the successor in.
unfoldable pub merge : ℕ → ℕ → Cells → Cells
merge p q c =
    write c p
      (header (((c p).size + (header_size + (c q).size)) % size_mod) ((c p).free) ((c q).next))

-- The loop of kfree, at `cur`.
unfoldable pub coalesce_loop : ℕ → Ptr → Cells → Run Cells
coalesce_loop zero cur c = out_of_fuel
coalesce_loop (suc k) none c = returned c
coalesce_loop (suc k) (some p) c = elim (c p).next [
  | none ↦ returned c
  | some q ↦ elim ((c p).free && (c q).free) [
    | true ↦ coalesce_loop k (some p) (merge p q c)
    | false ↦ coalesce_loop k (some q) c
  ]
]

-- heap_used after a block of `n` bytes goes back; unsigned subtraction wraps.
abbrev pub give_back : ℕ → ℕ → ℕ
give_back used n = (used + size_mod - (n + header_size) % size_mod) % size_mod

-- The header that kfree marks stands `header_size` bytes before the pointer.
unfoldable pub mark_free : ℕ → Heap → Heap
mark_free p h = record h {
  cell = write h.cell p (record hdr { free = true });
  used = give_back h.used hdr.size;
}
  where
    hdr : Header
    hdr = h.cell p

with_cells : Heap → Run Cells → Run Heap
with_cells h out_of_fuel = out_of_fuel
with_cells h (returned c) = returned (record h { cell = c })

unfoldable pub kfree : Ptr → Heap → Run Heap
unfolding with_cells
kfree none h = returned h
kfree (some ptr) h =
    let h' = mark_free (ptr - header_size) h in
    with_cells h' (coalesce_loop list_fuel h'.head h'.cell)

-- The three numbers that memory_print_stats prints: total, used, free.
unfoldable pub memory_print_stats : Heap → ℕ × ℕ × ℕ
memory_print_stats h = (heap_size, h.used, (heap_size + size_mod - h.used) % size_mod)
