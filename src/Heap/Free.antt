-- ===== src/Heap/Free.antt =====
-- kfree on the linked headers does what `release` and then `coalesce` do on the block list.
use zero_to_kernel.Prelude.{
  ℕ, zero, suc, ◌+◌, ◌-◌, ◌%◌, ◌≤◌, ◌<◌, ◌≡◌, refl, sym, subst, ◌∙◌, ap, Bool, true, false, none,
  some, List, [], ◌∷◌, inl, inr, arith, ◌&&◌, ◌==◌, ==_iff, ==_refl, Bool-cases, length,
  if◌then◌else◌,
}
use zero_to_kernel.Heap.{
  Header, Cells, Heap, write, header_size, size_mod, Run, returned, mark_free, merge, coalesce_loop,
  list_fuel, kfree,
}
use zero_to_kernel.Heap.Blocks.{
  Block, after, release, coalesce_from, coalesce, usage, span, size_at,
}
use zero_to_kernel.Heap.Layout.{
  link, Layout, Layout-frame, IsHeap, span-Layout, length-lt-list_fuel, usage-le-span, write_above,
  write_below, write_self,
}

-- Marking the block at `p` changes its header alone.
record Marked (c : Cells) (a p n : ℕ) (bs : List Block) : Type 0 where
  size : (c p).size ≡ n
  from : a ≤ p
  chain : Layout (write c p (record (c p) { free = true })) a (release p a bs)
  first : link a (release p a bs) ≡ link a bs
  freed : usage bs ≡ usage (release p a bs) + (n + header_size)

mark_here :
    (c : Cells) (a n m : ℕ) (f : Bool) (bs : List Block)
    → Layout c a ((m, f) ∷ bs)
    → (if f then none else some m) ≡ some n
    → Marked c a a n ((m, f) ∷ bs)
unfolding release usage
mark_here c a n m true bs l e = cc
mark_here c a n m false bs l e = record {
  size = rw l.0 (ground arith);
  from = omega arith;
  chain = rw (==_refl a) (
    write_self c a _ ∙ rw l.0 refl,
    Layout-frame c _ (after a m) bs (λ q h. write_above c a _ q (omega arith)) l.1,
  );
  first = ground arith;
  freed = ground arith;
}

mark-Marked :
    (c : Cells) (a p n : ℕ) (bs : List Block)
    → Layout c a bs
    → size_at p a bs ≡ some n
    → Marked c a p n bs
unfolding size_at release usage
mark-Marked c a p n [] l e = cc
mark-Marked c a p n ((m, f) ∷ bs) l e = elim (Bool-cases (p == a)) [
  | inl here ↦
      let is : p ≡ a = (==_iff p a).0 here in
      subst (λ q. Marked c a q n ((m, f) ∷ bs)) (sym is) (mark_here c a n m f bs l (rw here at e))
  | inr away ↦
      let rest = mark-Marked c (after a m) p n bs l.1 (rw away at e) in
      record {
        size = rest.size;
        from = omega (arith, rest.from);
        chain =
            rw away (
              write_below c p _ a (omega (arith, rest.from)) ∙ l.0 ∙ rw rest.first refl,
              rest.chain,
            );
        first = rw away refl;
        freed = rw away (omega (arith, rest.freed));
      }
]

-- The loop of kfree from a block of the list on.
abbrev Merged : Cells → ℕ → List Block → Run Cells → Type 0
Merged c a bs r =
    (d : Cells) × (r ≡ returned d)
    × Layout d a bs
    × (link a bs ≡ some a)
    × ((q : ℕ) → q < a → d q ≡ c q)

merge-Layout :
    (c : Cells) (a n m : ℕ) (f g : Bool) (bs : List Block)
    → Layout c a ((n, f) ∷ (m, g) ∷ bs)
    → Layout (merge a (after a n) c) a ((n + (header_size + m), f) ∷ bs)
unfolding merge span
merge-Layout c a n m f g bs l =
    let end : after a (n + (header_size + m)) ≡ after (after a n) m = omega arith in
    let small : (n + (header_size + m)) % size_mod ≡ n + (header_size + m) =
      omega (arith, span-Layout c a ((n, f) ∷ (m, g) ∷ bs) l) in
    rw (l.0, l.1.0, small)
      (
        write_self c a _ ∙ rw end refl,
        rw end (
            Layout-frame c _ (after (after a n) m) bs (λ q h. write_above c a _ q (omega arith))
              l.1.1),
      )

module _ (k p q : ℕ) (c : Cells) (e : (c p).next ≡ some q) where
  coalesce_loop-merge :
      ((c p).free && (c q).free) ≡ true
      → coalesce_loop (suc k) (some p) c ≡ coalesce_loop k (some p) (merge p q c)
  unfolding coalesce_loop
  coalesce_loop-merge t = rw (e, coalesce_loop, t)

  coalesce_loop-advance :
      ((c p).free && (c q).free) ≡ false
      → coalesce_loop (suc k) (some p) c ≡ coalesce_loop k (some q) c
  unfolding coalesce_loop
  coalesce_loop-advance t = rw (e, coalesce_loop, t)

coalesce_loop-Merged :
    (k : ℕ) (c : Cells) (a n : ℕ) (f : Bool) (bs : List Block)
    → Layout c a ((n, f) ∷ bs)
    → length bs < k
    → Merged c a (coalesce_from n f bs) (coalesce_loop k (some a) c)
unfolding coalesce_loop coalesce_from merge
coalesce_loop-Merged zero c a n f bs l fuel = absurd (omega arith)
coalesce_loop-Merged (suc k) c a n f [] l fuel =
    rw (l.0, coalesce_loop) (c, refl, l, refl, λ q h. refl)
coalesce_loop-Merged (suc k) c a n f ((m, g) ∷ bs) l fuel = elim (Bool-cases (f && g)) [
  | inl both ↦
      let (d, got, l', first, same) =
        coalesce_loop-Merged k (merge a (after a n) c) a (n + (header_size + m)) f bs
          (merge-Layout c a n m f g bs l) (omega arith) in
      rw both (
        d,
        coalesce_loop-merge k a (after a n) c (ap (λ (b : Header). b.next) l.0)
              (rw (l.0, l.1.0) both)
            ∙ got,
        l',
        first,
        λ q h. same q h ∙ write_below c a _ q h,
      )
  | inr apart ↦
      let (d, got, l', first, same) =
        coalesce_loop-Merged k c (after a n) m g bs l.1 (omega arith) in
      rw apart (
        d,
        coalesce_loop-advance k a (after a n) c (ap (λ (b : Header). b.next) l.0)
              (rw (l.0, l.1.0) apart)
            ∙ got,
        (same a (omega arith) ∙ l.0 ∙ rw first refl, l'),
        refl,
        λ q h. same q (omega arith),
      )
]

usage-coalesce_from :
    (n : ℕ) (f : Bool) (bs : List Block) → usage (coalesce_from n f bs) ≡ usage ((n, f) ∷ bs)
unfolding coalesce_from usage
usage-coalesce_from n f [] = refl
usage-coalesce_from n f ((m, g) ∷ bs) =
    ground (arith, usage-coalesce_from (n + (header_size + m)) f bs, usage-coalesce_from m g bs)

pub usage-coalesce : (bs : List Block) → usage (coalesce bs) ≡ usage bs
unfolding coalesce
usage-coalesce [] = refl
usage-coalesce ((n, f) ∷ bs) = usage-coalesce_from n f bs

coalesce_all :
    (c : Cells) (bs : List Block)
    → Layout c 0 bs
    → (d : Cells) × (coalesce_loop list_fuel (link 0 bs) c ≡ returned d)
      × Layout d 0 (coalesce bs)
      × (link 0 (coalesce bs) ≡ link 0 bs)
unfolding coalesce coalesce_loop
coalesce_all c [] l = (c, refl, l, refl)
coalesce_all c ((n, f) ∷ bs) l =
    let fuel = length-lt-list_fuel c ((n, f) ∷ bs) l in
    let (d, got, l', first, same) =
      coalesce_loop-Merged list_fuel c 0 n f bs l (omega (arith, fuel)) in
    (d, got, l', first)

-- kfree with the loop's result at hand; `mark_free` stays shut.
kfree-returned :
    (h : Heap) (p : ℕ) (d : Cells)
    → coalesce_loop list_fuel (mark_free p h).head (mark_free p h).cell ≡ returned d
    → kfree (some (p + header_size)) h ≡ returned (record (mark_free p h) { cell = d })
unfolding kfree
kfree-returned h p d e =
    let same : p + header_size - header_size ≡ p = omega arith in rw (same, e) refl

-- Freeing the pointer of an allocated block releases that block and merges the free runs; the
-- result is again a heap, with heap_used counting its allocated blocks.
pub kfree-IsHeap :
    (h : Heap) (p n : ℕ) (bs : List Block)
    → IsHeap h bs
    → size_at p 0 bs ≡ some n
    → (h' : Heap) × (kfree (some (p + header_size)) h ≡ returned h')
      × IsHeap h' (coalesce (release p 0 bs))
unfolding mark_free
kfree-IsHeap h p n bs v e =
    let mk = mark-Marked h.cell 0 p n bs v.chain e in
    let (d, got, l, first) = coalesce_all _ (release p 0 bs) mk.chain in
    let start : h.head ≡ link 0 (release p 0 bs) = v.first ∙ sym mk.first in
    (
      record (mark_free p h) { cell = d },
      kfree-returned h p d (ap (λ x. coalesce_loop list_fuel x (mark_free p h).cell) start ∙ got),
      record {
        first = start ∙ sym first;
        chain = l;
        counted = omega (
          arith,
          mk.size,
          v.counted,
          mk.freed,
          usage-coalesce (release p 0 bs),
          usage-le-span bs,
          span-Layout h.cell 0 bs v.chain,
        );
      },
    )
