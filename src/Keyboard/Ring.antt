-- ===== src/Keyboard/Ring.antt =====
-- The ring buffer of the keyboard is a queue of at most 255 characters.
use zero_to_kernel.Prelude.{
  ℕ, zero, suc, ◌+◌, ◌-◌, ◌%◌, ◌<◌, ◌≡◌, ◌≢◌, refl, ◌∙◌, ap, ap₂, inl, inr, true, false, Option,
  none, some, List, [], ◌∷◌, ◌++◌, arith, ◌==◌, ltb, if◌then◌else◌, Bool-cases, length, get_or, set,
  length-set, get_or-set_self, get_or-set_ne,
}
use zero_to_kernel.Keyboard.{
  Keyboard, kb_buf_size, Key, char, nothing, scroll_up, scroll_down, enqueue, deliver, decode,
  keyboard_irq_handler, keyboard_getchar,
}

pub record IsValid (k : Keyboard) : Type 0 where
  pub sized : length k.kb_buf ≡ kb_buf_size
  pub head_in : k.kb_head < kb_buf_size
  pub tail_in : k.kb_tail < kb_buf_size

-- The `n` characters from index `t` on, going round at the end of the buffer.
abbrev pub stretch : List ℕ → ℕ → ℕ → List ℕ
stretch buf t zero = []
stretch buf t (suc n) = get_or buf t 0 ∷ stretch buf ((t + 1) % kb_buf_size) n

abbrev pub count : Keyboard → ℕ
count k = (k.kb_head + kb_buf_size - k.kb_tail) % kb_buf_size

-- The characters that getchar will return, oldest first.
abbrev pub contents : Keyboard → List ℕ
contents k = stretch k.kb_buf k.kb_tail (count k)

length-stretch : (buf : List ℕ) (t n : ℕ) → length (stretch buf t n) ≡ n
length-stretch buf t zero = refl
length-stretch buf t (suc n) = ap suc (length-stretch buf ((t + 1) % kb_buf_size) n)

-- One more character at the end.
stretch-suc :
    (buf : List ℕ) (t n : ℕ)
    → t < kb_buf_size
    → stretch buf t (suc n) ≡ stretch buf t n ++ get_or buf ((t + n) % kb_buf_size) 0 ∷ []
stretch-suc buf t zero h = let here : (t + 0) % kb_buf_size ≡ t = omega arith in rw here refl
stretch-suc buf t (suc n) h =
    let next : ((t + 1) % kb_buf_size + n) % kb_buf_size ≡ (t + suc n) % kb_buf_size =
      omega arith in
    ap (λ q. get_or buf t 0 ∷ q)
      (stretch-suc buf ((t + 1) % kb_buf_size) n (omega arith) ∙ rw next refl)

-- A write outside the stretch does not change it.
stretch-set :
    (buf : List ℕ) (c t n i : ℕ)
    → t < kb_buf_size
    → ((j : ℕ) → j < n → (t + j) % kb_buf_size ≢ i)
    → stretch (set buf i c) t n ≡ stretch buf t n
stretch-set buf c t zero i h out = refl
stretch-set buf c t (suc n) i h out =
    ap₂ ◌∷◌ (get_or-set_ne buf i t c 0 (λ e. out 0 (omega arith) (omega (arith, e)))) (
      stretch-set buf c ((t + 1) % kb_buf_size) n i (omega arith)
        (λ j lt e. out (suc j) (omega arith) (omega (arith, e))))

pub length-contents : (k : Keyboard) → length (contents k) ≡ count k
length-contents k = length-stretch k.kb_buf k.kb_tail (count k)

-- A write at the head lengthens the contents by one character.
contents-set :
    (k : Keyboard) (c n : ℕ)
    → IsValid k
    → count k ≡ n
    → n < 255
    → stretch (set k.kb_buf k.kb_head c) k.kb_tail (suc n) ≡ stretch k.kb_buf k.kb_tail n ++ c ∷ []
contents-set k c n v e small =
    let at : (k.kb_tail + n) % kb_buf_size ≡ k.kb_head = omega (arith, e, v.head_in, v.tail_in) in
    stretch-suc (set k.kb_buf k.kb_head c) k.kb_tail n v.tail_in
    ∙ ap₂ (λ q x. q ++ x ∷ [])
        (stretch-set k.kb_buf c k.kb_tail n k.kb_head v.tail_in (λ j lt e'. omega (arith, at, e')))
        (ap (λ i. get_or (set k.kb_buf k.kb_head c) i 0) at
          ∙ get_or-set_self k.kb_buf k.kb_head c 0 (omega (arith, v.sized, v.head_in)))

-- enqueue puts a character at the end of the queue, and drops it if the queue holds 255.
pub contents-enqueue :
    (k : Keyboard) (c : ℕ)
    → IsValid k
    → contents (enqueue c k)
      ≡ (if ltb (length (contents k)) 255 then contents k ++ c ∷ [] else contents k)
unfolding enqueue
contents-enqueue k c v = elim (Bool-cases ((k.kb_head + 1) % kb_buf_size == k.kb_tail)) [
  | inl full ↦
      let n : ltb (length (contents k)) 255 ≡ false =
        ground (arith, length-contents k, v.head_in, v.tail_in) in
      rw (full, n) refl
  | inr more ↦
      let n : ltb (length (contents k)) 255 ≡ true =
        ground (arith, length-contents k, v.head_in, v.tail_in) in
      let grown : ((k.kb_head + 1) % kb_buf_size + kb_buf_size - k.kb_tail) % kb_buf_size
          ≡ suc (count k) =
        ground (arith, v.head_in, v.tail_in) in
      rw (more, n, grown) (contents-set k c (count k) v refl (ground (arith, v.head_in, v.tail_in)))
]

pub enqueue-IsValid : (k : Keyboard) (c : ℕ) → IsValid k → IsValid (enqueue c k)
unfolding enqueue
enqueue-IsValid k c v = ground (arith, length-set k.kb_buf k.kb_head c)

deliver-IsValid : (k : Keyboard) (key : Key) → IsValid k → IsValid (deliver k key).0
unfolding deliver
deliver-IsValid k (char c) v = enqueue-IsValid k c v
deliver-IsValid k nothing v = v
deliver-IsValid k (scroll_up n) v = v
deliver-IsValid k (scroll_down n) v = v

-- The interrupt handler keeps the indices of the queue in the buffer, whatever the scan code.
pub keyboard_irq_handler-IsValid :
    (sc : ℕ) (k : Keyboard) → IsValid k → IsValid (keyboard_irq_handler sc k).0
unfolding keyboard_irq_handler
keyboard_irq_handler-IsValid sc k v =
    let k' = record k { e0_mode = false } in
    let r =
      deliver-IsValid k' (decode k' k.e0_mode sc)
        (record { sized = v.sized; head_in = v.head_in; tail_in = v.tail_in }) in
    ground arith

-- What getchar returns is the front of the queue; it waits exactly on the empty queue.
abbrev pub Front : List ℕ → Option (ℕ × Keyboard) → Type 0
Front q none = q ≡ []
Front q (some (c, k')) = (q ≡ c ∷ contents k') × IsValid k'

stretch_front :
    (buf : List ℕ) (t n : ℕ)
    → n ≢ 0
    → stretch buf t n ≡ get_or buf t 0 ∷ stretch buf ((t + 1) % kb_buf_size) (n - 1)
stretch_front buf t zero h = absurd (h refl)
stretch_front buf t (suc n) h =
    ap (λ m. get_or buf t 0 ∷ stretch buf ((t + 1) % kb_buf_size) m) (omega arith)

-- keyboard_getchar takes the oldest character off the queue, and waits only if there is none.
pub keyboard_getchar-Front : (k : Keyboard) → IsValid k → Front (contents k) (keyboard_getchar k)
unfolding keyboard_getchar
keyboard_getchar-Front k v = elim (Bool-cases (k.kb_head == k.kb_tail)) [
  | inl same ↦
      let none_left : count k ≡ 0 = ground (arith, v.head_in, v.tail_in) in
      rw (same, none_left) refl
  | inr more ↦
      let less : (k.kb_head + kb_buf_size - (k.kb_tail + 1) % kb_buf_size) % kb_buf_size
          ≡ count k - 1 =
        ground (arith, v.head_in, v.tail_in) in
      rw (more, less)
        (
          stretch_front k.kb_buf k.kb_tail (count k) (ground (arith, v.head_in, v.tail_in)),
          record { sized = v.sized; head_in = v.head_in; tail_in = omega arith },
        )
]
