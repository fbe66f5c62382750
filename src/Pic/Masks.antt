-- ===== src/Pic/Masks.antt =====
-- What masking and unmasking do to the 16 lines. The controllers are a parameter, which
-- is the hardware: ports with a state.
use zero_to_kernel.Prelude.{
  ℕ, ◌-◌, ◌/◌, ◌%◌, ◌^◌, ◌<◌, ◌≡◌, ◌≢◌, ◌⊎◌, ◌++◌, refl, ◌∙◌, sym, ap, ap₂, inl, inr, Bool, true,
  false, not, xor, ◌&&◌, ◌||◌, List, [], ◌∷◌, ◌==◌, ltb, if◌then◌else◌, bit_and, bit_or, arith,
  Bool-cases, ==_iff, each_upto, each_upto_lem,
}
use zero_to_kernel.Pic.{
  pic_init, pic1_data, pic2_data, pic1_command, pic2_command, slow, mask_port, line_bit,
  pic_mask_irq, pic_unmask_irq, Out,
}

-- Whether bit `i` of a byte is set.
unfoldable pub has_bit : ℕ → ℕ → Bool
has_bit i v = v / 2 ^ i % 2 == 1

same : Bool → Bool → Bool
same a b = not (xor a b)

sets : ℕ → ℕ → ℕ → Bool
sets v b i =
    same (has_bit i (bit_or v (2 ^ b))) (has_bit i v || i == b) && ltb (bit_or v (2 ^ b)) 256

clears : ℕ → ℕ → ℕ → Bool
clears v b i =
    same (has_bit i (bit_and v (255 - 2 ^ b))) (has_bit i v && not (i == b))
    && ltb (bit_and v (255 - 2 ^ b)) 256

sets-table : each_upto (λ v. each_upto (λ b. each_upto (sets v b) 7) 7) 255 ≡ true
unfolding each_upto sets same has_bit xor
sets-table = refl

clears-table : each_upto (λ v. each_upto (λ b. each_upto (clears v b) 7) 7) 255 ≡ true
unfolding each_upto clears same has_bit xor
clears-table = refl

same_lem : (a b : Bool) → same a b ≡ true → a ≡ b
unfolding same xor
same_lem true true e = refl
same_lem true false e = cc
same_lem false true e = cc
same_lem false false e = refl

-- Masking a bit sets it and leaves the other bits of a byte.
has_bit-bit_or :
    (v b i : ℕ)
    → v < 256
    → b < 8
    → i < 8
    → (has_bit i (bit_or v (2 ^ b)) ≡ (has_bit i v || i == b)) × (bit_or v (2 ^ b) < 256)
unfolding sets
has_bit-bit_or v b i vs bs is =
    let row = each_upto_lem _ 255 v (omega arith) sets-table in
    let cell = each_upto_lem _ 7 b (omega arith) row in
    let test = each_upto_lem (sets v b) 7 i (omega arith) cell in
    (same_lem _ _ (ground (arith, test)), ground (arith, test))

has_bit-bit_and :
    (v b i : ℕ)
    → v < 256
    → b < 8
    → i < 8
    → (has_bit i (bit_and v (255 - 2 ^ b)) ≡ (has_bit i v && not (i == b)))
      × (bit_and v (255 - 2 ^ b) < 256)
unfolding clears
has_bit-bit_and v b i vs bs is =
    let row = each_upto_lem _ 255 v (omega arith) clears-table in
    let cell = each_upto_lem _ 7 b (omega arith) row in
    let test = each_upto_lem (clears v b) 7 i (omega arith) cell in
    (same_lem _ _ (ground (arith, test)), ground (arith, test))

abbrev pub bit_of : ℕ → ℕ
bit_of irq = if ltb irq 8 then irq else irq - 8

bit_of_lem : (irq : ℕ) → irq < 16 → bit_of irq < 8
bit_of_lem irq small = ground arith

powers-table : each_upto (λ b. 2 ^ b % 256 == 2 ^ b) 7 ≡ true
unfolding each_upto
powers-table = refl

line_bit_lem : (irq : ℕ) → irq < 16 → line_bit irq ≡ 2 ^ bit_of irq
unfolding line_bit
line_bit_lem irq small =
    (==_iff _ _).0
      (each_upto_lem (λ b. 2 ^ b % 256 == 2 ^ b) 7 (bit_of irq) (ground arith) powers-table)

same_port :
    (irq i : ℕ)
    → irq < 16
    → i < 16
    → mask_port i ≡ mask_port irq
    → (bit_of i == bit_of irq) ≡ (i == irq)
unfolding mask_port
same_port irq i small smaller eq = elim (Bool-cases (i == irq)) [
  | inl e ↦ rw (e) (ground arith)
  | inr e ↦ rw (e) (ground arith)
]

other_port : (irq i : ℕ) → (mask_port i == mask_port irq) ≡ false → (i == irq) ≡ false
unfolding mask_port
other_port irq i e = ground arith

or_false : (b : Bool) → (b || false) ≡ b
or_false true = refl
or_false false = refl

and_true : (b : Bool) → (b && true) ≡ b
and_true true = refl
and_true false = refl

ones-table : each_upto (λ b. has_bit b 255) 7 ≡ true
unfolding each_upto has_bit
ones-table = refl

-- A change of one bit of one mask register, seen line by line.
one_line :
    (f : Bool → Bool → Bool) (irq i : ℕ) (read : ℕ → ℕ)
    → ((b : Bool) → f b false ≡ b)
    → irq < 16
    → i < 16
    → (if mask_port i == mask_port irq
        then f (has_bit (bit_of i) (read (mask_port irq))) (bit_of i == bit_of irq)
        else has_bit (bit_of i) (read (mask_port i)))
      ≡ f (has_bit (bit_of i) (read (mask_port i))) (i == irq)
unfolding mask_port
one_line f irq i read keep small smaller = elim (Bool-cases (mask_port i == mask_port irq)) [
  | inl e ↦
      let eq : mask_port i ≡ mask_port irq = (==_iff _ _).0 e in
      let bits : (bit_of i == bit_of irq) ≡ (i == irq) = same_port irq i small smaller eq in
      rw e (ap₂ f (ap (λ p. has_bit (bit_of i) (read p)) (sym eq)) bits)
  | inr e ↦ let ne : (i == irq) ≡ false = other_port irq i e in rw (e, ne) (sym (keep _))
]

-- A sequence of port writes.
unfoldable pub writes {ℓ} : {S : Type ℓ} → (ℕ → ℕ → S → S) → List Out → S → S
writes outb [] s = s
writes outb ((port, v) ∷ os) s = writes outb os (outb port v s)

-- The initialisation words that pic_init sends, before it masks the lines.
abbrev pub set_up : List Out
set_up =
    slow pic1_command 0x11
    ++ (slow pic2_command 0x11
        ++ (slow pic1_data 0x20
            ++ (slow pic2_data 0x28
                ++ (slow pic1_data 0x04
                    ++ (slow pic2_data 0x02 ++ (slow pic1_data 0x01 ++ slow pic2_data 0x01))))))

abbrev pub IsMaskPort : ℕ → Type 0
IsMaskPort port = (port ≡ pic1_data) ⊎ (port ≡ pic2_data)

abbrev pub IsCommandPort : ℕ → Type 0
IsCommandPort port = (port ≡ pic1_command) ⊎ (port ≡ pic2_command)

-- Two controllers. Once they have had their initialisation words, a data port is a mask register: it
-- gives back the byte written to it last, until a byte goes to a command port.
pub record Chips : Type 1 where
  pub State : Type 0
  pub inb : ℕ → State → ℕ
  pub outb : ℕ → ℕ → State → State
  pub IsReady : State → Type 0
  pub byte : (port : ℕ) (s : State) → inb port s < 256
  pub sets_up : (s : State) → IsReady (writes outb set_up s)
  pub stays : (q v : ℕ) (s : State) → ¬ IsCommandPort q → IsReady s → IsReady (outb q v s)
  pub reads_back :
      (p v : ℕ) (s : State) → IsMaskPort p → IsReady s → v < 256 → inb p (outb p v s) ≡ v
  pub apart :
      (p q v : ℕ) (s : State)
      → IsMaskPort p
      → ¬ IsCommandPort q
      → IsReady s
      → p ≢ q
      → inb p (outb q v s) ≡ inb p s

pub mask_port-IsMaskPort : (irq : ℕ) → IsMaskPort (mask_port irq)
unfolding mask_port
mask_port-IsMaskPort irq = elim (Bool-cases (ltb irq 8)) [
  | inl e ↦ rw e (inl refl)
  | inr e ↦ rw e (inr refl)
]

mask_port_free : (irq : ℕ) → ¬ IsCommandPort (mask_port irq)
unfolding mask_port
mask_port_free irq h = ground (arith, h)

module _ (c : Chips) where
  abbrev pub write : Out → c.State → c.State
  write (port, v) s = c.outb port v s

  abbrev pub mask_irq : ℕ → c.State → c.State
  mask_irq irq s = write (pic_mask_irq (λ port. c.inb port s) irq) s

  abbrev pub unmask_irq : ℕ → c.State → c.State
  unmask_irq irq s = write (pic_unmask_irq (λ port. c.inb port s) irq) s

  -- Whether a line is masked.
  unfoldable pub masked : ℕ → c.State → Bool
  masked irq s = has_bit (bit_of irq) (c.inb (mask_port irq) s)

  masked-outb :
      (irq i v : ℕ) (s : c.State)
      → c.IsReady s
      → v < 256
      → masked i (c.outb (mask_port irq) v s)
        ≡ (if mask_port i == mask_port irq then has_bit (bit_of i) v else masked i s)
  unfolding masked
  masked-outb irq i v s ready small = elim (Bool-cases (mask_port i == mask_port irq)) [
    | inl e ↦
        let eq : mask_port i ≡ mask_port irq = (==_iff _ _).0 e in
        rw e (
          ap (has_bit (bit_of i)) (
            ap (λ p. c.inb p (c.outb (mask_port irq) v s)) eq
            ∙ c.reads_back (mask_port irq) v s (mask_port-IsMaskPort irq) ready small))
    | inr e ↦
        let ne : mask_port i ≢ mask_port irq = ground (arith, e) in
        rw e (
          ap (has_bit (bit_of i)) (
            c.apart (mask_port i) (mask_port irq) v s (mask_port-IsMaskPort i) (mask_port_free irq)
              ready ne))
  ]

  -- On ready controllers, masking a line masks it and leaves the other 15 as they are.
  pub masked-mask_irq :
      (irq i : ℕ) (s : c.State)
      → c.IsReady s
      → irq < 16
      → i < 16
      → masked i (mask_irq irq s) ≡ (masked i s || i == irq)
  unfolding pic_mask_irq masked
  masked-mask_irq irq i s ready small smaller =
      let law =
        has_bit-bit_or (c.inb (mask_port irq) s) (bit_of irq) (bit_of i) (c.byte _ s)
          (bit_of_lem irq small) (bit_of_lem i smaller) in
      rw (line_bit_lem irq small) (
        masked-outb irq i _ s ready law.1
        ∙ rw (law.0) (one_line (λ a b. a || b) irq i (λ p. c.inb p s) or_false small smaller))

  -- On ready controllers, unmasking a line unmasks it and leaves the other 15 as they are.
  pub masked-unmask_irq :
      (irq i : ℕ) (s : c.State)
      → c.IsReady s
      → irq < 16
      → i < 16
      → masked i (unmask_irq irq s) ≡ (masked i s && not (i == irq))
  unfolding pic_unmask_irq masked
  masked-unmask_irq irq i s ready small smaller =
      let law =
        has_bit-bit_and (c.inb (mask_port irq) s) (bit_of irq) (bit_of i) (c.byte _ s)
          (bit_of_lem irq small) (bit_of_lem i smaller) in
      rw (line_bit_lem irq small) (
        masked-outb irq i _ s ready law.1
        ∙ rw (law.0) (one_line (λ a b. a && not b) irq i (λ p. c.inb p s) and_true small smaller))

  pub unmask_irq-IsReady : (irq : ℕ) (s : c.State) → c.IsReady s → c.IsReady (unmask_irq irq s)
  unfolding pic_unmask_irq
  unmask_irq-IsReady irq s ready = c.stays (mask_port irq) _ s (mask_port_free irq) ready

  read_ones :
      (i : ℕ) (s : c.State)
      → c.IsReady s
      → c.inb (mask_port i) (c.outb pic2_data 0xFF (c.outb pic1_data 0xFF s)) ≡ 255
  unfolding mask_port
  read_ones i s ready =
      let ready₁ = c.stays pic1_data 255 s (omega arith) ready in
      elim (Bool-cases (ltb i 8)) [
        | inl lower ↦ rw lower (
            c.apart pic1_data pic2_data 255 _ (inl refl) (omega arith) ready₁ (omega arith)
            ∙ c.reads_back pic1_data 255 s (inl refl) ready (omega arith))
        | inr upper ↦ rw upper (c.reads_back pic2_data 255 _ (inr refl) ready₁ (omega arith))
      ]

  -- pic_init leaves the controllers ready, with every line masked.
  pub masked-pic_init :
      (i : ℕ) (s : c.State)
      → i < 16
      → c.IsReady (writes c.outb pic_init s) × (masked i (writes c.outb pic_init s) ≡ true)
  unfolding pic_init writes masked
  masked-pic_init i s small =
      let ready = c.sets_up s in
      (
        c.stays pic2_data 255 _ (omega arith) (c.stays pic1_data 255 _ (omega arith) ready),
        ap (has_bit (bit_of i)) (read_ones i _ ready)
            ∙ each_upto_lem (λ b. has_bit b 255) 7 (bit_of i) (ground arith) ones-table,
      )
