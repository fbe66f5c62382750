-- ===== src/Idt/Vectors.antt =====
-- Where the processor and the dispatchers find the handlers.
use zero_to_kernel.Prelude.{
  ℕ, zero, suc, ◌+◌, ◌-◌, ◌*◌, ◌/◌, ◌%◌, ◌^◌, ◌≤◌, ◌<◌, ◌≡◌, ◌⊎◌, refl, ◌∙◌, ap, inl, inr, true,
  false, ◌&&◌, Option, none, some, [], ◌∷◌, ◌==◌, ltb, leb, if◌then◌else◌, arith, Bool-cases,
}
use zero_to_kernel.Pic.{pic_send_eoi, pic1_command, pic2_command, pic_eoi}
use zero_to_kernel.Idt.{
  IdtEntry, Gates, no_gate, gate, idt_set_gate, set_gates, Idt, idt_install, put, idt_set_handler,
  registered, irq_handler, Registers, called, fault, isr_handler,
}

-- The address that the processor jumps to through a gate that is present, in bit 7 of the flags.
unfoldable pub target : IdtEntry → Option ℕ
target e = if e.flags / 128 % 2 == 1 then some (e.base_low + e.base_high * 2 ^ 16) else none

target-gate : (base sel : ℕ) → base < 2 ^ 32 → target (gate base sel 0x8E) ≡ some base
unfolding target gate
target-gate base sel small = ap some (omega (arith, small))

target-no_gate : target no_gate ≡ none
unfolding target
target-no_gate = refl

not_called {ℓ} : {H : Type ℓ} (o : Option H) → registered false o ≡ none
unfolding registered
not_called none = refl
not_called (some h) = refl

set_gates_lem :
    (first n v : ℕ) (stub : ℕ → ℕ) (g : Gates)
    → set_gates first stub n g v
      ≡ (if leb first v && ltb v (first + n) then gate (stub (v - first)) 0x08 0x8E else g v)
unfolding set_gates idt_set_gate
set_gates_lem first zero v stub g = ground arith
set_gates_lem first (suc n) v stub g = elim (Bool-cases (v == first + n)) [
  | inl here ↦
      let e : v ≡ first + n = ground (arith, here) in
      let i : v - first ≡ n = omega (arith, e) in
      let inside : (leb first v && ltb v (first + suc n)) ≡ true = ground arith in
      rw (here, inside, i) refl
  | inr away ↦
      let same : (leb first v && ltb v (first + n)) ≡ (leb first v && ltb v (first + suc n)) =
        ground arith in
      rw away (set_gates_lem first n v stub g ∙ rw same refl)
]

-- After idt_install the 32 exceptions and the 16 interrupt lines lead to their stubs, and no other vector
-- is present.
pub target-idt_install {ℓ} :
    (H : Type ℓ) (isr irq : ℕ → ℕ) (v : ℕ)
    → ((i : ℕ) → isr i < 2 ^ 32)
    → ((i : ℕ) → irq i < 2 ^ 32)
    → target ((idt_install {H = H} isr irq).idt_entries v)
      ≡ (if ltb v 32 then some (isr v) else if ltb v 48 then some (irq (v - 32)) else none)
unfolding idt_install
target-idt_install H isr irq v isrs irqs = elim (Bool-cases (ltb v 32)) [
  | inl low ↦
      let out : (leb 32 v && ltb v (32 + 16)) ≡ false = ground (arith, low) in
      let inside : (leb 0 v && ltb v (0 + 32)) ≡ true = ground (arith, low) in
      let same : v - 0 ≡ v = omega arith in
      rw
        (
          low,
          set_gates_lem 32 16 v irq (set_gates 0 isr 32 (λ v. no_gate)),
          out,
          set_gates_lem 0 32 v isr (λ v. no_gate),
          inside,
          same,
        )
        (target-gate (isr v) 0x08 (isrs v))
  | inr high ↦
      let out : (leb 0 v && ltb v (0 + 32)) ≡ false = ground (arith, high) in
      rw
        (
          high,
          set_gates_lem 32 16 v irq (set_gates 0 isr 32 (λ v. no_gate)),
          set_gates_lem 0 32 v isr (λ v. no_gate),
          out,
        )
        (elim (Bool-cases (ltb v 48)) [
          | inl line ↦
              let inside : (leb 32 v && ltb v (32 + 16)) ≡ true = ground (arith, line, high) in
              rw (inside, line) (target-gate (irq (v - 32)) 0x08 (irqs (v - 32)))
          | inr beyond ↦
              let none_there : (leb 32 v && ltb v (32 + 16)) ≡ false = ground (arith, beyond) in
              rw (none_there, beyond) target-no_gate
        ])
]

-- A handler registered for a line is the one that irq_handler calls for it; the other lines keep theirs,
-- and every line is acknowledged behind its handler, the slave's lines at both controllers.
pub irq_handler-idt_set_handler {ℓ} :
    {H : Type ℓ} (n m : ℕ) (h : H) (t : Idt H)
    → n < 16
    → m < 16
    → irq_handler (32 + m) (idt_set_handler (32 + n) h t) ≡ (
      (if m == n then some h else (irq_handler (32 + m) t).0),
      (if leb 8 m
          then (pic2_command, pic_eoi) ∷ (pic1_command, pic_eoi) ∷ []
          else (pic1_command, pic_eoi) ∷ []),
    )
unfolding irq_handler idt_set_handler put registered pic_send_eoi
irq_handler-idt_set_handler n m h t small smaller =
    let low : ltb (32 + n) 32 ≡ false = ground arith in
    let line : (leb 32 (32 + n) && ltb (32 + n) 48) ≡ true = ground arith in
    let back : 32 + n - 32 ≡ n = omega arith in
    let number : (32 + m + 2 ^ 32 - 32) % 2 ^ 32 ≡ m = omega arith in
    let byte : m % 256 ≡ m = omega arith in
    let inside : ltb m 16 ≡ true = ground arith in
    elim (Bool-cases (m == n)) [
      | inl e ↦ rw (low, line, back, number, byte, inside, e) refl
      | inr e ↦ rw (low, line, back, number, byte, inside, e) refl
    ]

-- A vector outside 32 to 47 calls nothing, so that irq_handlers is never read behind its end.
pub irq_handler_stray {ℓ} :
    {H : Type ℓ} (v : ℕ) (t : Idt H) → v < 2 ^ 32 → (v < 32) ⊎ (48 ≤ v) → (irq_handler v t).0 ≡ none
unfolding irq_handler registered
irq_handler_stray v t small out =
    let n = (v + 2 ^ 32 - 32) % 2 ^ 32 in
    let far : ltb n 16 ≡ false = ground (arith, out) in rw far (not_called (t.irq_handlers n))

-- A handler registered for an exception is the one that isr_handler calls for it; the other exceptions
-- keep theirs, or print and halt.
pub isr_handler-idt_set_handler {ℓ} :
    {H : Type ℓ} (n : ℕ) (r : Registers) (h : H) (t : Idt H)
    → n < 256
    → isr_handler r (idt_set_handler n h t)
      ≡ (if ltb n 32 && r.int_no == n then called h else isr_handler r t)
unfolding isr_handler idt_set_handler put registered fault
isr_handler-idt_set_handler n r h t small = elim (Bool-cases (ltb n 32)) [
  | inl low ↦ elim (Bool-cases (r.int_no == n)) [
    | inl e ↦
        let inside : ltb r.int_no 32 ≡ true = ground (arith, e, low) in rw (low, e, inside) refl
    | inr e ↦ rw (low, e) refl
  ]
  | inr high ↦ elim (Bool-cases (leb 32 n && ltb n 48)) [
    | inl line ↦ rw (high, line) refl
    | inr beyond ↦ rw (high, beyond) refl
  ]
]
