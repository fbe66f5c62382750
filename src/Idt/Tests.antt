-- ===== src/Idt/Tests.antt =====
-- Runs of the dispatchers and instances of their theorems. A handler is a number here.
use zero_to_kernel.Prelude.{ℕ, ◌+◌, ◌<◌, ◌≡◌, ◌^◌, refl, inr, none, some, [], ◌∷◌, arith}
use zero_to_kernel.Pic.{pic_send_eoi}
use zero_to_kernel.Idt.{
  Idt, gate, idt_install, idt_set_handler, irq_handler, registered, put, Registers, called,
  isr_handler,
}
use zero_to_kernel.Idt.Vectors.{
  target, target-idt_install, irq_handler-idt_set_handler, irq_handler_stray,
  isr_handler-idt_set_handler,
}

abbrev isr_at : ℕ → ℕ
isr_at i = 0x100000 + i

stub-fits : (i : ℕ) → 0x100000 < 2 ^ 32
stub-fits i = omega arith

abbrev idt : Idt ℕ
idt = idt_set_handler 33 7 (idt_install (λ i. 0x100000) (λ i. 0x200000))

registers : ℕ → Registers
registers n = record {
  eax = 1;
  ebx = 2;
  ecx = 3;
  edx = 4;
  int_no = n;
  err_code = 0;
  eip = 0x1000;
  cs = 8;
  eflags = 2;
}

idt_runs :
    (irq_handler 33 idt ≡ (some 7, (0x20, 0x20) ∷ []))
    × (irq_handler 41 idt ≡ (none, (0xA0, 0x20) ∷ (0x20, 0x20) ∷ []))
    × (gate 0x12345678 8 0x8E
        ≡ record { base_low = 0x5678; sel = 8; always0 = 0; flags = 0x8E; base_high = 0x1234 })
unfolding irq_handler idt_set_handler idt_install put registered pic_send_eoi gate
idt_runs = (refl, refl, refl)

target-idt_install_instance :
    target ((idt_install {H = ℕ} (λ i. 0x100000) (λ i. 0x200000)).idt_entries 40) ≡ some 0x200000
target-idt_install_instance =
    target-idt_install ℕ (λ i. 0x100000) (λ i. 0x200000) 40 (λ i. omega arith) (λ i. omega arith)

irq_handler-idt_set_handler_example :
    irq_handler 44 (idt_set_handler 44 9 idt) ≡ (some 9, (0xA0, 0x20) ∷ (0x20, 0x20) ∷ [])
irq_handler-idt_set_handler_example =
    irq_handler-idt_set_handler 12 12 9 idt (omega arith) (omega arith)

irq_handler_stray_instance : (irq_handler 48 idt).0 ≡ none
irq_handler_stray_instance = irq_handler_stray 48 idt (omega arith) (inr (omega arith))

isr_handler-idt_set_handler_example :
    isr_handler (registers 14) (idt_set_handler 14 5 idt) ≡ called 5
unfolding registers
isr_handler-idt_set_handler_example =
    isr_handler-idt_set_handler 14 (registers 14) 5 idt (omega arith)
