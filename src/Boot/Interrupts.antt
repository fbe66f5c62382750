-- ===== src/Boot/Interrupts.antt =====
-- What holds when kernel_main has started every part.
use zero_to_kernel.Prelude.{
  ℕ, ◌+◌, ◌<◌, ◌≡◌, ◌≢◌, refl, ◌∙◌, ap, Bool, not, ◌||◌, none, some, List, [], ◌∷◌, ◌==◌,
  if◌then◌else◌, arith, All,
}
use zero_to_kernel.Pic.{Out, pic_init, mask_port}
use zero_to_kernel.Pic.Masks.{
  Chips, writes, unmask_irq, masked, has_bit, IsCommandPort, mask_port-IsMaskPort,
  unmask_irq-IsReady, masked-unmask_irq, masked-pic_init,
}
use zero_to_kernel.Idt.{idt_install, idt_set_handler, irq_handler}
use zero_to_kernel.Idt.Vectors.{irq_handler-idt_set_handler}
use zero_to_kernel.Devices.{timer_writes, mouse_setup, mouse_write}
use zero_to_kernel.Boot.{
  Handler, timer_irq, keyboard_irq, mouse_irq, Kernel, Answers, install_timer, keyboard_install,
  mouse_install, kernel_main,
}

-- A write to a port that is not the controllers'.
abbrev pub IsQuiet : Out → Type 0
IsQuiet (port, v) = (port ≢ 0x20) × (port ≢ 0x21) × (port ≢ 0xA0) × (port ≢ 0xA1)

timer_writes-IsQuiet : (f : ℕ) → All IsQuiet (timer_writes f)
unfolding timer_writes
timer_writes-IsQuiet f = omega arith

mouse_setup-IsQuiet : (status : ℕ) → All IsQuiet (mouse_setup status)
unfolding mouse_setup mouse_write
mouse_setup-IsQuiet status = omega arith

irq_handler-idt_install :
    (isr irq : ℕ → ℕ) (v : ℕ) → (irq_handler v (idt_install {H = Handler} isr irq)).0 ≡ none
unfolding irq_handler idt_install
irq_handler-idt_install isr irq v = refl

-- The lines that the parts use.
unfoldable pub in_use : ℕ → Bool
in_use i = i == 0 || i == 1 || i == 2 || i == 12

module _ (c : Chips) where
  writes-masked :
      (i : ℕ) (os : List Out) (s : c.State)
      → All IsQuiet os
      → c.IsReady s
      → c.IsReady (writes c.outb os s) × (masked c i (writes c.outb os s) ≡ masked c i s)
  unfolding writes masked
  writes-masked i [] s quiet ready = (ready, refl)
  writes-masked i ((port, v) ∷ os) s (q, quiet) ready =
      let is_mask = mask_port-IsMaskPort i in
      let ne : mask_port i ≢ port = λ e. absurd (ground (arith, q, is_mask)) in
      let free : ¬ IsCommandPort port = λ h. absurd (ground (arith, q, h)) in
      let rest = writes-masked i os (c.outb port v s) quiet (c.stays port v s free ready) in
      (rest.0, rest.1 ∙ ap (has_bit _) (c.apart (mask_port i) port v s is_mask free ready ne))

  -- After kernel_main the lines of the timer, the keyboard, the cascade and the mouse are unmasked and
  -- the other twelve masked.
  pub masked-kernel_main :
      (isr irq : ℕ → ℕ) (a : Answers) (k : Kernel c.State) (i : ℕ)
      → i < 16
      → masked c i (kernel_main c isr irq a k).chips ≡ not (in_use i)
  unfolding kernel_main install_timer keyboard_install mouse_install in_use
  masked-kernel_main isr irq a k i small =
      let s₀ = writes c.outb pic_init k.chips in
      let start = masked-pic_init c i k.chips small in
      let s₁ = writes c.outb (timer_writes 100) s₀ in
      let timed = writes-masked i (timer_writes 100) s₀ (timer_writes-IsQuiet 100) start.0 in
      let s₂ = unmask_irq c 0 s₁ in
      let ready₂ = unmask_irq-IsReady c 0 s₁ timed.0 in
      let s₃ = unmask_irq c 1 s₂ in
      let ready₃ = unmask_irq-IsReady c 1 s₂ ready₂ in
      let s₄ = writes c.outb (mouse_setup a.status) s₃ in
      let moused =
        writes-masked i (mouse_setup a.status) s₃ (mouse_setup-IsQuiet a.status) ready₃ in
      let s₅ = unmask_irq c 12 s₄ in
      let ready₅ = unmask_irq-IsReady c 12 s₄ moused.0 in
      rw
        (
          masked-unmask_irq c 2 i s₅ ready₅ (omega arith) small,
          masked-unmask_irq c 12 i s₄ moused.0 (omega arith) small,
          moused.1,
          masked-unmask_irq c 1 i s₂ ready₂ (omega arith) small,
          masked-unmask_irq c 0 i s₁ timed.0 (omega arith) small,
          timed.1,
          start.1,
        )
        (ground arith)

  -- After kernel_main the interrupts of these lines reach the timer's, the keyboard's and the mouse's
  -- handler, and no other line has one.
  pub irq_handler-kernel_main :
      (isr irq : ℕ → ℕ) (a : Answers) (k : Kernel c.State) (i : ℕ)
      → i < 16
      → (irq_handler (32 + i) (kernel_main c isr irq a k).idt).0 ≡ (
          if i == 12
          then some mouse_irq
          else if i == 1
          then some keyboard_irq
          else if i == 0
          then some timer_irq
          else none)
  unfolding kernel_main install_timer keyboard_install mouse_install
  irq_handler-kernel_main isr irq a k i small =
      let t₀ = idt_install isr irq in
      let t₁ = idt_set_handler 32 timer_irq t₀ in
      let t₂ = idt_set_handler 33 keyboard_irq t₁ in
      rw
        (
          ap (λ r. r.0) (irq_handler-idt_set_handler 12 i mouse_irq t₂ (omega arith) small),
          ap (λ r. r.0) (irq_handler-idt_set_handler 1 i keyboard_irq t₁ (omega arith) small),
          ap (λ r. r.0) (irq_handler-idt_set_handler 0 i timer_irq t₀ (omega arith) small),
          irq_handler-idt_install isr irq (32 + i),
        )
        refl
