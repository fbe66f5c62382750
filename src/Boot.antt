-- ===== src/Boot.antt =====
-- kernel/kernel.c: the order in which kernel_main starts the parts, with the install functions of
-- kernel/timer.c, kernel/keyboard.c and kernel/mouse.c that register handlers and unmask lines. What the
-- start prints stands in Banner. The interrupt controllers are a parameter.
pub mod Interrupts
pub mod Machine
pub mod Banner
pub mod Prompt
mod Tests
use zero_to_kernel.Prelude.{ℕ, Option, none, some, List}
use zero_to_kernel.Pic.{pic_init}
use zero_to_kernel.Pic.Masks.{Chips, writes, unmask_irq}
use zero_to_kernel.Idt.{Idt, idt_install, idt_set_handler}
use zero_to_kernel.Gdt.{GdtEntry, gdt_install}
use zero_to_kernel.Heap.{Heap, memory_init}
use zero_to_kernel.Fs.{Table, fs_init}
use zero_to_kernel.Devices.{Timer, timer_writes, Mouse, mouse_setup, identified}

-- The handlers that the parts register.
pub data Handler : Type 0 where
  timer_irq keyboard_irq mouse_irq : Handler

-- What kernel_main has set up.
pub record Kernel (S : Type 0) : Type 0 where
  pub heap : Heap
  pub gdt : List GdtEntry × ℕ
  pub idt : Idt Handler
  pub chips : S
  pub timer : Timer
  pub mouse : Mouse
  pub fs : Table

-- What the devices answer while they are installed: the controller's status byte and the mouse's
-- identification.
pub record Answers : Type 0 where
  pub status : ℕ
  pub mouse_id : ℕ

module _ (c : Chips) where
  -- timer_install(100)
  unfoldable pub install_timer : Kernel c.State → Kernel c.State
  install_timer k = record k {
    timer = record k.timer { timer_freq = 100 };
    idt = idt_set_handler 32 timer_irq k.idt;
    chips = unmask_irq c 0 (writes c.outb (timer_writes 100) k.chips);
  }

  -- The loop in front of it, which empties the keyboard's buffer, reads ports only.
  unfoldable pub keyboard_install : Kernel c.State → Kernel c.State
  keyboard_install k = record k {
    idt = idt_set_handler 33 keyboard_irq k.idt;
    chips = unmask_irq c 1 k.chips;
  }

  unfoldable pub mouse_install : Answers → Kernel c.State → Kernel c.State
  mouse_install a k = record k {
    mouse = identified a.mouse_id k.mouse;
    idt = idt_set_handler 44 mouse_irq k.idt;
    chips = unmask_irq c 2 (unmask_irq c 12 (writes c.outb (mouse_setup a.status) k.chips));
  }

  -- From memory_init to fs_init. `isr` and `irq` are the addresses of the stubs; `k` is the memory
  -- before.
  unfoldable pub kernel_main : (ℕ → ℕ) → (ℕ → ℕ) → Answers → Kernel c.State → Kernel c.State
  kernel_main isr irq a k =
      let k₁ = record k { heap = memory_init k.heap } in
      let k₂ = record k₁ { gdt = gdt_install } in
      let k₃ = record k₂ { idt = idt_install isr irq } in
      let k₄ = record k₃ { chips = writes c.outb pic_init k.chips } in
      record (mouse_install a (keyboard_install (install_timer k₄))) { fs = fs_init }
