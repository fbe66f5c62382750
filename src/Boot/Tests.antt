-- ===== src/Boot/Tests.antt =====
-- A start of the kernel, some steps of the machine, and instances of their theorems.
use zero_to_kernel.Prelude.{inr, ℕ, ◌≡◌, refl, true, false, not, none, some, [], arith, replicate}
use zero_to_kernel.Heap.{header, heap}
use zero_to_kernel.Fs.{fs_init}
use zero_to_kernel.Pic.Masks.{masked}
use zero_to_kernel.Pic.Tests.{board}
use zero_to_kernel.Idt.{Idt, idt_install, idt_set_handler, irq_handler, put, registered}
use zero_to_kernel.Screen.{Screen}
use zero_to_kernel.Keyboard.{start}
use zero_to_kernel.Devices.Packets.{wheel_mouse}
use zero_to_kernel.Boot.{Handler, keyboard_irq, mouse_irq, Kernel, Answers, kernel_main}
use zero_to_kernel.Boot.Interrupts.{in_use, masked-kernel_main, irq_handler-kernel_main}
use zero_to_kernel.Boot.Machine.{Machine, handle, interrupt, here, next, IsRunning, Reach-IsRunning}

abbrev stub : ℕ → ℕ
stub i = 0x100000

abbrev wheel_id : Answers
wheel_id = record { status = 0x45; mouse_id = 3 }

power_on : Kernel (ℕ → ℕ)
power_on = record {
  heap = heap (λ a. header 0 true none) none 0;
  gdt = ([], 0);
  idt = idt_install stub stub;
  chips = λ port. 0;
  timer = record { timer_ticks = 0; timer_freq = 0 };
  mouse = wheel_mouse 0 (replicate 4 0);
  fs = fs_init;
}

masked-kernel_main_example :
    masked board 12 (kernel_main board stub stub wheel_id power_on).chips ≡ not (in_use 12)
masked-kernel_main_example = masked-kernel_main board stub stub wheel_id power_on 12 (omega arith)

irq_handler-kernel_main_example :
    (irq_handler 44 (kernel_main board stub stub wheel_id power_on).idt).0 ≡ some mouse_irq
irq_handler-kernel_main_example =
    irq_handler-kernel_main board stub stub wheel_id power_on 12 (omega arith)

screen : Screen
screen = record {
  vga_buf = λ i. i;
  term_row = 3;
  term_col = 4;
  term_color = 7;
  history_buf = λ l c. 0;
  history_head = 0;
  history_count = 0;
  view_scroll = 0;
  live_snapshot = λ r c. 0;
  serial = [];
  cursor = 0;
  cursor_hidden = false;
}

machine : Machine
machine = record {
  timer = record { timer_ticks = 0; timer_freq = 100 };
  keyboard = start;
  mouse = wheel_mouse 0 (replicate 4 0);
  screen = screen;
}

machine-IsRunning : IsRunning machine
unfolding machine screen
machine-IsRunning = record {
  keys = omega arith;
  packet = record { sized = refl; kind = inr refl; inside = omega arith };
  view = omega arith;
}

table : Idt Handler
table = idt_set_handler 44 mouse_irq (idt_set_handler 33 keyboard_irq (idt_install stub stub))

-- A key, then a byte of the mouse.
Reach-IsRunning_example : IsRunning (handle mouse_irq 32 8 (handle keyboard_irq 0 0x23 machine))
unfolding table irq_handler idt_set_handler idt_install put registered
Reach-IsRunning_example =
    Reach-IsRunning {t = table} machine-IsRunning
      (next (next here (interrupt 33 0 0x23 keyboard_irq refl)) (interrupt 44 32 8 mouse_irq refl))
