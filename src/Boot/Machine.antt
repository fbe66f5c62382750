-- ===== src/Boot/Machine.antt =====
-- The running kernel: interrupts between the operations of the shell. An interrupt runs the handler
-- that the dispatcher finds; the shell reads keys and prints. An operation is not cut by an interrupt.
use zero_to_kernel.Prelude.{
  ℕ, ◌+◌, ◌≡◌, some, subst, if_both, ltb, leb, ◌&&◌, set, get_or, ◌/◌, ◌%◌, ◌==◌,
}
use zero_to_kernel.Idt.{Idt, irq_handler}
use zero_to_kernel.Keyboard.{
  Keyboard, Key, nothing, scroll_up, scroll_down, char, keyboard_irq_handler, keyboard_getchar,
}
use zero_to_kernel.Keyboard.Ring.{keyboard_irq_handler-IsValid}
use zero_to_kernel.Keyboard.Ring as Ring
use zero_to_kernel.Screen.{Screen, terminal_scroll_up, terminal_scroll_down, terminal_putchar}
use zero_to_kernel.Screen.Cursor.{controls-IsValid, terminal_putchar-IsValid}
use zero_to_kernel.Screen.Cursor as Cursor
use zero_to_kernel.Devices.{Timer, timer_irq_handler, Mouse, mouse_irq_handler, wheel}
use zero_to_kernel.Devices.Packets.{IsMouse, mouse_irq_handler-IsMouse}
use zero_to_kernel.Boot.{Handler, timer_irq, keyboard_irq, mouse_irq}

pub record Machine : Type 0 where
  pub timer : Timer
  pub keyboard : Keyboard
  pub mouse : Mouse
  pub screen : Screen

-- The scroll call that the keyboard's handler makes.
unfoldable pub scrolled : Key → Screen → Screen
scrolled nothing s = s
scrolled (char c) s = s
scrolled (scroll_up n) s = terminal_scroll_up n s
scrolled (scroll_down n) s = terminal_scroll_down n s

-- A handler, with the bytes that it reads from ports 0x64 and 0x60.
unfoldable pub handle : Handler → ℕ → ℕ → Machine → Machine
handle timer_irq status byte m = record m { timer = timer_irq_handler m.timer }
handle keyboard_irq status byte m =
    let r = keyboard_irq_handler byte m.keyboard in
    record m { keyboard = r.0; screen = scrolled r.1 m.screen }
handle mouse_irq status byte m =
    let r = mouse_irq_handler status byte (m.mouse, m.screen) in
    record m { mouse = r.0; screen = r.1 }

-- One step of the machine with the handlers of `t`.
pub data Step (t : Idt Handler) (m : Machine) : Machine → Type 0 where
  interrupt :
      (v status byte : ℕ) (h : Handler)
      → (irq_handler v t).0 ≡ some h
      → Step t m (handle h status byte m)
  read_key :
      (c : ℕ) (k : Keyboard)
      → keyboard_getchar m.keyboard ≡ some (c, k)
      → Step t m (record m { keyboard = k })
  print :
      (fuel c : ℕ) (s : Screen)
      → terminal_putchar fuel c m.screen ≡ some s
      → Step t m (record m { screen = s })

pub data Reach (t : Idt Handler) (m : Machine) : Machine → Type 0 where
  here : Reach t m m
  next : {n p : Machine} → Reach t m n → Step t n p → Reach t m p

-- The cursor is on the screen, the indices of the keyboard's buffer are inside it, and a mouse
-- packet is inside its own.
pub record IsRunning (m : Machine) : Type 0 where
  pub keys : Ring.IsValid m.keyboard
  pub packet : IsMouse m.mouse
  pub view : Cursor.IsValid m.screen

scrolled-IsValid : (key : Key) (s : Screen) → Cursor.IsValid s → Cursor.IsValid (scrolled key s)
unfolding scrolled
scrolled-IsValid nothing s v = v
scrolled-IsValid (char c) s v = v
scrolled-IsValid (scroll_up n) s v = (controls-IsValid n 0 0 s v).0
scrolled-IsValid (scroll_down n) s v = (controls-IsValid n 0 0 s v).1

wheel-IsValid : (z : ℕ) (s : Screen) → Cursor.IsValid s → Cursor.IsValid (wheel z s)
unfolding wheel
wheel-IsValid z s v =
    let c = controls-IsValid 3 0 0 s v in
    if_both Cursor.IsValid (ltb 0 z && ltb z 128) _ _ (c.1)
      (if_both Cursor.IsValid (leb 128 z) _ s (c.0) v)

mouse_irq_handler-IsValid :
    (status byte : ℕ) (m : Mouse) (s : Screen)
    → Cursor.IsValid s
    → Cursor.IsValid (mouse_irq_handler status byte (m, s)).1
unfolding mouse_irq_handler
mouse_irq_handler-IsValid status byte m s v =
    let packet = set m.mouse_packet m.mouse_cycle byte in
    let turned =
      if_both Cursor.IsValid (m.mouse_packet_size == 4) (wheel (get_or packet 3 0) s) s
        (wheel-IsValid (get_or packet 3 0) s v) v in
    if_both (λ (r : Mouse × Screen). Cursor.IsValid r.1) (status / 32 % 2 == 0) _ _ v
      (if_both (λ (r : Mouse × Screen). Cursor.IsValid r.1)
        (m.mouse_cycle == 0 && byte / 8 % 2 == 0) _ _ v
        (if_both (λ (r : Mouse × Screen). Cursor.IsValid r.1)
          (m.mouse_cycle + 1 == m.mouse_packet_size) _ _ turned v))

handle-IsRunning :
    (h : Handler) (status byte : ℕ) (m : Machine) → IsRunning m → IsRunning (handle h status byte m)
unfolding handle
handle-IsRunning timer_irq status byte m v = record {
  keys = v.keys;
  packet = v.packet;
  view = v.view;
}
handle-IsRunning keyboard_irq status byte m v = record {
  keys = keyboard_irq_handler-IsValid byte m.keyboard v.keys;
  packet = v.packet;
  view = scrolled-IsValid (keyboard_irq_handler byte m.keyboard).1 m.screen v.view;
}
handle-IsRunning mouse_irq status byte m v = record {
  keys = v.keys;
  packet = mouse_irq_handler-IsMouse status byte m.mouse m.screen v.packet;
  view = mouse_irq_handler-IsValid status byte m.mouse m.screen v.view;
}

Step-IsRunning : {t : Idt Handler} {m n : Machine} → Step t m n → IsRunning m → IsRunning n
Step-IsRunning {m = m} (interrupt v status byte h e) i = handle-IsRunning h status byte m i
Step-IsRunning {m = m} (read_key c k e) i = record {
  keys =
      (subst (Ring.Front (Ring.contents m.keyboard)) e
        (Ring.keyboard_getchar-Front m.keyboard i.keys)).1;
  packet = i.packet;
  view = i.view;
}
Step-IsRunning {m = m} (print fuel c s e) i = record {
  keys = i.keys;
  packet = i.packet;
  view = terminal_putchar-IsValid fuel c m.screen s i.view e;
}

-- However interrupts, keys read and characters printed follow each other, the cursor stays on the
-- screen and no index leaves the keyboard's buffer or the mouse's packet.
pub Reach-IsRunning : {t : Idt Handler} {m n : Machine} → IsRunning m → Reach t m n → IsRunning n
Reach-IsRunning i here = i
Reach-IsRunning i (next r s) = Step-IsRunning s (Reach-IsRunning i r)
