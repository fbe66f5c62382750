-- ===== src/Keyboard/Tests.antt =====
-- Runs of the keyboard driver and instances of its theorems.
use zero_to_kernel.Prelude.{
  ◌<◌, ◌≡◌, ◌≢◌, refl, true, false, xor, some, [], ◌∷◌, ◌++◌, arith, bytes,
}
use zero_to_kernel.Keyboard.{
  Keyboard, nothing, scroll_up, Line, start, enqueue, deliver, decode, mapped, is_numpad_nav,
  nav_key, keyboard_irq_handler, keyboard_getchar, readline_loop, keyboard_readline,
}
use zero_to_kernel.Keyboard.Ring.{
  IsValid, contents, contents-enqueue, Front, keyboard_getchar-Front, keyboard_irq_handler-IsValid,
}
use zero_to_kernel.Keyboard.Keys.{
  feed, held, locked, feed_mods, handler_types, handler_release, capslock_digits,
}
use zero_to_kernel.Keyboard.Lines.{keyboard_readline_bound, keyboard_readline_typed}

start-IsValid : IsValid start
start-IsValid = omega arith

-- Shift, h, release shift, i: "Hi"; then shift and the keypad's Up scrolls.
typed_keys : contents (feed (0x2A ∷ 0x23 ∷ 0xA3 ∷ 0xAA ∷ 0x17 ∷ []) start) ≡ bytes "Hi"
unfolding feed keyboard_irq_handler deliver decode mapped is_numpad_nav nav_key enqueue xor
typed_keys = refl

scrolled_view : (keyboard_irq_handler 0x48 (feed (0x2A ∷ []) start)).1 ≡ scroll_up 1
unfolding feed keyboard_irq_handler deliver decode mapped is_numpad_nav nav_key enqueue xor
scrolled_view = refl

abbrev one_key : Keyboard
one_key = record start { kb_buf = 104 ∷ start.kb_buf }

contents-enqueue_example : contents (enqueue 104 start) ≡ 104 ∷ []
contents-enqueue_example = contents-enqueue start 104 start-IsValid

keyboard_getchar-Front_example : Front [] (keyboard_getchar start)
keyboard_getchar-Front_example = keyboard_getchar-Front start start-IsValid

keyboard_irq_handler-IsValid_instance : IsValid (keyboard_irq_handler 0x23 start).0
keyboard_irq_handler-IsValid_instance = keyboard_irq_handler-IsValid 0x23 start start-IsValid

handler_types_example :
    let (k', called) = keyboard_irq_handler 0x23 start in
    (contents k' ≡ 104 ∷ [])
    × (called ≡ nothing)
    × (k'.shift_held ≡ false)
    × (k'.capslock_on ≡ false)
    × (k'.numlock_on ≡ false)
unfolding mapped is_numpad_nav xor
handler_types_example =
    handler_types 0x23 start start-IsValid (omega arith) (omega arith) refl refl (omega arith)
      (omega arith)

handler_release_instance : keyboard_irq_handler 0xA3 start ≡ (start, nothing)
handler_release_instance =
    handler_release 0xA3 start (omega arith) (omega arith) (omega arith) (omega arith)

capslock_digits_instance :
    (mapped (record start { capslock_on = true }) 2 ≡ 33)
    × (mapped (record start { capslock_on = true }) 2 ≢ 49)
capslock_digits_instance =
    capslock_digits 2 (record start { capslock_on = true }) refl refl (omega arith) (omega arith)

-- A backspace on the empty line, an erased letter, and a line that fills the buffer.
readline_edits :
    keyboard_readline 5 (8 ∷ 97 ∷ 98 ∷ 8 ∷ 99 ∷ 100 ∷ 101 ∷ 102 ∷ [])
    ≡ some
        (record { text = bytes "acde"; echo = 97 ∷ 98 ∷ 8 ∷ 99 ∷ 100 ∷ 101 ∷ []; rest = 102 ∷ [] })
unfolding keyboard_readline readline_loop
readline_edits = refl

abbrev hi_line : Line
hi_line = record { text = bytes "hi"; echo = 104 ∷ 105 ∷ 10 ∷ []; rest = 120 ∷ [] }

readline_hi : keyboard_readline 256 (104 ∷ 105 ∷ 13 ∷ 120 ∷ []) ≡ some hi_line
unfolding keyboard_readline readline_loop
readline_hi = refl

keyboard_readline_bound_instance : 2 < 256
keyboard_readline_bound_instance =
    keyboard_readline_bound 256 (104 ∷ 105 ∷ 13 ∷ 120 ∷ []) hi_line (omega arith) readline_hi

keyboard_readline_typed_example : keyboard_readline 256 (bytes "hi" ++ 13 ∷ 120 ∷ []) ≡ some hi_line
keyboard_readline_typed_example =
    keyboard_readline_typed 256 (bytes "hi") (120 ∷ []) (omega arith) (omega arith)

feed_mods_instance :
    ((feed (0x2A ∷ 0x3A ∷ []) start).shift_held ≡ held false (0x2A ∷ 0x3A ∷ []))
    × ((feed (0x2A ∷ 0x3A ∷ []) start).capslock_on ≡ locked false (0x2A ∷ 0x3A ∷ []))
feed_mods_instance = feed_mods (0x2A ∷ 0x3A ∷ []) start
