-- ===== src/Keyboard.antt =====
-- kernel/keyboard.c. The static variables are a record; the port read of the interrupt handler is
-- its argument, and the calls that scroll the terminal are its second result. kb_buf is a list of
-- 256 bytes. A getchar that would wait for the next interrupt returns `none`.
mod Maps
pub mod Ring
pub mod Keys
pub mod Lines
mod Tests
use zero_to_kernel.Prelude.{
  ℕ, ◌+◌, ◌-◌, ◌%◌, Bool, true, false, not, xor, ◌&&◌, ◌||◌, Option, none, some, List, [], ◌∷◌,
  ◌++◌, ◌==◌, ltb, leb, if◌then◌else◌, length, get_or, set, replicate, take,
}
unfoldable pub use Maps.{scancode_map_lower, scancode_map_upper}

-- KB_BUF_SIZE; `x & KB_BUF_MASK` is `x % kb_buf_size`.
abbrev pub kb_buf_size : ℕ
kb_buf_size = 256

abbrev pub key_up_arrow : ℕ
key_up_arrow = 0x11

abbrev pub key_down_arrow : ℕ
key_down_arrow = 0x12

abbrev pub key_right_arrow : ℕ
key_right_arrow = 0x13

abbrev pub key_left_arrow : ℕ
key_left_arrow = 0x14

pub record Keyboard : Type 0 where
  pub kb_buf : List ℕ
  pub kb_head : ℕ
  pub kb_tail : ℕ
  pub shift_held : Bool
  pub capslock_on : Bool
  pub numlock_on : Bool
  pub e0_mode : Bool

abbrev pub start : Keyboard
start = record {
  kb_buf = replicate kb_buf_size 0;
  kb_head = 0;
  kb_tail = 0;
  shift_held = false;
  capslock_on = false;
  numlock_on = false;
  e0_mode = false;
}

-- What a make code asks for: nothing, a scroll of the terminal, or a character for the buffer.
pub data Key : Type 0 where
  nothing : Key
  scroll_up : ℕ → Key
  scroll_down : ℕ → Key
  char : ℕ → Key

-- Arrow and page keys, from an extended code or from the keypad without Num Lock.
unfoldable pub nav_key : Bool → ℕ → Key
nav_key shift scancode =
    if scancode == 0x48
    then (if shift then scroll_up 1 else char key_up_arrow)
    else if scancode == 0x50
    then (if shift then scroll_down 1 else char key_down_arrow)
    else if scancode == 0x4B
    then char key_left_arrow
    else if scancode == 0x4D
    then char key_right_arrow
    else if scancode == 0x49
    then scroll_up 10
    else if scancode == 0x51
    then scroll_down 10
    else nothing

unfoldable pub is_numpad_nav : Keyboard → Bool → ℕ → Bool
is_numpad_nav k is_e0 scancode =
    not is_e0
    && not k.numlock_on
    && leb 0x47 scancode
    && leb scancode 0x53
    && not (scancode == 0x4A)
    && not (scancode == 0x4E)

unfoldable pub mapped : Keyboard → ℕ → ℕ
mapped k scancode =
    if xor k.shift_held k.capslock_on
    then get_or scancode_map_upper scancode 0
    else get_or scancode_map_lower scancode 0

unfoldable pub decode : Keyboard → Bool → ℕ → Key
decode k is_e0 scancode =
    if is_e0 || is_numpad_nav k is_e0 scancode
    then nav_key k.shift_held scancode
    else if ltb scancode 128
    then (if mapped k scancode == 0 then nothing else char (mapped k scancode))
    else nothing

-- A character is dropped if the buffer is full.
unfoldable pub enqueue : ℕ → Keyboard → Keyboard
enqueue c k =
    let next_head = (k.kb_head + 1) % kb_buf_size in
    if next_head == k.kb_tail
    then k
    else record k { kb_buf = set k.kb_buf k.kb_head c; kb_head = next_head }

unfoldable pub deliver : Keyboard → Key → Keyboard × Key
deliver k (char c) = (enqueue c k, nothing)
deliver k nothing = (k, nothing)
deliver k (scroll_up n) = (k, scroll_up n)
deliver k (scroll_down n) = (k, scroll_down n)

-- A scan code below 256; bit 7 set means a key release. The second result is the scroll call made.
unfoldable pub keyboard_irq_handler : ℕ → Keyboard → Keyboard × Key
keyboard_irq_handler scancode k =
    let is_e0 = k.e0_mode in
    let k' = record k { e0_mode = false } in
    if scancode == 0xE0
    then (record k { e0_mode = true }, nothing)
    else if scancode == 0x2A || scancode == 0x36
    then (record k' { shift_held = true }, nothing)
    else if scancode == 0xAA || scancode == 0xB6
    then (record k' { shift_held = false }, nothing)
    else if scancode == 0x3A
    then (record k' { capslock_on = not k.capslock_on }, nothing)
    else if scancode == 0x45
    then (record k' { numlock_on = not k.numlock_on }, nothing)
    else if leb 0x80 scancode
    then (k', nothing)
    else deliver k' (decode k' is_e0 scancode)

unfoldable pub keyboard_getchar : Keyboard → Option (ℕ × Keyboard)
keyboard_getchar k =
    if k.kb_head == k.kb_tail
    then none
    else some (get_or k.kb_buf k.kb_tail 0, record k { kb_tail = (k.kb_tail + 1) % kb_buf_size })

-- keyboard_readline, on the characters that getchar will return: the text put into the buffer, the
-- characters echoed, and the keys left. `none` waits for more keys, or has echoed a tab: from one in the
-- last eight columns terminal_putchar never returns, and the column is not known here, so that what
-- comes behind a tab is not followed. `room` is `len - 1`.
pub record Line : Type 0 where
  pub text : List ℕ
  pub echo : List ℕ
  pub rest : List ℕ

unfoldable pub readline_loop : ℕ → List ℕ → List ℕ → List ℕ → Option Line
readline_loop room [] buf out =
    if ltb (length buf) room then none else some (record { text = buf; echo = out; rest = [] })
readline_loop room (c ∷ keys) buf out =
    let erased = readline_loop room keys (take (length buf - 1) buf) (out ++ 8 ∷ []) in
    let ignored = readline_loop room keys buf out in
    let typed = readline_loop room keys (buf ++ c ∷ []) (out ++ c ∷ []) in
    if ltb (length buf) room
    then (if c == 10 || c == 13
        then some (record { text = buf; echo = out ++ 10 ∷ []; rest = keys })
        else if c == 8
        then (if ltb 0 (length buf) then erased else ignored)
        else if c == 9
        then none
        else typed)
    else some (record { text = buf; echo = out; rest = c ∷ keys })

unfoldable pub keyboard_readline : ℕ → List ℕ → Option Line
unfolding readline_loop
keyboard_readline len keys = readline_loop (len - 1) keys [] []
