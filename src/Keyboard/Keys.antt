-- ===== src/Keyboard/Keys.antt =====
-- What the interrupt handler makes of make codes, release codes and modifiers.
use zero_to_kernel.Prelude.{
  each_upto, each_upto_lem, ℕ, ◌≤◌, ◌<◌, ◌≡◌, ◌≢◌, refl, sym, ap, ◌∙◌, Bool, true, false, not, xor,
  ◌||◌, List, [], ◌∷◌, ◌++◌, arith, ◌==◌, ltb, lt→ltb, if◌then◌else◌, length, get_or,
}
use zero_to_kernel.Keyboard.{
  Keyboard, Key, char, nothing, scroll_up, scroll_down, enqueue, deliver, decode, mapped,
  is_numpad_nav, keyboard_irq_handler, scancode_map_lower, scancode_map_upper,
}
use zero_to_kernel.Keyboard.Ring.{IsValid, contents, contents-enqueue}

-- A code that is neither a prefix nor a modifier.
abbrev pub IsPlain : ℕ → Type 0
IsPlain sc =
    (sc ≢ 0xE0) × (sc ≢ 0x2A) × (sc ≢ 0x36) × (sc ≢ 0xAA) × (sc ≢ 0xB6) × (sc ≢ 0x3A) × (sc ≢ 0x45)

handler-deliver :
    (sc : ℕ) (k : Keyboard)
    → IsPlain sc
    → sc < 0x80
    → keyboard_irq_handler sc k
      ≡ deliver (record k { e0_mode = false }) (decode (record k { e0_mode = false }) k.e0_mode sc)
unfolding keyboard_irq_handler
handler-deliver sc k plain make = ground arith

decode-mapped :
    (sc : ℕ) (k : Keyboard)
    → sc < 0x80
    → is_numpad_nav k false sc ≡ false
    → mapped k sc ≢ 0
    → decode k false sc ≡ char (mapped k sc)
unfolding decode
decode-mapped sc k make no_nav is = ground arith

enqueue-mods :
    (k : Keyboard) (c : ℕ)
    → ((enqueue c k).shift_held ≡ k.shift_held)
      × ((enqueue c k).capslock_on ≡ k.capslock_on)
      × ((enqueue c k).numlock_on ≡ k.numlock_on)
unfolding enqueue
enqueue-mods k c = ground arith

-- The prefix flag has no part in the maps.
unprefixed :
    (sc : ℕ) (k : Keyboard)
    → (is_numpad_nav (record k { e0_mode = false }) false sc ≡ is_numpad_nav k false sc)
      × (mapped (record k { e0_mode = false }) sc ≡ mapped k sc)
unfolding is_numpad_nav mapped
unprefixed sc k = (refl, refl)

-- A make code of a key that the tables map, with no prefix before it and outside the keypad's
-- navigation block, puts the mapped character at the end of the queue if the queue has room, makes
-- no scroll call, and leaves the modifiers alone.
pub handler_types :
    (sc : ℕ) (k : Keyboard)
    → IsValid k
    → IsPlain sc
    → sc < 0x80
    → k.e0_mode ≡ false
    → is_numpad_nav k false sc ≡ false
    → mapped k sc ≢ 0
    → length (contents k) < 255
    → let (k', called) = keyboard_irq_handler sc k in
      (contents k' ≡ contents k ++ mapped k sc ∷ [])
      × (called ≡ nothing)
      × (k'.shift_held ≡ k.shift_held)
      × (k'.capslock_on ≡ k.capslock_on)
      × (k'.numlock_on ≡ k.numlock_on)
unfolding deliver
handler_types sc k v plain make no_prefix no_nav is room =
    let k' : Keyboard = record k { e0_mode = false } in
    let same = unprefixed sc k in
    let v' : IsValid k' = record { sized = v.sized; head_in = v.head_in; tail_in = v.tail_in } in
    let key : decode k' false sc ≡ char (mapped k sc) =
      decode-mapped sc k' make (same.0 ∙ no_nav) (λ e. is (sym same.1 ∙ e)) ∙ ap char same.1 in
    let fits : ltb (length (contents k')) 255 ≡ true = lt→ltb _ _ room in
    let done : keyboard_irq_handler sc k ≡ deliver k' (char (mapped k sc)) =
      handler-deliver sc k plain make
      ∙ ap (λ b. deliver k' (decode k' b sc)) no_prefix
      ∙ ap (deliver k') key in
    let mods = enqueue-mods k' (mapped k sc) in
    rw done (contents-enqueue k' (mapped k sc) v' ∙ rw fits refl, refl, mods.0, mods.1, mods.2)

-- A release code other than that of a shift key only ends the prefix mode.
pub handler_release :
    (sc : ℕ) (k : Keyboard)
    → 0x80 ≤ sc
    → sc ≢ 0xE0
    → sc ≢ 0xAA
    → sc ≢ 0xB6
    → keyboard_irq_handler sc k ≡ (record k { e0_mode = false }, nothing)
unfolding keyboard_irq_handler
handler_release sc k h a b c = ground arith

-- The handler over a sequence of interrupts.
unfoldable pub feed : List ℕ → Keyboard → Keyboard
feed [] k = k
feed (sc ∷ scs) k = feed scs (keyboard_irq_handler sc k).0

-- Whether shift is held after a sequence: its last shift event decides.
pub held : Bool → List ℕ → Bool
held b [] = b
held b (sc ∷ scs) =
    held (if sc == 0x2A || sc == 0x36 then true else if sc == 0xAA || sc == 0xB6 then false else b)
      scs

-- Caps Lock is on after an odd number of presses if it was off.
pub locked : Bool → List ℕ → Bool
locked b [] = b
locked b (sc ∷ scs) = locked (if sc == 0x3A then not b else b) scs

deliver-mods :
    (k : Keyboard) (key : Key)
    → ((deliver k key).0.shift_held ≡ k.shift_held)
      × ((deliver k key).0.capslock_on ≡ k.capslock_on)
      × ((deliver k key).0.numlock_on ≡ k.numlock_on)
unfolding deliver
deliver-mods k (char c) = enqueue-mods k c
deliver-mods k nothing = (refl, refl, refl)
deliver-mods k (scroll_up n) = (refl, refl, refl)
deliver-mods k (scroll_down n) = (refl, refl, refl)

handler-mods :
    (sc : ℕ) (k : Keyboard)
    → ((keyboard_irq_handler sc k).0.shift_held ≡ (
        if sc == 0x2A || sc == 0x36
        then true
        else if sc == 0xAA || sc == 0xB6
        then false
        else k.shift_held))
      × ((keyboard_irq_handler sc k).0.capslock_on
          ≡ (if sc == 0x3A then not k.capslock_on else k.capslock_on))
unfolding keyboard_irq_handler
handler-mods sc k =
    let k' = record k { e0_mode = false } in
    ground (arith, deliver-mods k' (decode k' k.e0_mode sc))

-- After any sequence of interrupts the shift state is that of the last shift event, and Caps Lock
-- has toggled once for each of its make codes.
pub feed_mods :
    (scs : List ℕ) (k : Keyboard)
    → ((feed scs k).shift_held ≡ held k.shift_held scs)
      × ((feed scs k).capslock_on ≡ locked k.capslock_on scs)
unfolding feed held locked
feed_mods [] k = (refl, refl)
feed_mods (sc ∷ scs) k =
    let rest = feed_mods scs (keyboard_irq_handler sc k).0 in
    let step = handler-mods sc k in
    (rest.0 ∙ ap (λ b. held b scs) step.0, rest.1 ∙ ap (λ b. locked b scs) step.1)

digits_differ : ℕ → Bool
digits_differ sc =
    ltb sc 2 || not (get_or scancode_map_upper sc 0 == get_or scancode_map_lower sc 0)

digits_differ-table : each_upto digits_differ 11 ≡ true
unfolding each_upto digits_differ
digits_differ-table = refl

-- Caps Lock without shift selects the upper table for the digit row too, so that no digit key gives
-- its digit.
pub capslock_digits :
    (sc : ℕ) (k : Keyboard)
    → k.capslock_on ≡ true
    → k.shift_held ≡ false
    → 2 ≤ sc
    → sc ≤ 11
    → (mapped k sc ≡ get_or scancode_map_upper sc 0)
      × (mapped k sc ≢ get_or scancode_map_lower sc 0)
unfolding mapped digits_differ xor
capslock_digits sc k caps shift lo hi =
    let differ = each_upto_lem digits_differ 11 sc (omega arith) digits_differ-table in
    rw (caps, shift) (refl, λ e. ground arith)
