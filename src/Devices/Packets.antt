-- ===== src/Devices/Packets.antt =====
-- The mouse: packets are read byte by byte, and only the fourth byte of a packet scrolls.
use zero_to_kernel.Prelude.{
  ℕ, ◌+◌, ◌/◌, ◌%◌, ◌<◌, ◌≡◌, refl, ◌∙◌, ap, ◌⊎◌, inl, inr, false, ◌&&◌, List, [], ◌∷◌, ◌==◌, arith,
  length, length-set, set, get_or-set_self, Bool-cases, if_both,
}
use zero_to_kernel.Screen.{Screen}
use zero_to_kernel.Devices.{Mouse, wheel, mouse_irq_handler}

-- The index of the next byte is inside the packet, which has 3 bytes or 4.
pub record IsMouse (m : Mouse) : Type 0 where
  pub sized : length m.mouse_packet ≡ 4
  pub kind : (m.mouse_packet_size ≡ 3) ⊎ (m.mouse_packet_size ≡ 4)
  pub inside : m.mouse_cycle < m.mouse_packet_size

-- The handler never writes behind the packet buffer, whatever the ports give.
pub mouse_irq_handler-IsMouse :
    (status byte : ℕ) (m : Mouse) (s : Screen)
    → IsMouse m
    → IsMouse (mouse_irq_handler status byte (m, s)).0
unfolding mouse_irq_handler
mouse_irq_handler-IsMouse status byte m s v =
    let len = length-set m.mouse_packet m.mouse_cycle byte in
    if_both (λ (r : Mouse × Screen). IsMouse r.0) (status / 32 % 2 == 0) (m, s) _ v
      (if_both (λ (r : Mouse × Screen). IsMouse r.0) (m.mouse_cycle == 0 && byte / 8 % 2 == 0)
        (m, s) _ v
        (elim (Bool-cases (m.mouse_cycle + 1 == m.mouse_packet_size)) [
          | inl last ↦
              rw last
                (record { sized = len ∙ v.sized; kind = v.kind; inside = ground (arith, v.kind) })
          | inr more ↦ rw more (record {
            sized = len ∙ v.sized;
            kind = v.kind;
            inside = ground (arith, more, v.inside);
          })
        ]))

-- The interrupts of a sequence of bytes, each with the mouse's status bit.
unfoldable pub feed : List ℕ → Mouse × Screen → Mouse × Screen
feed [] r = r
feed (byte ∷ rest) r = feed rest (mouse_irq_handler 32 byte r)

-- A mouse with a wheel that expects byte `n` of a packet.
abbrev pub wheel_mouse : ℕ → List ℕ → Mouse
wheel_mouse n p = record { mouse_cycle = n; mouse_packet = p; mouse_packet_size = 4 }

step_first :
    (b : ℕ) (p : List ℕ) (s : Screen)
    → b / 8 % 2 ≡ 1
    → mouse_irq_handler 32 b (wheel_mouse 0 p, s) ≡ (wheel_mouse 1 (set p 0 b), s)
unfolding mouse_irq_handler
step_first b p s sync = let e : (b / 8 % 2 == 0) ≡ false = ground arith in rw e refl

step_middle :
    (b c : ℕ) (p : List ℕ) (s : Screen)
    → mouse_irq_handler 32 c (mouse_irq_handler 32 b (wheel_mouse 1 p, s))
      ≡ (wheel_mouse 3 (set (set p 1 b) 2 c), s)
unfolding mouse_irq_handler
step_middle b c p s = refl

step_last :
    (b : ℕ) (p : List ℕ) (s : Screen)
    → length p ≡ 4
    → mouse_irq_handler 32 b (wheel_mouse 3 p, s) ≡ (wheel_mouse 0 (set p 3 b), wheel b s)
unfolding mouse_irq_handler
step_last b p s four = rw (get_or-set_self p 3 b 0 (omega arith)) refl

-- A mouse with a wheel scrolls once for each four bytes, by the fourth alone, when the first has bit 3
-- set; afterwards it holds the packet and expects the next one.
pub feed_packet :
    (b₀ b₁ b₂ b₃ : ℕ) (p : List ℕ) (s : Screen)
    → length p ≡ 4
    → b₀ / 8 % 2 ≡ 1
    → feed (b₀ ∷ b₁ ∷ b₂ ∷ b₃ ∷ []) (wheel_mouse 0 p, s)
      ≡ (wheel_mouse 0 (set (set (set (set p 0 b₀) 1 b₁) 2 b₂) 3 b₃), wheel b₃ s)
unfolding feed
feed_packet b₀ b₁ b₂ b₃ p s four sync =
    let p' = set p 0 b₀ in
    let q = set (set p' 1 b₁) 2 b₂ in
    let len : length q ≡ 4 =
      length-set (set p' 1 b₁) 2 b₂ ∙ length-set p' 1 b₁ ∙ length-set p 0 b₀ ∙ four in
    ap (λ r. mouse_irq_handler 32 b₃ (mouse_irq_handler 32 b₂ (mouse_irq_handler 32 b₁ r)))
      (step_first b₀ p s sync)
    ∙ ap (mouse_irq_handler 32 b₃) (step_middle b₁ b₂ p' s)
    ∙ step_last b₃ q s len
