-- ===== src/Pic.antt =====
-- kernel/pic.c, the two interrupt controllers. A port write is a pair of port and byte, in the order
-- of the code; `inb` gives what a port read returns.
pub mod Masks
pub mod Tests
use zero_to_kernel.Prelude.{
  ℕ, ◌+◌, ◌-◌, ◌^◌, ◌%◌, Bool, List, [], ◌∷◌, ◌++◌, ltb, leb, if◌then◌else◌, bit_and, bit_or,
}

abbrev pub pic1_command : ℕ
pic1_command = 0x20

abbrev pub pic1_data : ℕ
pic1_data = 0x21

abbrev pub pic2_command : ℕ
pic2_command = 0xA0

abbrev pub pic2_data : ℕ
pic2_data = 0xA1

abbrev pub pic_eoi : ℕ
pic_eoi = 0x20

abbrev pub Out : Type 0
Out = ℕ × ℕ

-- outb and the write to port 0x80 of io_wait behind it.
abbrev pub slow : ℕ → ℕ → List Out
slow port val = (port, val) ∷ (0x80, 0) ∷ []

unfoldable pub pic_init : List Out
pic_init =
    slow pic1_command 0x11
    ++ (slow pic2_command 0x11
        ++ (slow pic1_data 0x20
            ++ (slow pic2_data 0x28
                ++ (slow pic1_data 0x04
                    ++ (slow pic2_data 0x02
                        ++ (slow pic1_data 0x01
                            ++ (slow pic2_data 0x01
                                ++ (pic1_data, 0xFF) ∷ (pic2_data, 0xFF) ∷ [])))))))

unfoldable pub pic_send_eoi : ℕ → List Out
pic_send_eoi irq =
    if leb 8 irq
    then (pic2_command, pic_eoi) ∷ (pic1_command, pic_eoi) ∷ []
    else (pic1_command, pic_eoi) ∷ []

-- The port of a line's mask register, and the line's bit in it.
unfoldable pub mask_port : ℕ → ℕ
mask_port irq = if ltb irq 8 then pic1_data else pic2_data

unfoldable pub line_bit : ℕ → ℕ
line_bit irq = 2 ^ (if ltb irq 8 then irq else irq - 8) % 256

unfoldable pub pic_mask_irq : (ℕ → ℕ) → ℕ → Out
pic_mask_irq inb irq = (mask_port irq, bit_or (inb (mask_port irq)) (line_bit irq))

-- The complement of the bit, as a byte.
unfoldable pub pic_unmask_irq : (ℕ → ℕ) → ℕ → Out
pic_unmask_irq inb irq = (mask_port irq, bit_and (inb (mask_port irq)) (255 - line_bit irq))
