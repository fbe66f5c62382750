-- ===== src/Pic/Tests.antt =====
-- A board of ports that keep what is written, and instances of the theorems on masks.
use zero_to_kernel.Prelude.{
  ℕ, ◌%◌, ◌<◌, ◌≡◌, ◌≢◌, refl, true, false, not, ◌&&◌, ◌||◌, [], ◌∷◌, ◌==◌, if◌then◌else◌, arith,
}
use zero_to_kernel.Pic.{pic_init, pic_mask_irq, pic_unmask_irq, pic_send_eoi, mask_port, line_bit}
use zero_to_kernel.Pic.Masks.{
  Chips, masked, mask_irq, unmask_irq, writes, masked-mask_irq, masked-unmask_irq, masked-pic_init,
}

abbrev pub Board : Type 0
Board = ℕ → ℕ

abbrev pub read_port : ℕ → Board → ℕ
read_port p s = s p % 256

abbrev pub write_port : ℕ → ℕ → Board → Board
write_port q v s p = if p == q then v else s p

pub read_port-write_port : (p v : ℕ) (s : Board) → v < 256 → read_port p (write_port p v s) ≡ v
read_port-write_port p v s small = ground arith

pub read_port_apart :
    (p q v : ℕ) (s : Board) → p ≢ q → read_port p (write_port q v s) ≡ read_port p s
read_port_apart p q v s ne = ground arith

abbrev pub board : Chips
board = record {
  State = Board;
  inb = read_port;
  outb = write_port;
  IsReady = λ s. Unit {0};
  byte = λ port s. omega arith;
  sets_up = λ s. tt;
  stays = λ q v s free ready. tt;
  reads_back = λ p v s is_mask ready small. read_port-write_port p v s small;
  apart = λ p q v s is_mask free ready ne. read_port_apart p q v s ne;
}

abbrev empty_ports : Board
empty_ports p = 0

pic_runs :
    (pic_mask_irq (λ p. 1) 10 ≡ (0xA1, 5))
    × (pic_unmask_irq (λ p. 255) 3 ≡ (0x21, 247))
    × (pic_send_eoi 12 ≡ (0xA0, 0x20) ∷ (0x20, 0x20) ∷ [])
    × (writes write_port pic_init empty_ports 0x21 ≡ 255)
unfolding pic_mask_irq pic_unmask_irq mask_port line_bit pic_send_eoi pic_init writes
pic_runs = (refl, refl, refl, refl)

masked-mask_irq_instance :
    masked board 9 (mask_irq board 12 empty_ports) ≡ (masked board 9 empty_ports || false)
masked-mask_irq_instance = masked-mask_irq board 12 9 empty_ports tt (omega arith) (omega arith)

masked-unmask_irq_instance :
    masked board 12 (unmask_irq board 12 empty_ports) ≡ (masked board 12 empty_ports && not true)
masked-unmask_irq_instance =
    masked-unmask_irq board 12 12 empty_ports tt (omega arith) (omega arith)

masked-pic_init_instance :
    Unit {0} × (masked board 15 (writes write_port pic_init empty_ports) ≡ true)
masked-pic_init_instance = masked-pic_init board 15 empty_ports (omega arith)
