-- ===== src/Idt.antt =====
-- kernel/idt.c and include/idt.h: the descriptor table, the registered handlers and the two dispatchers.
-- The table is a map from vectors to gates. The addresses of the assembly stubs isr0 to isr31 and
-- irq0 to irq15 are parameters, and so is the type of handlers; no handler is `none`.
pub mod Vectors
mod Tests
use zero_to_kernel.Prelude.{
  ℕ, zero, suc, ◌+◌, ◌-◌, ◌*◌, ◌/◌, ◌%◌, ◌^◌, Bool, true, false, ◌&&◌, Option, none, some, List, [],
  ◌∷◌, ◌++◌, ◌==◌, ltb, leb, if◌then◌else◌, bytes, get_or,
}
use zero_to_kernel.Screen.Printf.{Arg, str, num, terminal_printf}
use zero_to_kernel.Fs.{Text}
use zero_to_kernel.Pic.{Out, pic_send_eoi}

pub record IdtEntry : Type 0 where
  pub base_low : ℕ
  pub sel : ℕ
  pub always0 : ℕ
  pub flags : ℕ
  pub base_high : ℕ

abbrev pub Gates : Type 0
Gates = ℕ → IdtEntry

-- A gate after memset to 0.
abbrev pub no_gate : IdtEntry
no_gate = record { base_low = 0; sel = 0; always0 = 0; flags = 0; base_high = 0 }

unfoldable pub gate : ℕ → ℕ → ℕ → IdtEntry
gate base sel flags = record {
  base_low = base % 2 ^ 16;
  sel = sel;
  always0 = 0;
  flags = flags;
  base_high = base / 2 ^ 16 % 2 ^ 16;
}

unfoldable pub idt_set_gate : ℕ → ℕ → ℕ → ℕ → Gates → Gates
idt_set_gate vector base sel flags g v = if v == vector then gate base sel flags else g v

-- The calls for the vectors `first` to `first + n - 1`, of the stubs `stub 0` to `stub (n - 1)`.
unfoldable pub set_gates : ℕ → (ℕ → ℕ) → ℕ → Gates → Gates
set_gates first stub zero g = g
set_gates first stub (suc n) g =
    idt_set_gate (first + n) (stub n) 0x08 0x8E (set_gates first stub n g)

pub record Idt {ℓ} (H : Type ℓ) : Type ℓ where
  pub idt_entries : Gates
  pub limit : ℕ
  pub isr_handlers : ℕ → Option H
  pub irq_handlers : ℕ → Option H

module _ {ℓ} {H : Type ℓ} where
  unfoldable pub idt_install : (ℕ → ℕ) → (ℕ → ℕ) → Idt H
  idt_install isr irq = record {
    idt_entries = set_gates 32 irq 16 (set_gates 0 isr 32 (λ v. no_gate));
    limit = 8 * 256 - 1;
    isr_handlers = λ i. none;
    irq_handlers = λ i. none;
  }

  unfoldable pub put : ℕ → H → (ℕ → Option H) → ℕ → Option H
  put i h f j = if j == i then some h else f j

  unfoldable pub idt_set_handler : ℕ → H → Idt H → Idt H
  idt_set_handler vector h t =
      if ltb vector 32
      then record t { isr_handlers = put vector h t.isr_handlers }
      else if leb 32 vector && ltb vector 48
      then record t { irq_handlers = put (vector - 32) h t.irq_handlers }
      else t

  unfoldable pub registered : Bool → Option H → Option H
  registered in_range none = none
  registered in_range (some h) = if in_range then some h else none

  -- The handler that is called, and the acknowledgement behind it. `int_no - 32` is unsigned.
  unfoldable pub irq_handler : ℕ → Idt H → Option H × List Out
  unfolding registered
  irq_handler int_no t =
      let irq_num = (int_no + 2 ^ 32 - 32) % 2 ^ 32 in
      (registered (ltb irq_num 16) (t.irq_handlers irq_num), pic_send_eoi (irq_num % 256))

-- What an exception without a handler prints before the machine halts: its number, its name if it has
-- one, and the registers.
pub record Registers : Type 0 where
  pub eax : ℕ
  pub ebx : ℕ
  pub ecx : ℕ
  pub edx : ℕ
  pub int_no : ℕ
  pub err_code : ℕ
  pub eip : ℕ
  pub cs : ℕ
  pub eflags : ℕ

abbrev pub exception_names : List (List ℕ)
exception_names =
    bytes "Division By Zero"
    ∷ bytes "Debug"
    ∷ bytes "Non-Maskable Interrupt"
    ∷ bytes "Breakpoint"
    ∷ bytes "Overflow"
    ∷ bytes "Bound Range Exceeded"
    ∷ bytes "Invalid Opcode"
    ∷ bytes "Device Not Available"
    ∷ bytes "Double Fault"
    ∷ bytes "Coprocessor Segment Overrun"
    ∷ bytes "Invalid TSS"
    ∷ bytes "Segment Not Present"
    ∷ bytes "Stack-Segment Fault"
    ∷ bytes "General Protection Fault"
    ∷ bytes "Page Fault"
    ∷ bytes "Reserved"
    ∷ bytes "x87 FPU Error"
    ∷ bytes "Alignment Check"
    ∷ bytes "Machine Check"
    ∷ bytes "SIMD Floating-Point Exception"
    ∷ bytes "Virtualisation Exception"
    ∷ bytes "Reserved"
    ∷ bytes "Reserved"
    ∷ bytes "Reserved"
    ∷ bytes "Reserved"
    ∷ bytes "Reserved"
    ∷ bytes "Reserved"
    ∷ bytes "Reserved"
    ∷ bytes "Reserved"
    ∷ bytes "Reserved"
    ∷ bytes "Security Exception"
    ∷ bytes "Reserved"
    ∷ []

-- What isr_handler does: call the handler, or print the lines below and halt.
pub data Fault {ℓ} (H : Type ℓ) : Type ℓ where
  called : H → Fault H
  halted : List (Option (List ℕ)) → Fault H

abbrev pub printf : Text → List Arg → Option (List ℕ)
printf = terminal_printf

-- The lines that terminal_printf prints.
unfoldable pub fault_lines : Registers → List (Option (List ℕ))
fault_lines r =
    (if ltb r.int_no 32
      then printf (bytes "  Exception #%u: %s\n")
          (num r.int_no ∷ str (get_or exception_names r.int_no []) ∷ [])
      else printf (bytes "  Exception #%u\n") (num r.int_no ∷ []))
    ∷ printf (bytes "  EIP=0x%x  CS=0x%x  EFlags=0x%x\n") (num r.eip ∷ num r.cs ∷ num r.eflags ∷ [])
    ∷ printf (bytes "  EAX=0x%x  EBX=0x%x  ECX=0x%x  EDX=0x%x\n")
        (num r.eax ∷ num r.ebx ∷ num r.ecx ∷ num r.edx ∷ [])
    ∷ printf (bytes "  Error code: 0x%x\n") (num r.err_code ∷ [])
    ∷ []

module _ {ℓ} {H : Type ℓ} where
  fault : Registers → Option H → Fault H
  fault r none = halted (fault_lines r)
  fault r (some h) = called h

  unfoldable pub isr_handler : Registers → Idt H → Fault H
  unfolding registered fault
  isr_handler r t = fault r (registered (ltb r.int_no 32) (t.isr_handlers r.int_no))
