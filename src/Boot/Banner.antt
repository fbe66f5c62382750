-- ===== src/Boot/Banner.antt =====
-- What kernel/kernel.c prints while it starts the parts: print_banner, ok, and kernel_main's own texts.
pub mod Shown
mod Tests
use zero_to_kernel.Prelude.{ℕ, Option, List, [], ◌∷◌, ◌++◌, bytes}
use zero_to_kernel.Screen.{Screen, terminal_init}
use zero_to_kernel.Screen.Output.{
  Call, set_color, clear, write, perform_all, color_black, color_cyan, color_light_grey,
  color_light_green, color_yellow, color_white,
}

unfoldable pub print_banner : List Call
print_banner =
    set_color color_cyan color_black
    ∷ write (bytes "  __  __ _       _  ___  ____\n")
    ∷ write (bytes " |  \\/  (_)_ __ (_)/ _ \\/ ___|\n")
    ∷ write (bytes " | |\\/| | | '_ \\| | | | \\___ \\\n")
    ∷ write (bytes " | |  | | | | | | | |_| |___) |\n")
    ∷ write (bytes " |_|  |_|_|_| |_|_|\\___/|____/\n")
    ∷ write (bytes "\n")
    ∷ set_color color_white color_black
    ∷ write (bytes " MiniOS v1.0 - A minimal x86 OS\n")
    ∷ set_color color_light_grey color_black
    ∷ write (bytes " Built by Ahmed Ali | C99 + x86 ASM | GRUB + QEMU\n")
    ∷ write (bytes " ------------------------------------------------\n")
    ∷ set_color color_white color_black
    ∷ []

unfoldable pub ok : List ℕ → List Call
ok name =
    set_color color_light_grey color_black
    ∷ write (bytes " [")
    ∷ set_color color_light_green color_black
    ∷ write (bytes " OK ")
    ∷ set_color color_light_grey color_black
    ∷ write (bytes "] ")
    ∷ set_color color_white color_black
    ∷ write name
    ∷ write (10 ∷ [])
    ∷ []

-- The parts in the order in which they are started.
abbrev pub parts : List (List ℕ)
parts =
    bytes "Memory manager (256 KiB heap)"
    ∷ bytes "Global Descriptor Table (GDT)"
    ∷ bytes "Interrupt Descriptor Table (IDT)"
    ∷ bytes "8259 PIC (IRQs remapped to 0x20-0x2F)"
    ∷ bytes "Programmable Interval Timer (100 Hz)"
    ∷ bytes "PS/2 Keyboard driver (IRQ1)"
    ∷ bytes "PS/2 Mouse driver with scroll wheel (IRQ12)"
    ∷ bytes "In-memory filesystem (16 files x 256 B)"
    ∷ []

unfoldable pub ok_all : List (List ℕ) → List Call
ok_all [] = []
ok_all (name ∷ names) = ok name ++ ok_all names

-- The calls of kernel_main behind terminal_init.
unfoldable pub boot_calls : List Call
boot_calls =
    clear ∷ print_banner
    ++ (write (bytes "\n Initialising subsystems...\n\n") ∷ ok_all parts
        ++ (write (bytes "\n")
            ∷ set_color color_yellow color_black
            ∷ write (bytes " Boot complete. Type 'cmds' for available commands.\n")
            ∷ set_color color_white color_black
            ∷ []))

unfoldable pub boot_screen : ℕ → Screen → Option Screen
boot_screen fuel s = perform_all fuel boot_calls (terminal_init s)
