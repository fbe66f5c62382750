-- ===== src/Gdt/Tests.antt =====
-- The three descriptors and an instance of the theorem on them.
use zero_to_kernel.Prelude.{◌/◌, ◌≡◌, refl, [], ◌∷◌, arith, map}
use zero_to_kernel.Gdt.{gdt_set_gate, gdt_install, base_of, limit_of, last_byte, gdt_set_gate_lem}

-- The code and the data segment span the whole memory.
gdt_runs : (map last_byte gdt_install.0 ≡ 0 ∷ 0xFFFFFFFF ∷ 0xFFFFFFFF ∷ []) × (gdt_install.1 ≡ 23)
unfolding last_byte limit_of gdt_install gdt_set_gate
gdt_runs = (refl, refl)

gdt_set_gate_lem_instance :
    (base_of (gdt_set_gate 0x12345678 0xABCDE 0x92 0xC0) ≡ 0x12345678)
    × (limit_of (gdt_set_gate 0x12345678 0xABCDE 0x92 0xC0) ≡ 0xABCDE)
    × ((gdt_set_gate 0x12345678 0xABCDE 0x92 0xC0).access ≡ 0x92)
    × ((gdt_set_gate 0x12345678 0xABCDE 0x92 0xC0).granularity / 16 ≡ 0xC)
gdt_set_gate_lem_instance =
    gdt_set_gate_lem 0x12345678 0xABCDE 0x92 0xC0 (omega arith) (omega arith)
