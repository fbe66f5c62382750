-- ===== src/Gdt.antt =====
-- kernel/gdt.c and include/gdt.h: the segment descriptors.
mod Tests
use zero_to_kernel.Prelude.{
  ℕ, ◌+◌, ◌-◌, ◌*◌, ◌/◌, ◌%◌, ◌^◌, ◌<◌, ◌≡◌, refl, ap, ap₂, ◌==◌, Bool, true, List, [], ◌∷◌, arith,
  if◌then◌else◌,
}

pub record GdtEntry : Type 0 where
  pub limit_low : ℕ
  pub base_low : ℕ
  pub base_middle : ℕ
  pub access : ℕ
  pub granularity : ℕ
  pub base_high : ℕ

-- The two halves of the granularity byte have no bit in common, so that `|` is `+`.
unfoldable pub gdt_set_gate : ℕ → ℕ → ℕ → ℕ → GdtEntry
gdt_set_gate base limit access gran = record {
  limit_low = limit % 2 ^ 16;
  base_low = base % 2 ^ 16;
  base_middle = base / 2 ^ 16 % 2 ^ 8;
  access = access;
  granularity = limit / 2 ^ 16 % 16 + gran / 16 % 16 * 16;
  base_high = base / 2 ^ 24 % 2 ^ 8;
}

-- The table, and the limit of its pointer.
unfoldable pub gdt_install : List GdtEntry × ℕ
gdt_install = (
  gdt_set_gate 0 0 0 0
      ∷ gdt_set_gate 0 0xFFFFFFFF 0x9A 0xCF
      ∷ gdt_set_gate 0 0xFFFFFFFF 0x92 0xCF
      ∷ [],
  8 * 3 - 1,
)

-- How the processor reads a descriptor: the base, the 20 bits of the limit and the flags.
unfoldable pub base_of : GdtEntry → ℕ
base_of e = e.base_low + e.base_middle * 2 ^ 16 + e.base_high * 2 ^ 24

unfoldable pub limit_of : GdtEntry → ℕ
limit_of e = e.limit_low + e.granularity % 16 * 2 ^ 16

-- The last byte of the segment: the limit counts pages of 4 KiB if bit 7 of the flags is set.
unfoldable pub last_byte : GdtEntry → ℕ
unfolding limit_of
last_byte e =
    if e.granularity / 128 % 2 == 1 then limit_of e * 2 ^ 12 + (2 ^ 12 - 1) else limit_of e

-- The processor reads back the base, the low 20 bits of the limit, the access byte and the flags that
-- gdt_set_gate was given.
pub gdt_set_gate_lem :
    (base limit access gran : ℕ)
    → base < 2 ^ 32
    → gran < 256
    → (base_of (gdt_set_gate base limit access gran) ≡ base)
      × (limit_of (gdt_set_gate base limit access gran) ≡ limit % 2 ^ 20)
      × ((gdt_set_gate base limit access gran).access ≡ access)
      × ((gdt_set_gate base limit access gran).granularity / 16 ≡ gran / 16)
unfolding base_of limit_of gdt_set_gate
gdt_set_gate_lem base limit access gran small byte =
    (omega (arith, small), omega arith, refl, omega (arith, byte))
