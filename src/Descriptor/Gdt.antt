-- ===== src/Descriptor/Gdt.antt =====
-- src/gdt.c: how a segment is packed into its descriptor.
use openyanase_kernel.Base.{
  ℕ, ◌+◌, ◌-◌, ◌*◌, ◌/◌, ◌%◌, ◌^◌, ◌<◌, ◌≡◌, ◌∙◌, ap, List, set, bit_and, bit_or, arith, u16, u8,
}
use openyanase_kernel.Base.Bits.{bit_and_mask, bit_and_high, bit_or_fields, bit_or_comm}

-- `struct gdt_entry`
pub record GdtEntry : Type 0 where
  pub limit_low : ℕ
  pub base_low : ℕ
  pub base_middle : ℕ
  pub access : ℕ
  pub granularity : ℕ
  pub base_high : ℕ

-- `struct gdt_ptr`
pub record GdtPtr : Type 0 where
  pub limit : ℕ
  pub base : ℕ

-- What `gdt_set_gate` stores in the entry.
unfoldable pub gdt_gate : ℕ → ℕ → ℕ → ℕ → GdtEntry
gdt_gate base limit access gran = record {
  limit_low = u16 (bit_and limit 0xFFFF);
  base_low = u16 (bit_and base 0xFFFF);
  base_middle = u8 (bit_and (base / 2 ^ 16) 0xFF);
  access = u8 access;
  granularity = u8 (bit_or (u8 (bit_and (limit / 2 ^ 16) 0x0F)) (bit_and gran 0xF0));
  base_high = u8 (bit_and (base / 2 ^ 24) 0xFF);
}

unfoldable pub gdt_set_gate : List GdtEntry → ℕ → ℕ → ℕ → ℕ → ℕ → List GdtEntry
unfolding gdt_gate
gdt_set_gate gdt num base limit access gran = set gdt num (gdt_gate base limit access gran)

-- The table and its pointer as `gdt_install` leaves them; `address` is where the table stands.
unfoldable pub gdt_install : List GdtEntry → ℕ → List GdtEntry × GdtPtr
unfolding gdt_set_gate
gdt_install gdt address =
    let gdt1 = gdt_set_gate gdt 0 0 0 0 0 in
    let gdt2 = gdt_set_gate gdt1 1 0 0xFFFF_FFFF 0x9A 0xCF in
    let gdt3 = gdt_set_gate gdt2 2 0 0xFFFF_FFFF 0x92 0xCF in
    (gdt3, record { limit = 8 * 3 - 1; base = address })

-- How the processor reads a descriptor: the base from its three parts, the limit from two, and the
-- flags from the high half of the granularity byte.
abbrev pub entry_base : GdtEntry → ℕ
entry_base e = e.base_low + 2 ^ 16 * e.base_middle + 2 ^ 24 * e.base_high

abbrev pub entry_limit : GdtEntry → ℕ
entry_limit e = e.limit_low + 2 ^ 16 * (e.granularity % 16)

abbrev pub entry_flags : GdtEntry → ℕ
entry_flags e = e.granularity / 16

-- The granularity byte: the flags over the four high bits of the limit.
granularity-lem : (l g : ℕ) → l < 16 → g < 256 → bit_or l (bit_and g 0xF0) ≡ g / 16 * 16 + l
granularity-lem l g hl hg =
    ap (bit_or l)
      (bit_and_high 4 g 15 ∙ ap (λ t. t * 2 ^ 4) (bit_and_mask 4 (g / 2 ^ 4) ∙ omega arith))
    ∙ bit_or_comm l (g / 16 * 16)
    ∙ bit_or_fields 4 (g / 16) l hl

-- The base and the access byte are read back from the descriptor as they were given; so are the
-- low 20 bits of the limit, which are all that a descriptor holds, and the four flags in the high
-- half of `gran`.
pub gdt_gate_fields :
    (base limit access gran : ℕ)
    → base < 2 ^ 32
    → limit < 2 ^ 32
    → access < 256
    → gran < 256
    → let e = gdt_gate base limit access gran in
      (entry_base e ≡ base)
      × (entry_limit e ≡ limit % 2 ^ 20)
      × (e.access ≡ access)
      × (entry_flags e ≡ gran / 16)
unfolding gdt_gate
gdt_gate_fields base limit access gran hb hl ha hg = omega (
  arith,
  bit_and_mask 16 base,
  bit_and_mask 8 (base / 2 ^ 16),
  bit_and_mask 8 (base / 2 ^ 24),
  bit_and_mask 16 limit,
  bit_and_mask 4 (limit / 2 ^ 16),
  granularity-lem (u8 (bit_and (limit / 2 ^ 16) 0x0F)) gran high hg,
)
  where
    high : u8 (bit_and (limit / 2 ^ 16) 0x0F) < 16
    high = omega (arith, bit_and_mask 4 (limit / 2 ^ 16))
