-- ===== src/Descriptor/Idt.antt =====
-- src/cpu/idt.c: the table of 256 interrupt gates; `pic_remap` of src/main.c.
use openyanase_kernel.Base.{
  ℕ, zero, suc, ◌+◌, ◌-◌, ◌*◌, ◌/◌, ◌^◌, ◌<◌, ◌≤◌, ◌≡◌, refl, ◌∙◌, List, [], ◌∷◌, bit_and, arith,
  u16, u8, Out, update, if◌then◌else◌, ◌==◌,
}
use openyanase_kernel.Base.Bits.{bit_and_mask}
use native.Mathlib.Decide.{ℕ_discrete}

-- `struct idt_entry`
pub record IdtEntry : Type 0 where
  pub base_low : ℕ
  pub sel : ℕ
  pub always0 : ℕ
  pub flags : ℕ
  pub base_high : ℕ

-- `struct idt_ptr`
pub record IdtPtr : Type 0 where
  pub limit : ℕ
  pub base : ℕ

unfoldable pub idt_gate : ℕ → ℕ → ℕ → IdtEntry
idt_gate base sel flags = record {
  base_low = u16 (bit_and base 0xFFFF);
  base_high = u16 (bit_and (base / 2 ^ 16) 0xFFFF);
  sel = u16 sel;
  always0 = 0;
  flags = u8 flags;
}

-- `num` is a `uint8_t`. The table is a function of the vector.
unfoldable pub idt_set_gate : (ℕ → IdtEntry) → ℕ → ℕ → ℕ → ℕ → ℕ → IdtEntry
idt_set_gate idt num base sel flags = update idt (u8 num) (idt_gate base sel flags)

-- The loop over the vectors, with `n` rounds left from `i`.
unfoldable pub default_loop : ℕ → ℕ → ℕ → (ℕ → IdtEntry) → ℕ → IdtEntry
default_loop zero i handler idt = idt
default_loop (suc n) i handler idt =
    default_loop n (i + 1) handler (idt_set_gate idt i handler 0x08 0x8E)

-- The addresses of the handlers in interrupt.S are parameters, as is the address of the table.
pub record Handlers : Type 0 where
  pub isr_default_handler : ℕ
  pub keyboard_isr_wrapper : ℕ
  pub mouse_isr_wrapper : ℕ

unfoldable pub idt_install : Handlers → ℕ → (ℕ → IdtEntry) → (ℕ → IdtEntry) × IdtPtr
idt_install h address idt =
    let idt1 = default_loop 256 0 h.isr_default_handler idt in
    let idt2 = idt_set_gate idt1 33 h.keyboard_isr_wrapper 0x08 0x8E in
    let idt3 = idt_set_gate idt2 44 h.mouse_isr_wrapper 0x08 0x8E in
    (idt3, record { limit = 8 * 256 - 1; base = address })

-- The address that a gate leads to.
abbrev pub gate_target : IdtEntry → ℕ
gate_target e = e.base_low + 2 ^ 16 * e.base_high

-- A 32-bit address, a selector and the flags are read back from the gate as they were given.
pub idt_gate_fields :
    (base sel flags : ℕ)
    → base < 2 ^ 32
    → sel < 2 ^ 16
    → flags < 256
    → let e = idt_gate base sel flags in
      (gate_target e ≡ base) × (e.sel ≡ sel) × (e.flags ≡ flags) × (e.always0 ≡ 0)
unfolding idt_gate
idt_gate_fields base sel flags hb hs hf =
    omega (arith, bit_and_mask 16 base, bit_and_mask 16 (base / 2 ^ 16))

default_loop_outside :
    (n i h : ℕ) (idt : ℕ → IdtEntry) (v : ℕ)
    → i + n ≤ 256
    → v < i
    → default_loop n i h idt v ≡ idt v
unfolding default_loop idt_set_gate
default_loop_outside zero i h idt v fits lt = refl
default_loop_outside (suc n) i h idt v fits lt =
    default_loop_outside n (i + 1) h (idt_set_gate idt i h 0x08 0x8E) v (omega arith) (omega arith)
    ∙ ground arith

default_loop_inside :
    (n i h : ℕ) (idt : ℕ → IdtEntry) (v : ℕ)
    → i + n ≤ 256
    → i ≤ v
    → v < i + n
    → default_loop n i h idt v ≡ idt_gate h 0x08 0x8E
unfolding default_loop idt_set_gate
default_loop_inside zero i h idt v fits lo hi = absurd (omega arith)
default_loop_inside (suc n) i h idt v fits lo hi = elim (ℕ_discrete v i) [
  | yes here ↦
      default_loop_outside n (i + 1) h (idt_set_gate idt i h 0x08 0x8E) v (omega arith)
        (omega arith)
      ∙ ground arith
  | no later ↦
      default_loop_inside n (i + 1) h (idt_set_gate idt i h 0x08 0x8E) v (omega arith) (omega arith)
        (omega arith)
]

-- After `idt_install` every one of the 256 vectors has a present ring-0 interrupt gate into the
-- kernel's code segment: 33 leads to the keyboard's handler, 44 to the mouse's, and every other
-- vector to the default handler.
pub idt_install-targets :
    (h : Handlers) (address : ℕ) (idt : ℕ → IdtEntry) (v : ℕ)
    → v < 256
    → (idt_install h address idt).0 v
      ≡ idt_gate
          (if v == 44
            then h.mouse_isr_wrapper
            else (if v == 33 then h.keyboard_isr_wrapper else h.isr_default_handler))
          0x08
          0x8E
unfolding idt_install idt_set_gate
idt_install-targets h address idt v lt = ground (
  arith,
  default_loop_inside 256 0 h.isr_default_handler idt v (omega arith) (omega arith) (omega arith),
)

-- `pic_remap`: the port writes.
unfoldable pub pic_remap : List Out
pic_remap =
    (0x20, 0x11)
    ∷ (0xA0, 0x11)
    ∷ (0x21, 0x20)
    ∷ (0xA1, 0x28)
    ∷ (0x21, 0x04)
    ∷ (0xA1, 0x02)
    ∷ (0x21, 0x01)
    ∷ (0xA1, 0x01)
    ∷ (0x21, 0x00)
    ∷ (0xA1, 0x00)
    ∷ []
