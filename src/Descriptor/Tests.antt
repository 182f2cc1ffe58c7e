-- ===== src/Descriptor/Tests.antt =====
-- The descriptor tables at concrete entries.
use openyanase_kernel.Base.{◌≡◌, arith}
use openyanase_kernel.Descriptor.Idt.{Handlers, idt_gate, idt_install, idt_install-targets}

abbrev handlers : Handlers
handlers = record {
  isr_default_handler = 1000;
  keyboard_isr_wrapper = 2000;
  mouse_isr_wrapper = 3000;
}

mouse_vector : (idt_install handlers 4096 (λ i. idt_gate 0 0 0)).0 44 ≡ idt_gate 3000 0x08 0x8E
mouse_vector = idt_install-targets handlers 4096 (λ i. idt_gate 0 0 0) 44 (omega arith)
