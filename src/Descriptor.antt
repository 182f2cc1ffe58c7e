-- ===== src/Descriptor.antt =====
-- src/gdt.c and src/cpu/idt.c: the descriptor tables, and the remapping of the interrupt
-- controller in src/main.c.
pub mod Gdt
pub mod Idt
mod Tests
