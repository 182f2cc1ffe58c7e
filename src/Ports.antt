-- ===== src/Ports.antt =====
-- src/io.h: the processor's port instructions. The device behind the ports is a parameter:
-- what it is in, what it answers to a read, and what a write does to it.
pub mod Wait
mod Tests
use openyanase_kernel.Base.{ℕ, zero, suc, Bool, true, false, if◌then◌else◌}

pub record Bus (D : Type 0) : Type 0 where
  pub inb : ℕ → D → ℕ × D
  pub inw : ℕ → D → ℕ × D
  pub outb : ℕ → ℕ → D → D
  pub outw : ℕ → ℕ → D → D

-- `while (timeout--) if (test(inb(port))) return 1; return 0;`
unfoldable pub poll : {D : Type 0} → Bus D → ℕ → (ℕ → Bool) → ℕ → D → Bool × D
poll bus port test zero d = (false, d)
poll bus port test (suc timeout) d =
    let (status, d1) = bus.inb port d in
    let rest = poll bus port test timeout d1 in if test status then (true, d1) else rest
