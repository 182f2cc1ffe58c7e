-- ===== src/Runtime/Verifier.antt =====
-- A verifier for the code that src/runtime/bytecode.c runs, which is no part of the kernel: it says
-- which code has a stack depth at each instruction.
pub mod Effects
pub mod Safe
use openyanase_kernel.Base.{
  ℕ, zero, suc, ◌+◌, ◌-◌, Bool, true, false, ◌&&◌, ◌||◌, List, [], ◌∷◌, Option, some, none, ltb,
  leb, ◌==◌, if◌then◌else◌, add32, sub32,
}
use openyanase_kernel.Runtime.Machine.{Program, stack_size, locals_size}
use openyanase_kernel.Runtime.Bytecode.{is_return, i16}

-- `straight k a b`: `k` bytes of operands, `a` numbers popped and then `b` pushed; `local` is the
-- same with the index of a local as the first operand; the last two have an offset as the operand,
-- of which `branch a` pops `a` numbers.
pub data Effect : Type 0 where
  straight local : ℕ → ℕ → ℕ → Effect
  branch : ℕ → Effect
  goto : Effect

-- The instructions that are defined on every stack that is deep enough.
abbrev pub effects : List (ℕ × Effect)
effects =
    (0x00, straight 0 0 0)
    ∷ (0x01, straight 0 0 1)
    ∷ (0x02, straight 0 0 1)
    ∷ (0x03, straight 0 0 1)
    ∷ (0x04, straight 0 0 1)
    ∷ (0x05, straight 0 0 1)
    ∷ (0x06, straight 0 0 1)
    ∷ (0x07, straight 0 0 1)
    ∷ (0x08, straight 0 0 1)
    ∷ (0x10, straight 1 0 1)
    ∷ (0x11, straight 2 0 1)
    ∷ (0x12, straight 1 0 1)
    ∷ (0x1A, straight 0 0 1)
    ∷ (0x1B, straight 0 0 1)
    ∷ (0x1C, straight 0 0 1)
    ∷ (0x1D, straight 0 0 1)
    ∷ (0x15, local 1 0 1)
    ∷ (0x3B, straight 0 1 0)
    ∷ (0x3C, straight 0 1 0)
    ∷ (0x3D, straight 0 1 0)
    ∷ (0x3E, straight 0 1 0)
    ∷ (0x36, local 1 1 0)
    ∷ (0x57, straight 0 1 0)
    ∷ (0x59, straight 0 1 2)
    ∷ (0x60, straight 0 2 1)
    ∷ (0x64, straight 0 2 1)
    ∷ (0x68, straight 0 2 1)
    ∷ (0x74, straight 0 1 1)
    ∷ (0x80, straight 0 2 1)
    ∷ (0x7E, straight 0 2 1)
    ∷ (0x82, straight 0 2 1)
    ∷ (0x84, local 2 0 0)
    ∷ (0x99, branch 1)
    ∷ (0x9A, branch 1)
    ∷ (0x9B, branch 1)
    ∷ (0x9C, branch 1)
    ∷ (0x9D, branch 1)
    ∷ (0x9E, branch 1)
    ∷ (0x9F, branch 2)
    ∷ (0xA0, branch 2)
    ∷ (0xA1, branch 2)
    ∷ (0xA2, branch 2)
    ∷ (0xA3, branch 2)
    ∷ (0xA4, branch 2)
    ∷ (0xA7, goto)
    ∷ (0xB6, straight 2 0 0)
    ∷ (0xB7, straight 2 0 0)
    ∷ (0xB2, straight 2 0 1)
    ∷ (0xB3, straight 2 1 0)
    ∷ []

unfoldable pub effect_of : List (ℕ × Effect) → ℕ → Option Effect
effect_of [] op = none
effect_of ((o, e) ∷ es) op = if op == o then some e else effect_of es op

-- The depths at the instructions, where they have one.
abbrev pub Depths : Type 0
Depths = ℕ → Option ℕ

-- Behind `k` bytes of operands.
abbrev pub after : ℕ → ℕ → ℕ
after zero pc = pc
after (suc k) pc = add32 pc (suc k)

-- Where the offset behind the opcode at `pc` leads.
abbrev pub target : Program → ℕ → ℕ
target p pc = add32 (add32 (add32 pc 1) 2) (sub32 (i16 p.code (add32 pc 1)) 3)

-- The code ends at `pc`, or has the depth `n` there.
unfoldable pub agrees : Program → Depths → ℕ → ℕ → Bool
agrees p depths pc n =
    if ltb pc p.length then elim (depths pc) [ none ↦ false | some m ↦ m == n ] else true

unfoldable pub check_effect : Program → Depths → ℕ → ℕ → Effect → Bool
unfolding agrees
check_effect p depths pc n (straight k a b) =
    leb a n && leb (n - a + b) stack_size && agrees p depths (after k (add32 pc 1)) (n - a + b)
check_effect p depths pc n (local k a b) =
    ltb (p.code (add32 pc 1)) locals_size
    && leb a n
    && leb (n - a + b) stack_size
    && agrees p depths (after k (add32 pc 1)) (n - a + b)
check_effect p depths pc n (branch a) =
    leb a n
    && agrees p depths (add32 (add32 pc 1) 2) (n - a)
    && agrees p depths (target p pc) (n - a)
check_effect p depths pc n goto = agrees p depths (target p pc) n

-- An instruction that is not in the table is refused.
unfoldable pub check_known : Program → Depths → ℕ → ℕ → Option Effect → Bool
unfolding check_effect
check_known p depths pc n none = false
check_known p depths pc n (some e) = check_effect p depths pc n e

-- The instruction at `pc` keeps to the depths, if it has one.
unfoldable pub check_depth : Program → Depths → ℕ → Option ℕ → Bool
unfolding check_known effect_of
check_depth p depths pc none = true
check_depth p depths pc (some n) =
    is_return (p.code pc) || check_known p depths pc n (effect_of effects (p.code pc))

unfoldable pub check_at : Program → Depths → ℕ → Bool
unfolding check_depth
check_at p depths pc = check_depth p depths pc (depths pc)

-- All instructions below `k` do.
unfoldable pub check_below : ℕ → Program → Depths → Bool
unfolding check_at
check_below zero p depths = true
check_below (suc k) p depths = check_at p depths k && check_below k p depths

unfoldable pub verify : Program → Depths → Bool
unfolding check_below agrees
verify p depths = check_below p.length p depths && agrees p depths 0 0
