-- ===== src/Runtime/Compile/Single.antt =====
-- The instructions of src/runtime/bytecode.c that the compiler uses, one by one.
use openyanase_kernel.Base.{
  ℕ, ◌+◌, ◌-◌, ◌^◌, ◌<◌, ◌≤◌, ◌≡◌, refl, ap, ap₂, ◌∙◌, [], ◌∷◌, some, update, arith, add32, false,
}
use openyanase_kernel.Runtime.Word.{negate, sign8}
use openyanase_kernel.Runtime.Machine.{Vm, Program, push, load, skip, ◌>>=◌}
use openyanase_kernel.Runtime.Bytecode.{execute, step, is_return, binary}
use openyanase_kernel.Runtime.Steps.{step-execute, push-lem, pop-lem, load-lem, binary-lem}
use openyanase_kernel.Runtime.Compile.{Op, add, sub, mul, or, and, xor, apply, opcode, Holds}

pub behind : (a n : ℕ) → a + n < 2 ^ 32 → add32 a n ≡ a + n
behind a n h = omega arith

-- The instructions, one by one.
pub step-bipush :
    (p : Program) (s : Vm) (b : ℕ)
    → Holds p.code s.pc (0x10 ∷ b ∷ [])
    → s.depth < 256
    → s.pc + 2 < 2 ^ 32
    → step p s
      ≡ some (record s {
        stack = update s.stack s.depth (sign8 b);
        depth = s.depth + 1;
        pc = s.pc + 2;
      })
unfolding execute
step-bipush p s b h room fits =
    step-execute p s 0x10 h.0
    ∙ push-lem (sign8 (p.code (add32 s.pc 1))) (skip 1 (skip 1 s)) room
    ∙ ap₂
        (λ v k.
          some (record s { stack = update s.stack s.depth (sign8 v); depth = s.depth + 1; pc = k }))
        (ap p.code (behind s.pc 1 (omega arith)) ∙ h.1.0) (omega arith)

pub step-iload :
    (p : Program) (s : Vm) (i : ℕ)
    → Holds p.code s.pc (0x15 ∷ i ∷ [])
    → i < 64
    → s.depth < 256
    → s.pc + 2 < 2 ^ 32
    → step p s
      ≡ some (record s {
        stack = update s.stack s.depth (s.locals i);
        depth = s.depth + 1;
        pc = s.pc + 2;
      })
unfolding execute
step-iload p s i h lt room fits =
    step-execute p s 0x15 h.0
    ∙ ap (λ i. load i (skip 1 s) >>= λ v. push v (skip 1 (skip 1 s)))
        (ap p.code (behind s.pc 1 (omega arith)) ∙ h.1.0)
    ∙ loaded
    ∙ ap
        (λ k.
          some
            (record s { stack = update s.stack s.depth (s.locals i); depth = s.depth + 1; pc = k }))
        (omega arith)
  where
    loaded :
        (load i (skip 1 s) >>= λ v. push v (skip 1 (skip 1 s)))
        ≡ some (record (skip 1 (skip 1 s)) {
          stack = update s.stack s.depth (s.locals i);
          depth = s.depth + 1;
        })
    loaded = rw (load-lem i (skip 1 s) lt) (push-lem (s.locals i) (skip 1 (skip 1 s)) room)

pub step-ineg :
    (p : Program) (s : Vm) (d : ℕ)
    → Holds p.code s.pc (0x74 ∷ [])
    → s.depth ≡ d + 1
    → d < 256
    → s.pc + 1 < 2 ^ 32
    → step p s
      ≡ some
          (record s { stack = update s.stack d (negate (s.stack d)); depth = d + 1; pc = s.pc + 1 })
unfolding execute
step-ineg p s d h top room fits =
    step-execute p s 0x74 h.0
    ∙ rw (pop-lem (skip 1 s) (omega arith), under)
        (push-lem (negate (s.stack d)) (record (skip 1 s) { depth = d }) room)
    ∙ ap
        (λ k.
          some (record s { stack = update s.stack d (negate (s.stack d)); depth = d + 1; pc = k }))
        (behind s.pc 1 fits)
  where
    under : s.depth - 1 ≡ d
    under = omega arith

operator :
    (p : Program) (o : Op) (pc : ℕ) (s : Vm)
    → execute p (opcode o) pc s ≡ binary (λ a b. some (apply o a b)) s
unfolding execute apply
operator p add pc s = refl
operator p sub pc s = refl
operator p mul pc s = refl
operator p or pc s = refl
operator p and pc s = refl
operator p xor pc s = refl

pub not_return : (o : Op) → is_return (opcode o) ≡ false
unfolding is_return
not_return add = refl
not_return sub = refl
not_return mul = refl
not_return or = refl
not_return and = refl
not_return xor = refl

pub step-operator :
    (p : Program) (s : Vm) (o : Op) (d : ℕ)
    → Holds p.code s.pc (opcode o ∷ [])
    → s.depth ≡ d + 2
    → d + 2 ≤ 256
    → s.pc + 1 < 2 ^ 32
    → step p s
      ≡ some (record s {
        stack = update s.stack d (apply o (s.stack d) (s.stack (d + 1)));
        depth = d + 1;
        pc = s.pc + 1;
      })
step-operator p s o d h top room fits =
    step-execute p s (opcode o) h.0
    ∙ operator p o (add32 s.pc 1) (skip 1 s)
    ∙ binary-lem (λ a b. some (apply o a b)) (skip 1 s) d _ top room refl
    ∙ ap
        (λ k. some (record s {
          stack = update s.stack d (apply o (s.stack d) (s.stack (d + 1)));
          depth = d + 1;
          pc = k;
        }))
        (behind s.pc 1 fits)
