-- ===== src/Runtime/Compile.antt =====
-- The interpreter of src/runtime/bytecode.c runs the code of a compiler right: expressions and
-- assignments.
pub mod Single
pub mod Values
pub mod Assign
use openyanase_kernel.Base.{
  ℕ, zero, suc, ◌+◌, ◌-◌, ◌*◌, ◌%◌, ◌^◌, ◌<◌, ◌≤◌, ◌≡◌, refl, sym, ap, ap₂, ◌∙◌, subst, List, [],
  ◌∷◌, ◌++◌, length, length-append, ltb, lt→ltb, some, update, arith, add32, sub32, bit_and, bit_or,
  if◌then◌else◌, ◌==◌, false,
}
use Prim.Native.Nat.{bit_xor, max}
use openyanase_kernel.Runtime.Word.{mul32, negate, sign8}
use openyanase_kernel.Runtime.Machine.{Vm, Program, Call, push, pop, load, store, skip, ◌>>=◌}
use openyanase_kernel.Runtime.Bytecode.{execute, step, is_return, binary, store_top}
use openyanase_kernel.Runtime.Steps.{
  Steps, done, round, Steps-append, step-execute, push-lem, pop-lem, load-lem, binary-lem,
}

pub data Op : Type 0 where
  add sub mul or and xor : Op

-- Expressions over the local variables, with signed bytes as constants.
pub data Expr : Type 0 where
  constant var : ℕ → Expr
  minus : Expr → Expr
  op : Op → Expr → Expr → Expr

unfoldable pub apply : Op → ℕ → ℕ → ℕ
apply add a b = add32 a b
apply sub a b = sub32 a b
apply mul a b = mul32 a b
apply or a b = bit_or a b
apply and a b = bit_and a b
apply xor a b = bit_xor a b

-- What an expression means.
unfoldable pub eval : (ℕ → ℕ) → Expr → ℕ
unfolding apply
eval l (constant b) = sign8 b
eval l (var i) = l i
eval l (minus e) = negate (eval l e)
eval l (op o e f) = apply o (eval l e) (eval l f)

abbrev pub opcode : Op → ℕ
opcode add = 0x60
opcode sub = 0x64
opcode mul = 0x68
opcode or = 0x80
opcode and = 0x7E
opcode xor = 0x82

-- The code that a compiler makes of it.
abbrev pub compile : Expr → List ℕ
compile (constant b) = 0x10 ∷ b ∷ []
compile (var i) = 0x15 ∷ i ∷ []
compile (minus e) = compile e ++ 0x74 ∷ []
compile (op o e f) = compile e ++ (compile f ++ opcode o ∷ [])

-- How many instructions that are, and how many places of the stack they take.
abbrev pub count : Expr → ℕ
count (constant b) = 1
count (var i) = 1
count (minus e) = count e + 1
count (op o e f) = count e + (count f + 1)

abbrev pub height : Expr → ℕ
height (constant b) = 1
height (var i) = 1
height (minus e) = height e
height (op o e f) = max (height e) (height f + 1)

-- The variables are among the locals.
abbrev pub InLocals : Expr → Type 0
InLocals (constant b) = Unit
InLocals (var i) = i < 64
InLocals (minus e) = InLocals e
InLocals (op o e f) = InLocals e × InLocals f

-- The code has the bytes at an address.
abbrev pub Holds : (ℕ → ℕ) → ℕ → List ℕ → Type 0
Holds code a [] = Unit
Holds code a (b ∷ bs) = (code a ≡ b) × Holds code (a + 1) bs

pub Holds-append :
    (code : ℕ → ℕ) (a : ℕ) (xs ys : List ℕ)
    → Holds code a (xs ++ ys)
    → Holds code a xs × Holds code (a + length xs) ys
Holds-append code a [] ys h = (tt, subst (λ k. Holds code k ys) {x = a} {y = a + 0} (omega arith) h)
Holds-append code a (x ∷ xs) ys h =
    let (left, right) = Holds-append code (a + 1) xs ys h.1 in
    (
      (h.0, left),
      subst (λ k. Holds code k ys) {x = a + 1 + length xs} {y = a + suc (length xs)} (omega arith)
          right,
    )
