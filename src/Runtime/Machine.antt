-- ===== src/Runtime/Machine.antt =====
-- src/runtime/bytecode.h and the state of src/runtime/bytecode.c. An access outside an array is
-- undefined, and so is every step that makes one.
use openyanase_kernel.Base.{
  ℕ, ◌+◌, ◌-◌, List, ◌∷◌, Option, none, some, ltb, if◌then◌else◌, update, add32,
}
use openyanase_kernel.Str.{CString}

abbrev pub stack_size : ℕ
stack_size = 256

abbrev pub locals_size : ℕ
locals_size = 64

-- What the native methods and the interpreter call in the rest of the kernel.
pub data Call : Type 0 where
  draw_number : ℕ → Call
  put_pixel : ℕ → ℕ → ℕ → Call
  clear : ℕ → Call
  flush unresolved : Call

-- `depth` is `sp + 1`.
pub record Vm : Type 0 where
  pub stack : ℕ → ℕ
  pub depth : ℕ
  pub locals : ℕ → ℕ
  pub pc : ℕ
  pub calls : List Call

-- `cp_entry_t`: the members of the union, by tag.
pub data CpEntry : Type 0 where
  utf8 : CString → ℕ → CpEntry
  integer class_ref string_ref : ℕ → CpEntry
  method_ref name_and_type : ℕ → ℕ → CpEntry
  other : ℕ → CpEntry

-- The arguments of `execute_bytecode`, and the variables of the mouse's driver that it reads.
pub record Program : Type 0 where
  pub code : ℕ → ℕ
  pub length : ℕ
  pub cp : ℕ → CpEntry
  pub cp_count : ℕ
  pub mouse_x : ℕ
  pub mouse_y : ℕ

infixl 5 ◌>>=◌ ◌>>◌
abbrev pub ◌>>=◌ {ℓ κ} : {A : Type ℓ} {B : Type κ} → Option A → (A → Option B) → Option B
some a >>= f = f a
none >>= f = none

abbrev pub ◌>>◌ {ℓ} : {B : Type ℓ} → Option (Unit {0}) → Option B → Option B
m >> k = m >>= λ _. k

unfoldable pub push : ℕ → Vm → Option Vm
push v s =
    if ltb s.depth stack_size
    then some (record s { stack = update s.stack s.depth v; depth = s.depth + 1 })
    else none

unfoldable pub pop : Vm → Option (ℕ × Vm)
pop s =
    if ltb 0 s.depth then some (s.stack (s.depth - 1), record s { depth = s.depth - 1 }) else none

unfoldable pub load : ℕ → Vm → Option ℕ
load i s = if ltb i locals_size then some (s.locals i) else none

unfoldable pub store : ℕ → ℕ → Vm → Option Vm
store i v s = if ltb i locals_size then some (record s { locals = update s.locals i v }) else none

-- `pc += n`
abbrev pub skip : ℕ → Vm → Vm
skip n s = record s { pc = add32 s.pc n }

abbrev pub call : Call → Vm → Vm
call c s = record s { calls = c ∷ s.calls }
