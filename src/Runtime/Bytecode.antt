-- ===== src/Runtime/Bytecode.antt =====
-- The interpreter loop of src/runtime/bytecode.c.
use openyanase_kernel.Base.{
  ℕ, zero, suc, ◌*◌, ◌^◌, Bool, not, ◌||◌, Option, none, some, ltb, leb, ◌==◌, if◌then◌else◌,
  bit_and, bit_or, add32, sub32, u16,
}
use Prim.Native.Nat.{bit_xor}
use openyanase_kernel.Runtime.Word.{
  sign8, sign16, negate, less, mul32, quotient, remainder, shift_left, shift_right,
}
use openyanase_kernel.Runtime.Machine.{
  Vm, CpEntry, Program, utf8, integer, class_ref, method_ref, name_and_type, push, pop, load, store,
  skip, ◌>>=◌,
}
use openyanase_kernel.Runtime.Native.{handle_native_call}

-- `U16` and `I16`
abbrev pub u16_at : (ℕ → ℕ) → ℕ → ℕ
u16_at code pc = u16 (bit_or (code pc * 2 ^ 8) (code (add32 pc 1)))

abbrev pub i16 : (ℕ → ℕ) → ℕ → ℕ
i16 code pc = sign16 (u16_at code pc)

-- `ldc`: only an integer constant is loaded.
unfoldable pub constant_at : Program → ℕ → ℕ
constant_at p index =
    if ltb index p.cp_count then elim (p.cp index) [ integer v ↦ v | _ ↦ 0 ] else 0

unfoldable pub store_top : ℕ → Vm → Option Vm
store_top i s = do (v, s1) ← pop s; store i v s1

unfoldable pub binary : (ℕ → ℕ → Option ℕ) → Vm → Option Vm
binary f s = do (b, s1) ← pop s; (a, s2) ← pop s1; v ← f a b; push v s2

-- `iinc`
unfoldable pub increment : Program → ℕ → Vm → Option Vm
increment p pc s = do
  v ← load (p.code pc) s
  store (p.code pc) (add32 v (sign8 (p.code (add32 pc 1)))) (skip 2 s)

-- `pc += 2; pc += off - 3`, with the offset at `pc`.
unfoldable pub jump : Program → ℕ → Vm → Vm
jump p pc s = skip (sub32 (i16 p.code pc) 3) (skip 2 s)

unfoldable pub jump_if : Program → ℕ → (ℕ → Bool) → Vm → Option Vm
unfolding jump
jump_if p pc test s = do (a, s1) ← pop s; some (if test a then jump p pc s1 else skip 2 s1)

unfoldable pub jump_if_icmp : Program → ℕ → (ℕ → ℕ → Bool) → Vm → Option Vm
unfolding jump
jump_if_icmp p pc test s = do
  (b, s1) ← pop s
  (a, s2) ← pop s1
  some (if test a b then jump p pc s2 else skip 2 s2)

-- `cp[i].utf8.bytes`, which is a pointer only if the entry is a string.
unfoldable pub utf8_bytes : CpEntry → Option (ℕ → ℕ)
utf8_bytes (utf8 bytes length) = some bytes
utf8_bytes _ = none

-- The call of a method by its reference, where the tags are as they should be.
unfoldable pub resolve : Program → CpEntry → Vm → Option Vm
resolve p (method_ref class_i nat_i) s = elim (p.cp class_i) [
  | class_ref index ↦ elim (p.cp nat_i) [
    | name_and_type name_i desc_i ↦ do
      class_name ← utf8_bytes (p.cp index)
      method_name ← utf8_bytes (p.cp name_i)
      descriptor ← utf8_bytes (p.cp desc_i)
      handle_native_call p class_name method_name descriptor s
    | _ ↦ some s
  ]
  | _ ↦ some s
]
resolve p _ s = some s

unfoldable pub invoke_static : Program → ℕ → Vm → Option Vm
invoke_static p pc s =
    let index = u16_at p.code pc in
    if leb p.cp_count index then some (skip 2 s) else resolve p (p.cp index) (skip 2 s)

-- The switch, but for the returns: `s1` is the state after the opcode has been read, and `pc` the
-- address behind the opcode.
unfoldable pub execute : Program → ℕ → ℕ → Vm → Option Vm
execute p op pc s1 =
    if op == 0x00
    then some s1
    else if op == 0x01
    then push 0 s1
    else if op == 0x02
    then push 0xFFFF_FFFF s1
    else if op == 0x03
    then push 0 s1
    else if op == 0x04
    then push 1 s1
    else if op == 0x05
    then push 2 s1
    else if op == 0x06
    then push 3 s1
    else if op == 0x07
    then push 4 s1
    else if op == 0x08
    then push 5 s1
    else if op == 0x10
    then push (sign8 (p.code pc)) (skip 1 s1)
    else if op == 0x11
    then (do s2 ← push (i16 p.code pc) s1; some (skip 2 s2))
    else if op == 0x12
    then push (constant_at p (p.code pc)) (skip 1 s1)
    else if op == 0x1A
    then push (s1.locals 0) s1
    else if op == 0x1B
    then push (s1.locals 1) s1
    else if op == 0x1C
    then push (s1.locals 2) s1
    else if op == 0x1D
    then push (s1.locals 3) s1
    else if op == 0x15
    then (do v ← load (p.code pc) s1; push v (skip 1 s1))
    else if op == 0x3B
    then store_top 0 s1
    else if op == 0x3C
    then store_top 1 s1
    else if op == 0x3D
    then store_top 2 s1
    else if op == 0x3E
    then store_top 3 s1
    else if op == 0x36
    then store_top (p.code pc) (skip 1 s1)
    else if op == 0x57
    then (do (v, s2) ← pop s1; some s2)
    else if op == 0x59
    then (do (v, s2) ← pop s1; push v s1)
    else if op == 0x60
    then binary (λ a b. some (add32 a b)) s1
    else if op == 0x64
    then binary (λ a b. some (sub32 a b)) s1
    else if op == 0x68
    then binary (λ a b. some (mul32 a b)) s1
    else if op == 0x6C
    then binary quotient s1
    else if op == 0x70
    then binary remainder s1
    else if op == 0x74
    then (do (v, s2) ← pop s1; push (negate v) s2)
    else if op == 0x78
    then binary shift_left s1
    else if op == 0x7A
    then binary shift_right s1
    else if op == 0x80
    then binary (λ a b. some (bit_or a b)) s1
    else if op == 0x7E
    then binary (λ a b. some (bit_and a b)) s1
    else if op == 0x82
    then binary (λ a b. some (bit_xor a b)) s1
    else if op == 0x84
    then increment p pc s1
    else if op == 0x99
    then jump_if p pc (λ a. a == 0) s1
    else if op == 0x9A
    then jump_if p pc (λ a. not (a == 0)) s1
    else if op == 0x9B
    then jump_if p pc (λ a. less a 0) s1
    else if op == 0x9C
    then jump_if p pc (λ a. not (less a 0)) s1
    else if op == 0x9D
    then jump_if p pc (λ a. less 0 a) s1
    else if op == 0x9E
    then jump_if p pc (λ a. not (less 0 a)) s1
    else if op == 0x9F
    then jump_if_icmp p pc (λ a b. a == b) s1
    else if op == 0xA0
    then jump_if_icmp p pc (λ a b. not (a == b)) s1
    else if op == 0xA1
    then jump_if_icmp p pc (λ a b. less a b) s1
    else if op == 0xA2
    then jump_if_icmp p pc (λ a b. not (less a b)) s1
    else if op == 0xA3
    then jump_if_icmp p pc (λ a b. less b a) s1
    else if op == 0xA4
    then jump_if_icmp p pc (λ a b. not (less b a)) s1
    else if op == 0xA7
    then some (jump p pc s1)
    else if op == 0xB8
    then invoke_static p pc s1
    else if op == 0xB6
    then some (skip 2 s1)
    else if op == 0xB7
    then some (skip 2 s1)
    else if op == 0xB2
    then push 0 (skip 2 s1)
    else if op == 0xB3
    then (do (v, s2) ← pop (skip 2 s1); some s2)
    else some s1

-- `running` is no result of the program: the fuel ran out. `undefined` is what C leaves undefined.
pub data Run : Type 0 where
  finished : Vm → Run
  undefined running : Run

unfoldable pub is_return : ℕ → Bool
is_return op = op == 0xAC || op == 0xB1

-- The opcode at `pc` is read, and the switch is done.
unfoldable pub step : Program → Vm → Option Vm
step p s = execute p (p.code s.pc) (add32 s.pc 1) (skip 1 s)

unfoldable pub run : ℕ → Program → Vm → Run
run zero p s = running
run (suc fuel) p s =
    let next : Run = elim (step p s) [ none ↦ undefined | some s' ↦ run fuel p s' ] in
    if ltb s.pc p.length
    then (if is_return (p.code s.pc) then finished (skip 1 s) else next)
    else finished s

unfoldable pub execute_bytecode : ℕ → Program → Vm → Run
unfolding run
execute_bytecode fuel p s = run fuel p (record s { pc = 0; depth = 0 })
