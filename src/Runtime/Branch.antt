-- ===== src/Runtime/Branch.antt =====
-- The branches of src/runtime/bytecode.c: when they are taken, and where they lead.
use openyanase_kernel.Base.{
  ℕ, ◌+◌, ◌-◌, ◌*◌, ◌^◌, ◌<◌, ◌≡◌, refl, ap, ap₂, ◌∙◌, Bool, true, false, not, ◌||◌, [], ◌∷◌,
  lt→ltb, ltb, some, arith, add32, sub32, u16, bit_or, if◌then◌else◌, ◌==◌,
}
use openyanase_kernel.Base.Bits.{bit_or_fields}
use openyanase_kernel.Base.Int.{ℤ, pos, negsuc, ◌+ℤ◌, ltb_ℤ}
use openyanase_kernel.Runtime.Word.{signed, less, sign16}
use openyanase_kernel.Runtime.Machine.{Vm, Program, pop, skip}
use openyanase_kernel.Runtime.Bytecode.{execute, step, jump, jump_if, jump_if_icmp}
use openyanase_kernel.Runtime.Steps.{step-execute}
use openyanase_kernel.Runtime.Compile.{Holds}

pub data Cond : Type 0 where
  equal differs below at_least above at_most : Cond

-- What a condition means, on integers.
abbrev pub meets : Cond → ℤ → ℤ → Bool
meets equal x y = not (ltb_ℤ x y || ltb_ℤ y x)
meets differs x y = ltb_ℤ x y || ltb_ℤ y x
meets below x y = ltb_ℤ x y
meets at_least x y = not (ltb_ℤ x y)
meets above x y = ltb_ℤ y x
meets at_most x y = not (ltb_ℤ y x)

-- The opcodes that compare with zero, and those that compare two numbers.
abbrev pub if_zero : Cond → ℕ
if_zero equal = 0x99
if_zero differs = 0x9A
if_zero below = 0x9B
if_zero at_least = 0x9C
if_zero above = 0x9D
if_zero at_most = 0x9E

abbrev pub if_icmp : Cond → ℕ
if_icmp equal = 0x9F
if_icmp differs = 0xA0
if_icmp below = 0xA1
if_icmp at_least = 0xA2
if_icmp above = 0xA3
if_icmp at_most = 0xA4

-- The offset in two bytes, the high one first, with its sign.
abbrev pub offset : ℕ → ℕ → ℤ
offset high low =
    if ltb high 128 then pos (high * 256 + low) else negsuc (65535 - (high * 256 + low))

-- The tests of the interpreter, on bit patterns.
abbrev pub test : Cond → ℕ → ℕ → Bool
test equal a b = a == b
test differs a b = not (a == b)
test below a b = less a b
test at_least a b = not (less a b)
test above a b = less b a
test at_most a b = not (less b a)

test-meets :
    (c : Cond) (a b : ℕ) → a < 2 ^ 32 → b < 2 ^ 32 → test c a b ≡ meets c (signed a) (signed b)
test-meets equal a b ha hb = ground arith
test-meets differs a b ha hb = ground arith
test-meets below a b ha hb = ground arith
test-meets at_least a b ha hb = ground arith
test-meets above a b ha hb = ground arith
test-meets at_most a b ha hb = ground arith

-- The address that a jump goes to.
target :
    (a d high low : ℕ)
    → high < 256
    → low < 256
    → a + 3 < 2 ^ 32
    → d < 2 ^ 32
    → pos a +ℤ offset high low ≡ pos d
    → add32 (add32 (add32 a 1) 2) (sub32 (sign16 (u16 (high * 256 + low))) 3) ≡ d
target a d high low hh hl small hd e = ground arith

jump-lem :
    (p : Program) (s : Vm) (high low d : ℕ)
    → p.code (s.pc + 1) ≡ high
    → p.code (s.pc + 1 + 1) ≡ low
    → high < 256
    → low < 256
    → s.pc + 3 < 2 ^ 32
    → d < 2 ^ 32
    → pos s.pc +ℤ offset high low ≡ pos d
    → jump p (add32 s.pc 1) (skip 1 s) ≡ record s { pc = d }
unfolding jump
jump-lem p s high low d hi lo hh hl small hd e =
    ap (λ k. record s { pc = k })
      (ap (λ o. add32 (add32 (add32 s.pc 1) 2) (sub32 (sign16 (u16 o)) 3)) word
        ∙ target s.pc d high low hh hl small hd e)
  where
    word :
        bit_or (p.code (add32 s.pc 1) * 2 ^ 8) (p.code (add32 (add32 s.pc 1) 1)) ≡ high * 256 + low
    word =
        ap₂ (λ x y. bit_or (x * 2 ^ 8) y)
          (ap p.code {x = add32 s.pc 1} {y = s.pc + 1} (omega arith) ∙ hi)
          (ap p.code {x = add32 (add32 s.pc 1) 1} {y = s.pc + 1 + 1} (omega arith) ∙ lo)
        ∙ bit_or_fields 8 high low hl

-- A branch instruction with its offset at an address of the code, which leads to the address `d`.
pub record LeadsTo (p : Program) (a op d : ℕ) : Type 0 where
  pub high : ℕ
  pub low : ℕ
  pub bytes : Holds p.code a (op ∷ high ∷ low ∷ [])
  pub high_byte : high < 256
  pub low_byte : low < 256
  pub inside : a + 3 < 2 ^ 32
  pub fits : d < 2 ^ 32
  pub leads : pos a +ℤ offset high low ≡ pos d

-- `goto` leads to the address of the instruction plus the signed offset.
pub step-goto :
    (p : Program) (s : Vm) (d : ℕ) → LeadsTo p s.pc 0xA7 d → step p s ≡ some (record s { pc = d })
unfolding execute
step-goto p s d l =
    step-execute p s 0xA7 l.bytes.0
    ∙ ap some (
        jump-lem p s l.high l.low d l.bytes.1.0 l.bytes.1.1.0 l.high_byte l.low_byte l.inside l.fits
          l.leads)

zero_branch :
    (p : Program) (c : Cond) (pc : ℕ) (s : Vm)
    → execute p (if_zero c) pc s ≡ jump_if p pc (λ a. test c a 0) s
unfolding execute
zero_branch p equal pc s = refl
zero_branch p differs pc s = refl
zero_branch p below pc s = refl
zero_branch p at_least pc s = refl
zero_branch p above pc s = refl
zero_branch p at_most pc s = refl

icmp_branch :
    (p : Program) (c : Cond) (pc : ℕ) (s : Vm)
    → execute p (if_icmp c) pc s ≡ jump_if_icmp p pc (test c) s
unfolding execute
icmp_branch p equal pc s = refl
icmp_branch p differs pc s = refl
icmp_branch p below pc s = refl
icmp_branch p at_least pc s = refl
icmp_branch p above pc s = refl
icmp_branch p at_most pc s = refl

-- Where a branch goes on: at its target, or behind its three bytes.
choose :
    (p : Program) (s : Vm) (t : Bool) (n op d : ℕ)
    → LeadsTo p s.pc op d
    → (if t
        then jump p (add32 s.pc 1) (record (skip 1 s) { depth = n })
        else skip 2 (record (skip 1 s) { depth = n }))
      ≡ record s { depth = n; pc = if t then d else s.pc + 3 }
choose p s true n op d l =
    jump-lem p (record s { depth = n }) l.high l.low d l.bytes.1.0 l.bytes.1.1.0 l.high_byte
      l.low_byte l.inside l.fits l.leads
choose p s false n op d l =
    ap (λ k. record s { depth = n; pc = k }) {x = add32 (add32 s.pc 1) 2} {y = s.pc + 3}
      (omega (arith, l.inside))

-- A branch that compares with zero takes the number on top off the stack, and is taken exactly
-- when the number meets the condition as a signed integer; it leads to the address of the
-- instruction plus the signed offset, else the instruction behind it is next.
pub step-if :
    (p : Program) (s : Vm) (c : Cond) (d n : ℕ)
    → LeadsTo p s.pc (if_zero c) d
    → s.depth ≡ n + 1
    → s.stack n < 2 ^ 32
    → step p s
      ≡ some (record s {
        depth = n;
        pc = if meets c (signed (s.stack n)) (pos 0) then d else s.pc + 3;
      })
unfolding jump_if pop
step-if p s c d n l h word =
    step-execute p s (if_zero c) l.bytes.0
    ∙ zero_branch p c (add32 s.pc 1) (skip 1 s)
    ∙ rw (lt→ltb 0 s.depth (omega arith), top, test-meets c (s.stack n) 0 word (omega arith))
        (ap some (choose p s (meets c (signed (s.stack n)) (pos 0)) n (if_zero c) d l))
  where
    top : s.depth - 1 ≡ n
    top = omega arith

-- A branch that compares two numbers takes both off the stack, and is taken exactly when they
-- meet the condition as signed integers, the one that was pushed first on the left.
pub step-if_icmp :
    (p : Program) (s : Vm) (c : Cond) (d n : ℕ)
    → LeadsTo p s.pc (if_icmp c) d
    → s.depth ≡ n + 2
    → s.stack n < 2 ^ 32
    → s.stack (n + 1) < 2 ^ 32
    → step p s
      ≡ some (record s {
        depth = n;
        pc = if meets c (signed (s.stack n)) (signed (s.stack (n + 1))) then d else s.pc + 3;
      })
unfolding jump_if_icmp pop
step-if_icmp p s c d n l h left right =
    step-execute p s (if_icmp c) l.bytes.0
    ∙ icmp_branch p c (add32 s.pc 1) (skip 1 s)
    ∙ rw
        (
          lt→ltb 0 s.depth (omega arith),
          lt→ltb 0 (s.depth - 1) (omega arith),
          lower,
          upper,
          test-meets c (s.stack n) (s.stack (n + 1)) left right,
        )
        (ap some
          (choose p s (meets c (signed (s.stack n)) (signed (s.stack (n + 1)))) n (if_icmp c) d l))
  where
    lower : s.depth - 1 - 1 ≡ n
    lower = omega arith

    upper : s.depth - 1 ≡ n + 1
    upper = omega arith
