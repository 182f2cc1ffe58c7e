-- ===== src/Runtime/Verifier/Effects.antt =====
-- The switch of src/runtime/bytecode.c has the effects that the verifier counts with.
use openyanase_kernel.Base.{
  ℕ, ◌+◌, ◌-◌, ◌≤◌, ◌<◌, ◌≡◌, refl, subst, ◌⊎◌, inl, inr, Bool, not, List, [], ◌∷◌, Option, some,
  All, add32, sub32, arith, lt→ltb, Bool-cases, ◌==◌, ==_iff, bit_or, bit_and, bit_xor,
}
use openyanase_kernel.Runtime.Machine.{Vm, Program, push, pop, load, store, skip, ◌>>=◌}
use openyanase_kernel.Runtime.Bytecode.{
  execute, store_top, binary, increment, jump, jump_if, jump_if_icmp, i16, constant_at,
}
use openyanase_kernel.Runtime.Word.{negate, less, mul32, sign8}
use openyanase_kernel.Runtime.Verifier.{
  Effect, straight, local, branch, goto, after, effects, effect_of,
}

-- The result is defined, with this address and this depth.
abbrev pub Goes : Option Vm → ℕ → ℕ → Type 0
Goes m pc n = (s : Vm) × (m ≡ some s) × (s.pc ≡ pc) × (s.depth ≡ n)

push-Goes : (v : ℕ) (s : Vm) (n : ℕ) → s.depth ≡ 0 + n → n + 1 ≤ 256 → Goes (push v s) s.pc (n + 1)
unfolding push
push-Goes v s n e lt = rw (lt→ltb s.depth 256 (omega arith)) (_, refl, refl, omega arith)

sipush-Goes :
    (v : ℕ) (s : Vm) (n : ℕ)
    → s.depth ≡ 0 + n
    → n + 1 ≤ 256
    → Goes (do s2 ← push v s; some (skip 2 s2)) (add32 s.pc 2) (n + 1)
unfolding push
sipush-Goes v s n e lt = rw (lt→ltb s.depth 256 (omega arith)) (_, refl, refl, omega arith)

pop-Goes : (s : Vm) (n : ℕ) → s.depth ≡ 1 + n → Goes (do (v, s1) ← pop s; some s1) s.pc (n + 0)
unfolding pop
pop-Goes s n e = rw (lt→ltb 0 s.depth (omega arith)) (_, refl, refl, omega arith)

store_top-Goes :
    (i : ℕ) (s : Vm) (n : ℕ) → i < 64 → s.depth ≡ 1 + n → Goes (store_top i s) s.pc (n + 0)
unfolding store_top pop store
store_top-Goes i s n lt e =
    rw (lt→ltb 0 s.depth (omega arith), lt→ltb i 64 lt) (_, refl, refl, omega arith)

dup-Goes :
    (s : Vm) (n : ℕ)
    → s.depth ≡ 1 + n
    → n + 2 ≤ 256
    → Goes (do (v, s2) ← pop s; push v s) s.pc (n + 2)
unfolding pop push
dup-Goes s n e le =
    rw (lt→ltb 0 s.depth (omega arith), lt→ltb s.depth 256 (omega arith))
      (_, refl, refl, omega arith)

negate-Goes :
    (f : ℕ → ℕ) (s : Vm) (n : ℕ)
    → s.depth ≡ 1 + n
    → n + 1 ≤ 256
    → Goes (do (v, s2) ← pop s; push (f v) s2) s.pc (n + 1)
unfolding pop push
negate-Goes f s n e le =
    rw (lt→ltb 0 s.depth (omega arith), lt→ltb (s.depth - 1) 256 (omega arith))
      (_, refl, refl, omega arith)

pass-Goes : (s : Vm) (n : ℕ) → s.depth ≡ 0 + n → Goes (some s) s.pc (n + 0)
pass-Goes s n e = (s, refl, refl, omega arith)

binary-Goes :
    (f : ℕ → ℕ → ℕ) (s : Vm) (n : ℕ)
    → s.depth ≡ 2 + n
    → n + 1 ≤ 256
    → Goes (binary (λ a b. some (f a b)) s) s.pc (n + 1)
unfolding binary pop push
binary-Goes f s n e le =
    rw
      (
        lt→ltb 0 s.depth (omega arith),
        lt→ltb 0 (s.depth - 1) (omega arith),
        lt→ltb (s.depth - 1 - 1) 256 (omega arith),
      )
      (_, refl, refl, omega arith)

load-Goes :
    (i : ℕ) (s : Vm) (n : ℕ)
    → i < 64
    → s.depth ≡ 0 + n
    → n + 1 ≤ 256
    → Goes (do v ← load i s; push v (skip 1 s)) (add32 s.pc 1) (n + 1)
unfolding load push
load-Goes i s n lt e le =
    rw (lt→ltb i 64 lt, lt→ltb s.depth 256 (omega arith)) (_, refl, refl, omega arith)

increment-Goes :
    (p : Program) (pc : ℕ) (s : Vm) (n : ℕ)
    → p.code pc < 64
    → s.depth ≡ 0 + n
    → Goes (increment p pc s) (add32 s.pc 2) (n + 0)
unfolding increment load store
increment-Goes p pc s n lt e = rw (lt→ltb (p.code pc) 64 lt) (_, refl, refl, omega arith)

-- A branch falls through or jumps.
abbrev Branches : Option Vm → ℕ → ℕ → ℕ → Type 0
Branches m next to n = Goes m next n ⊎ Goes m to n

jump_if-Branches :
    (p : Program) (pc : ℕ) (test : ℕ → Bool) (s : Vm) (n : ℕ)
    → s.depth ≡ 1 + n
    → Branches
        (jump_if p pc test s)
        (add32 s.pc 2)
        (add32 (add32 s.pc 2) (sub32 (i16 p.code pc) 3))
        n
unfolding jump_if pop
jump_if-Branches p pc test s n e = elim (Bool-cases (test (s.stack (s.depth - 1)))) [
  | inl t ↦ inr rw (lt→ltb 0 s.depth (omega arith), t) (_, refl, refl, omega arith)
  | inr f ↦ inl rw (lt→ltb 0 s.depth (omega arith), f) (_, refl, refl, omega arith)
]

jump_if_icmp-Branches :
    (p : Program) (pc : ℕ) (test : ℕ → ℕ → Bool) (s : Vm) (n : ℕ)
    → s.depth ≡ 2 + n
    → Branches
        (jump_if_icmp p pc test s)
        (add32 s.pc 2)
        (add32 (add32 s.pc 2) (sub32 (i16 p.code pc) 3))
        n
unfolding jump_if_icmp pop
jump_if_icmp-Branches p pc test s n e =
    elim (Bool-cases (test (s.stack (s.depth - 1 - 1)) (s.stack (s.depth - 1)))) [
      | inl t ↦
          inr rw (lt→ltb 0 s.depth (omega arith), lt→ltb 0 (s.depth - 1) (omega arith), t)
            (_, refl, refl, omega arith)
      | inr f ↦
          inl rw (lt→ltb 0 s.depth (omega arith), lt→ltb 0 (s.depth - 1) (omega arith), f)
            (_, refl, refl, omega arith)
    ]

-- What the switch does for an opcode, where `s` is the state behind the opcode.
abbrev pub Sound : Program → ℕ → Effect → Type 0
Sound p op (straight k a b) =
    (s : Vm) (n : ℕ)
    → s.depth ≡ a + n
    → n + b ≤ 256
    → Goes (execute p op s.pc s) (after k s.pc) (n + b)
Sound p op (local k a b) =
    (s : Vm) (n : ℕ)
    → p.code s.pc < 64
    → s.depth ≡ a + n
    → n + b ≤ 256
    → Goes (execute p op s.pc s) (after k s.pc) (n + b)
Sound p op (branch a) =
    (s : Vm) (n : ℕ)
    → s.depth ≡ a + n
    → Branches (execute p op s.pc s) (add32 s.pc 2)
        (add32 (add32 s.pc 2) (sub32 (i16 p.code s.pc) 3)) n
Sound p op goto =
    (s : Vm) → Goes (execute p op s.pc s) (add32 (add32 s.pc 2) (sub32 (i16 p.code s.pc) 3)) s.depth

-- Every entry of the table is right.
effects-Sound : (p : Program) → All (λ (e : ℕ × Effect). Sound p e.0 e.1) effects
unfolding execute jump
effects-Sound p = (
  (λ s n e le. pass-Goes s n e),
  (
    (λ s n e le. push-Goes 0 s n e le),
    (
      (λ s n e le. push-Goes 0xFFFF_FFFF s n e le),
      (
        (λ s n e le. push-Goes 0 s n e le),
        (
          (λ s n e le. push-Goes 1 s n e le),
          (
            (λ s n e le. push-Goes 2 s n e le),
            (
              (λ s n e le. push-Goes 3 s n e le),
              (
                (λ s n e le. push-Goes 4 s n e le),
                (
                  (λ s n e le. push-Goes 5 s n e le),
                  (
                    (λ s n e le. push-Goes (sign8 (p.code s.pc)) (skip 1 s) n e le),
                    (
                      (λ s n e le. sipush-Goes (i16 p.code s.pc) s n e le),
                      (
                        (λ s n e le. push-Goes (constant_at p (p.code s.pc)) (skip 1 s) n e le),
                        (
                          (λ s n e le. push-Goes (s.locals 0) s n e le),
                          (
                            (λ s n e le. push-Goes (s.locals 1) s n e le),
                            (
                              (λ s n e le. push-Goes (s.locals 2) s n e le),
                              (
                                (λ s n e le. push-Goes (s.locals 3) s n e le),
                                (
                                  (λ s n lt e le. load-Goes (p.code s.pc) s n lt e le),
                                  (
                                    (λ s n e le. store_top-Goes 0 s n (omega arith) e),
                                    (
                                      (λ s n e le. store_top-Goes 1 s n (omega arith) e),
                                      (
                                        (λ s n e le. store_top-Goes 2 s n (omega arith) e),
                                        (
                                          (λ s n e le. store_top-Goes 3 s n (omega arith) e),
                                          (
                                            (λ s n lt e le.
                                                store_top-Goes (p.code s.pc) (skip 1 s) n lt e),
                                            (
                                              (λ s n e le. pop-Goes s n e),
                                              (
                                                (λ s n e le. dup-Goes s n e le),
                                                (
                                                  (λ s n e le. binary-Goes add32 s n e le),
                                                  (
                                                    (λ s n e le. binary-Goes sub32 s n e le),
                                                    (
                                                      (λ s n e le. binary-Goes mul32 s n e le),
                                                      (
                                                        (λ s n e le. negate-Goes negate s n e le),
                                                        (
                                                          (λ s n e le. binary-Goes bit_or s n e le),
                                                          (
                                                            (λ s n e le.
                                                            binary-Goes bit_and s n e le),
                                                            (
                                                            (λ s n e le.
                                                            binary-Goes bit_xor s n e le),
                                                            (
                                                            (λ s n lt e le.
                                                            increment-Goes p s.pc s n lt e),
                                                            (
                                                            (λ s n e.
                                                            jump_if-Branches p s.pc (λ a. a == 0) s
                                                            n e),
                                                            (
                                                            (λ s n e.
                                                            jump_if-Branches p s.pc
                                                            (λ a. not (a == 0)) s n e),
                                                            (
                                                            (λ s n e.
                                                            jump_if-Branches p s.pc (λ a. less a 0)
                                                            s n e),
                                                            (
                                                            (λ s n e.
                                                            jump_if-Branches p s.pc
                                                            (λ a. not (less a 0)) s n e),
                                                            (
                                                            (λ s n e.
                                                            jump_if-Branches p s.pc (λ a. less 0 a)
                                                            s n e),
                                                            (
                                                            (λ s n e.
                                                            jump_if-Branches p s.pc
                                                            (λ a. not (less 0 a)) s n e),
                                                            (
                                                            (λ s n e.
                                                            jump_if_icmp-Branches p s.pc
                                                            (λ a b. a == b) s n e),
                                                            (
                                                            (λ s n e.
                                                            jump_if_icmp-Branches p s.pc
                                                            (λ a b. not (a == b)) s n e),
                                                            (
                                                            (λ s n e.
                                                            jump_if_icmp-Branches p s.pc
                                                            (λ a b. less a b) s n e),
                                                            (
                                                            (λ s n e.
                                                            jump_if_icmp-Branches p s.pc
                                                            (λ a b. not (less a b)) s n e),
                                                            (
                                                            (λ s n e.
                                                            jump_if_icmp-Branches p s.pc
                                                            (λ a b. less b a) s n e),
                                                            (
                                                            (λ s n e.
                                                            jump_if_icmp-Branches p s.pc
                                                            (λ a b. not (less b a)) s n e),
                                                            (
                                                            (λ s. (_, refl, refl, refl)),
                                                            (
                                                            (λ s n e le. pass-Goes (skip 2 s) n e),
                                                            (
                                                            (λ s n e le. pass-Goes (skip 2 s) n e),
                                                            (
                                                            (λ s n e le.
                                                            push-Goes 0 (skip 2 s) n e le),
                                                            (
                                                            (λ s n e le. pop-Goes (skip 2 s) n e),
                                                            tt,
                                                            ),
                                                            ),
                                                            ),
                                                            ),
                                                            ),
                                                            ),
                                                            ),
                                                            ),
                                                            ),
                                                            ),
                                                            ),
                                                            ),
                                                            ),
                                                            ),
                                                            ),
                                                            ),
                                                            ),
                                                            ),
                                                            ),
                                                          ),
                                                        ),
                                                      ),
                                                    ),
                                                  ),
                                                ),
                                              ),
                                            ),
                                          ),
                                        ),
                                      ),
                                    ),
                                  ),
                                ),
                              ),
                            ),
                          ),
                        ),
                      ),
                    ),
                  ),
                ),
              ),
            ),
          ),
        ),
      ),
    ),
  ),
)

effect_of-All :
    (P : ℕ × Effect → Type 0) (es : List (ℕ × Effect)) (op : ℕ) (e : Effect)
    → All P es
    → effect_of es op ≡ some e
    → P (op, e)
unfolding effect_of
effect_of-All P [] op e all h = cc
effect_of-All P ((o, f) ∷ es) op e all h = elim (Bool-cases (op == o)) [
  | inl same ↦ subst P {x = (o, f)} {y = (op, e)} (cc ((==_iff op o).0 same, rw same at h)) all.0
  | inr other ↦ effect_of-All P es op e all.1 (rw other at h)
]

pub effect_of-Sound :
    (p : Program) (op : ℕ) (e : Effect) → effect_of effects op ≡ some e → Sound p op e
effect_of-Sound p op e h =
    effect_of-All (λ (e : ℕ × Effect). Sound p e.0 e.1) effects op e (effects-Sound p) h
