-- ===== src/Runtime/Steps.antt =====
-- Single steps of the interpreter of src/runtime/bytecode.c, and runs made of them.
use openyanase_kernel.Base.{
  ℕ, zero, suc, ◌+◌, ◌-◌, ◌<◌, ◌≤◌, ◌≡◌, refl, ap, ◌∙◌, false, some, lt→ltb, update, arith, add32,
  Option, subst,
}
use openyanase_kernel.Runtime.Machine.{Vm, Program, push, pop, load, store, skip}
use openyanase_kernel.Runtime.Bytecode.{step, execute, is_return, run, binary, store_top}

-- `n` rounds of the loop, none of which ends it, lead from a state to another.
pub data Steps (p : Program) : ℕ → Vm → Vm → Type 0 where
  done : {s : Vm} → Steps p zero s s
  round :
      {n : ℕ} {s t u : Vm}
      → s.pc < p.length
      → is_return (p.code s.pc) ≡ false
      → step p s ≡ some t
      → Steps p n t u
      → Steps p (suc n) s u

pub Steps-append :
    {p : Program} {m n : ℕ} {s t u : Vm} → Steps p m s t → Steps p n t u → Steps p (m + n) s u
Steps-append {p} {m} {n} {s} {t} {u} done r =
    subst (λ k. Steps p k s u) {x = n} {y = 0 + n} (omega arith) r
Steps-append {p} {m} {n} {s} {t} {u} (round {n = k} lt go e rest) r =
    subst (λ k. Steps p k s u) {x = suc (k + n)} {y = suc k + n} (omega arith)
      (round lt go e (Steps-append rest r))

pub run_round :
    (fuel : ℕ) (p : Program) (s t : Vm)
    → s.pc < p.length
    → is_return (p.code s.pc) ≡ false
    → step p s ≡ some t
    → run (suc fuel) p s ≡ run fuel p t
unfolding run
run_round fuel p s t lt go e = rw (lt→ltb _ _ lt, go, e) refl

-- The loop gets through the rounds, with the fuel that they need.
pub run-Steps :
    {p : Program} {n : ℕ} {s t : Vm} (fuel : ℕ) → Steps p n s t → run (n + fuel) p s ≡ run fuel p t
run-Steps {p} {n} {s} {t} fuel done = ap (λ k. run k p s) {x = 0 + fuel} {y = fuel} (omega arith)
run-Steps {p} {n} {s} {t} fuel (round {n = k} {t = next} lt go e rest) =
    ap (λ k. run k p s) {x = suc k + fuel} {y = suc (k + fuel)} (omega arith)
    ∙ run_round (k + fuel) p s next lt go e
    ∙ run-Steps fuel rest

-- The step for an opcode.
pub step-execute :
    (p : Program) (s : Vm) (op : ℕ)
    → p.code s.pc ≡ op
    → step p s ≡ execute p op (add32 s.pc 1) (skip 1 s)
unfolding step
step-execute p s op h = ap (λ o. execute p o (add32 s.pc 1) (skip 1 s)) h

pub push-lem :
    (v : ℕ) (s : Vm)
    → s.depth < 256
    → push v s ≡ some (record s { stack = update s.stack s.depth v; depth = s.depth + 1 })
unfolding push
push-lem v s room = rw (lt→ltb _ _ room) refl

pub pop-lem :
    (s : Vm) → 0 < s.depth → pop s ≡ some (s.stack (s.depth - 1), record s { depth = s.depth - 1 })
unfolding pop
pop-lem s some_left = rw (lt→ltb _ _ some_left) refl

pub load-lem : (i : ℕ) (s : Vm) → i < 64 → load i s ≡ some (s.locals i)
unfolding load
load-lem i s lt = rw (lt→ltb _ _ lt) refl

pub store_top-lem :
    (i : ℕ) (s : Vm) (d : ℕ)
    → i < 64
    → s.depth ≡ d + 1
    → store_top i s ≡ some (record s { locals = update s.locals i (s.stack d); depth = d })
unfolding store_top pop store
store_top-lem i s d lt h = rw (lt→ltb 0 s.depth (omega arith), lt→ltb i 64 lt, under) refl
  where
    under : s.depth - 1 ≡ d
    under = omega arith

pub binary-lem :
    (f : ℕ → ℕ → Option ℕ) (s : Vm) (d v : ℕ)
    → s.depth ≡ d + 2
    → d + 2 ≤ 256
    → f (s.stack d) (s.stack (d + 1)) ≡ some v
    → binary f s ≡ some (record s { stack = update s.stack d v; depth = d + 1 })
unfolding binary pop
binary-lem f s d v two fits e =
    rw (lt→ltb 0 s.depth (omega arith), lt→ltb 0 (s.depth - 1) (omega arith), lower, upper, e)
      (push-lem v (record s { depth = d }) (omega arith))
  where
    lower : s.depth - 1 - 1 ≡ d
    lower = omega arith

    upper : s.depth - 1 ≡ d + 1
    upper = omega arith
