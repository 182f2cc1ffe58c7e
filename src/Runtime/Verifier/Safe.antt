-- ===== src/Runtime/Verifier/Safe.antt =====
-- Verified code is safe to run in src/runtime/bytecode.c.
use openyanase_kernel.Base.{
  ℕ, zero, suc, ◌+◌, ◌-◌, ◌≤◌, ◌<◌, ◌≡◌, ◌≢◌, refl, sym, ap, subst, ◌∙◌, ◌⊎◌, inl, inr, true, false,
  Option, some, none, add32, arith, ltb→lt, ltb→ge, Bool-cases, Option-cases, ltb, ==_iff,
}
use openyanase_kernel.Runtime.Machine.{Vm, Program, skip}
use openyanase_kernel.Runtime.Bytecode.{execute, step, run, execute_bytecode, is_return, undefined}
use openyanase_kernel.Runtime.Steps.{Steps, done, round, run_round}
use openyanase_kernel.Runtime.Verifier.{
  Effect, straight, local, branch, goto, Depths, agrees, target, after, effects, effect_of,
  check_effect, check_known, check_depth, check_at, check_below, verify,
}
use openyanase_kernel.Runtime.Verifier.Effects.{Goes, effect_of-Sound}
use native.Mathlib.Decide.{ℕ_discrete}

-- The program has ended, or the stack has the depth of the instruction that is next.
abbrev pub Typed : Program → Depths → Vm → Type 0
Typed p depths s = (p.length ≤ s.pc) ⊎ (depths s.pc ≡ some s.depth)

agrees-Typed :
    (p : Program) (depths : Depths) (s : Vm)
    → agrees p depths s.pc s.depth ≡ true
    → Typed p depths s
unfolding agrees
agrees-Typed p depths s h = elim (Bool-cases (ltb s.pc p.length)) [
  | inr out ↦ inl (ltb→ge s.pc p.length out)
  | inl inside ↦ elim (Option-cases (depths s.pc)) [
    | inl e ↦ absurd (cc (rw (inside, e) at h))
    | inr (m, e) ↦ inr (e ∙ ap some ((==_iff m s.depth).0 (rw (inside, e) at h)))
  ]
]

-- An instruction leads to a state that the depths describe.
abbrev Leads : Program → Depths → Option Vm → Type 0
Leads p depths m = (s : Vm) × (m ≡ some s) × Typed p depths s

Goes-Leads :
    (p : Program) (depths : Depths) (m : Option Vm) (pc n : ℕ)
    → Goes m pc n
    → agrees p depths pc n ≡ true
    → Leads p depths m
Goes-Leads p depths m pc n g h = (g.0, g.1, agrees-Typed p depths g.0 (rw (g.2, g.3) h))

Branches-Leads :
    (p : Program) (depths : Depths) (m : Option Vm) (next to n : ℕ)
    → Goes m next n ⊎ Goes m to n
    → agrees p depths next n ≡ true
    → agrees p depths to n ≡ true
    → Leads p depths m
Branches-Leads p depths m next to n (inl g) h k = Goes-Leads p depths m next n g h
Branches-Leads p depths m next to n (inr g) h k = Goes-Leads p depths m to n g k

check_effect-Leads :
    (p : Program) (depths : Depths) (s : Vm) (e : Effect)
    → effect_of effects (p.code s.pc) ≡ some e
    → check_effect p depths s.pc s.depth e ≡ true
    → Leads p depths (execute p (p.code s.pc) (add32 s.pc 1) (skip 1 s))
unfolding check_effect
check_effect-Leads p depths s (straight k a b) f h =
    let enough : a ≤ s.depth = ground arith in
    let fits : s.depth - a + b ≤ 256 = ground arith in
    let next : agrees p depths (after k (add32 s.pc 1)) (s.depth - a + b) ≡ true = ground arith in
    Goes-Leads p depths _ _ _
      (effect_of-Sound p (p.code s.pc) (straight k a b) f (skip 1 s) (s.depth - a) (omega arith)
        fits)
      next
check_effect-Leads p depths s (local k a b) f h =
    let enough : a ≤ s.depth = ground arith in
    let fits : s.depth - a + b ≤ 256 = ground arith in
    let inside : p.code (add32 s.pc 1) < 64 = ground arith in
    let next : agrees p depths (after k (add32 s.pc 1)) (s.depth - a + b) ≡ true = ground arith in
    Goes-Leads p depths _ _ _
      (effect_of-Sound p (p.code s.pc) (local k a b) f (skip 1 s) (s.depth - a) inside (omega arith)
        fits)
      next
check_effect-Leads p depths s (branch a) f h =
    let enough : a ≤ s.depth = ground arith in
    let next : agrees p depths (add32 (add32 s.pc 1) 2) (s.depth - a) ≡ true = ground arith in
    let there : agrees p depths (target p s.pc) (s.depth - a) ≡ true = ground arith in
    Branches-Leads p depths _ _ _ _
      (effect_of-Sound p (p.code s.pc) (branch a) f (skip 1 s) (s.depth - a) (omega arith)) next
      there
check_effect-Leads p depths s goto f h =
    Goes-Leads p depths _ _ _ (effect_of-Sound p (p.code s.pc) goto f (skip 1 s)) h

check_below-check_at :
    (k : ℕ) (p : Program) (depths : Depths) (pc : ℕ)
    → check_below k p depths ≡ true
    → pc < k
    → check_at p depths pc ≡ true
unfolding check_below
check_below-check_at zero p depths pc h lt = absurd (omega arith)
check_below-check_at (suc k) p depths pc h lt = elim (ℕ_discrete pc k) [
  | yes e ↦ rw e (ground arith)
  | no ne ↦ check_below-check_at k p depths pc (ground arith) (omega arith)
]

module _ (p : Program) (depths : Depths) (v : verify p depths ≡ true) where
  all_checked : check_below p.length p depths ≡ true
  unfolding verify
  all_checked = ground arith

  start : agrees p depths 0 0 ≡ true
  unfolding verify
  start = ground arith

  known :
      (s : Vm) (o : Option Effect)
      → effect_of effects (p.code s.pc) ≡ o
      → check_known p depths s.pc s.depth o ≡ true
      → Leads p depths (execute p (p.code s.pc) (add32 s.pc 1) (skip 1 s))
  unfolding check_known
  known s none e h = cc
  known s (some f) e h = check_effect-Leads p depths s f e h

  pub step-Leads :
      (s : Vm)
      → s.pc < p.length
      → is_return (p.code s.pc) ≡ false
      → Typed p depths s
      → Leads p depths (step p s)
  unfolding step check_at check_depth
  step-Leads s lt go (inl out) = absurd (omega arith)
  step-Leads s lt go (inr e) =
      let checked = check_below-check_at p.length p depths s.pc all_checked lt in
      let h = sym (ap (check_depth p depths s.pc) e) ∙ checked in
      known s (effect_of effects (p.code s.pc)) refl (rw go at h)

  -- Verified code keeps to its depths: at every instruction that a run comes to, the stack has the
  -- depth that the verifier has there, whichever way led to it.
  pub Steps-Typed : {n : ℕ} {s t : Vm} → Typed p depths s → Steps p n s t → Typed p depths t
  Steps-Typed h done = h
  Steps-Typed {n} {s} {t} h (round {t = next} lt go e rest) =
      let l = step-Leads s lt go h in
      Steps-Typed (subst (Typed p depths) {x = l.0} {y = next} (cc (l.1, e)) l.2) rest

  run-defined : (fuel : ℕ) (s : Vm) → Typed p depths s → run fuel p s ≢ undefined
  unfolding run
  run-defined zero s h = λ e. cc
  run-defined (suc fuel) s h = elim (Bool-cases (ltb s.pc p.length)) [
    | inr out ↦ rw out (λ e. cc)
    | inl inside ↦ elim (Bool-cases (is_return (p.code s.pc))) [
      | inl back ↦ rw (inside, back) (λ e. cc)
      | inr go ↦
          let l = step-Leads s (ltb→lt _ _ inside) go h in
          λ e.
            run-defined fuel l.0 l.2 (sym (run_round fuel p s l.0 (ltb→lt _ _ inside) go l.1) ∙ e)
    ]
  ]

  -- A run of verified code is never undefined, however long it goes on: the stack neither overflows
  -- nor is popped when empty, and no local behind the last is touched. It starts where
  -- `execute_bytecode` starts it, on any stack and locals.
  pub execute_bytecode-defined : (fuel : ℕ) (s : Vm) → execute_bytecode fuel p s ≢ undefined
  unfolding execute_bytecode
  execute_bytecode-defined fuel s =
      run-defined fuel (record s { pc = 0; depth = 0 })
        (agrees-Typed p depths (record s { pc = 0; depth = 0 }) start)
