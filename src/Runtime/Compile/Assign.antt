-- ===== src/Runtime/Compile/Assign.antt =====
-- src/runtime/bytecode.c runs the code of a list of assignments from its start to its return.
use openyanase_kernel.Base.{
  ℕ, suc, ◌+◌, ◌^◌, ◌<◌, ◌≤◌, ◌≡◌, refl, sym, ap, ap₂, ◌∙◌, subst, List, [], ◌∷◌, ◌++◌, length,
  length-append, lt→ltb, some, update, arith, All,
}
use openyanase_kernel.Runtime.Machine.{Vm, Program, skip}
use openyanase_kernel.Runtime.Bytecode.{
  execute, step, is_return, store_top, run, Run, finished, execute_bytecode,
}
use openyanase_kernel.Runtime.Steps.{Steps, Steps-append, run-Steps, step-execute, store_top-lem}
use openyanase_kernel.Runtime.Compile.{
  Expr, eval, compile, count, height, InLocals, Holds, Holds-append,
}
use openyanase_kernel.Runtime.Compile.Single.{behind}
use openyanase_kernel.Runtime.Compile.Values.{compile-Pushed, one}

-- `x = e;`
pub record Assignment : Type 0 where
  pub variable : ℕ
  pub value : Expr

abbrev pub compile_all : List Assignment → List ℕ
compile_all [] = 0xB1 ∷ []
compile_all (a ∷ rest) = compile a.value ++ (0x36 ∷ a.variable ∷ compile_all rest)

-- The rounds of the interpreter's loop.
abbrev pub rounds : List Assignment → ℕ
rounds [] = 1
rounds (a ∷ rest) = count a.value + suc (rounds rest)

-- What the assignments mean.
unfoldable pub assign_all : (ℕ → ℕ) → List Assignment → ℕ → ℕ
unfolding eval
assign_all l [] = l
assign_all l (a ∷ rest) = assign_all (update l a.variable (eval l a.value)) rest

-- The variables are among the locals, and the stack is large enough for the expressions.
abbrev pub Fits : Assignment → Type 0
Fits a = (a.variable < 64) × InLocals a.value × (height a.value ≤ 256)

step-istore :
    (p : Program) (s : Vm) (x : ℕ)
    → Holds p.code s.pc (0x36 ∷ x ∷ [])
    → x < 64
    → s.depth ≡ 1
    → s.pc + 2 < 2 ^ 32
    → step p s
      ≡ some (record s { locals = update s.locals x (s.stack 0); depth = 0; pc = s.pc + 2 })
unfolding execute
step-istore p s x h lt top fits =
    step-execute p s 0x36 h.0
    ∙ ap (λ i. store_top i (skip 1 (skip 1 s))) (ap p.code (behind s.pc 1 (omega arith)) ∙ h.1.0)
    ∙ store_top-lem x (skip 1 (skip 1 s)) 0 lt top
    ∙ ap (λ k. some (record s { locals = update s.locals x (s.stack 0); depth = 0; pc = k }))
        (omega arith)

-- How the run of assignments ends.
abbrev pub Ends : Vm → List Assignment → Run → Type 0
Ends s xs r =
    (t : Vm) × (r ≡ finished t)
    × (t.locals ≡ assign_all s.locals xs)
    × (t.depth ≡ 0)
    × (t.calls ≡ s.calls)

assign_one :
    (p : Program) (a : Assignment) (rest : List ℕ) (s : Vm)
    → p.length < 2 ^ 32
    → Holds p.code s.pc (compile a.value ++ (0x36 ∷ a.variable ∷ rest))
    → s.pc + (length (compile a.value) + 2) ≤ p.length
    → Fits a
    → s.depth ≡ 0
    → (t : Vm) × Steps p (count a.value + 1) s t
      × (t.locals ≡ update s.locals a.variable (eval s.locals a.value))
      × (t.depth ≡ 0)
      × (t.calls ≡ s.calls)
      × (t.pc ≡ s.pc + length (compile a.value) + 2)
assign_one p a rest s small h fits ok empty =
    let (he, hx) = Holds-append p.code s.pc (compile a.value) (0x36 ∷ a.variable ∷ rest) h in
    let (t, steps, q) =
      compile-Pushed p a.value s small he (omega arith) ok.1 (omega (arith, ok.2)) in
    let store : Holds p.code t.pc (0x36 ∷ a.variable ∷ []) =
      subst (λ k. Holds p.code k (0x36 ∷ a.variable ∷ [])) (sym q.pc) (hx.0, (hx.1.0, tt)) in
    (
      _,
      Steps-append steps (
          one (omega (arith, q.pc)) (ap is_return store.0 ∙ unfold is_return in refl)
            (step-istore p t a.variable store ok.0 (q.depth ∙ omega arith) (omega (arith, q.pc)))),
      ap₂ (λ l v. update l a.variable v) q.locals (ap t.stack (sym empty) ∙ q.top),
      refl,
      q.calls,
      ap (λ k. k + 2) q.pc,
    )

run-assignments :
    (p : Program) (xs : List Assignment) (s : Vm)
    → p.length < 2 ^ 32
    → Holds p.code s.pc (compile_all xs)
    → s.pc + length (compile_all xs) ≤ p.length
    → All Fits xs
    → s.depth ≡ 0
    → Ends s xs (run (rounds xs) p s)
unfolding run assign_all
run-assignments p [] s small h fits ok empty = (
  skip 1 s,
  rw (lt→ltb s.pc p.length (omega arith), h.0) (unfold is_return in refl),
  refl,
  empty,
  refl,
)
run-assignments p (a ∷ xs) s small h fits ok empty =
    let size = length-append (compile a.value) (0x36 ∷ a.variable ∷ compile_all xs) in
    let (t, steps, locals, depth, calls, pc) =
      assign_one p a (compile_all xs) s small h (omega arith) ok.0 empty in
    let rest =
      (Holds-append p.code s.pc (compile a.value) (0x36 ∷ a.variable ∷ compile_all xs) h).1.1.1 in
    let (u, ends, l, d, c) =
      run-assignments p xs t small
        (subst (λ k. Holds p.code k (compile_all xs)) {y = t.pc} (omega (arith, pc)) rest)
        (omega (arith, pc)) ok.1 depth in
    (
      u,
      ap (λ n. run n p s) {x = rounds (a ∷ xs)} {y = count a.value + 1 + rounds xs} (omega arith)
          ∙ run-Steps (rounds xs) steps
          ∙ ends,
      l ∙ ap (λ f. assign_all f xs) locals,
      d,
      c ∙ calls,
    )

-- The code of a list of assignments, placed at the start of the code, runs to its return with one
-- round of the loop for each instruction: the stack is empty again, no other part of the kernel
-- is called, and the local variables have the values that the assignments say, if the code is
-- shorter than 2 ^ 32 bytes, the variables are among the 64 locals and no expression takes more
-- than the 256 places of the stack.
pub execute_bytecode-assignments :
    (p : Program) (xs : List Assignment) (s : Vm)
    → p.length < 2 ^ 32
    → Holds p.code 0 (compile_all xs)
    → length (compile_all xs) ≤ p.length
    → All Fits xs
    → Ends s xs (execute_bytecode (rounds xs) p s)
unfolding execute_bytecode
execute_bytecode-assignments p xs s small h fits ok =
    run-assignments p xs (record s { pc = 0; depth = 0 }) small h (omega arith) ok refl
