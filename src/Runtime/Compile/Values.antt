-- ===== src/Runtime/Compile/Values.antt =====
-- The code of an expression pushes its value on the stack of src/runtime/bytecode.c.
use openyanase_kernel.Base.{
  ℕ, ◌+◌, ◌^◌, ◌<◌, ◌≤◌, ◌≡◌, refl, sym, ap, ap₂, ◌∙◌, subst, [], ◌∷◌, ◌++◌, length, length-append,
  some, update, arith, false, ==_refl,
}
use openyanase_kernel.Runtime.Word.{negate}
use openyanase_kernel.Runtime.Machine.{Vm, Program}
use openyanase_kernel.Runtime.Bytecode.{step, is_return}
use openyanase_kernel.Runtime.Steps.{Steps, done, round, Steps-append}
use openyanase_kernel.Runtime.Compile.{
  Op, Expr, constant, var, minus, op, apply, eval, opcode, compile, count, height, InLocals, Holds,
  Holds-append,
}
use openyanase_kernel.Runtime.Compile.Single.{
  step-bipush, step-iload, step-ineg, step-operator, not_return,
}

-- A value has been pushed by `n` bytes of code, and nothing else changed.
pub record Pushed (s : Vm) (v n : ℕ) (t : Vm) : Type 0 where
  pub depth : t.depth ≡ s.depth + 1
  pub top : t.stack s.depth ≡ v
  pub below : (i : ℕ) → i < s.depth → t.stack i ≡ s.stack i
  pub locals : t.locals ≡ s.locals
  pub pc : t.pc ≡ s.pc + n
  pub calls : t.calls ≡ s.calls

-- One more instruction at the end.
abbrev Runs : Program → Vm → ℕ → ℕ → ℕ → Type 0
Runs p s n v size = (t : Vm) × Steps p n s t × Pushed s v size t

pub one :
    {p : Program} {s t : Vm}
    → s.pc < p.length
    → is_return (p.code s.pc) ≡ false
    → step p s ≡ some t
    → Steps p 1 s t
one lt go e = round lt go e done

height-pos : (e : Expr) → 1 ≤ height e
height-pos (constant b) = omega arith
height-pos (var i) = omega arith
height-pos (minus e) = height-pos e
height-pos (op o e f) = omega (arith, height-pos f)

Pushed-minus :
    {s t : Vm} {v n : ℕ}
    → Pushed s v n t
    → Pushed s (negate v) (n + 1) (record t {
      stack = update t.stack s.depth (negate (t.stack s.depth));
      depth = s.depth + 1;
      pc = t.pc + 1;
    })
Pushed-minus {s} {t} {v} {n} q = record {
  depth = refl;
  top = rw ==_refl (ap negate q.top);
  below = λ i lt. ground arith ∙ q.below i lt;
  locals = q.locals;
  pc = omega (arith, q.pc);
  calls = q.calls;
}

Pushed-op :
    {s t u : Vm} {v w n m : ℕ} (o : Op)
    → Pushed s v n t
    → Pushed t w m u
    → Pushed s (apply o v w) (n + (m + 1)) (record u {
      stack = update u.stack s.depth (apply o (u.stack s.depth) (u.stack (s.depth + 1)));
      depth = s.depth + 1;
      pc = u.pc + 1;
    })
Pushed-op {s} {t} {u} {v} {w} {n} {m} o q r = record {
  depth = refl;
  top = rw ==_refl (ap₂ (apply o) (r.below s.depth (omega (arith, q.depth)) ∙ q.top) upper);
  below = λ i lt. ground arith ∙ r.below i (omega (arith, q.depth)) ∙ q.below i lt;
  locals = r.locals ∙ q.locals;
  pc = omega (arith, q.pc, r.pc);
  calls = r.calls ∙ q.calls;
}
  where
    upper : u.stack (s.depth + 1) ≡ w
    upper = ap u.stack (sym q.depth) ∙ r.top

resize : {s t : Vm} {v n m : ℕ} → n ≡ m → Pushed s v n t → Pushed s v m t
resize {s} {t} {v} e q = subst (λ n. Pushed s v n t) e q

-- The code of an expression ends with the value of the expression on the stack, and nothing else
-- changes.
pub compile-Pushed :
    (p : Program) (e : Expr) (s : Vm)
    → p.length < 2 ^ 32
    → Holds p.code s.pc (compile e)
    → s.pc + length (compile e) < p.length
    → InLocals e
    → s.depth + height e ≤ 256
    → (t : Vm) × Steps p (count e) s t × Pushed s (eval s.locals e) (length (compile e)) t
unfolding eval
compile-Pushed p (constant b) s small h fits ok room = (
  _,
  one (omega arith) (ap is_return h.0 ∙ unfold is_return in refl)
      (step-bipush p s b h (omega arith) (omega arith)),
  record {
    depth = refl;
    top = ground arith;
    below = λ i lt. ground arith;
    locals = refl;
    pc = refl;
    calls = refl;
  },
)
compile-Pushed p (var v) s small h fits ok room = (
  _,
  one (omega arith) (ap is_return h.0 ∙ unfold is_return in refl)
      (step-iload p s v h ok (omega arith) (omega arith)),
  record {
    depth = refl;
    top = ground arith;
    below = λ i lt. ground arith;
    locals = refl;
    pc = refl;
    calls = refl;
  },
)
compile-Pushed p (minus e) s small h fits ok room =
    let size = length-append (compile e) (0x74 ∷ []) in
    let (he, hm) = Holds-append p.code s.pc (compile e) (0x74 ∷ []) h in
    let (t, steps, q) = compile-Pushed p e s small he (omega arith) ok room in
    let here : p.code t.pc ≡ 0x74 = ap p.code q.pc ∙ hm.0 in
    (
      _,
      Steps-append steps (
          one (omega (arith, q.pc)) (ap is_return here ∙ unfold is_return in refl) (
            step-ineg p t s.depth (here, tt) q.depth (omega (arith, height-pos e))
              (omega (arith, q.pc)))),
      resize (sym size) (Pushed-minus q),
    )
compile-Pushed p (op o e f) s small h fits ok room =
    let tail = compile f ++ opcode o ∷ [] in
    let size =
      length-append (compile e) tail
      ∙ ap (λ n. length (compile e) + n) (length-append (compile f) (opcode o ∷ [])) in
    let (he, rest) = Holds-append p.code s.pc (compile e) tail h in
    let (hf, ho) =
      Holds-append p.code (s.pc + length (compile e)) (compile f) (opcode o ∷ []) rest in
    let (t, first, q) = compile-Pushed p e s small he (omega arith) ok.0 (omega arith) in
    let (u, second, r) =
      compile-Pushed p f t small (subst (λ a. Holds p.code a (compile f)) (sym q.pc) hf)
        (omega (arith, q.pc)) ok.1 (omega (arith, q.depth)) in
    let at_end : u.pc ≡ s.pc + length (compile e) + length (compile f) =
      omega (arith, q.pc, r.pc) in
    let here : p.code u.pc ≡ opcode o = ap p.code at_end ∙ ho.0 in
    (
      _,
      Steps-append first (
          Steps-append second (
            one (omega arith) (ap is_return here ∙ not_return o) (
              step-operator p u o s.depth (here, tt) (omega (arith, r.depth, q.depth))
                (omega (arith, height-pos f)) (omega arith)))),
      resize (sym size)
          (Pushed-op o q (subst (λ l. Pushed t (eval l f) (length (compile f)) u) q.locals r)),
    )
