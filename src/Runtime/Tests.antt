-- ===== src/Runtime/Tests.antt =====
-- src/runtime/bytecode.c on small programs.
use openyanase_kernel.Base.{
  ℕ, ◌+◌, ◌-◌, ◌≡◌, ◌≢◌, refl, true, false, none, List, [], ◌∷◌, get_or, length, some, arith,
  if◌then◌else◌,
}
use openyanase_kernel.Runtime.Word.{signed}
use openyanase_kernel.Runtime.Machine.{Vm, Program, CpEntry, utf8, other, call, unresolved}
use openyanase_kernel.Runtime.Bytecode.{step, is_return, execute_bytecode, undefined}
use openyanase_kernel.Runtime.Compile.{Expr, constant, var, minus, op, sub, mul, eval, apply}
use openyanase_kernel.Runtime.Compile.Assign.{
  Assignment, compile_all, rounds, assign_all, Ends, execute_bytecode-assignments,
}
use openyanase_kernel.Runtime.Native.{print_stream_bytes, println, int_void, handle_native_call}
use openyanase_kernel.Runtime.Names.{print_stream-unresolved}
use openyanase_kernel.Str.{CString}
use openyanase_kernel.Initrd.{Memory}
use openyanase_kernel.Jar.Pool.{parse_constant_pool}
use openyanase_kernel.Jar.Constants.{Constant, text, class_name, encode_all}
use openyanase_kernel.Runtime.Verifier.{Depths, verify}
use openyanase_kernel.Runtime.Verifier.Safe.{execute_bytecode-defined}
use openyanase_kernel.Runtime.Branch.{LeadsTo, step-if_icmp, meets, at_least}

abbrev start : Vm
start = record { stack = λ i. 0; depth = 0; locals = λ i. i; pc = 0; calls = [] }

abbrev program : List ℕ → Program
program bytes = record {
  code = λ i. get_or bytes i 0;
  length = length bytes;
  cp = λ i. other 0;
  cp_count = 0;
  mouse_x = 400;
  mouse_y = 300;
}

-- `x2 = (x3 - 7) * -x3; x0 = x2;`
abbrev product : Expr
product = op mul (op sub (var 3) (constant 7)) (minus (var 3))

abbrev two : List Assignment
two = record { variable = 2; value = product } ∷ record { variable = 0; value = var 2 } ∷ []

two_run : Ends start two (execute_bytecode (rounds two) (program (compile_all two)) start)
two_run =
    execute_bytecode-assignments (program (compile_all two)) two start (omega arith)
      (
        refl,
        (
          refl,
          (
            refl,
            (
              refl,
              (
                refl,
                (
                  refl,
                  (
                    refl,
                    (refl, (refl, (refl, (refl, (refl, (refl, (refl, (refl, (refl, tt))))))))),
                  ),
                ),
              ),
            ),
          ),
        ),
      )
      (omega arith)
      (
        (omega arith, ((omega arith, tt), omega arith), omega arith),
        ((omega arith, omega arith, omega arith), tt),
      )

two_means : assign_all (λ i. i) two 0 ≡ 12
unfolding assign_all eval apply
two_means = refl

-- `goto -4` at the address 10.
abbrev back : Program
back = program (0 ∷ 0 ∷ 0 ∷ 0 ∷ 0 ∷ 0 ∷ 0 ∷ 0 ∷ 0 ∷ 0 ∷ 0xA7 ∷ 0xFF ∷ 0xFC ∷ [])

abbrev stacked : Vm
stacked = record start { depth = 2; stack = λ i. i + 4294967295 - i - i }

abbrev branch : ℕ → Program
branch opcode = program (opcode ∷ 0 ∷ 9 ∷ [])

abbrev leads : (opcode : ℕ) → LeadsTo (branch opcode) 0 opcode 9
leads opcode = record {
  high = 0;
  low = 9;
  bytes = (refl, (refl, (refl, tt)));
  high_byte = omega arith;
  low_byte = omega arith;
  inside = omega arith;
  fits = omega arith;
  leads = refl;
}

-- -1 >= -2
still_at_least :
    step (branch 0xA2) stacked
    ≡ some (record stacked {
      depth = 0;
      pc = if meets at_least (signed 4294967295) (signed 4294967294) then 9 else 0 + 3;
    })
still_at_least =
    step-if_icmp (branch 0xA2) stacked at_least 9 0 (leads 0xA2) refl (omega arith) (omega arith)

-- The name, and the constant that makes a class of it.
abbrev named : List Constant
named = text print_stream_bytes ∷ class_name 1 ∷ []

abbrev class_file : Memory
class_file q = get_or (encode_all named) q 0

name_missed :
    (name : CString) × (pool : ℕ → CpEntry) × (parse_constant_pool 3 class_file 3 (λ i. other 0)
      ≡ some (25, pool))
    × (pool 1 ≡ utf8 name 19)
    × (handle_native_call (program []) name println int_void start ≡ some (call unresolved start))
name_missed =
    print_stream-unresolved (program []) class_file (λ i. other 0) [] [] (class_name 1) println
      int_void start
      (
        refl,
        (
          refl,
          (
            refl,
            (
              refl,
              (
                refl,
                (
                  refl,
                  (
                    refl,
                    (
                      refl,
                      (
                        refl,
                        (
                          refl,
                          (
                            refl,
                            (
                              refl,
                              (
                                refl,
                                (
                                  refl,
                                  (
                                    refl,
                                    (
                                      refl,
                                      (
                                        refl,
                                        (
                                          refl,
                                          (
                                            refl,
                                            (refl, (refl, (refl, (refl, (refl, (refl, tt)))))),
                                          ),
                                        ),
                                      ),
                                    ),
                                  ),
                                ),
                              ),
                            ),
                          ),
                        ),
                      ),
                    ),
                  ),
                ),
              ),
            ),
          ),
        ),
      )
      (omega arith) (omega arith, (omega arith, tt)) (omega arith)

-- `for (x1 = 5; x1 != 0; x1--);`
abbrev countdown : Program
countdown =
    program
      (0x10 ∷ 5 ∷ 0x3C ∷ 0x1B ∷ 0x99 ∷ 0 ∷ 9 ∷ 0x84 ∷ 1 ∷ 0xFF ∷ 0xA7 ∷ 0xFF ∷ 0xF9 ∷ 0xB1 ∷ [])

abbrev countdown_depths : Depths
countdown_depths pc =
    get_or
      (some 0
        ∷ none
        ∷ some 1
        ∷ some 0
        ∷ some 1
        ∷ none
        ∷ none
        ∷ some 0
        ∷ none
        ∷ none
        ∷ some 0
        ∷ none
        ∷ none
        ∷ some 0
        ∷ [])
      pc none

countdown-verify : verify countdown countdown_depths ≡ true
unfolding verify is_return
countdown-verify = refl

-- Without the number that `istore_1` pops, the code is refused.
underflow-verify : verify (program (0x3C ∷ 0xB1 ∷ [])) (λ pc. some 0) ≡ false
unfolding verify is_return
underflow-verify = refl

execute_bytecode-defined_example : execute_bytecode 1000 countdown start ≢ undefined
execute_bytecode-defined_example =
    execute_bytecode-defined countdown countdown_depths countdown-verify 1000 start
