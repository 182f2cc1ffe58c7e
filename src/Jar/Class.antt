-- ===== src/Jar/Class.antt =====
-- `class_execute` of src/runtime/jar.c: the class file behind its constants. Offsets are from the
-- beginning of the file, and the pool is what `parse_constant_pool` has left.
pub mod Pooled
mod Tests
use openyanase_kernel.Base.{
  ℕ, zero, suc, ◌+◌, ◌*◌, Bool, true, false, ◌&&◌, ◌||◌, not, Option, none, some, List, [], ◌∷◌,
  ltb, leb, ◌==◌, if◌then◌else◌, length, add32,
}
use openyanase_kernel.Str.{CString}
use openyanase_kernel.Initrd.{Memory, at}
use openyanase_kernel.Heap.{Heap, kmalloc, kfree}
use openyanase_kernel.Runtime.Machine.{Vm, CpEntry, Program, utf8, ◌>>=◌}
use openyanase_kernel.Runtime.Bytecode.{Run, finished, undefined, running, execute_bytecode}
use openyanase_kernel.Jar.Pool.{be16, be32, parse_constant_pool}

-- The loop of `strn_eq` over the bytes of the string, from the place `i` on.
unfoldable pub bytes_eq : CString → ℕ → List ℕ → Bool
bytes_eq b i [] = true
bytes_eq b i (c ∷ cs) = let rest = bytes_eq b (i + 1) cs in if b i == c then rest else false

unfoldable pub strn_eq : CString → ℕ → List ℕ → Bool
unfolding bytes_eq
strn_eq b blen expect = if blen == length expect then bytes_eq b 0 expect else false

-- The name of a method or an attribute, by its place in the pool.
unfoldable pub is_named : (ℕ → CpEntry) → ℕ → List ℕ → ℕ → Bool
unfolding strn_eq
is_named cp cp_count expect index =
    if ltb index cp_count
    then elim (cp index) [ utf8 bytes blen ↦ strn_eq bytes blen expect | _ ↦ false ]
    else false

-- `none` is `goto done`.
unfoldable pub skip_attributes : ℕ → Memory → ℕ → ℕ → Option ℕ
skip_attributes zero m size off = some off
skip_attributes (suc n) m size off =
    let rest = skip_attributes n m size (add32 (add32 off 6) (be32 m (add32 off 2))) in
    if ltb size (add32 off 6) then none else rest

unfoldable pub skip_fields : ℕ → Memory → ℕ → ℕ → Option ℕ
unfolding skip_attributes
skip_fields zero m size off = some off
skip_fields (suc n) m size off =
    let rest = (do
      next ← skip_attributes (be16 m (add32 off 6)) m size (add32 off 8)
      skip_fields n m size next) in
    if ltb size (add32 off 8) then none else rest

-- `code_ptr` and `code_len`
pub record Code : Type 0 where
  pub code_ptr : ℕ
  pub code_len : ℕ

abbrev pub code_name : List ℕ
code_name = b'C' ∷ b'o' ∷ b'd' ∷ b'e' ∷ []

abbrev pub main_name : List ℕ
main_name = b'm' ∷ b'a' ∷ b'i' ∷ b'n' ∷ []

module _ (m : Memory) (size : ℕ) (cp : ℕ → CpEntry) (cp_count : ℕ) where
  -- The attributes of a method: the code is that of the last attribute with the name.
  unfoldable pub find_code : ℕ → ℕ → Option Code → Option (ℕ × Option Code)
  unfolding is_named
  find_code zero off code = some (off, code)
  find_code (suc n) off code =
      let a_len = be32 m (add32 off 2) in
      let data_off = add32 off 6 in
      let found =
        if is_named cp cp_count code_name (be16 m off) && leb 8 a_len
        then some (record { code_ptr = data_off + 8; code_len = be32 m (data_off + 4) })
        else code in
      let rest = find_code n (add32 data_off a_len) found in
      if ltb size data_off then none else rest

  -- The methods: `some none` is that there is no `main` with code.
  unfoldable pub find_main : ℕ → ℕ → Option (Option Code)
  unfolding find_code is_named
  find_main zero off = some none
  find_main (suc n) off =
      let is_main = is_named cp cp_count main_name (be16 m (add32 off 2)) in
      let found : Option (Option Code) =
        elim (find_code (be16 m (add32 off 6)) (add32 off 8) none) [
          | none ↦ none
          | some (next, none) ↦ find_main n next
          | some (next, some code) ↦
              (if is_main && ltb 0 code.code_len then some (some code) else find_main n next)
        ] in
      if ltb size (add32 off 8) then none else found

  -- From the access flags behind the pool on.
  unfoldable pub find_main_at : ℕ → Option (Option Code)
  unfolding find_main skip_fields
  find_main_at off =
      let fields = add32 (add32 off 8) (be16 m (add32 off 6) * 2) in
      let rest = (do
        methods ← skip_fields (be16 m fields) m size (add32 fields 2)
        (if ltb size (add32 methods 2)
            then none
            else find_main (be16 m methods) (add32 methods 2))) in
      if ltb size (add32 off 8) || ltb size (add32 fields 2) then none else rest

-- How `class_execute` ends: with -1, or with the run of `main`.
pub data Executed : Type 0 where
  failed : Executed
  ran : Run → Executed

-- The pool is given back when the run of `main` is over, if it is.
unfoldable pub release_pool : ℕ → Heap → ℕ → Executed → Option (Executed × Heap)
release_pool fuel h cp_ptr failed = do h1 ← kfree fuel h cp_ptr; some (failed, h1)
release_pool fuel h cp_ptr (ran (finished s)) = do
  h1 ← kfree fuel h cp_ptr
  some (ran (finished s), h1)
release_pool fuel h cp_ptr (ran undefined) = some (ran undefined, h)
release_pool fuel h cp_ptr (ran running) = some (ran running, h)

-- The code of `main`, if there is one, is run.
unfoldable pub run_main :
    ℕ → Memory → (ℕ → CpEntry) → ℕ → ℕ × ℕ → Vm → Option (Option Code) → Executed
run_main fuel m cp cp_count (mouse_x, mouse_y) s (some (some code)) = ran (
    execute_bytecode fuel
      (record {
        code = at m code.code_ptr;
        length = code.code_len;
        cp = cp;
        cp_count = cp_count;
        mouse_x = mouse_x;
        mouse_y = mouse_y;
      })
      s)
run_main fuel m cp cp_count mouse s _ = failed

-- The fuel of `kmalloc`, of `kfree`, of the loop over the constants and of the run.
pub record Fuel : Type 0 where
  pub to_alloc : ℕ
  pub to_free : ℕ
  pub to_parse : ℕ
  pub to_run : ℕ

abbrev pub entry_size : ℕ
entry_size = 12

-- Behind the request for the pool; `before` is what its memory holds when it is handed out.
unfoldable pub with_pool :
    Fuel → Memory → ℕ → (ℕ → CpEntry) → ℕ × ℕ → Vm → ℕ → Heap → Option (Executed × Heap)
with_pool fuel m size before mouse s cp_ptr h =
    let cp_count = be16 m 8 in
    if cp_ptr == 0 then some (failed, h) else (do
      (len, cp) ← parse_constant_pool fuel.to_parse (at m 10) cp_count before
      release_pool fuel.to_free h cp_ptr
          (run_main fuel.to_run m cp cp_count mouse s (find_main_at m size cp cp_count (10 + len))))

unfoldable pub class_execute :
    Fuel → Memory → ℕ → (ℕ → CpEntry) → ℕ × ℕ → Vm → Heap → Option (Executed × Heap)
class_execute fuel m size before mouse s h =
    if ltb size 10 || not (be32 m 0 == 0xCAFE_BABE) || ltb 512 (be16 m 8)
    then some (failed, h)
    else (do
      (cp_ptr, h1) ← kmalloc fuel.to_alloc h (be16 m 8 * entry_size)
      with_pool fuel m size before mouse s cp_ptr h1)
