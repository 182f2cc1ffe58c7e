-- ===== src/Runtime/Names.antt =====
-- How src/runtime/bytecode.c looks a native method up when the name has no terminator.
use openyanase_kernel.Base.{
  ℕ, zero, suc, ◌+◌, ◌^◌, ◌<◌, ◌≡◌, ◌≢◌, refl, ap, ◌∙◌, false, List, [], ◌∷◌, ◌++◌, none, some,
  arith, Bool-cases, inl, inr, get_or, sym, subst, length, length-append, All,
}
use openyanase_kernel.Str.{CString, vga_strncmp}
use openyanase_kernel.Str.Copy.{ended, ended-false}
use openyanase_kernel.Initrd.{Memory, at, is_zero}
use openyanase_kernel.Initrd.Archive.{same_iff}
use openyanase_kernel.Runtime.Machine.{Vm, Program, CpEntry, utf8, call, unresolved}
use openyanase_kernel.Runtime.Compile.{Holds, Holds-append}
use openyanase_kernel.Jar.Pool.{parse_constant_pool}
use openyanase_kernel.Jar.Constants.{
  Constant, text, class_name, string_at, number, float, method, pair, field, interface, long,
  double, encode, encode_all, Fits, places_all, fill, fill-entry, parse_constant_pool-fill,
}
use openyanase_kernel.Runtime.Native.{
  NativeEntry, native_table, find_native, call_native, handle_native_call, print_stream_bytes,
  print_stream, mouse_class, screen_class,
}

-- Two names that differ at a place before which the first has not ended.
differ_at :
    (entry name : CString) (n : ℕ)
    → n < 128
    → ((j : ℕ) → j < n → entry j ≢ 0)
    → entry n ≢ name n
    → is_zero (vga_strncmp entry name 128) ≡ false
differ_at entry name n small runs ne = elim (Bool-cases (is_zero (vga_strncmp entry name 128))) [
  | inl same ↦ absurd (ne ((same_iff entry name 128).0 same n small runs))
  | inr other ↦ other
]

-- A name that begins as `java/io/PrintStream` does and does not end behind its 19 characters.
record IsLonger (name : CString) : Type 0 where
  begins : name 0 ≡ b'j'
  goes_on : name 19 ≢ 0

not_stream : (name : CString) → IsLonger name → is_zero (vga_strncmp print_stream name 128) ≡ false
not_stream name h =
    differ_at print_stream name 19 (omega arith)
      (λ j lt. ended-false print_stream 18 (unfold ended in refl) j (omega arith))
      (λ e. h.goes_on (sym e))

not_mouse : (name : CString) → IsLonger name → is_zero (vga_strncmp mouse_class name 128) ≡ false
not_mouse name h =
    differ_at mouse_class name 0 (omega arith) (λ j lt. absurd (omega arith))
      (λ e. absurd (omega (arith, e, h.begins)))

not_screen : (name : CString) → IsLonger name → is_zero (vga_strncmp screen_class name 128) ≡ false
not_screen name h =
    differ_at screen_class name 0 (omega arith) (λ j lt. absurd (omega arith))
      (λ e. absurd (omega (arith, e, h.begins)))

-- An entry of another class is passed over.
find_native-other :
    (e : NativeEntry) (es : List NativeEntry) (name method_name descriptor : CString)
    → is_zero (vga_strncmp e.class_name name 128) ≡ false
    → find_native (e ∷ es) name method_name descriptor ≡ find_native es name method_name descriptor
unfolding find_native
find_native-other e es name method_name descriptor other = rw other refl

none_found :
    (name method_name descriptor : CString)
    → IsLonger name
    → find_native native_table name method_name descriptor ≡ none
none_found name mn d h =
    find_native-other _ _ name mn d (not_stream name h)
    ∙ find_native-other _ _ name mn d (not_stream name h)
    ∙ find_native-other _ _ name mn d (not_mouse name h)
    ∙ find_native-other _ _ name mn d (not_mouse name h)
    ∙ find_native-other _ _ name mn d (not_screen name h)
    ∙ find_native-other _ _ name mn d (not_screen name h)
    ∙ find_native-other _ _ name mn d (not_screen name h)
    ∙ unfold find_native in refl

-- The tag of a constant.
first_byte : (c : Constant) (rest : List ℕ) → get_or (encode c ++ rest) 0 0 ≢ 0
first_byte (text b) rest e = absurd (omega (arith, e))
first_byte (class_name i) rest e = absurd (omega (arith, e))
first_byte (string_at i) rest e = absurd (omega (arith, e))
first_byte (number i) rest e = absurd (omega (arith, e))
first_byte (float i) rest e = absurd (omega (arith, e))
first_byte (method i j) rest e = absurd (omega (arith, e))
first_byte (pair i j) rest e = absurd (omega (arith, e))
first_byte (field i j) rest e = absurd (omega (arith, e))
first_byte (interface i j) rest e = absurd (omega (arith, e))
first_byte (long b c d f) rest e = absurd (omega (arith, e))
first_byte (double b c d f) rest e = absurd (omega (arith, e))

nonempty : (xs : List ℕ) → get_or xs 0 0 ≢ 0 → 0 < length xs
nonempty [] h = absurd (h refl)
nonempty (x ∷ xs) h = omega arith

Holds-get_or :
    (m : Memory) (a : ℕ) (xs : List ℕ) (i : ℕ)
    → Holds m a xs
    → i < length xs
    → m (a + i) ≡ get_or xs i 0
Holds-get_or m a [] i h lt = absurd (omega arith)
Holds-get_or m a (x ∷ xs) zero h lt = ap m {x = a + 0} {y = a} (omega arith) ∙ h.0
Holds-get_or m a (x ∷ xs) (suc i) h lt =
    ap m {x = a + suc i} {y = a + 1 + i} (omega arith)
    ∙ Holds-get_or m (a + 1) xs i h.1 (omega arith)

Holds-behind :
    (m : Memory) (a : ℕ) (before cs : List Constant)
    → Holds m a (encode_all (before ++ cs))
    → Holds m (a + length (encode_all before)) (encode_all cs)
Holds-behind m a [] cs h =
    subst (λ k. Holds m k (encode_all cs)) {x = a} {y = a + 0} (omega arith) h
Holds-behind m a (b ∷ before) cs h =
    subst (λ k. Holds m k (encode_all cs))
      (omega (arith, length-append (encode b) (encode_all before)))
      (Holds-behind m (a + length (encode b)) before cs
        (Holds-append m a (encode b) (encode_all (before ++ cs)) h).1)

-- What stands in memory from the name of the class on.
name-IsLonger :
    (m : Memory) (b : ℕ) (c : Constant) (after : List Constant)
    → Holds m b (encode_all (text print_stream_bytes ∷ c ∷ after))
    → IsLonger (at m (b + 3))
name-IsLonger m b c after h = record {
  begins =
      ap m {x = b + 3 + 0} {y = b + 3} (omega arith)
      ∙ Holds-get_or m b (encode_all (text print_stream_bytes ∷ c ∷ after)) 3 h (omega arith);
  goes_on = λ e. first_byte c (encode_all after) (
      sym (
        Holds-get_or m b (encode_all (text print_stream_bytes ∷ c ∷ after)) 22 h (
          omega (arith, nonempty (encode c ++ encode_all after) (first_byte c (encode_all after)))))
      ∙ ap m {x = b + 22} {y = b + 3 + 19} (omega arith)
      ∙ e);
}

-- In a class file with the constant `java/io/PrintStream` and another constant behind it,
-- `parse_constant_pool` gives this name as the bytes in the file, which have no terminator: behind
-- them stands the tag of the next constant. So `handle_native_call` finds no method for the name,
-- whatever the names of the method and of its type are, and reports the method as unresolved.
pub print_stream-unresolved :
    (p : Program) (m : Memory) (cp : ℕ → CpEntry) (before after : List Constant) (c : Constant)
    (method_name descriptor : CString) (s : Vm)
    → let cs = before ++ text print_stream_bytes ∷ c ∷ after in
      Holds m 0 (encode_all cs)
      → length (encode_all cs) < 2 ^ 32
      → All Fits cs
      → 1 + places_all cs < 2 ^ 16
      → (name : CString) × (pool : ℕ → CpEntry) × (parse_constant_pool
            (suc (length cs))
            m
            (1 + places_all cs)
            cp
          ≡ some (length (encode_all cs), pool))
        × (pool (1 + places_all before) ≡ utf8 name 19)
        × (handle_native_call p name method_name descriptor s ≡ some (call unresolved s))
unfolding handle_native_call call_native
print_stream-unresolved p m cp before after c mn d s h small ok short =
    let cs = before ++ text print_stream_bytes ∷ c ∷ after in
    let b = 0 + length (encode_all before) in
    let longer = name-IsLonger m b c after (Holds-behind m 0 before _ h) in
    (
      at m (b + 3),
      fill m 1 0 cp cs,
      parse_constant_pool-fill m cp cs h small ok short,
      fill-entry m 1 0 cp before (c ∷ after) (text print_stream_bytes),
      ap (λ o. call_native p o s) (none_found (at m (b + 3)) mn d longer),
    )
