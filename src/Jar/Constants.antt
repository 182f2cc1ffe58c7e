-- ===== src/Jar/Constants.antt =====
-- `parse_constant_pool` of src/runtime/jar.c reads what a class file says.
use openyanase_kernel.Base.{
  ℕ, zero, suc, ◌+◌, ◌*◌, ◌/◌, ◌%◌, ◌^◌, ◌<◌, ◌≤◌, ◌≡◌, refl, true, false, ap, ap₂, ◌∙◌, List, [],
  ◌∷◌, ◌++◌, length, some, ltb, update, bit_or, u16, add32, arith, lt→ltb, All, length-append,
  ==_refl,
}
use openyanase_kernel.Base.Bits.{bit_or_fields}
use openyanase_kernel.Initrd.{Memory, at}
use openyanase_kernel.Runtime.Machine.{
  CpEntry, utf8, integer, class_ref, string_ref, method_ref, name_and_type, other,
}
use openyanase_kernel.Runtime.Compile.{Holds, Holds-append}
use openyanase_kernel.Jar.Pool.{be16, be32, parse_entry, pool_loop, parse_constant_pool}

-- The constants of a class file: all that the kernel knows. A long and a double have four words.
pub data Constant : Type 0 where
  text : List ℕ → Constant
  class_name string_at number float : ℕ → Constant
  method pair field interface : ℕ → ℕ → Constant
  long double : ℕ → ℕ → ℕ → ℕ → Constant

abbrev pub word : ℕ → List ℕ
word n = n / 256 ∷ n % 256 ∷ []

-- How a class file writes a constant.
abbrev pub encode : Constant → List ℕ
encode (text bytes) = 1 ∷ (length bytes) / 256 ∷ (length bytes) % 256 ∷ bytes
encode (class_name i) = 7 ∷ word i
encode (string_at i) = 8 ∷ word i
encode (number v) = 3 ∷ v / 2 ^ 24 ∷ v / 2 ^ 16 % 256 ∷ v / 256 % 256 ∷ v % 256 ∷ []
encode (float v) = 4 ∷ v / 2 ^ 24 ∷ v / 2 ^ 16 % 256 ∷ v / 256 % 256 ∷ v % 256 ∷ []
encode (method i j) = 10 ∷ i / 256 ∷ i % 256 ∷ word j
encode (pair i j) = 12 ∷ i / 256 ∷ i % 256 ∷ word j
encode (field i j) = 9 ∷ i / 256 ∷ i % 256 ∷ word j
encode (interface i j) = 11 ∷ i / 256 ∷ i % 256 ∷ word j
encode (long a b c d) = 5 ∷ a / 256 ∷ a % 256 ∷ b / 256 ∷ b % 256 ∷ c / 256 ∷ c % 256 ∷ word d
encode (double a b c d) = 6 ∷ a / 256 ∷ a % 256 ∷ b / 256 ∷ b % 256 ∷ c / 256 ∷ c % 256 ∷ word d

-- The indices and the lengths have 16 bits, the numbers 32.
abbrev pub Fits : Constant → Type 0
Fits (text bytes) = length bytes < 2 ^ 16
Fits (class_name i) = i < 2 ^ 16
Fits (string_at i) = i < 2 ^ 16
Fits (number v) = v < 2 ^ 32
Fits (float v) = v < 2 ^ 32
Fits (method i j) = (i < 2 ^ 16) × (j < 2 ^ 16)
Fits (pair i j) = (i < 2 ^ 16) × (j < 2 ^ 16)
Fits (field i j) = (i < 2 ^ 16) × (j < 2 ^ 16)
Fits (interface i j) = (i < 2 ^ 16) × (j < 2 ^ 16)
Fits (long a b c d) = Unit
Fits (double a b c d) = Unit

-- A long or a double takes two places of the pool.
abbrev pub places : Constant → ℕ
places (long a b c d) = 2
places (double a b c d) = 2
places _ = 1

-- The entry of a constant that begins at an address. A text is left where it stands.
abbrev pub entry : Memory → ℕ → Constant → CpEntry
entry m a (text bytes) = utf8 (at m (a + 3)) (length bytes)
entry m a (class_name i) = class_ref i
entry m a (string_at i) = string_ref i
entry m a (number v) = integer v
entry m a (method i j) = method_ref i j
entry m a (pair i j) = name_and_type i j
entry m a (field i j) = other 9
entry m a (float v) = other 4
entry m a (interface i j) = other 11
entry m a (long b c d e) = other 5
entry m a (double b c d e) = other 6

be16-word : (m : Memory) (a n : ℕ) → n < 2 ^ 16 → m a ≡ n / 256 → m (a + 1) ≡ n % 256 → be16 m a ≡ n
be16-word m a n small high low =
    ap₂ (λ h l. bit_or (h * 2 ^ 8) l) high low
    ∙ bit_or_fields 8 (n / 256) (n % 256) (omega arith)
    ∙ omega arith

be32-digits :
    (b3 b2 b1 b0 : ℕ)
    → b2 < 256
    → b1 < 256
    → b0 < 256
    → bit_or (bit_or (bit_or (b3 * 2 ^ 24) (b2 * 2 ^ 16)) (b1 * 2 ^ 8)) b0
      ≡ b3 * 2 ^ 24 + b2 * 2 ^ 16 + b1 * 2 ^ 8 + b0
be32-digits b3 b2 b1 b0 h2 h1 h0 =
    ap (λ x. bit_or (bit_or x (b1 * 2 ^ 8)) b0)
      (bit_or_fields 24 b3 (b2 * 2 ^ 16) (omega arith) ∙ first)
    ∙ ap (λ x. bit_or x b0) (bit_or_fields 16 (b3 * 256 + b2) (b1 * 2 ^ 8) (omega arith) ∙ second)
    ∙ bit_or_fields 8 (b3 * 65536 + b2 * 256 + b1) b0 h0
    ∙ omega arith
  where
    first : b3 * 2 ^ 24 + b2 * 2 ^ 16 ≡ (b3 * 256 + b2) * 2 ^ 16
    first = omega arith

    second : (b3 * 256 + b2) * 2 ^ 16 + b1 * 2 ^ 8 ≡ (b3 * 65536 + b2 * 256 + b1) * 2 ^ 8
    second = omega arith

be32_at :
    (m : Memory) (p q v : ℕ)
    → p ≡ q
    → v < 2 ^ 32
    → m q ≡ v / 2 ^ 24
    → m (q + 1) ≡ v / 2 ^ 16 % 256
    → m (q + 2) ≡ v / 256 % 256
    → m (q + 3) ≡ v % 256
    → be32 m p ≡ v
be32_at m p q v e small a b c d =
    ap (be32 m) e
    ∙ rw (a, b, c, d)
        (be32-digits (v / 2 ^ 24) (v / 2 ^ 16 % 256) (v / 256 % 256) (v % 256) (omega arith)
            (omega arith) (omega arith)
          ∙ omega arith)

be16_at :
    (m : Memory) (p q n : ℕ)
    → p ≡ q
    → n < 2 ^ 16
    → m q ≡ n / 256
    → m (q + 1) ≡ n % 256
    → be16 m p ≡ n
be16_at m p q n e small high low = ap (be16 m) e ∙ be16-word m q n small high low

ap₃ :
    {A B C D : Type 0} (f : A → B → C → D) {a a' : A} {b b' : B} {c c' : C}
    → a ≡ a'
    → b ≡ b'
    → c ≡ c'
    → f a b c ≡ f a' b' c'
ap₃ f {a} {a'} {b} {b'} {c} p q r = ap₂ (λ x y. f x y c) p q ∙ ap (f a' b') r

abbrev Reads : Memory → ℕ → Constant → Type 0
Reads m a c =
    parse_entry m (m a) (add32 a 1)
    ≡ some (record { off = a + length (encode c); places = places c; entry = entry m a c })

parse_entry-Reads :
    (m : Memory) (a : ℕ) (c : Constant)
    → Holds m a (encode c)
    → a + length (encode c) < 2 ^ 32
    → Fits c
    → Reads m a c
unfolding parse_entry
parse_entry-Reads m a (text bytes) h small ok =
    ap (λ t. parse_entry m t (add32 a 1)) h.0
    ∙ ap₂ (λ q n. some (record { off = add32 q n; places = 1; entry = utf8 (at m q) n }))
        {x = add32 (add32 a 1) 2} {y = a + 3} (omega arith)
        (be16_at m (add32 a 1) (a + 1) (length bytes) (omega arith) ok h.1.0 h.1.1.0)
    ∙ ap (λ o. some (record { off = o; places = 1; entry = utf8 (at m (a + 3)) (length bytes) }))
        (omega arith)
parse_entry-Reads m a (class_name i) h small ok =
    ap (λ t. parse_entry m t (add32 a 1)) h.0
    ∙ ap₂ (λ o x. some (record { off = o; places = 1; entry = class_ref x })) (omega arith)
        (be16_at m (add32 a 1) (a + 1) i (omega arith) ok h.1.0 h.1.1.0)
parse_entry-Reads m a (string_at i) h small ok =
    ap (λ t. parse_entry m t (add32 a 1)) h.0
    ∙ ap₂ (λ o x. some (record { off = o; places = 1; entry = string_ref x })) (omega arith)
        (be16_at m (add32 a 1) (a + 1) i (omega arith) ok h.1.0 h.1.1.0)
parse_entry-Reads m a (number v) h small ok =
    ap (λ t. parse_entry m t (add32 a 1)) h.0
    ∙ ap₂ (λ o x. some (record { off = o; places = 1; entry = integer x })) (omega arith)
        (be32_at m (add32 a 1) (a + 1) v (omega arith) ok h.1.0 h.1.1.0
          (ap m {x = a + 1 + 2} {y = a + 1 + 1 + 1} (omega arith) ∙ h.1.1.1.0)
          (ap m {x = a + 1 + 3} {y = a + 1 + 1 + 1 + 1} (omega arith) ∙ h.1.1.1.1.0))
parse_entry-Reads m a (method i j) h small ok =
    ap (λ t. parse_entry m t (add32 a 1)) h.0
    ∙ ap₃ (λ o x y. some (record { off = o; places = 1; entry = method_ref x y })) (omega arith)
        (be16_at m (add32 a 1) (a + 1) i (omega arith) ok.0 h.1.0 h.1.1.0)
        (be16_at m (add32 (add32 a 1) 2) (a + 1 + 1 + 1) j (omega arith) ok.1 h.1.1.1.0 h.1.1.1.1.0)
parse_entry-Reads m a (pair i j) h small ok =
    ap (λ t. parse_entry m t (add32 a 1)) h.0
    ∙ ap₃ (λ o x y. some (record { off = o; places = 1; entry = name_and_type x y })) (omega arith)
        (be16_at m (add32 a 1) (a + 1) i (omega arith) ok.0 h.1.0 h.1.1.0)
        (be16_at m (add32 (add32 a 1) 2) (a + 1 + 1 + 1) j (omega arith) ok.1 h.1.1.1.0 h.1.1.1.1.0)
parse_entry-Reads m a (field i j) h small ok =
    ap (λ t. parse_entry m t (add32 a 1)) h.0
    ∙ ap (λ o. some (record { off = o; places = 1; entry = other 9 })) (omega arith)
parse_entry-Reads m a (interface i j) h small ok =
    ap (λ t. parse_entry m t (add32 a 1)) h.0
    ∙ ap (λ o. some (record { off = o; places = 1; entry = other 11 })) (omega arith)
parse_entry-Reads m a (float v) h small ok =
    ap (λ t. parse_entry m t (add32 a 1)) h.0
    ∙ ap (λ o. some (record { off = o; places = 1; entry = other 4 })) (omega arith)
parse_entry-Reads m a (long b c d e) h small ok =
    ap (λ t. parse_entry m t (add32 a 1)) h.0
    ∙ ap (λ o. some (record { off = o; places = 2; entry = other 5 })) (omega arith)
parse_entry-Reads m a (double b c d e) h small ok =
    ap (λ t. parse_entry m t (add32 a 1)) h.0
    ∙ ap (λ o. some (record { off = o; places = 2; entry = other 6 })) (omega arith)

-- The pool with the entries of the constants from a place and an address on.
unfoldable pub fill : Memory → ℕ → ℕ → (ℕ → CpEntry) → List Constant → ℕ → CpEntry
fill m i a cp [] = cp
fill m i a cp (c ∷ cs) =
    fill m (i + places c) (a + length (encode c)) (update cp i (entry m a c)) cs

abbrev pub encode_all : List Constant → List ℕ
encode_all [] = []
encode_all (c ∷ cs) = encode c ++ encode_all cs

abbrev pub places_all : List Constant → ℕ
places_all [] = 0
places_all (c ∷ cs) = places c + places_all cs

at_least_one : (c : Constant) → 1 ≤ places c
at_least_one (long a b c d) = omega arith
at_least_one (double a b c d) = omega arith
at_least_one (float b) = omega arith
at_least_one (interface b c) = omega arith
at_least_one (text b) = omega arith
at_least_one (class_name b) = omega arith
at_least_one (string_at b) = omega arith
at_least_one (number b) = omega arith
at_least_one (method b c) = omega arith
at_least_one (pair b c) = omega arith
at_least_one (field b c) = omega arith

pool_loop-fill :
    (fuel : ℕ) (m : Memory) (count i a : ℕ) (cp : ℕ → CpEntry) (cs : List Constant)
    → Holds m a (encode_all cs)
    → a + length (encode_all cs) < 2 ^ 32
    → All Fits cs
    → count ≡ i + places_all cs
    → count < 2 ^ 16
    → length cs < fuel
    → pool_loop fuel m count i a cp ≡ some (a + length (encode_all cs), fill m i a cp cs)
unfolding pool_loop fill
pool_loop-fill zero m count i a cp cs h small ok total short lt = absurd (omega arith)
pool_loop-fill (suc fuel) m count i a cp [] h small ok total short lt =
    rw over (ap (λ o. some (o, cp)) (omega arith))
  where
    over : ltb i count ≡ false
    over = ground arith
pool_loop-fill (suc fuel) m count i a cp (c ∷ cs) h small ok total short lt =
    let size = length-append (encode c) (encode_all cs) in
    let (here, rest) = Holds-append m a (encode c) (encode_all cs) h in
    rw
      (
        inside,
        parse_entry-Reads m a c here (omega arith) ok.0,
        forth,
        pool_loop-fill fuel m count (i + places c) (a + length (encode c))
            (update cp i (entry m a c)) cs rest (omega arith) ok.1 (omega arith) short
            (omega arith),
      )
      (ap (λ o. some (o, fill m i a cp (c ∷ cs))) (omega arith))
  where
    inside : ltb i count ≡ true
    inside = lt→ltb _ _ (omega (arith, at_least_one c))

    forth : u16 (i + places c) ≡ i + places c
    forth = omega arith

-- The constants of a class file, written one after the other, are all read: `parse_constant_pool`
-- ends with a round for each and one more, goes exactly to the end of their bytes, and fills the
-- pool from the place 1 on, with two places for a long or a double. The entries of the constants
-- that nothing in the kernel reads (floats, longs, doubles, fields and interface methods) have their
-- tags alone.
pub parse_constant_pool-fill :
    (m : Memory) (cp : ℕ → CpEntry) (cs : List Constant)
    → Holds m 0 (encode_all cs)
    → length (encode_all cs) < 2 ^ 32
    → All Fits cs
    → 1 + places_all cs < 2 ^ 16
    → parse_constant_pool (suc (length cs)) m (1 + places_all cs) cp
      ≡ some (length (encode_all cs), fill m 1 0 cp cs)
unfolding parse_constant_pool
parse_constant_pool-fill m cp cs h small ok short =
    pool_loop-fill (suc (length cs)) m (1 + places_all cs) 1 0 cp cs h (omega arith) ok refl short
      (omega arith)
    ∙ ap (λ o. some (o, fill m 1 0 cp cs)) (omega arith)

fill-before :
    (m : Memory) (i a : ℕ) (cp : ℕ → CpEntry) (cs : List Constant) (k : ℕ)
    → k < i
    → fill m i a cp cs k ≡ cp k
unfolding fill
fill-before m i a cp [] k lt = refl
fill-before m i a cp (c ∷ cs) k lt =
    fill-before m (i + places c) (a + length (encode c)) (update cp i (entry m a c)) cs k
      (omega (arith, at_least_one c))
    ∙ ground arith

-- The entry of a constant stands at its place.
pub fill-entry :
    (m : Memory) (i a : ℕ) (cp : ℕ → CpEntry) (before after : List Constant) (c : Constant)
    → fill m i a cp (before ++ c ∷ after) (i + places_all before)
      ≡ entry m (a + length (encode_all before)) c
unfolding fill
fill-entry m i a cp [] after c =
    fill-before m (i + places c) (a + length (encode c)) (update cp i (entry m a c)) after (i + 0)
      (omega (arith, at_least_one c))
    ∙ here
  where
    here : update cp i (entry m a c) (i + 0) ≡ entry m (a + 0) c
    here =
        ap (update cp i (entry m a c)) {x = i + 0} {y = i} (omega arith)
        ∙ rw (==_refl i) (ap (λ q. entry m q c) {x = a} {y = a + 0} (omega arith))
fill-entry m i a cp (b ∷ before) after c =
    ap
      (fill m (i + places b) (a + length (encode b)) (update cp i (entry m a b))
        (before ++ c ∷ after))
      {x = i + (places b + places_all before)} {y = i + places b + places_all before} (omega arith)
    ∙ fill-entry m (i + places b) (a + length (encode b)) (update cp i (entry m a b)) before after c
    ∙ ap (λ q. entry m q c) (omega (arith, length-append (encode b) (encode_all before)))
