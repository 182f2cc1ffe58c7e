-- ===== src/Jar/Archive.antt =====
-- `jar_find_entry` of src/runtime/jar.c against the members of the archive.
use openyanase_kernel.Base.{
  ℕ, zero, suc, ◌+◌, ◌^◌, ◌<◌, ◌≤◌, ◌≡◌, refl, sym, Bool, true, false, ◌&&◌, ◌⊎◌, inl, inr, List,
  [], ◌∷◌, ltb, ◌==◌, ==_iff, if◌then◌else◌, length, u16, add32, arith, Bool-cases,
}
use openyanase_kernel.Initrd.{Memory, Found, null, found}
use openyanase_kernel.Jar.{
  signature, compression, compressed_size, uncompressed_size, filename_len, extra_len, same_name,
  data_off, find_loop, jar_find_entry,
}

pub record Member : Type 0 where
  pub name : List ℕ
  pub extra : ℕ
  pub method : ℕ
  pub packed : ℕ
  pub size : ℕ

-- The bytes of a name stand at an address.
abbrev pub Named : Memory → ℕ → List ℕ → Type 0
Named m a [] = Unit
Named m a (c ∷ cs) = (m a ≡ c) × Named m (a + 1) cs

-- Where the data of a member begins, and where the next member does.
abbrev pub begin : ℕ → Member → ℕ
begin a f = a + 30 + length f.name + f.extra

abbrev pub next : ℕ → Member → ℕ
next a f = begin a f + f.packed

-- The headers and the data of the members follow each other from the address `a` on, up to a word
-- that is no local signature or to the end.
abbrev pub IsZip : Memory → ℕ → ℕ → List Member → Type 0
IsZip m size a [] = ((signature m a == 0x04034b50) ≡ false) ⊎ (size ≤ a + 30)
IsZip m size a (f ∷ fs) =
    (a + 30 < size)
    × (next a f + 30 < 2 ^ 32)
    × (signature m a ≡ 0x04034b50)
    × (filename_len m a ≡ length f.name)
    × (extra_len m a ≡ f.extra)
    × (compression m a ≡ f.method)
    × (compressed_size m a ≡ f.packed)
    × (uncompressed_size m a ≡ f.size)
    × Named m (a + 30) f.name
    × IsZip m size (next a f) fs

abbrev pub equal : List ℕ → List ℕ → Bool
equal [] [] = true
equal (x ∷ xs) (y ∷ ys) = x == y && equal xs ys
equal _ _ = false

-- The first member of that name, if it is stored without compression.
unfoldable pub lookup : ℕ → List ℕ → List Member → Found
lookup a name [] = null
lookup a name (f ∷ fs) =
    let rest = lookup (next a f) name fs in
    if equal f.name name then (if f.method == 0 then found (begin a f) f.size else null) else rest

same_name-equal :
    (m : Memory) (a : ℕ) (xs ys : List ℕ)
    → Named m a xs
    → length xs ≡ length ys
    → same_name m a ys ≡ equal xs ys
unfolding same_name
same_name-equal m a [] [] h e = refl
same_name-equal m a (x ∷ xs) (y ∷ ys) h e =
    rw (h.0, same_name-equal m (a + 1) xs ys h.1 (omega arith)) (both (x == y) (equal xs ys))
  where
    both : (p q : Bool) → (if p then q else false) ≡ (p && q)
    both true q = refl
    both false q = refl
same_name-equal m a [] (y ∷ ys) h e = absurd (omega arith)
same_name-equal m a (x ∷ xs) [] h e = absurd (omega arith)

equal-length : (xs ys : List ℕ) → (length xs == length ys) ≡ false → equal xs ys ≡ false
equal-length [] [] h = absurd (ground arith)
equal-length (x ∷ xs) [] h = refl
equal-length [] (y ∷ ys) h = refl
equal-length (x ∷ xs) (y ∷ ys) h = ground (arith, equal-length xs ys (ground arith))

-- The test of the loop.
test-equal :
    (m : Memory) (a : ℕ) (xs ys : List ℕ)
    → Named m a xs
    → length ys < 2 ^ 16
    → (length xs == u16 (length ys) && same_name m a ys) ≡ equal xs ys
test-equal m a xs ys h short = elim (Bool-cases (length xs == length ys)) [
  | inl same ↦ rw (narrow, same) (same_name-equal m a xs ys h ((==_iff _ _).0 same))
  | inr other ↦ rw (narrow, other) (sym (equal-length xs ys other))
]
  where
    narrow : u16 (length ys) ≡ length ys
    narrow = omega arith

find_loop-lookup :
    (fuel : ℕ) (m : Memory) (size a : ℕ) (name : List ℕ) (fs : List Member)
    → IsZip m size a fs
    → a + 30 < 2 ^ 32
    → length name < 2 ^ 16
    → length fs < fuel
    → find_loop fuel m size a name ≡ lookup a name fs
unfolding find_loop lookup
find_loop-lookup zero m size a name fs z small short lt = absurd (omega arith)
find_loop-lookup (suc fuel) m size a name [] (inl other) small short lt =
    elim (Bool-cases (ltb (add32 a 30) size)) [
      | inl more ↦ rw (more, other) refl
      | inr end ↦ rw end refl
    ]
find_loop-lookup (suc fuel) m size a name [] (inr end) small short lt = rw over refl
  where
    over : ltb (add32 a 30) size ≡ false
    over = ground arith
find_loop-lookup (suc fuel) m size a name (f ∷ fs) z small short lt =
    rw
      (
        inside,
        signed,
        next_at,
        data_at,
        test,
        z.5,
        z.7,
        find_loop-lookup fuel m size (next a f) name fs z.9 (omega arith) short (omega arith),
      )
      refl
  where
    inside : ltb (add32 a 30) size ≡ true
    inside = ground arith

    signed : (signature m a == 0x04034b50) ≡ true
    signed = (==_iff _ _).1 z.2

    data_at : data_off m a ≡ begin a f
    data_at = unfold data_off in omega (arith, z.3, z.4)

    next_at : add32 (data_off m a) (compressed_size m a) ≡ next a f
    next_at = rw (data_at, z.6) (omega arith)

    test : (filename_len m a == u16 (length name) && same_name m (a + 30) name) ≡ equal f.name name
    test = rw z.3 (test-equal m (a + 30) f.name name z.8 short)

-- In a ZIP archive whose members lie below 2 ^ 32 and for a name of less than 2 ^ 16 bytes,
-- `jar_find_entry` ends, with a round for each member and one more, and finds the first member of
-- that name: it returns where its data is and its size, or null if it is compressed or there is
-- none.
pub jar_find_entry-lookup :
    (m : Memory) (size : ℕ) (name : List ℕ) (fs : List Member)
    → IsZip m size 0 fs
    → length name < 2 ^ 16
    → jar_find_entry (suc (length fs)) m size name ≡ lookup 0 name fs
unfolding jar_find_entry
jar_find_entry-lookup m size name fs z short =
    find_loop-lookup (suc (length fs)) m size 0 name fs z (omega arith) short (omega arith)
