-- ===== src/Jar/Scan/Members.antt =====
-- `jar_scan_entries` of src/runtime/jar.c against the members of the archive.
use openyanase_kernel.Base.{
  ℕ, zero, suc, ◌+◌, ◌^◌, ◌<◌, ◌≤◌, ◌≡◌, refl, ap, ◌∙◌, Bool, true, false, ◌⊎◌, inl, inr, some,
  List, [], ◌∷◌, ltb, ◌==◌, ==_iff, if◌then◌else◌, length, length-append, map, take, add32, arith,
  Bool-cases,
}
use openyanase_kernel.Initrd.{Memory}
use openyanase_kernel.Config.{text, starts_with}
use openyanase_kernel.Jar.{signature, compressed_size, data_off}
use openyanase_kernel.Jar.Manifest.{Manifest, main_class, parse_manifest_for_main}
use openyanase_kernel.Jar.Archive.{Member, IsZip, Named, begin, next, lookup, jar_find_entry-lookup}
use openyanase_kernel.Jar.Scan.{
  manifest_name, bytes, tmp_name, is_manifest, manifest_at, scan_loop, slash, class_path,
  class_suffix, overflow, class_found, load_main, scan_end, jar_scan_entries,
}

-- The manifest of an archive is the first member whose name begins with `META-INF/MANIFEST.MF`.
abbrev pub named_manifest : List ℕ → Bool
named_manifest name = starts_with (text (take 127 name)) manifest_name 20

unfoldable pub manifest_of : Memory → ℕ → List Member → Manifest
manifest_of m a [] = main_class []
manifest_of m a (f ∷ fs) =
    let rest = manifest_of m (next a f) fs in
    if named_manifest f.name then parse_manifest_for_main (bytes f.size m (begin a f)) else rest

bytes-Named :
    (k : ℕ) (m : Memory) (a : ℕ) (xs : List ℕ)
    → Named m a xs
    → bytes (if ltb k (length xs) then k else length xs) m a ≡ take k xs
bytes-Named zero m a [] h = refl
bytes-Named zero m a (x ∷ xs) h = ap (λ n. bytes n m a) {y = 0} nothing
  where
    nothing : (if ltb 0 (suc (length xs)) then 0 else suc (length xs)) ≡ 0
    nothing = ground arith
bytes-Named (suc k) m a [] h = ap (λ n. bytes n m a) {y = 0} nothing
  where
    nothing : (if ltb (suc k) 0 then suc k else 0) ≡ 0
    nothing = ground arith
bytes-Named (suc k) m a (x ∷ xs) h =
    ap (λ n. bytes n m a) shorter ∙ rw h.0 (ap (λ l. x ∷ l) (bytes-Named k m (a + 1) xs h.1))
  where
    shorter :
        (if ltb (suc k) (suc (length xs)) then suc k else suc (length xs))
        ≡ suc (if ltb k (length xs) then k else length xs)
    shorter = ground arith

some_if : (t : Bool) (x y : Manifest) → (if t then some x else some y) ≡ some (if t then x else y)
some_if true x y = refl
some_if false x y = refl

scan_loop-manifest_of :
    (fuel : ℕ) (m : Memory) (size a : ℕ) (fs : List Member)
    → IsZip m size a fs
    → length fs < fuel
    → a + 30 < 2 ^ 32
    → scan_loop fuel m size a ≡ some (manifest_of m a fs)
unfolding scan_loop manifest_of
scan_loop-manifest_of zero m size a fs z enough small = absurd (omega arith)
scan_loop-manifest_of (suc fuel) m size a [] z enough small = ended z
  where
    ended :
        ((signature m a == 0x04034b50) ≡ false) ⊎ (size ≤ a + 30)
        → scan_loop (suc fuel) m size a ≡ some (main_class [])
    ended (inl other) = elim (Bool-cases (ltb (add32 a 30) size)) [
      | inl more ↦ rw (more, other) refl
      | inr end ↦ rw end refl
    ]
    ended (inr end) = let over : ltb (add32 a 30) size ≡ false = ground arith in rw over refl
scan_loop-manifest_of (suc fuel) m size a (f ∷ fs) z enough small =
    rw
      (
        inside,
        signed,
        next_at,
        test,
        found_at,
        scan_loop-manifest_of fuel m size (next a f) fs z.9 (omega arith) (omega arith),
      )
      (some_if (named_manifest f.name) _ _)
  where
    inside : ltb (add32 a 30) size ≡ true
    inside = ground arith

    signed : (signature m a == 0x04034b50) ≡ true
    signed = (==_iff _ _).1 z.2

    data_at : data_off m a ≡ begin a f
    data_at = unfold data_off in omega (arith, z.3, z.4)

    next_at : add32 (data_off m a) (compressed_size m a) ≡ next a f
    next_at = rw (data_at, z.6) (omega arith)

    test : is_manifest m a ≡ named_manifest f.name
    test =
        unfold is_manifest tmp_name in
        (rw z.3
          (ap (λ l. starts_with (text l) manifest_name 20) (bytes-Named 127 m (a + 30) f.name z.8)))

    found_at : manifest_at m a ≡ parse_manifest_for_main (bytes f.size m (begin a f))
    found_at = unfold manifest_at in (rw (data_at, z.7) refl)

length-map : (f : ℕ → ℕ) (xs : List ℕ) → length (map f xs) ≡ length xs
length-map f [] = refl
length-map f (x ∷ xs) = ap suc (length-map f xs)

class_path_length : (name : List ℕ) → length (class_path name) ≡ length name + 6
class_path_length name =
    length-append (map slash name) class_suffix ∙ ap (λ n. n + 6) (length-map slash name)

-- In a ZIP archive whose members lie below 2 ^ 32 and whose manifest names a main class of 1 to
-- 121 characters: jar_scan_entries ends, with a round for each member and one more, and loads the
-- first member whose name is the class's with slashes for the dots and `.class` behind it; it
-- loads nothing where that member is compressed or missing.
pub jar_scan_entries-lookup :
    (m : Memory) (size : ℕ) (fs : List Member) (name : List ℕ)
    → IsZip m size 0 fs
    → manifest_of m 0 fs ≡ main_class name
    → 0 < length name
    → length name ≤ 121
    → jar_scan_entries (suc (length fs)) m size
      ≡ class_found (class_path name) (lookup 0 (class_path name) fs)
unfolding jar_scan_entries scan_end
jar_scan_entries-lookup m size fs name z main some_there short =
    rw (scan_loop-manifest_of (suc (length fs)) m size 0 fs z (omega arith) (omega arith), main)
      (load_main-lookup name some_there short)
  where
    load_main-lookup :
        (name : List ℕ)
        → 0 < length name
        → length name ≤ 121
        → load_main (suc (length fs)) m size name
          ≡ class_found (class_path name) (lookup 0 (class_path name) fs)
    load_main-lookup [] h k = absurd (omega arith)
    load_main-lookup (c ∷ name) h k =
        let fits : ltb 127 (length (class_path (c ∷ name))) ≡ false =
          ground (arith, class_path_length (c ∷ name)) in
        unfold load_main in
        (rw fits (
          ap (class_found (class_path (c ∷ name))) (
            jar_find_entry-lookup m size (class_path (c ∷ name)) fs z
              (omega (arith, class_path_length (c ∷ name))))))

-- A longer name does not fit `class_path`.
pub load_main_overflow :
    (fuel : ℕ) (m : Memory) (size : ℕ) (name : List ℕ)
    → 121 < length name
    → load_main fuel m size name ≡ overflow
unfolding load_main
load_main_overflow fuel m size [] h = absurd (omega arith)
load_main_overflow fuel m size (c ∷ name) h =
    let over : ltb 127 (length (class_path (c ∷ name))) ≡ true =
      ground (arith, class_path_length (c ∷ name)) in
    rw over refl
