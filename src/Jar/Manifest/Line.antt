-- ===== src/Jar/Manifest/Line.antt =====
-- The main class of a manifest for src/runtime/jar.c.
use openyanase_kernel.Base.{
  ℕ, zero, suc, ◌+◌, ◌≤◌, ◌≡◌, ◌≢◌, refl, ◌∙◌, sym, ap, Bool, true, false, not, ◌&&◌, ◌||◌, ◌⊎◌,
  none, List, [], ◌∷◌, ◌++◌, ltb, ◌==◌, length, All, arith, length-append,
}
use openyanase_kernel.Str.{vga_strncmp}
use openyanase_kernel.Initrd.{is_zero}
use openyanase_kernel.Config.{text, is_last, starts_with}
use openyanase_kernel.Jar.Manifest.{
  main_class, main_class_key, skip_blanks, copy_value, manifest_line, taken, end_line, store_char,
  breaks, manifest_loop, parse_manifest_for_main,
}

abbrev pub IsPlain : ℕ → Type 0
IsPlain c = (c ≢ b'\n') × (c ≢ b'\r')

abbrev pub IsBlank : ℕ → Type 0
IsBlank c = (c ≡ b' ') ⊎ (c ≡ b'\t')

-- A line and the character that ends it.
pub record Line : Type 0 where
  pub chars : List ℕ
  pub ending : ℕ

abbrev pub print : List Line → List ℕ → List ℕ
print [] rest = rest
print (l ∷ ls) rest = l.chars ++ l.ending ∷ print ls rest

-- A line that fits the buffer and does not begin with `Main-Class:`.
abbrev pub IsOther : Line → Type 0
IsOther l =
    (breaks l.ending ≡ true)
    × All IsPlain l.chars
    × (length l.chars ≤ 255)
    × (starts_with (text l.chars) main_class_key 11 ≡ false)

-- A value does not begin with a blank, and has no terminator inside.
abbrev pub NoBlank : List ℕ → Type 0
NoBlank [] = Unit
NoBlank (c ∷ cs) = (c == b' ' || c == b'\t') ≡ false

append-append : (xs : List ℕ) (c : ℕ) (ys : List ℕ) → (xs ++ c ∷ []) ++ ys ≡ xs ++ c ∷ ys
append-append [] c ys = refl
append-append (x ∷ xs) c ys = ap (λ zs. x ∷ zs) (append-append xs c ys)

append-nil : (xs : List ℕ) → xs ++ [] ≡ xs
append-nil [] = refl
append-nil (x ∷ xs) = ap (λ zs. x ∷ zs) (append-nil xs)

more_follows : (l : List ℕ) (c : ℕ) (rest : List ℕ) → is_last (l ++ c ∷ rest) ≡ false
more_follows [] c rest = refl
more_follows (x ∷ l) c rest = refl

-- The characters of a line are gathered.
loop-chars :
    (l line : List ℕ) (c : ℕ) (rest : List ℕ)
    → All IsPlain l
    → length line + length l ≤ 255
    → manifest_loop (l ++ c ∷ rest) line ≡ manifest_loop (c ∷ rest) (line ++ l)
unfolding manifest_loop store_char
loop-chars [] line c rest plain fits = ap (manifest_loop (c ∷ rest)) (sym (append-nil line))
loop-chars (x ∷ l) line c rest plain fits =
    rw (more_follows l c rest, inner, room)
      (loop-chars l (line ++ x ∷ []) c rest plain.1 (omega (arith, length-append line (x ∷ [])))
        ∙ ap (manifest_loop (c ∷ rest)) (append-append line x l))
  where
    inner : breaks x ≡ false
    inner = ground (arith, plain.0.0, plain.0.1)

    room : ltb (length line) 255 ≡ true
    room = ground arith

-- A line that ends in a break.
loop-line :
    (l : List ℕ) (c : ℕ) (rest : List ℕ)
    → breaks c ≡ true
    → All IsPlain l
    → length l ≤ 255
    → manifest_loop (l ++ c ∷ rest) [] ≡ taken (manifest_line l) (manifest_loop rest [])
unfolding manifest_loop end_line
loop-line l c rest ends plain fits =
    loop-chars l [] c rest plain (omega arith) ∙ rw (ended, broken, inside) refl
  where
    ended : (breaks c || is_last rest) ≡ true
    ended = ground arith

    broken : (is_last rest && not (breaks c)) ≡ false
    broken = ground arith

    inside : ltb 255 (length l) ≡ false
    inside = ground arith

-- The lines before are passed over.
loop-print :
    (ls : List Line) (rest : List ℕ)
    → All IsOther ls
    → manifest_loop (print ls rest) [] ≡ manifest_loop rest []
unfolding taken
loop-print [] rest h = refl
loop-print (l ∷ ls) rest (o, h) =
    loop-line l.chars l.ending (print ls rest) o.0 o.1 o.2
    ∙ ap (λ v. taken v (manifest_loop (print ls rest) [])) (passed o.3)
    ∙ loop-print ls rest h
  where
    passed : starts_with (text l.chars) main_class_key 11 ≡ false → manifest_line l.chars ≡ none
    passed h = unfold manifest_line in (rw h refl)

skip-blanks :
    (blanks value : List ℕ)
    → All IsBlank blanks
    → NoBlank value
    → skip_blanks (blanks ++ value) ≡ value
unfolding skip_blanks
skip-blanks [] [] h v = refl
skip-blanks [] (c ∷ value) h v = rw v refl
skip-blanks (b ∷ blanks) value (h, hs) v = rw blank (skip-blanks blanks value hs v)
  where
    blank : (b == b' ' || b == b'\t') ≡ true
    blank = ground (arith, h)

copy_value-whole :
    (n : ℕ) (value : List ℕ)
    → All IsPlain value
    → All (λ c. c ≢ 0) value
    → length value ≤ n
    → copy_value n value ≡ value
unfolding copy_value
copy_value-whole zero [] plain some_there fits = refl
copy_value-whole zero (c ∷ value) plain some_there fits = absurd (omega arith)
copy_value-whole (suc n) [] plain some_there fits = refl
copy_value-whole (suc n) (c ∷ value) (p, plain) (z, some_there) fits =
    rw goes_on (ap (λ v. c ∷ v) (copy_value-whole n value plain some_there (omega arith)))
  where
    goes_on : (c == 0 || c == b'\r') ≡ false
    goes_on = ground (arith, p.0, p.1, z)

key_found : (v : List ℕ) → starts_with (text (main_class_key ++ v)) main_class_key 11 ≡ true
unfolding vga_strncmp is_zero
key_found v = refl

All-append : (P : ℕ → Type 0) (xs ys : List ℕ) → All P xs → All P ys → All P (xs ++ ys)
All-append P [] ys hx hy = hy
All-append P (x ∷ xs) ys (h, hx) hy = (h, All-append P xs ys hx hy)

blank-IsPlain : (b : List ℕ) → All IsBlank b → All IsPlain b
blank-IsPlain [] h = tt
blank-IsPlain (c ∷ b) (h, hs) = ((ground (arith, h), ground (arith, h)), blank-IsPlain b hs)

unbroken : List ℕ → Bool
unbroken [] = true
unbroken (c ∷ cs) = not (breaks c) && unbroken cs

unbroken-IsPlain : (xs : List ℕ) → unbroken xs ≡ true → All IsPlain xs
unfolding unbroken
unbroken-IsPlain [] h = tt
unbroken-IsPlain (c ∷ cs) h =
    ((ground (arith, h), ground (arith, h)), unbroken-IsPlain cs (ground (arith, h)))

key-IsPlain : (v : List ℕ) → All IsPlain v → All IsPlain (main_class_key ++ v)
unfolding unbroken
key-IsPlain v h = All-append IsPlain main_class_key v (unbroken-IsPlain main_class_key refl) h

-- A manifest of any lines that fit the buffer and do not begin with `Main-Class:`, each ended by a
-- line feed or a carriage return, a line that has the key, blanks and a value, and anything
-- behind it: parse_manifest_for_main gives the value, if it has at most 127 characters, the line
-- at most 255, and the value does not begin with a blank or contain a terminator.
pub parse_manifest_for_main-print :
    (before : List Line) (blanks value after : List ℕ) (ending : ℕ)
    → All IsOther before
    → breaks ending ≡ true
    → All IsBlank blanks
    → All IsPlain value
    → All (λ c. c ≢ 0) value
    → NoBlank value
    → length value ≤ 127
    → length blanks + length value ≤ 244
    → parse_manifest_for_main (print before ((main_class_key ++ blanks ++ value) ++ ending ∷ after))
      ≡ main_class value
unfolding parse_manifest_for_main manifest_line taken
parse_manifest_for_main-print before blanks value after ending ho he hb hp hz hv short fits =
    loop-print before _ ho
    ∙ loop-line (main_class_key ++ blanks ++ value) ending after he
        (key-IsPlain (blanks ++ value)
          (All-append IsPlain blanks value (blank-IsPlain blanks hb) hp))
        (omega (arith, length-append blanks value))
    ∙ rw
        (
          key_found (blanks ++ value),
          skip-blanks blanks value hb hv,
          copy_value-whole 127 value hp hz short,
        )
        refl
