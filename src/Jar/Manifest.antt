-- ===== src/Jar/Manifest.antt =====
-- `parse_manifest_for_main` of src/runtime/jar.c. The manifest is the list of its bytes, so that
-- `i == size-1` says that the rest is empty; the line is the list of its characters.
pub mod Line
mod Tests
use openyanase_kernel.Base.{
  ℕ, zero, suc, ◌+◌, Bool, true, false, not, ◌&&◌, ◌||◌, Option, none, some, List, [], ◌∷◌, ◌++◌,
  ltb, leb, ◌==◌, if◌then◌else◌, length, drop,
}
use openyanase_kernel.Base.Text.{codes}
use openyanase_kernel.Config.{text, is_last, starts_with}

-- `overrun` is a write behind `line[256]`.
pub data Manifest : Type 0 where
  overrun : Manifest
  main_class : List ℕ → Manifest

abbrev pub main_class_key : List ℕ
main_class_key = b'M' ∷ b'a' ∷ b'i' ∷ b'n' ∷ b'-' ∷ b'C' ∷ b'l' ∷ b'a' ∷ b's' ∷ b's' ∷ b':' ∷ []

unfoldable pub skip_blanks : List ℕ → List ℕ
skip_blanks [] = []
skip_blanks (c ∷ val) =
    let rest = skip_blanks val in if c == b' ' || c == b'\t' then rest else c ∷ val

-- The loop that fills `out_main`, with the room that is left.
unfoldable pub copy_value : ℕ → List ℕ → List ℕ
copy_value zero val = []
copy_value (suc n) [] = []
copy_value (suc n) (c ∷ val) =
    let rest = copy_value n val in if c == 0 || c == b'\r' then [] else c ∷ rest

-- What the line gives, if it is the one.
unfoldable pub manifest_line : List ℕ → Option (List ℕ)
unfolding copy_value
manifest_line line =
    if starts_with (text line) main_class_key 11
    then some (copy_value 127 (skip_blanks (drop 11 line)))
    else none

unfoldable pub taken : Option (List ℕ) → Manifest → Manifest
taken none rest = rest
taken (some value) rest = main_class value

-- The end of a line, and what the rest of the manifest gives.
unfoldable pub end_line : List ℕ → Manifest → Manifest
end_line line rest = if ltb 255 (length line) then overrun else taken (manifest_line line) rest

unfoldable pub store_char : ℕ → List ℕ → List ℕ
store_char c line = if ltb (length line) 255 then line ++ c ∷ [] else line

abbrev pub breaks : ℕ → Bool
breaks c = c == b'\n' || c == b'\r'

unfoldable pub manifest_loop : List ℕ → List ℕ → Manifest
manifest_loop [] line = main_class []
manifest_loop (c ∷ rest) line =
    let ended = manifest_loop rest [] in
    let stored = manifest_loop rest (store_char c line) in
    if breaks c || is_last rest
    then if is_last rest && not (breaks c)
      then end_line (line ++ c ∷ []) ended
      else end_line line ended
    else stored

unfoldable pub parse_manifest_for_main : List ℕ → Manifest
parse_manifest_for_main bytes = manifest_loop bytes []
