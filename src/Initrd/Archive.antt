-- ===== src/Initrd/Archive.antt =====
-- `initrd_read_file` and `initrd_list` of src/fs/initrd.c against the files of the archive.
use openyanase_kernel.Base.{
  ℕ, zero, suc, ◌+◌, ◌^◌, ◌<◌, ◌≤◌, ◌≡◌, ◌≢◌, ◌↔◌, ◌⊎◌, inl, inr, refl, ap, Bool, true, false, not,
  ◌&&◌, ◌||◌, some, List, [], ◌∷◌, map, ltb, ◌==◌, if◌then◌else◌, length, add32, arith, Bool-cases,
  All,
}
use openyanase_kernel.Base.Int.{ℤ, pos, negsuc}
use openyanase_kernel.Str.{CString, vga_strncmp}
use openyanase_kernel.Str.Compare.{Agree, strncmp_agrees}
use openyanase_kernel.Initrd.{
  Memory, tar_name, tar_size, tar_typeflag, tar_magic, ustar, tar_get_size, is_zero,
  tar_match_filename, Found, stuck, null, found, read_loop, list_loop, Listed, kind_of,
  initrd_read_file, initrd_list, Initrd,
}
use openyanase_kernel.Initrd.Step.{stride, next_header-lem}

pub record Entry : Type 0 where
  pub name : CString
  pub typeflag : ℕ
  pub size : ℕ

-- `header->magic` is wrong and the name is empty: where the search ends.
abbrev pub blank_header : Memory → ℕ → Bool
blank_header m a = not (is_zero (vga_strncmp (tar_magic m a) ustar 5)) && tar_name m a 0 == 0

-- From the address `a` up to `e` the memory holds the archive of `fs`: headers with the data
-- behind them, each at the end of the blocks of the file before, then a blank header or the end.
abbrev pub IsArchive : Memory → ℕ → ℕ → List Entry → Type 0
IsArchive m a e [] = (e ≤ a) ⊎ (blank_header m a ≡ true)
IsArchive m a e (f ∷ fs) =
    (a + stride f.size ≤ e)
    × (blank_header m a ≡ false)
    × (tar_name m a ≡ f.name)
    × (tar_typeflag m a ≡ f.typeflag)
    × (tar_get_size (tar_size m a) ≡ f.size)
    × IsArchive m (a + stride f.size) e fs

-- The first file of that name, at its address.
unfoldable pub find : ℕ → CString → List Entry → Found
find a filename [] = null
find a filename (f ∷ fs) =
    let rest = find (a + stride f.size) filename fs in
    if tar_match_filename f.name filename then found (a + 512) f.size else rest

read_loop-find :
    (fuel : ℕ) (m : Memory) (a e : ℕ) (filename : CString) (fs : List Entry)
    → IsArchive m a e fs
    → e < 2 ^ 32
    → length fs < fuel
    → read_loop fuel m a e filename ≡ find a filename fs
unfolding read_loop find
read_loop-find zero m a e filename fs h small lt = absurd (omega arith)
read_loop-find (suc fuel) m a e filename [] (inl end) small lt = ground arith
read_loop-find (suc fuel) m a e filename [] (inr blank) small lt = rw blank (ground arith)
read_loop-find (suc fuel) m a e filename (f ∷ fs) h small lt =
    rw
      (
        inside,
        h.1,
        h.2,
        h.4,
        next_header-lem a f.size (omega arith),
        data_at,
        read_loop-find fuel m (a + stride f.size) e filename fs h.5 small (omega arith),
      )
      refl
  where
    inside : ltb a e ≡ true
    inside = ground arith

    data_at : add32 a 512 ≡ a + 512
    data_at = omega arith

-- In a mounted archive `initrd_read_file` ends, with a round for each file and one more, and
-- returns the address behind the header and the size of the first file of that name, or null
-- where there is none.
pub initrd_read_file-find :
    (m : Memory) (s : Initrd) (filename : CString) (fs : List Entry)
    → IsArchive m s.initrd_addr (s.initrd_addr + s.initrd_size) fs
    → 0 < s.initrd_addr
    → s.initrd_addr + s.initrd_size < 2 ^ 32
    → initrd_read_file (suc (length fs)) m s filename ≡ find s.initrd_addr filename fs
unfolding initrd_read_file
initrd_read_file-find m s filename fs h above small =
    rw (mounted, limit)
      (read_loop-find (suc (length fs)) m s.initrd_addr (s.initrd_addr + s.initrd_size) filename fs
        h small (omega arith))
  where
    mounted : (s.initrd_addr == 0) ≡ false
    mounted = ground arith

    limit : add32 s.initrd_addr s.initrd_size ≡ s.initrd_addr + s.initrd_size
    limit = omega arith

-- With no archive mounted nothing is found.
pub initrd_read_file-unmounted :
    (fuel : ℕ) (m : Memory) (s : Initrd) (filename : CString)
    → s.initrd_addr ≡ 0
    → initrd_read_file fuel m s filename ≡ null
unfolding initrd_read_file
initrd_read_file-unmounted fuel m s filename z = rw z refl

-- The bytes of a file that is found lie inside the archive.
abbrev pub Within : ℕ → ℕ → Found → Type 0
Within a e stuck = ⊥
Within a e null = Unit
Within a e (found p size) = (a ≤ p) × (p + size ≤ e)

Within-widen : (a b e : ℕ) (r : Found) → a ≤ b → Within b e r → Within a e r
Within-widen a b e stuck le w = w
Within-widen a b e null le w = w
Within-widen a b e (found p size) le w = omega arith

find-Within :
    (m : Memory) (a e : ℕ) (filename : CString) (fs : List Entry)
    → IsArchive m a e fs
    → Within a e (find a filename fs)
unfolding find
find-Within m a e filename [] h = tt
find-Within m a e filename (f ∷ fs) h = elim (Bool-cases (tar_match_filename f.name filename)) [
  | inl hit ↦ rw hit (omega arith)
  | inr miss ↦ rw miss (
      Within-widen a (a + stride f.size) e (find (a + stride f.size) filename fs) (omega arith)
        (find-Within m (a + stride f.size) e filename fs h.5))
]

-- `initrd_read_file` hands out no byte beyond the end of a mounted archive, and always ends.
pub initrd_read_file-Within :
    (m : Memory) (s : Initrd) (filename : CString) (fs : List Entry)
    → IsArchive m s.initrd_addr (s.initrd_addr + s.initrd_size) fs
    → 0 < s.initrd_addr
    → s.initrd_addr + s.initrd_size < 2 ^ 32
    → Within s.initrd_addr
        (s.initrd_addr + s.initrd_size)
        (initrd_read_file (suc (length fs)) m s filename)
initrd_read_file-Within m s filename fs h above small =
    rw (initrd_read_file-find m s filename fs h above small)
      (find-Within m s.initrd_addr (s.initrd_addr + s.initrd_size) filename fs h)

is_zero_iff : (z : ℤ) → (is_zero z ≡ true) ↔ (z ≡ pos 0)
unfolding is_zero
is_zero_iff (pos zero) = ((λ h. refl), (λ h. refl))
is_zero_iff (pos (suc n)) = ((λ h. cc), (λ h. absurd (ground arith)))
is_zero_iff (negsuc n) = ((λ h. cc), (λ h. cc))

pub same_iff : (s1 s2 : CString) (n : ℕ) → (is_zero (vga_strncmp s1 s2 n) ≡ true) ↔ Agree n s1 s2
same_iff s1 s2 n = (
  (λ h. (strncmp_agrees s1 s2 n).0 ((is_zero_iff (vga_strncmp s1 s2 n)).0 h)),
  (λ h. (is_zero_iff (vga_strncmp s1 s2 n)).1 ((strncmp_agrees s1 s2 n).1 h)),
)

-- The name test: equal in the first 100 characters, or equal to what follows a leading "./".
pub tar_match_filename_iff :
    (name search : CString)
    → (tar_match_filename name search ≡ true) ↔ (
        ((name 0 ≡ b'.') × (name 1 ≡ b'/') × Agree 100 (λ i. name (2 + i)) search)
        ⊎ Agree 100 name search)
unfolding tar_match_filename
tar_match_filename_iff name search = (matches, is_match)
  where
    stripped : CString
    stripped = λ i. name (2 + i)

    matches :
        tar_match_filename name search ≡ true
        → ((name 0 ≡ b'.') × (name 1 ≡ b'/') × Agree 100 (λ i. name (2 + i)) search)
          ⊎ Agree 100 name search
    matches h = elim (Bool-cases (is_zero (vga_strncmp name search 100))) [
      | inl whole ↦ inr ((same_iff name search 100).0 whole)
      | inr other ↦
          inl
            (ground arith, ground arith, (same_iff (λ i. name (2 + i)) search 100).0 (ground arith))
    ]

    is_match :
        ((name 0 ≡ b'.') × (name 1 ≡ b'/') × Agree 100 (λ i. name (2 + i)) search)
          ⊎ Agree 100 name search
        → tar_match_filename name search ≡ true
    is_match (inl (dot, slash, rest)) =
        rw (dot, slash, (same_iff (λ i. name (2 + i)) search 100).1 rest) refl
    is_match (inr whole) = rw ((same_iff name search 100).1 whole) (ground arith)

-- What `initrd_list` shows of a file.
abbrev pub listing : Entry → Listed
listing f = record { name = f.name; kind = kind_of f.typeflag }

list_loop-listing :
    (fuel : ℕ) (m : Memory) (a e : ℕ) (fs : List Entry)
    → IsArchive m a e fs
    → All (λ f. f.name 0 ≢ 0) fs
    → e < 2 ^ 32
    → length fs < fuel
    → list_loop fuel m a e ≡ some (map listing fs)
unfolding list_loop
list_loop-listing zero m a e fs h named small lt = absurd (omega arith)
list_loop-listing (suc fuel) m a e [] (inl end) named small lt = ground arith
list_loop-listing (suc fuel) m a e [] (inr blank) named small lt = ground arith
list_loop-listing (suc fuel) m a e (f ∷ fs) h named small lt =
    rw
      (
        inside,
        name_given,
        h.4,
        next_header-lem a f.size (omega arith),
        list_loop-listing fuel m (a + stride f.size) e fs h.5 named.1 small (omega arith),
        h.2,
        h.3,
      )
      refl
  where
    inside : ltb a e ≡ true
    inside = ground arith

    name_given : (tar_name m a 0 == 0) ≡ false
    name_given = ground (arith, named.0, ap (λ s. s 0) h.2)

-- `initrd_list` ends on a mounted archive and shows every file once, in the order of the archive,
-- if no file has an empty name.
pub initrd_list-listing :
    (m : Memory) (s : Initrd) (fs : List Entry)
    → IsArchive m s.initrd_addr (s.initrd_addr + s.initrd_size) fs
    → All (λ f. f.name 0 ≢ 0) fs
    → 0 < s.initrd_addr
    → 0 < s.initrd_size
    → s.initrd_addr + s.initrd_size < 2 ^ 32
    → initrd_list (suc (length fs)) m s ≡ some (some (map listing fs))
unfolding initrd_list
initrd_list-listing m s fs h named above filled small =
    rw
      (
        mounted,
        limit,
        list_loop-listing (suc (length fs)) m s.initrd_addr (s.initrd_addr + s.initrd_size) fs h
            named small (omega arith),
      )
      refl
  where
    mounted : (s.initrd_addr == 0 || s.initrd_size == 0) ≡ false
    mounted = ground arith

    limit : add32 s.initrd_addr s.initrd_size ≡ s.initrd_addr + s.initrd_size
    limit = omega arith
