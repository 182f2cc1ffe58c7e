-- ===== src/Iso/Records.antt =====
-- The records of a directory's sector, and the search of src/fs/iso9660.c among them.
use openyanase_kernel.Base.{
  ℕ, zero, suc, ◌+◌, ◌-◌, ◌≤◌, ◌<◌, ◌≡◌, ◌≢◌, List, [], ◌∷◌, if◌then◌else◌, arith,
}
use openyanase_kernel.Initrd.{Memory}
use openyanase_kernel.Str.{CString}
use openyanase_kernel.Iso.{
  Search, absent, present, file_id, file_id_length, filename_match, find_loop, sector_fuel,
}
use native.Mathlib.Decide.{dec_lt, ℕ_discrete}

-- The offsets of the records from `o` on, in the sector at `buf`: each begins where the one before
-- it ends, up to the end of the sector or to a record of length 0.
pub data Records (m : Memory) (buf : ℕ) : ℕ → List ℕ → Type 0 where
  sector_end : (o : ℕ) → 2048 ≤ o → Records m buf o []
  no_more : (o : ℕ) → o < 2048 → m (buf + o) ≡ 0 → Records m buf o []
  record_at :
      (o : ℕ) (os : List ℕ)
      → o < 2048
      → m (buf + o) ≢ 0
      → Records m buf (o + m (buf + o)) os
      → Records m buf o (o ∷ os)

-- The first record whose name matches.
unfoldable pub first_match : Memory → ℕ → CString → List ℕ → Search
first_match m buf name [] = absent
first_match m buf name (o ∷ os) =
    if filename_match name (file_id m (buf + o)) (file_id_length m (buf + o))
    then present o
    else first_match m buf name os

find_loop-first_match :
    (fuel : ℕ) (m : Memory) (buf o : ℕ) (name : CString) (os : List ℕ)
    → 2048 - o < fuel
    → Records m buf o os
    → find_loop fuel m buf name o ≡ first_match m buf name os
unfolding find_loop first_match
find_loop-first_match zero m buf o name [] lt (sector_end _ hi) = absurd (omega arith)
find_loop-first_match zero m buf o name [] lt (no_more _ lo z) = absurd (omega arith)
find_loop-first_match zero m buf o name (_ ∷ os) lt (record_at _ _ lo nz r) = absurd (omega arith)
find_loop-first_match (suc fuel) m buf o name [] lt (sector_end _ hi) = ground arith
find_loop-first_match (suc fuel) m buf o name [] lt (no_more _ lo z) = ground arith
find_loop-first_match (suc fuel) m buf o name (_ ∷ os) lt (record_at _ _ lo nz r) =
    ground (arith, find_loop-first_match fuel m buf (o + m (buf + o)) name os (omega arith) r)

-- Every sector has its records.
Records-total :
    (fuel : ℕ) (m : Memory) (buf o : ℕ) → 2048 - o < fuel → (os : List ℕ) × Records m buf o os
Records-total zero m buf o lt = absurd (omega arith)
Records-total (suc fuel) m buf o lt = elim (dec_lt o 2048) [
  | no past ↦ ([], sector_end o (omega arith))
  | yes inside ↦ elim (ℕ_discrete (m (buf + o)) 0) [
    | yes z ↦ ([], no_more o inside z)
    | no nz ↦
        let rest = Records-total fuel m buf (o + m (buf + o)) (omega arith) in
        (o ∷ rest.0, record_at o rest.0 inside nz rest.1)
  ]
]

pub sector-Records : (m : Memory) (buf : ℕ) → (os : List ℕ) × Records m buf 0 os
sector-Records m buf = Records-total 2049 m buf 0 (omega arith)

-- The search of a sector ends, with the first of its records that has a name that matches.
pub find_loop-sector :
    (m : Memory) (buf : ℕ) (name : CString) (os : List ℕ)
    → Records m buf 0 os
    → find_loop sector_fuel m buf name 0 ≡ first_match m buf name os
find_loop-sector m buf name os r = find_loop-first_match 2049 m buf 0 name os (omega arith) r
