-- ===== src/Iso/Names.antt =====
-- `filename_match` of src/fs/iso9660.c.
use openyanase_kernel.Base.{
  ℕ, zero, suc, ◌+◌, ◌≤◌, ◌<◌, ◌≡◌, ◌↔◌, true, ◌==◌, ◌==◌, if◌then◌else◌, arith, Bool-cases, ==_iff,
  inl, inr, refl,
}
use openyanase_kernel.Str.{CString}
use openyanase_kernel.Iso.{match_loop, filename_match}
use native.Mathlib.Decide.{ℕ_discrete}

-- The length of a name without its version.
unfoldable pub stem : ℕ → ℕ → CString → ℕ
stem zero i name = i
stem (suc n) i name = let rest = stem n (i + 1) name in if name i == b';' then i else rest

le-stem : (n i : ℕ) (name : CString) → i ≤ stem n i name
unfolding stem
le-stem zero i name = omega arith
le-stem (suc n) i name = ground (arith, le-stem n (i + 1) name)

pub match_loop-stem :
    (n i : ℕ) (target name : CString)
    → (match_loop n i target name ≡ true)
      ↔ ((j : ℕ) → i ≤ j → j < stem n i name → target j ≡ name j)
unfolding match_loop stem
match_loop-stem zero i target name = (λ _ j lo hi. absurd (omega arith), λ _. refl)
match_loop-stem (suc n) i target name = elim (Bool-cases (name i == b';')) [
  | inl e ↦ rw (e) (λ _ j lo hi. absurd (omega arith), λ _. refl)
  | inr e ↦ elim (Bool-cases (target i == name i)) [
    | inl same ↦
        rw (e, same)
          (
            λ h j lo hi. elim (ℕ_discrete j i) [
              | yes here ↦ rw here ((==_iff _ _).0 same)
              | no later ↦ (match_loop-stem n (i + 1) target name).0 h j (omega arith) hi
            ],
            λ h. (match_loop-stem n (i + 1) target name).1 (λ j lo hi. h j (omega arith) hi),
          )
    | inr ne ↦
        rw (e, ne)
          (
            λ h. absurd (cc),
            λ h. ground (arith, h i (omega arith) (omega (arith, le-stem n (i + 1) name))),
          )
  ]
]

-- A file is taken for the one that is looked for exactly when its name, up to the first `;` or its
-- end, is how the name looked for begins: what follows there is not read.
pub filename_match-prefix :
    (len : ℕ) (target iso_name : CString)
    → (filename_match target iso_name len ≡ true)
      ↔ ((j : ℕ) → j < stem len 0 iso_name → target j ≡ iso_name j)
unfolding filename_match
filename_match-prefix len target iso_name =
    let whole = match_loop-stem len 0 target iso_name in
    (λ h j hi. whole.0 h j (omega arith) hi, λ h. whole.1 (λ j lo hi. h j hi))
