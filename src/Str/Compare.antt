-- ===== src/Str/Compare.antt =====
-- `vga_strncmp` of src/main.c against what it means for two strings to agree.
use openyanase_kernel.Base.{
  ℕ, zero, suc, ◌+◌, ◌<◌, ◌≡◌, ◌≢◌, ◌↔◌, refl, false, ◌==◌, ◌⊎◌, inl, inr, arith, Bool-cases,
}
use native.Mathlib.Nat.{add-zero, zero-add}
use native.Mathlib.Decide.{ℕ_discrete}
use openyanase_kernel.Base.Int.{pos, ◌-ℤ◌}
use openyanase_kernel.Str.{CString, strncmp_loop, vga_strncmp}

-- The strings agree at the `n` places from `i` on, up to the first end of the string.
abbrev pub AgreeFrom : ℕ → ℕ → CString → CString → Type 0
AgreeFrom zero i s1 s2 = Unit
AgreeFrom (suc n) i s1 s2 = (s1 i ≡ s2 i) × ((s1 i ≡ 0) ⊎ AgreeFrom n (i + 1) s1 s2)

-- The comparison by characters: the first `n` of both strings agree, no character after the
-- end of the string counted.
abbrev pub Agree : ℕ → CString → CString → Type 0
Agree n s1 s2 = (i : ℕ) → i < n → ((j : ℕ) → j < i → s1 j ≢ 0) → s1 i ≡ s2 i

next : (i j : ℕ) → i + 1 + j ≡ i + suc j
next i j = omega arith

differ : (a b : ℕ) → a ≢ b → pos a -ℤ pos b ≢ pos 0
differ a b h = ground arith

not_end : {P : Type 0} (x : ℕ) → (x == 0) ≡ false → (x ≡ 0) ⊎ P → P
not_end x more (inl z) = absurd (ground arith)
not_end x more (inr p) = p

loop-AgreeFrom :
    (n i : ℕ) (s1 s2 : CString) → (strncmp_loop n i s1 s2 ≡ pos 0) ↔ AgreeFrom n i s1 s2
unfolding strncmp_loop
loop-AgreeFrom zero i s1 s2 = ((λ h. tt), (λ h. refl))
loop-AgreeFrom (suc n) i s1 s2 = elim (Bool-cases (s1 i == s2 i)) [
  | inr no_match ↦
      rw no_match
        ((λ h. absurd (differ (s1 i) (s2 i) (ground arith) h)), (λ h. absurd (ground arith)))
  | inl same ↦ elim (Bool-cases (s1 i == 0)) [
    | inl end ↦ rw (same, end) ((λ h. (ground arith, inl (ground arith))), (λ h. refl))
    | inr more ↦
        rw (same, more)
          (
            (λ h. (ground arith, inr ((loop-AgreeFrom n (i + 1) s1 s2).0 h))),
            (λ h. (loop-AgreeFrom n (i + 1) s1 s2).1 (not_end (s1 i) more h.1)),
          )
  ]
]

abbrev AgreeAt : ℕ → ℕ → CString → CString → Type 0
AgreeAt n i s1 s2 = (k : ℕ) → k < n → ((j : ℕ) → j < k → s1 (i + j) ≢ 0) → s1 (i + k) ≡ s2 (i + k)

AgreeFrom→AgreeAt : (n i : ℕ) (s1 s2 : CString) → AgreeFrom n i s1 s2 → AgreeAt n i s1 s2
AgreeFrom→AgreeAt zero i s1 s2 h k lt run = absurd (omega arith)
AgreeFrom→AgreeAt (suc n) i s1 s2 h zero lt run = rw add-zero h.0
AgreeFrom→AgreeAt (suc n) i s1 s2 (e, inl end) (suc k) lt run =
    absurd (run 0 (omega arith) (rw add-zero end))
AgreeFrom→AgreeAt (suc n) i s1 s2 (e, inr rest) (suc k) lt run = rw (← next i k) (
    AgreeFrom→AgreeAt n (i + 1) s1 s2 rest k (omega arith)
      (λ j h z. run (suc j) (omega arith) (rw (← next i j) z)))

AgreeAt→AgreeFrom : (n i : ℕ) (s1 s2 : CString) → AgreeAt n i s1 s2 → AgreeFrom n i s1 s2
AgreeAt→AgreeFrom zero i s1 s2 h = tt
AgreeAt→AgreeFrom (suc n) i s1 s2 h = (
  here,
  elim (ℕ_discrete (s1 i) 0) [
    | yes z ↦ inl z
    | no more ↦ inr (
        AgreeAt→AgreeFrom n (i + 1) s1 s2
          (λ k lt run. rw (next i k) (h (suc k) (omega arith) (λ j. later more k run j))))
  ],
)
  where
    here : s1 i ≡ s2 i
    here = rw add-zero at (h 0 (omega arith) (λ j lt. absurd (omega arith)))

    later :
        s1 i ≢ 0
        → (k : ℕ) → ((j : ℕ) → j < k → s1 (i + 1 + j) ≢ 0)
        → (j : ℕ) → j < suc k
        → s1 (i + j) ≢ 0
    later more k run zero lt z = more (rw add-zero at z)
    later more k run (suc j) lt z = run j (omega arith) (rw (next i j) z)

-- `vga_strncmp` returns 0 exactly when the first `n` characters agree, up to the end of the
-- strings: no character behind the terminator is looked at.
pub strncmp_agrees : (s1 s2 : CString) (n : ℕ) → (vga_strncmp s1 s2 n ≡ pos 0) ↔ Agree n s1 s2
unfolding vga_strncmp
strncmp_agrees s1 s2 n = (
  (λ h k lt run.
      let q : s1 (0 + k) ≡ s2 (0 + k) =
        AgreeFrom→AgreeAt n 0 s1 s2 ((loop-AgreeFrom n 0 s1 s2).0 h) k lt
          (λ j l z. run j l (rw zero-add at z)) in
      rw zero-add at q),
  (λ h. (loop-AgreeFrom n 0 s1 s2).1 (
      AgreeAt→AgreeFrom n 0 s1 s2
        (λ k lt run. rw zero-add (h k lt (λ j l z. run j l (rw zero-add z)))))),
)
